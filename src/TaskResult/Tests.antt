-- ===== src/TaskResult/Tests.antt =====
-- The result page of a CPU task, with a flame graph and two collapsed files.
use mini_drop_test.Base.{inl, arith, ℕ, ◌≡◌, refl, String, true, false, none, some, List, [], ◌∷◌}
use mini_drop_test.Domain.{CosFile, TaskDetailData}
use mini_drop_test.Api.{ApiResponse, Reply, response, rejected, thrown}
use mini_drop_test.Polling.Tests.{task_in}
use mini_drop_test.TaskResult.Refresh.{ticks, reloads-ticks_exact}
use mini_drop_test.TaskResult.Panels.{Loaded, pprof, panel, has_tab, visible_tab_keys, settle_tab}
use mini_drop_test.TaskResult.Panels.Laws.{settle_tab_lem}
use mini_drop_test.TaskResult.Evidence.{Evidence}
use mini_drop_test.TaskResult.State.{initial}
use mini_drop_test.TaskResult.Load.{Replies, Reader, got, refused, load_task}
use mini_drop_test.TaskResult.Load.Session.{Step, load, change_task}
use mini_drop_test.TaskResult.Load.Laws.{Ends, load_task-Settles}

-- The second tick finds no task, the third one that would need polling.
reloads_example :
    ticks (record { set = true; reloads = 0 }) (some (task_in 2 0) ∷ none ∷ some (task_in 2 0) ∷ [])
    ≡ record { set = false; reloads = 1 }
reloads_example =
    reloads-ticks_exact (some (task_in 2 0) ∷ []) (some (task_in 2 0) ∷ []) none
      (inl (omega arith), tt) (λ over. over)

abbrev nothing : Loaded
nothing = record {
  collapsed_text = false;
  topn_rows = false;
  svg_markup = false;
  suggestion_rows = false;
  evidence_rows = false;
  ebpf_data = false;
  pprof_cpu_rows = false;
  pprof_heap_rows = false;
  memory_data = false;
  memray_html_url = false;
  memray_loading = false;
  heap_rows = false;
  resource_summary = false;
}

settle_tab_example :
    has_tab
      (settle_tab (some (task_in 4 2)) nothing (panel pprof))
      (visible_tab_keys (some (task_in 4 2)) nothing)
    ≡ true
settle_tab_example = (settle_tab_lem (task_in 4 2) nothing (panel pprof)).0

abbrev pub file : String → CosFile
file key = record { key = some key; name = none; url = ""; size = none }

abbrev two_files : List CosFile
two_files = file "profiler/collapsed.txt" ∷ file "t1/collapsed.txt" ∷ []

abbrev evidence : Evidence
evidence = record {
  concentration = none;
  topn_hotspots =
      record { evidence_id = "E1"; rank = "1"; func = "main"; self = "5"; self_pct = "50" }
      ∷ record { evidence_id = ""; rank = "2"; func = "f"; self = "2"; self_pct = "20" }
      ∷ [];
  hot_paths = [];
  rule_hits = [];
}

abbrev pub reader : Reader ℕ
reader = record {
  top_functions = λ j. none;
  samples = λ j. j;
  is_object = λ j. true;
  is_array = λ j. false;
}

abbrev pub detail : TaskDetailData
detail = record {
  task = some (task_in 4 2);
  suggestions = none;
  cos_files = some (file "t1/memray.html" ∷ []);
  state_history = none;
}

abbrev pub detail_res : ApiResponse TaskDetailData
detail_res = record { code = 0; payload = some detail; message = none }

abbrev pub replies : Reply TaskDetailData → Replies ℕ
replies detail' = record {
  detail = detail';
  suggestions = rejected (thrown "timeout");
  flame = response (record {
    code = 0;
    payload = some (record { type = "svg"; key = some "k" });
    message = none;
  });
  artifact_text = λ key. got (some "<svg/>");
  artifact_json = λ key. refused (thrown "404");
  cos_files = rejected (thrown "timeout");
  object_url = λ html. "blob:1";
}

abbrev unanswered : Replies ℕ
unanswered = replies (rejected (thrown "timeout"))

load_task-Settles_example :
    Ends reader unanswered "t1" (initial ℕ) (load_task reader unanswered "t1" (initial ℕ))
load_task-Settles_example = load_task-Settles reader unanswered "t1" (initial ℕ) refl

abbrev two_loads : List (Step ℕ)
two_loads =
    load "t1" (replies (response detail_res))
    ∷ change_task
    ∷ load "t2" (replies (response detail_res))
    ∷ []
