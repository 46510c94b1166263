-- ===== src/TaskResult/Load.antt =====
-- loadTask: the task's detail, the requests of Requests one after the other, and the Memray page.
pub mod Requests
pub mod Frame
pub mod Laws
pub mod Urls
pub mod Session
pub mod Turns
unfoldable pub use Requests.*
use mini_drop_test.Base.{
  ℕ, String, Bool, true, false, not, ◌&&◌, ◌||◌, Option, none, some, List, [], ◌∷◌, ◌++◌, truthy,
  str_eq, is_some, value_or, is_empty, find?, if◌then◌else◌, or_else,
}
use mini_drop_test.Domain.{
  AnalysisSuggestion, CosFile, HotmethodTask, TaskDetailData, TaskStateHistory, TopFunction,
}
use mini_drop_test.Api.{
  ApiResponse, Failure, Reply, response, rejected, thrown, failure_text, is_ok,
}
use mini_drop_test.Api.Requests.{
  get_task_detail, get_suggestions, get_flame_data, get_cos_files, fetch_artifact_text,
  fetch_artifact_json, trigger_analysis,
}
use mini_drop_test.Effects.{
  Effect, Run, also, then_do, send, create_object_url, notify_success, notify_error,
}
use mini_drop_test.TaskResult.Artifacts.{find_artifact, collapsed_file, is_memray_html_artifact}
use mini_drop_test.TaskResult.State.{PageState, clear_for_load}

module _ {J : Type 0} (reader : Reader J) (w : Replies J) (tid : String) where
  abbrev pub with_detail : TaskDetailData → HotmethodTask → PageState J → PageState J
  with_detail d task s = record s {
    task = some task;
    suggestions = value_or [] d.suggestions;
    cos_files = value_or [] d.cos_files;
    state_history = value_or [] d.state_history;
  }

  pub show_html : String → PageState J → Run (PageState J)
  show_html html s =
      if truthy html
      then (
        record s { memray_object_url = w.object_url html; memray_html_url = w.object_url html },
        create_object_url html ∷ [],
      )
      else (s, [])

  pub take_html : Fetched (Option String) → PageState J → Run (PageState J)
  unfolding show_html
  take_html (got none) s = (s, [])
  take_html (got (some html)) s = show_html html s
  take_html (refused e) s = (record s { memray_error = or_else e.message "Memray 可视化加载失败" }, [])

  pub load_memray_key : String → PageState J → Run (PageState J)
  unfolding take_html
  load_memray_key key s =
      also (send (fetch_artifact_text tid key)) (take_html (w.artifact_text key) s)

  abbrev memray_file : Option CosFile
  memray_file = find? is_memray_html_artifact (files reader w tid)

  pub memray_at : Option String → PageState J → Run (PageState J)
  unfolding load_memray_key
  memray_at none s = (s, [])
  memray_at (some key) s =
      if truthy s.memray_object_url
      then (s, [])
      else let (t, effects) = load_memray_key key s in
        (record t { memray_loading = false }, effects)

  pub load_memray : PageState J → Run (PageState J)
  unfolding memray_at
  load_memray s = memray_at (key_of memray_file) s

  unfoldable pub run_stages :
      List (PageState J → Run (PageState J)) → PageState J → Run (PageState J)
  run_stages [] s = (s, [])
  run_stages (stage ∷ stages) s = then_do (stage s) (run_stages stages)

  -- The requests behind the task's detail, but the last
  unfoldable pub stages : List (PageState J → Run (PageState J))
  stages =
      load_suggestions reader w tid
      ∷ load_flame reader w tid
      ∷ load_files reader w tid
      ∷ load_top reader w tid
      ∷ load_stacks reader w tid
      ∷ load_ebpf reader w tid
      ∷ load_pprof reader w tid
      ∷ load_optional reader w tid
      ∷ []

  pub load_artifacts : PageState J → Run (PageState J)
  load_artifacts s = then_do (run_stages stages s) load_memray

  load_found :
      TaskDetailData → Option HotmethodTask → Option String → PageState J → Run (PageState J)
  load_found d none message s = (record s { error = or_else message "任务不存在" }, [])
  load_found d (some task) message s = load_artifacts (with_detail d task s)

  pub load_detail : Option TaskDetailData → Bool → Option String → PageState J → Run (PageState J)
  unfolding load_found
  load_detail (some d) true message s = load_found d d.task message s
  load_detail _ _ message s = (record s { error = or_else message "任务不存在" }, [])

  pub load_reply : Reply TaskDetailData → PageState J → Run (PageState J)
  unfolding load_detail
  load_reply (rejected e) s = (record s { error = failure_text "任务详情加载失败" e }, [])
  load_reply (response res) s = load_detail res.payload (is_ok res) res.message s

  abbrev settled : Run (PageState J) → Run (PageState J)
  settled (s, effects) = (record s { loading = false }, effects)

  unfoldable pub load_task : PageState J → Run (PageState J)
  unfolding load_reply load_artifacts clear_for_load
  load_task s =
      if truthy tid
      then settled (also (send (get_task_detail tid)) (load_reply w.detail (clear_for_load J s)))
      else (record s { error = "缺少任务 ID"; loading = false }, [])

  -- The button that triggers the analysis; the reply is that of `triggerAnalysis`.
  unfoldable pub run_analysis : Reply (Unit {0}) → PageState J → Run (PageState J)
  unfolding load_task
  run_analysis trigger s =
      if truthy tid
      then elim trigger [
        | rejected e ↦
            (s, send (trigger_analysis tid) ∷ notify_error (failure_text "触发分析失败" e) ∷ [])
        | response res ↦
            also (send (trigger_analysis tid)) (also (notify_success "分析已触发") (load_task s))
      ]
      else (s, [])
