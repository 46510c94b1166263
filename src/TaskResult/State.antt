-- ===== src/TaskResult/State.antt =====
-- The state of the result page, and what resets it. `J` is the type of the JSON artifacts.
use mini_drop_test.Base.{
  String, Bool, true, false, Option, none, List, [], ◌∷◌, truthy, if◌then◌else◌,
}
use mini_drop_test.Domain.{
  AnalysisSuggestion, CosFile, HotmethodTask, TaskStateHistory, TopFunction,
}
use mini_drop_test.Effects.{Effect, Run, revoke_object_url}
use mini_drop_test.TaskResult.Panels.{TabKey, panel, flame}

module _ (J : Type 0) where
  pub record PageState : Type 0 where
    pub active_tab : TabKey
    pub task : Option HotmethodTask
    pub suggestions : List AnalysisSuggestion
    pub state_history : List TaskStateHistory
    pub flame_error : String
    pub topn : List TopFunction
    pub collapsed_text : String
    pub svg_markup : String
    pub cos_files : List CosFile
    pub loading : Bool
    pub error : String
    pub ebpf_data : Option J
    pub ebpf_loading : Bool
    pub pprof_cpu_data : Option J
    pub pprof_heap_data : Option J
    pub pprof_loading : Bool
    pub memory_data : Option J
    pub memray_html_url : String
    pub memray_loading : Bool
    pub memray_error : String
    pub heap_data : Option J
    pub resource_data : Option J
    pub attribution_evidence : Option J
    pub memray_object_url : String  -- `memrayObjectUrlRef.current`

  unfoldable pub initial : PageState
  initial = record {
    active_tab = panel flame;
    task = none;
    suggestions = [];
    state_history = [];
    flame_error = "";
    topn = [];
    collapsed_text = "";
    svg_markup = "";
    cos_files = [];
    loading = true;
    error = "";
    ebpf_data = none;
    ebpf_loading = false;
    pprof_cpu_data = none;
    pprof_heap_data = none;
    pprof_loading = false;
    memory_data = none;
    memray_html_url = "";
    memray_loading = false;
    memray_error = "";
    heap_data = none;
    resource_data = none;
    attribution_evidence = none;
    memray_object_url = "";
  }

  unfoldable pub clear_memray_html_url : PageState → Run PageState
  clear_memray_html_url s = (
    record s { memray_object_url = ""; memray_html_url = "" },
    if truthy s.memray_object_url then revoke_object_url s.memray_object_url ∷ [] else [],
  )

  -- The effect that runs when the task id in the address changes
  unfoldable pub reset : PageState → Run PageState
  unfolding clear_memray_html_url
  reset s =
      let (t, effects) = clear_memray_html_url s in
      (
        record t {
          active_tab = panel flame;
          task = none;
          suggestions = [];
          state_history = [];
          cos_files = [];
          flame_error = "";
          topn = [];
          collapsed_text = "";
          svg_markup = "";
          ebpf_data = none;
          ebpf_loading = false;
          pprof_cpu_data = none;
          pprof_heap_data = none;
          pprof_loading = false;
          memory_data = none;
          memray_loading = false;
          memray_error = "";
          heap_data = none;
          resource_data = none;
          attribution_evidence = none;
        },
        effects,
      )

  -- The clean-up when the page is left
  unfoldable pub leave : PageState → List Effect
  leave s = if truthy s.memray_object_url then revoke_object_url s.memray_object_url ∷ [] else []

  -- What `loadTask` clears before it asks for the task
  unfoldable pub clear_for_load : PageState → PageState
  clear_for_load s = record s {
    error = "";
    ebpf_data = none;
    ebpf_loading = false;
    pprof_cpu_data = none;
    pprof_heap_data = none;
    pprof_loading = false;
    memory_data = none;
    memray_error = "";
    heap_data = none;
    resource_data = none;
    attribution_evidence = none;
  }
