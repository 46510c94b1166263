-- ===== src/TaskResult/Load/Requests.antt =====
-- The requests of loadTask behind the task's detail, up to the Memray page: each with its own way to
-- fail. The replies are a parameter, and so is what the page reads of a JSON artifact.
use mini_drop_test.Base.{
  String, Bool, false, Option, none, some, List, [], ◌∷◌, truthy, str_eq, value_or, is_empty,
  if◌then◌else◌,
}
use mini_drop_test.Domain.{AnalysisSuggestion, CosFile, TaskDetailData, TopFunction}
use mini_drop_test.Api.{Failure, Reply, response, rejected, is_ok}
use mini_drop_test.Api.Requests.{
  get_suggestions, get_flame_data, get_cos_files, fetch_artifact_text, fetch_artifact_json,
}
use mini_drop_test.Effects.{Run, also, send}
use mini_drop_test.TaskResult.Artifacts.{find_artifact, collapsed_file}
use mini_drop_test.TaskResult.State.{PageState}

pub record FlameRef : Type 0 where
  pub type : String
  pub key : Option String

-- An artifact is no ApiResponse: the request gives its content or fails.
pub data Fetched (A : Type 0) : Type 0 where
  got : A → Fetched A
  refused : Failure → Fetched A

-- `none` is an artifact whose content is not a text.
pub record Replies (J : Type 0) : Type 0 where
  pub detail : Reply TaskDetailData
  pub suggestions : Reply (List AnalysisSuggestion)
  pub flame : Reply FlameRef
  pub artifact_text : String → Fetched (Option String)
  pub artifact_json : String → Fetched J
  pub cos_files : Reply (List CosFile)
  pub object_url : String → String

-- `Array.isArray` with its items, `data?.samples ?? data`, and the tests on what that gives.
pub record Reader (J : Type 0) : Type 0 where
  pub top_functions : J → Option (List TopFunction)
  pub samples : J → J
  pub is_object : J → Bool
  pub is_array : J → Bool

-- `file?.key`, where it is not empty
unfoldable pub key_of : Option CosFile → Option String
key_of none = none
key_of (some file) = elim file.key [
  | none ↦ none
  | some key ↦ if truthy key then some key else none
]

abbrev pub detail_of : Reply TaskDetailData → Option TaskDetailData
detail_of (rejected e) = none
detail_of (response res) = res.payload

module _ {J : Type 0} (reader : Reader J) (w : Replies J) (tid : String) where
  unfoldable pub load_suggestions : PageState J → Run (PageState J)
  load_suggestions s = also (send (get_suggestions tid)) (elim w.suggestions [
    | rejected e ↦ (s, [])
    | response res ↦
        (if is_ok res then record s { suggestions = value_or [] res.payload } else s, [])
  ])

  unfoldable pub flame_failed : PageState J → PageState J
  flame_failed s = record s { flame_error = "暂无可渲染的火焰图数据" }

  unfoldable pub load_svg : String → PageState J → Run (PageState J)
  unfolding flame_failed
  load_svg key s = also (send (fetch_artifact_text tid key)) (elim (w.artifact_text key) [
    | got text ↦ (record s { svg_markup = value_or "" text }, [])
    | refused e ↦ (flame_failed s, [])
  ])

  unfoldable pub load_top_json : String → PageState J → Run (PageState J)
  unfolding flame_failed
  load_top_json key s = also (send (fetch_artifact_json tid key)) (elim (w.artifact_json key) [
    | got data' ↦ (record s { topn = value_or [] (reader.top_functions data') }, [])
    | refused e ↦ (flame_failed s, [])
  ])

  unfoldable pub load_collapsed : String → PageState J → Run (PageState J)
  unfolding flame_failed
  load_collapsed key s = also (send (fetch_artifact_text tid key)) (elim (w.artifact_text key) [
    | got text ↦ (record s { collapsed_text = value_or "" text }, [])
    | refused e ↦ (flame_failed s, [])
  ])

  unfoldable pub load_by_type : String → String → PageState J → Run (PageState J)
  unfolding load_svg load_top_json load_collapsed
  load_by_type type key s =
      if str_eq type "svg"
      then load_svg key s
      else if str_eq type "json"
      then load_top_json key s
      else if str_eq type "collapsed"
      then load_collapsed key s
      else (s, [])

  unfoldable pub load_flame_ref : Option FlameRef → PageState J → Run (PageState J)
  unfolding load_by_type
  load_flame_ref none s = (s, [])
  load_flame_ref (some ref) s = elim ref.key [
    | none ↦ (s, [])
    | some key ↦ if truthy key then load_by_type ref.type key s else (s, [])
  ]

  unfoldable pub load_flame : PageState J → Run (PageState J)
  unfolding load_flame_ref
  load_flame s = also (send (get_flame_data tid)) (elim w.flame [
    | rejected e ↦ (flame_failed s, [])
    | response res ↦
        let cleared = record s { flame_error = "" } in
        if is_ok res then load_flame_ref res.payload cleared else (cleared, [])
  ])

  -- The files of the detail, or those that `/cosfiles` gives where the detail has none
  abbrev pub fresh_files : List CosFile
  fresh_files = elim w.cos_files [ rejected e ↦ [] | response res ↦ value_or [] res.payload ]

  abbrev detail_files : List CosFile
  detail_files = elim (detail_of w.detail) [ none ↦ [] | some d ↦ value_or [] d.cos_files ]

  unfoldable pub files : List CosFile
  files = if is_empty detail_files then fresh_files else detail_files

  unfoldable pub load_files : PageState J → Run (PageState J)
  load_files s =
      if is_empty detail_files
      then (record s { cos_files = fresh_files }, send (get_cos_files tid) ∷ [])
      else (s, [])

  unfoldable pub load_top : PageState J → Run (PageState J)
  load_top s = elim (key_of (find_artifact "top.json" files)) [
    | none ↦ (s, [])
    | some key ↦
        let topn : List TopFunction = elim (w.artifact_json key) [
          | got j ↦ value_or [] (reader.top_functions j)
          | refused e ↦ []
        ] in
        (record s { topn = topn }, send (fetch_artifact_json tid key) ∷ [])
  ]

  unfoldable pub keep_text : String → Fetched (Option String) → String
  keep_text old (refused e) = old
  keep_text old (got none) = old
  keep_text old (got (some text)) = if truthy text then text else old

  unfoldable pub load_stacks : PageState J → Run (PageState J)
  unfolding keep_text
  load_stacks s = elim (key_of (collapsed_file files)) [
    | none ↦ (s, [])
    | some key ↦ (
      record s { collapsed_text = keep_text s.collapsed_text (w.artifact_text key) },
      send (fetch_artifact_text tid key) ∷ [],
    )
  ]

  unfoldable pub fetched : Fetched J → Option J
  fetched (got j) = some j
  fetched (refused e) = none

  unfoldable pub load_ebpf : PageState J → Run (PageState J)
  unfolding fetched
  load_ebpf s = elim (key_of (find_artifact "biosnoop_stats.json" files)) [
    | none ↦ (s, [])
    | some key ↦ (
      record s { ebpf_data = fetched (w.artifact_json key); ebpf_loading = false },
      send (fetch_artifact_json tid key) ∷ [],
    )
  ]

  abbrev object_samples : J → Option J
  object_samples j = let d = reader.samples j in if reader.is_object d then some d else none

  abbrev array_samples : J → Option J
  array_samples j = let d = reader.samples j in if reader.is_array d then some d else none

  unfoldable pub pprof_failed : PageState J → PageState J
  pprof_failed s = record s { pprof_cpu_data = none; pprof_heap_data = none }

  unfoldable pub load_pprof_heap : Option String → PageState J → Run (PageState J)
  unfolding pprof_failed
  load_pprof_heap none s = (s, [])
  load_pprof_heap (some key) s =
      also (send (fetch_artifact_json tid key)) (elim (w.artifact_json key) [
        | got j ↦ (record s { pprof_heap_data = array_samples j }, [])
        | refused e ↦ (pprof_failed s, [])
      ])

  unfoldable pub load_pprof_keys : Option String → Option String → PageState J → Run (PageState J)
  unfolding load_pprof_heap
  load_pprof_keys none heap s = load_pprof_heap heap s
  load_pprof_keys (some key) heap s =
      also (send (fetch_artifact_json tid key)) (elim (w.artifact_json key) [
        | got j ↦ load_pprof_heap heap (record s { pprof_cpu_data = object_samples j })
        | refused e ↦ (pprof_failed s, [])
      ])

  unfoldable pub load_pprof_files : Option String → Option String → PageState J → Run (PageState J)
  unfolding load_pprof_keys
  load_pprof_files none none s = (s, [])
  load_pprof_files cpu heap s =
      let (t, effects) = load_pprof_keys cpu heap s in (record t { pprof_loading = false }, effects)

  unfoldable pub load_pprof : PageState J → Run (PageState J)
  unfolding load_pprof_files
  load_pprof s =
      load_pprof_files (key_of (find_artifact "pprof_cpu.json" files))
        (key_of (find_artifact "pprof_heap.json" files)) s

  -- The optional artifacts share one `try`: the first that fails ends them.
  unfoldable pub fetch_each :
      List (Option String × (J → PageState J → PageState J)) → PageState J → Run (PageState J)
  fetch_each [] s = (s, [])
  fetch_each ((none, set) ∷ rest) s = fetch_each rest s
  fetch_each ((some key, set) ∷ rest) s =
      also (send (fetch_artifact_json tid key))
        (elim (w.artifact_json key) [ got j ↦ fetch_each rest (set j s) | refused e ↦ (s, []) ])

  unfoldable pub load_optional : PageState J → Run (PageState J)
  unfolding fetch_each
  load_optional = fetch_each (
      (key_of (find_artifact "memleak.json" files), λ j s. record s { memory_data = some j })
      ∷ (key_of (find_artifact "heap_stats.json" files), λ j s. record s { heap_data = some j })
      ∷ (
        key_of (find_artifact "resource_stats.json" files),
        λ j s. record s { resource_data = some j },
      )
      ∷ (
        key_of (find_artifact "attribution_evidence.json" files),
        λ j s. record s { attribution_evidence = some j },
      )
      ∷ [])
