-- ===== src/Timeline.antt =====
-- web/src/pages/ContinuousTimeline.tsx: the windows of a continuous task and the flame graph of the
-- selected one. Each run of the flame graph's effect has a number; the next run cancels it, and its
-- late answers carry its number.
pub mod Windows
pub mod Events
pub mod View
pub mod Laws
mod Tests
use mini_drop_test.Base.{
  ℕ, ◌+◌, String, Bool, true, false, not, ◌&&◌, ◌||◌, Option, none, some, List, [], ◌∷◌, ◌++◌,
  truthy, or_else, str_eq, if◌then◌else◌, ◌==◌, filter, get_last?, is_empty, value_or,
}
use mini_drop_test.Domain.{ContinuousWindow, TopFunction}
use mini_drop_test.Api.{ApiResponse, Failure, Reply, response, rejected, is_ok, failure_text}
use mini_drop_test.Api.Requests.{
  get_flame_data, get_continuous_windows, fetch_artifact_text, fetch_artifact_json,
  stop_continuous_task,
}
use mini_drop_test.Effects.{Effect, Run, send}
use mini_drop_test.TaskResult.Load.{FlameRef, Fetched, got, refused}

pub record TimelineState : Type 0 where
  pub windows : List ContinuousWindow
  pub selected : Option ContinuousWindow
  pub collapsed_text : String
  pub topn : List TopFunction
  pub svg_markup : String
  pub flame_error : String
  pub loading : Bool
  pub stopping : Bool
  pub from_time : String
  pub to_time : String
  pub is_filtering : Bool
  pub run : ℕ  -- the number of the effect's latest run

unfoldable pub timeline_start : TimelineState
timeline_start = record {
  windows = [];
  selected = none;
  collapsed_text = "";
  topn = [];
  svg_markup = "";
  flame_error = "";
  loading = false;
  stopping = false;
  from_time = "";
  to_time = "";
  is_filtering = false;
  run = 0;
}

unfoldable pub clear_flame : String → TimelineState → TimelineState
clear_flame error s = record s {
  collapsed_text = "";
  topn = [];
  svg_markup = "";
  flame_error = error;
}

unfoldable pub window_effect : ContinuousWindow → TimelineState → Run TimelineState
unfolding clear_flame
window_effect window s =
    if not (truthy window.cos_key)
    then (clear_flame "" s, [])
    else if not (window.status == 1)
    then (clear_flame (if window.status == 2 then "该窗口采集失败" else "该窗口仍在采集中") s, [])
    else (
      record (clear_flame "" s) { loading = true },
      send (get_flame_data window.window_tid) ∷ [],
    )

-- The effect that runs when `selected` changes; it cancels the run before it.
unfoldable pub flame_effect : TimelineState → Run TimelineState
unfolding clear_flame window_effect
flame_effect s =
    let next = record s { run = s.run + 1 } in
    elim s.selected [ none ↦ (clear_flame "" next, []) | some window ↦ window_effect window next ]

-- A click on a window that is not the one selected, and the effect that follows
unfoldable pub select : ContinuousWindow → TimelineState → Run TimelineState
unfolding flame_effect
select window s = flame_effect (record s { selected = some window })

unfoldable pub deselect : TimelineState → Run TimelineState
unfolding flame_effect
deselect s = elim s.selected [
  | none ↦ (s, [])
  | some window ↦ flame_effect (record s { selected = none })
]

-- What arrives for a run, with the run's window
pub data Answer : Type 0 where
  flame : ContinuousWindow → Reply FlameRef → Answer
  text : Fetched (Option String) → Answer  -- a collapsed artifact; `none` is no text
  functions : Fetched (Option (List TopFunction)) → Answer  -- `none` is no array
  svg : Fetched (Option String) → Answer

abbrev done : TimelineState → TimelineState
done s = record s { loading = false }

unfoldable pub load_failed : Failure → TimelineState → TimelineState
load_failed e s = record s { flame_error = failure_text "火焰图加载失败" e; loading = false }

abbrev flame_key : Option FlameRef → Option (String × String)
flame_key none = none
flame_key (some ref) = elim ref.key [
  | none ↦ none
  | some key ↦ if truthy key then some (ref.type, key) else none
]

fetch_by_type : ContinuousWindow → String → String → TimelineState → Run TimelineState
fetch_by_type window type key s =
    if str_eq type "collapsed"
    then (s, send (fetch_artifact_text window.window_tid key) ∷ [])
    else if str_eq type "json"
    then (s, send (fetch_artifact_json window.window_tid key) ∷ [])
    else if str_eq type "svg"
    then (s, send (fetch_artifact_text window.window_tid key) ∷ [])
    else (done (record s { flame_error = "该窗口暂无可直接渲染的火焰图数据" }), [])

flame_answer :
    ContinuousWindow
    → ApiResponse FlameRef
    → Option (String × String)
    → TimelineState
    → Run TimelineState
unfolding fetch_by_type
flame_answer window res none s =
    (done (record s { flame_error = or_else res.message "该窗口暂无可渲染的火焰图数据" }), [])
flame_answer window res (some (type, key)) s = fetch_by_type window type key s

take_answer : Answer → TimelineState → Run TimelineState
unfolding flame_answer load_failed
take_answer (flame window (rejected e)) s = (load_failed e s, [])
take_answer (flame window (response res)) s =
    flame_answer window res (if is_ok res then flame_key res.payload else none) s
take_answer (text (got content)) s = (done (record s { collapsed_text = value_or "" content }), [])
take_answer (text (refused e)) s = (load_failed e s, [])
take_answer (functions (got content)) s = (done (record s { topn = value_or [] content }), [])
take_answer (functions (refused e)) s = (load_failed e s, [])
take_answer (svg (got content)) s = (done (record s { svg_markup = value_or "" content }), [])
take_answer (svg (refused e)) s = (load_failed e s, [])

-- An answer for a cancelled run is dropped.
unfoldable pub answer : ℕ → Answer → TimelineState → Run TimelineState
unfolding take_answer
answer run a s = if run == s.run then take_answer a s else (s, [])

unfoldable pub answers : List (ℕ × Answer) → TimelineState → Run TimelineState
unfolding answer
answers [] s = (s, [])
answers ((run, a) ∷ rest) s =
    let (t, effects) = answer run a s in let (u, later) = answers rest t in (u, effects ++ later)
