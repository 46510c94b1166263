-- ===== src/Timeline/Windows.antt =====
-- web/src/pages/ContinuousTimeline.tsx: the requests for the windows, with the filter by time, and
-- the buttons. `to_iso` is the browser's, and fails on a text that is no date.
use mini_drop_test.Base.{
  String, Bool, true, false, not, ◌&&◌, Option, none, some, List, [], ◌∷◌, truthy, ◌==◌, filter,
  get_last?, if◌then◌else◌,
}
use mini_drop_test.Domain.{ContinuousWindow}
use mini_drop_test.Api.{Reply, response, rejected, is_ok}
use mini_drop_test.Api.Requests.{get_continuous_windows, stop_continuous_task}
use mini_drop_test.Effects.{Run, send}
use mini_drop_test.Timeline.{TimelineState, select, deselect}

take_windows : TimelineState → List ContinuousWindow → TimelineState → Run TimelineState
unfolding select
take_windows seen windows s =
    let t = record s { windows = windows } in
    elim seen.selected [
      | some window ↦ (t, [])
      | none ↦ elim (get_last? (filter (λ w. w.status == 1) windows)) [
        | none ↦ (t, [])
        | some window ↦ select window t
      ]
    ]

unfoldable pub windows_reply :
    TimelineState → Reply (List ContinuousWindow) → TimelineState → Run TimelineState
unfolding take_windows
windows_reply seen (rejected e) s = (s, [])
windows_reply seen (response res) s =
    if is_ok res
    then elim res.payload [ none ↦ (s, []) | some windows ↦ take_windows seen windows s ]
    else (s, [])

module _ (to_iso : String → Option String) where
  -- The time in the request, or none where the conversion throws
  unfoldable pub time_param : Bool → String → Option (Option String)
  time_param filtering time =
      if filtering && truthy time
      then elim (to_iso time) [ none ↦ none | some iso ↦ some (some iso) ]
      else some none

  -- `seen` is the state of the render that made the callback, `s` the state when the reply arrives.
  unfoldable pub fetch_windows :
      String → TimelineState → Reply (List ContinuousWindow) → TimelineState → Run TimelineState
  unfolding time_param windows_reply
  fetch_windows tid seen reply s =
      if not (truthy tid) then (s, []) else elim (time_param seen.is_filtering seen.from_time) [
        | none ↦ (s, [])
        | some from ↦ elim (time_param seen.is_filtering seen.to_time) [
          | none ↦ (s, [])
          | some to ↦
              let (t, effects) = windows_reply seen reply s in
              (t, send (get_continuous_windows tid from to) ∷ effects)
        ]
      ]

-- The interval of five seconds runs while nothing is filtered.
unfoldable pub polls : TimelineState → Bool
polls s = not s.is_filtering

-- A failure is only logged.
unfoldable pub handle_stop : String → TimelineState → Run TimelineState
handle_stop tid s =
    if truthy tid
    then (record s { stopping = false }, send (stop_continuous_task tid) ∷ [])
    else (s, [])

abbrev filtering : TimelineState → TimelineState
filtering s = record s { is_filtering = true }

unfoldable pub handle_search : TimelineState → Run TimelineState
unfolding deselect
handle_search s = deselect (filtering s)

-- The local texts of five minutes ago and of now
unfoldable pub handle_last_five_minutes : String → String → TimelineState → Run TimelineState
unfolding deselect
handle_last_five_minutes start end s =
    deselect (filtering (record s { from_time = start; to_time = end }))

-- `five_before` gives none for a text that is no date.
unfoldable pub handle_five_minute_window :
    (String → Option String) → TimelineState → Run TimelineState
unfolding deselect
handle_five_minute_window five_before s =
    if truthy s.to_time
    then elim (five_before s.to_time) [
      | none ↦ (s, [])
      | some start ↦ deselect (filtering (record s { from_time = start }))
    ]
    else (s, [])

unfoldable pub handle_reset : TimelineState → Run TimelineState
unfolding deselect
handle_reset s = deselect (record s { from_time = ""; to_time = ""; is_filtering = false })
