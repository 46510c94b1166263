-- ===== src/Timeline/Events.antt =====
-- web/src/pages/ContinuousTimeline.tsx while requests for the windows are under way: the effect that
-- asks for them runs when the selection, the filter or a time changes, and an interval asks again
-- while nothing is filtered. `five_before` is the text of five minutes before a time.
pub mod Laws
pub mod Late
use mini_drop_test.Base.{
  ℕ, get_elem?, erase_idx, String, Bool, true, false, not, ◌&&◌, ◌||◌, Option, none, some, List, [],
  ◌∷◌, truthy, str_eq, ◌==◌, if◌then◌else◌,
}
use mini_drop_test.Domain.{ContinuousWindow}
use mini_drop_test.Api.{Reply}
use mini_drop_test.Timeline.{TimelineState, Answer, timeline_start, select, answer}
use mini_drop_test.Timeline.Windows.{
  time_param, windows_reply, polls, handle_search, handle_last_five_minutes,
  handle_five_minute_window, handle_reset,
}

-- `from` and `to` of a request
abbrev pub Times : Type 0
Times = Option String × Option String

pub record TimelineWorld : Type 0 where
  pub page : TimelineState
  pub asked : List Times  -- every request so far, the newest first
  pub sent : List TimelineState  -- those without an answer, with the states of their renders

pub data TimelineEvent : Type 0 where
  type_from type_to : String → TimelineEvent
  click : ContinuousWindow → TimelineEvent  -- on a window that is not the one selected
  search five_minute_window reset tick : TimelineEvent
  last_five_minutes : String → String → TimelineEvent  -- five minutes ago and now
  flame_answered : ℕ → Answer → TimelineEvent
  windows_answered : ℕ → Reply (List ContinuousWindow) → TimelineEvent

abbrev same_flag : Bool → Bool → Bool
same_flag true b = b
same_flag false b = not b

-- The dependencies of the effect are the same: `run` counts the changes of `selected`.
unfoldable pub same_dependencies : TimelineState → TimelineState → Bool
same_dependencies s t =
    (s.run == t.run)
    && same_flag s.is_filtering t.is_filtering
    && str_eq s.from_time t.from_time
    && str_eq s.to_time t.to_time

ask_for : Option Times → TimelineWorld → TimelineWorld
ask_for none w = w
ask_for (some times) w = record w { asked = times ∷ w.asked; sent = w.page ∷ w.sent }

module _ (to_iso : String → Option String) where
  -- The times that the page asks for, or none where a conversion throws
  unfoldable pub times_of : TimelineState → Option Times
  unfolding time_param
  times_of s = elim (time_param to_iso s.is_filtering s.from_time) [
    | none ↦ none
    | some from ↦ elim (time_param to_iso s.is_filtering s.to_time) [
      | none ↦ none
      | some to ↦ some (from, to)
    ]
  ]

module _ (to_iso : String → Option String) (tid : String) where
  -- `fetchWindows` up to its await
  unfoldable pub ask_windows : TimelineWorld → TimelineWorld
  unfolding ask_for times_of
  ask_windows w = if truthy tid then ask_for (times_of to_iso w.page) w else w

  -- A page that an event has changed, and the effect that may follow
  unfoldable pub rendered : TimelineState → TimelineWorld → TimelineWorld
  unfolding same_dependencies ask_windows
  rendered page w =
      let next = record w { page = page } in
      if same_dependencies w.page page then next else ask_windows next

  -- The page when it is opened, with its first request
  unfoldable pub timeline_open : TimelineWorld
  unfolding ask_windows timeline_start
  timeline_open = ask_windows (record { page = timeline_start; asked = []; sent = [] })

windows_answer :
    Option TimelineState → Reply (List ContinuousWindow) → TimelineState → TimelineState
unfolding windows_reply
windows_answer none reply s = s
windows_answer (some seen) reply s = (windows_reply seen reply s).0

module _ (to_iso five_before : String → Option String) (tid : String) where
  unfoldable pub timeline_step : TimelineEvent → TimelineWorld → TimelineWorld
  unfolding rendered ask_windows windows_answer select answer polls handle_search
      handle_last_five_minutes handle_five_minute_window handle_reset
  timeline_step (type_from v) w = rendered to_iso tid (record (w.page) { from_time = v }) w
  timeline_step (type_to v) w = rendered to_iso tid (record (w.page) { to_time = v }) w
  timeline_step (click window) w = rendered to_iso tid (select window w.page).0 w
  timeline_step search w = rendered to_iso tid (handle_search w.page).0 w
  timeline_step five_minute_window w =
      rendered to_iso tid (handle_five_minute_window five_before w.page).0 w
  timeline_step reset w = rendered to_iso tid (handle_reset w.page).0 w
  timeline_step tick w = if polls w.page then ask_windows to_iso tid w else w
  timeline_step (last_five_minutes start end) w =
      rendered to_iso tid (handle_last_five_minutes start end w.page).0 w
  timeline_step (flame_answered run a) w = rendered to_iso tid (answer run a w.page).0 w
  timeline_step (windows_answered k reply) w =
      rendered to_iso tid (windows_answer (get_elem? w.sent k) reply w.page)
        (record w { sent = erase_idx w.sent k })

  unfoldable pub timeline_steps : List TimelineEvent → TimelineWorld → TimelineWorld
  unfolding timeline_step
  timeline_steps [] w = w
  timeline_steps (event ∷ events) w = timeline_steps events (timeline_step event w)
