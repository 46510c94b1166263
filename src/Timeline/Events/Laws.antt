-- ===== src/Timeline/Events/Laws.antt =====
-- What the timeline asks for while its requests overlap, and what a late answer leaves.
use mini_drop_test.Base.{
  get_elem?, erase_idx, ◌≡◌, refl, sym, ◌∙◌, String, Bool, true, false, Option, some, List, [], ◌∷◌,
  truthy, arith, eq_iff, if◌then◌else◌,
}
use mini_drop_test.Timeline.{TimelineState, timeline_start}
use mini_drop_test.Timeline.Windows.{polls}
use mini_drop_test.Timeline.Events.{
  Times, TimelineWorld, TimelineEvent, type_from, type_to, click, search, five_minute_window, reset,
  tick, last_five_minutes, flame_answered, windows_answered, same_flag, same_dependencies, times_of,
  ask_windows, rendered, timeline_step, timeline_steps, timeline_open,
}

same_flag-eq : (a b : Bool) → same_flag a b ≡ true → a ≡ b
same_flag-eq true true h = refl
same_flag-eq true false h = sym h
same_flag-eq false true h = h
same_flag-eq false false h = refl

module _ (to_iso : String → Option String) where
  -- The newest request asks for what the page's fields and filter say.
  abbrev IsAsked : TimelineWorld → Type 0
  IsAsked w =
      (times : Times) → times_of to_iso w.page ≡ some times → get_elem? w.asked 0 ≡ some times

  ask_windows-IsAsked :
      (tid : String) (w : TimelineWorld) → truthy tid ≡ true → IsAsked (ask_windows to_iso tid w)
  unfolding ask_windows
  ask_windows-IsAsked tid w given times h = ground arith

  times_of-fields :
      (s t : TimelineState)
      → s.is_filtering ≡ t.is_filtering
      → s.from_time ≡ t.from_time
      → s.to_time ≡ t.to_time
      → times_of to_iso s ≡ times_of to_iso t
  unfolding times_of
  times_of-fields s t f from to = rw (f, from, to) refl

  same_dependencies-times_of :
      (s t : TimelineState) → same_dependencies s t ≡ true → times_of to_iso s ≡ times_of to_iso t
  unfolding same_dependencies
  same_dependencies-times_of s t h =
      times_of-fields s t (same_flag-eq s.is_filtering t.is_filtering (ground arith))
        ((eq_iff s.from_time t.from_time).0 (ground arith))
        ((eq_iff s.to_time t.to_time).0 (ground arith))

  if-IsAsked :
      (b : Bool) (v w : TimelineWorld)
      → (b ≡ true → IsAsked v)
      → (b ≡ false → IsAsked w)
      → IsAsked (if b then v else w)
  if-IsAsked true v w h k = h refl
  if-IsAsked false v w h k = k refl

  module _ (tid : String) (given : truthy tid ≡ true) where
    rendered-IsAsked :
        (page : TimelineState) (w : TimelineWorld)
        → IsAsked w
        → IsAsked (rendered to_iso tid page w)
    unfolding rendered
    rendered-IsAsked page w h =
        let next = record w { page = page } in
        if-IsAsked (same_dependencies w.page page) next (ask_windows to_iso tid next)
          (λ same times is. h times (same_dependencies-times_of w.page page same ∙ is))
          (λ changed. ask_windows-IsAsked tid next given)

    timeline_step-IsAsked :
        (five_before : String → Option String) (event : TimelineEvent) (w : TimelineWorld)
        → IsAsked w
        → IsAsked (timeline_step to_iso five_before tid event w)
    unfolding timeline_step
    timeline_step-IsAsked five_before (type_from v) w h = rendered-IsAsked _ w h
    timeline_step-IsAsked five_before (type_to v) w h = rendered-IsAsked _ w h
    timeline_step-IsAsked five_before (click window) w h = rendered-IsAsked _ w h
    timeline_step-IsAsked five_before search w h = rendered-IsAsked _ w h
    timeline_step-IsAsked five_before five_minute_window w h = rendered-IsAsked _ w h
    timeline_step-IsAsked five_before reset w h = rendered-IsAsked _ w h
    timeline_step-IsAsked five_before tick w h =
        if-IsAsked (polls w.page) (ask_windows to_iso tid w) w
          (λ polling. ask_windows-IsAsked tid w given) (λ quiet. h)
    timeline_step-IsAsked five_before (last_five_minutes start end) w h = rendered-IsAsked _ w h
    timeline_step-IsAsked five_before (flame_answered run a) w h = rendered-IsAsked _ w h
    timeline_step-IsAsked five_before (windows_answered k reply) w h =
        rendered-IsAsked _ (record w { sent = erase_idx w.sent k }) h

    timeline_steps-IsAsked :
        (five_before : String → Option String) (events : List TimelineEvent) (w : TimelineWorld)
        → IsAsked w
        → IsAsked (timeline_steps to_iso five_before tid events w)
    unfolding timeline_steps
    timeline_steps-IsAsked five_before [] w h = h
    timeline_steps-IsAsked five_before (event ∷ events) w h =
        timeline_steps-IsAsked five_before events (timeline_step to_iso five_before tid event w)
          (timeline_step-IsAsked five_before event w h)

    -- From the opening of the timeline on, whatever the visitor does and in whatever order answers
    -- arrive: where the times that the page's fields and filter say convert, the newest request asks
    -- for them. The task id is given.
    pub timeline_open-IsAsked :
        (five_before : String → Option String) (events : List TimelineEvent) (times : Times)
        → times_of to_iso
            (timeline_steps to_iso five_before tid events (timeline_open to_iso tid)).page
          ≡ some times
        → get_elem?
            (timeline_steps to_iso five_before tid events (timeline_open to_iso tid)).asked
            0
          ≡ some times
    unfolding timeline_open
    timeline_open-IsAsked five_before events =
        timeline_steps-IsAsked five_before events (timeline_open to_iso tid)
          (ask_windows-IsAsked tid (record { page = timeline_start; asked = []; sent = [] }) given)
