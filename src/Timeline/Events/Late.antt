-- ===== src/Timeline/Events/Late.antt =====
-- A poll of the timeline that is answered behind the request of a filter.
use mini_drop_test.Base.{
  ℕ, zero, suc, ◌≡◌, refl, sym, ap, ◌∙◌, String, true, false, Option, none, some, List, [], ◌∷◌,
  truthy, ◌==◌, arith, eq_iff, filter, get_last?, ◌⊎◌, inl, inr,
}
use mathlib.Core.Path.{subst}
use mini_drop_test.Domain.{ContinuousWindow}
use mini_drop_test.Api.{ApiResponse, response, is_ok}
use mini_drop_test.Timeline.{TimelineState, deselect, flame_effect}
use mini_drop_test.Timeline.Windows.{time_param, windows_reply, polls, handle_search}
use mini_drop_test.Timeline.Events.{
  Times, TimelineWorld, TimelineEvent, search, tick, windows_answered, same_dependencies, times_of,
  ask_windows, rendered, timeline_step, timeline_steps,
}

abbrev pub ticks : ℕ → List TimelineEvent
ticks zero = []
ticks (suc n) = tick ∷ ticks n

-- An answer that shows its windows and selects none of them
abbrev pub Shows :
    TimelineState → ApiResponse (List ContinuousWindow) → List ContinuousWindow → Type 0
Shows seen res windows =
    (is_ok res ≡ true)
    × (res.payload ≡ some windows)
    × (((window : ContinuousWindow) × (seen.selected ≡ some window))
        ⊎ (get_last? (filter (λ w. w.status == 1) windows) ≡ none))

windows_reply-Shows :
    (seen s : TimelineState) (res : ApiResponse (List ContinuousWindow))
    (windows : List ContinuousWindow)
    → Shows seen res windows
    → (windows_reply seen (response res) s).0 ≡ record s { windows = windows }
unfolding windows_reply
windows_reply-Shows seen s res windows (ok, payload, inl (window, h)) = ground arith
windows_reply-Shows seen s res windows (ok, payload, inr h) = ground arith

same_dependencies_windows :
    (s : TimelineState) (windows : List ContinuousWindow)
    → same_dependencies s (record s { windows = windows }) ≡ true
unfolding same_dependencies
same_dependencies_windows s windows =
    ground (arith, (eq_iff s.from_time s.from_time).1 refl, (eq_iff s.to_time s.to_time).1 refl)

search_changes :
    (s : TimelineState) (window : ContinuousWindow)
    → s.selected ≡ some window
    → (same_dependencies s (handle_search s).0 ≡ false) × ((handle_search s).0.is_filtering ≡ true)
unfolding same_dependencies handle_search deselect flame_effect
search_changes s window h = ground arith

-- The windows are shown under the filter, whose request is the last one.
abbrev pub ShowsUnder : List ContinuousWindow → Times → TimelineWorld → TimelineWorld → Type 0
ShowsUnder windows times before after =
    (after.page.windows ≡ windows)
    × (after.page.is_filtering ≡ true)
    × (after.asked ≡ times ∷ (none, none) ∷ before.asked)
    × (after.sent ≡ before.sent)

module _ (to_iso five_before : String → Option String) (tid : String) where
  rendered_windows :
      (w : TimelineWorld) (windows : List ContinuousWindow)
      → rendered to_iso tid (record (w.page) { windows = windows }) w
        ≡ record w { page = record (w.page) { windows = windows } }
  unfolding rendered
  rendered_windows w windows = rw (same_dependencies_windows w.page windows) refl

  -- The newest request is answered.
  windows_answered-Shows :
      (w : TimelineWorld) (seen : TimelineState) (rest : List TimelineState)
      (res : ApiResponse (List ContinuousWindow)) (windows : List ContinuousWindow)
      → w.sent ≡ seen ∷ rest
      → Shows seen res windows
      → timeline_step to_iso five_before tid (windows_answered 0 (response res)) w
        ≡ record w { page = record (w.page) { windows = windows }; sent = rest }
  unfolding timeline_step
  windows_answered-Shows w seen rest res windows sent shown =
      rw (sent, windows_reply-Shows seen w.page res windows shown)
        (rendered_windows (record w { sent = rest }) windows)

  tick_quiet :
      (w : TimelineWorld)
      → w.page.is_filtering ≡ true
      → timeline_step to_iso five_before tid tick w ≡ w
  unfolding timeline_step polls
  tick_quiet w h = ground arith

  then_steps :
      (event : TimelineEvent) (events : List TimelineEvent) (w v u : TimelineWorld)
      → timeline_step to_iso five_before tid event w ≡ v
      → timeline_steps to_iso five_before tid events v ≡ u
      → timeline_steps to_iso five_before tid (event ∷ events) w ≡ u
  unfolding timeline_steps
  then_steps event events w v u h k = ap (timeline_steps to_iso five_before tid events) h ∙ k

  ticks_quiet :
      (n : ℕ) (w : TimelineWorld)
      → w.page.is_filtering ≡ true
      → timeline_steps to_iso five_before tid (ticks n) w ≡ w
  unfolding timeline_steps
  ticks_quiet zero w h = refl
  ticks_quiet (suc n) w h = then_steps tick (ticks n) w w w (tick_quiet w h) (ticks_quiet n w h)

  tick_asks :
      (w : TimelineWorld)
      → truthy tid ≡ true
      → w.page.is_filtering ≡ false
      → timeline_step to_iso five_before tid tick w
        ≡ record w { asked = (none, none) ∷ w.asked; sent = w.page ∷ w.sent }
  unfolding timeline_step polls ask_windows times_of time_param
  tick_asks w given quiet = ground arith

  search_asks :
      (w : TimelineWorld) (window : ContinuousWindow) (times : Times)
      → truthy tid ≡ true
      → w.page.selected ≡ some window
      → times_of to_iso (handle_search w.page).0 ≡ some times
      → timeline_step to_iso five_before tid search w ≡ record w {
        page = (handle_search w.page).0;
        asked = times ∷ w.asked;
        sent = (handle_search w.page).0 ∷ w.sent;
      }
  unfolding timeline_step rendered ask_windows
  search_asks w window times given selected converts =
      rw ((search_changes w.page window selected).0, given, converts) refl

  -- A poll is sent while a window is selected, then the visitor filters by time; the answer for the
  -- filter comes first and holds no complete window, and then the poll's: the page shows the poll's
  -- windows under the filter, and the interval asks for nothing more, however often it runs.
  pub search-late_poll :
      (w : TimelineWorld) (window : ContinuousWindow) (times : Times)
      (found polled : ApiResponse (List ContinuousWindow)) (others windows : List ContinuousWindow)
      (n : ℕ)
      → truthy tid ≡ true
      → w.page.is_filtering ≡ false
      → w.page.selected ≡ some window
      → times_of to_iso (handle_search w.page).0 ≡ some times
      → is_ok found ≡ true
      → found.payload ≡ some others
      → get_last? (filter (λ w. w.status == 1) others) ≡ none
      → is_ok polled ≡ true
      → polled.payload ≡ some windows
      → ShowsUnder windows times w (
          timeline_steps to_iso five_before tid
            (tick
              ∷ search
              ∷ windows_answered 0 (response found)
              ∷ windows_answered 0 (response polled)
              ∷ ticks n)
            w)
  search-late_poll w window times found polled others windows n given quiet selected converts ok
        payload incomplete ok' payload' =
      let page = (handle_search w.page).0 in
      let v1 = record w { asked = (none, none) ∷ w.asked; sent = w.page ∷ w.sent } in
      let v2 = record v1 { page = page; asked = times ∷ v1.asked; sent = page ∷ v1.sent } in
      let v3 = record v2 { page = record page { windows = others }; sent = v1.sent } in
      let v4 = record v3 { page = record page { windows = windows }; sent = w.sent } in
      let filtering = (search_changes w.page window selected).1 in
      subst (ShowsUnder windows times w)
        (sym (
          then_steps tick _ w v1 v4 (tick_asks w given quiet) (
            then_steps search _ v1 v2 v4 (search_asks v1 window times given selected converts) (
              then_steps (windows_answered 0 (response found)) _ v2 v3 v4
                (windows_answered-Shows v2 page v1.sent found others refl
                  (ok, payload, inr incomplete))
                (then_steps (windows_answered 0 (response polled)) (ticks n) v3 v4 v4
                  (windows_answered-Shows v3 w.page w.sent polled windows refl
                    (ok', payload', inl (window, selected)))
                  (ticks_quiet n v4 filtering))))))
        (refl, filtering, refl, refl)
