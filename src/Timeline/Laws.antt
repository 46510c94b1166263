-- ===== src/Timeline/Laws.antt =====
-- What a selection guards against late answers, and what it does not reset.
use mini_drop_test.Base.{
  ℕ, ◌+◌, ◌≡◌, refl, ap, ◌∙◌, String, true, false, Option, none, some, List, [], ◌∷◌, truthy, arith,
  All, ◌==◌, filter, get_last?, ◌≤◌,
}
use mini_drop_test.Domain.{ContinuousWindow}
use mini_drop_test.Api.{ApiResponse, response, is_ok}
use mini_drop_test.Timeline.{TimelineState, Answer, select, answers}
use mini_drop_test.Timeline.Windows.{fetch_windows}
use mini_drop_test.Timeline.View.{view, waiting}

-- The answer belongs to the run of that number or to an earlier one.
abbrev pub IsUpTo : ℕ → ℕ × Answer → Type 0
IsUpTo run (k, a) = k ≤ run

answers-dropped :
    (run : ℕ) (list : List (ℕ × Answer)) (s : TimelineState)
    → run + 1 ≤ s.run
    → All (IsUpTo run) list
    → answers list s ≡ (s, [])
unfolding answers
answers-dropped run [] s h older = refl
answers-dropped run ((k, a) ∷ list) s h (older, rest) =
    ground (arith, answers-dropped run list s h rest)

select_run : (window : ContinuousWindow) (s : TimelineState) → (select window s).0.run ≡ s.run + 1
unfolding select
select_run window s = ground arith

-- After a window is selected, no answer for an earlier selection changes the page or sends a
-- request, however many of them arrive and in whatever order.
pub select-answers :
    (window : ContinuousWindow) (list : List (ℕ × Answer)) (s : TimelineState)
    → All (IsUpTo s.run) list
    → answers list (select window s).0 ≡ ((select window s).0, [])
select-answers window list s h =
    answers-dropped s.run list (select window s).0 (omega (arith, select_run window s)) h

select_waits :
    (before window : ContinuousWindow) (s : TimelineState)
    → truthy before.cos_key ≡ true
    → (before.status == 1) ≡ true
    → (window.status == 1) ≡ false
    → view (select window (select before s).0).0 ≡ waiting
unfolding select view
select_waits before window s key done other = ground arith

-- A complete window with a key is selected, and then one that is not complete: the page is in its
-- loading view, whatever arrives for the selections up to the first of the two.
pub select-stays_loading :
    (before window : ContinuousWindow) (list : List (ℕ × Answer)) (s : TimelineState)
    → truthy before.cos_key ≡ true
    → (before.status == 1) ≡ true
    → (window.status == 1) ≡ false
    → All (IsUpTo (select before s).0.run) list
    → view (answers list (select window (select before s).0).0).0 ≡ waiting
select-stays_loading before window list s key done other h =
    ap (λ r. view r.0) (select-answers window list (select before s).0 h)
    ∙ select_waits before window s key done other

-- For a given task id, where nothing is filtered and nothing was selected, an answer with code 0
-- and windows shows them and selects the last one that is complete, if there is one.
pub fetch_windows-selects_last :
    (to_iso : String → Option String) (tid : String) (seen s : TimelineState)
    (res : ApiResponse (List ContinuousWindow)) (windows : List ContinuousWindow)
    (last : ContinuousWindow)
    → truthy tid ≡ true
    → seen.is_filtering ≡ false
    → seen.selected ≡ none
    → is_ok res ≡ true
    → res.payload ≡ some windows
    → get_last? (filter (λ w. w.status == 1) windows) ≡ some last
    → ((fetch_windows to_iso tid seen (response res) s).0.windows ≡ windows)
      × ((fetch_windows to_iso tid seen (response res) s).0.selected ≡ some last)
unfolding fetch_windows select
fetch_windows-selects_last to_iso tid seen s res windows last h f n ok payload done = ground arith
