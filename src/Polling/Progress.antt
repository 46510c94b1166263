-- ===== src/Polling/Progress.antt =====
-- When waitForTaskResult ends, and how: it delivers as soon as a round settles, times out after 120
-- rounds that do not, and stops at an abort.
use mini_drop_test.Base.{
  ℕ, zero, suc, ◌+◌, ◌-◌, ◌<◌, ◌≡◌, refl, ◌≢◌, ◌⊎◌, ap, ◌∙◌, String, Bool, true, false, List, [],
  ◌++◌, sum_by, sum_by-append, arith, ltb, ◌==◌, if◌then◌else◌,
}
use native.Mathlib.Nat.{zero-add, add-zero}
use mini_drop_test.Domain.{HotmethodTask}
use mini_drop_test.Api.{response, thrown, ApiResponse}
use mini_drop_test.Polling.{
  Round, Event, done, finish, go_on, abort_error, failed, resume, Verdict, Outcome, loaded,
  load_reply, poll_round, poll, wait_for_task_result,
}
use mini_drop_test.Polling.Safety.{Delivers, is_load}

-- A round after which the loop goes on: the task is loaded, has not failed, and is not settled; the
-- analysis can be started; nobody aborts.
pub record IsPending (round : Round) : Type 0 where
  pub task : HotmethodTask
  pub running : round.aborted ≡ false
  pub is_loaded : load_reply round.detail ≡ loaded task
  pub not_failed : task.status ≢ 5
  pub not_timed_out : task.status ≢ 6
  pub unsettled : (task.status < 4) ⊎ ((task.analysis_status ≢ 2) × (task.analysis_status ≢ 3))
  pub reply : ApiResponse (Unit {0})
  pub can_trigger : round.trigger ≡ response reply
  pub waits : round.abort_wait ≡ false

-- The flag `analysisTriggered` after a pending round
abbrev next_flag : HotmethodTask → Bool → Bool
next_flag task flag =
    if ltb task.status 4 then flag else if task.analysis_status == 0 then true else flag

poll_round-pending :
    (tid : String) (round : Round) (flag : Bool) (p : IsPending round)
    → (poll_round tid round flag).0 ≡ go_on (next_flag p.task flag)
unfolding poll_round
poll_round-pending tid round flag p = ground arith

poll_round-pending_loads :
    (tid : String) (round : Round) (flag : Bool)
    → IsPending round
    → sum_by is_load (poll_round tid round flag).1 ≡ 1
unfolding poll_round
poll_round-pending_loads tid round flag p = ground arith

poll_round-settled :
    (tid : String) (rounds : ℕ → Round) (i : ℕ) (flag : Bool) (task : HotmethodTask)
    → Delivers rounds i task
    → (poll_round tid (rounds i) flag).0 ≡ finish (done task)
unfolding poll_round
poll_round-settled tid rounds i flag task d = ground arith

poll_round-aborted :
    (tid : String) (round : Round) (flag : Bool)
    → round.aborted ≡ true
    → poll_round tid round flag ≡ (finish abort_error, [])
unfolding poll_round
poll_round-aborted tid round flag h = ground arith

resume-go_on :
    (verdict : Verdict) (events : List Event) (rest : Bool → Outcome × List Event) (flag : Bool)
    → verdict ≡ go_on flag
    → resume verdict events rest ≡ ((rest flag).0, events ++ (rest flag).1)
unfolding resume
resume-go_on verdict events rest flag h = rw h

resume-finish :
    (verdict : Verdict) (events : List Event) (rest : Bool → Outcome × List Event) (o : Outcome)
    → verdict ≡ finish o
    → resume verdict events rest ≡ (o, events)
unfolding resume
resume-finish verdict events rest o h = rw h

-- After `k` pending rounds the loop stands before round `i + k`, having loaded the task `k` times.
poll-pending :
    (tid : String) (rounds : ℕ → Round) (k left i : ℕ) (flag : Bool)
    → ((j : ℕ) → j < k → IsPending (rounds (i + j)))
    → (next : Bool) × ((poll tid rounds (k + left) i flag).0
        ≡ (poll tid rounds left (i + k) next).0)
      × (sum_by is_load (poll tid rounds (k + left) i flag).1
          ≡ k + sum_by is_load (poll tid rounds left (i + k) next).1)
unfolding poll
poll-pending tid rounds zero left i flag p = rw (zero-add, add-zero) (flag, refl, omega arith)
poll-pending tid rounds (suc k) left i flag p =
    let here = rw add-zero at (p 0 (omega arith)) in
    let next = next_flag here.task flag in
    let unfold_round =
      resume-go_on (poll_round tid (rounds i) flag).0 (poll_round tid (rounds i) flag).1
        (poll tid rounds (k + left) (suc i)) next (poll_round-pending tid (rounds i) flag here) in
    let shift = λ (j : ℕ). let e : i + suc j ≡ suc i + j = omega arith in e in
    let (final, outcome, loads) =
      poll-pending tid rounds k left (suc i) next (λ j h. rw shift at (p (suc j) (omega arith))) in
    let more : suc k + left ≡ suc (k + left) = omega arith in
    rw (more, shift)
      (
        final,
        ap (λ r. r.0) unfold_round ∙ outcome,
        ap (λ r. sum_by is_load r.1) unfold_round
            ∙ omega (
              arith,
              loads,
              poll_round-pending_loads tid (rounds i) flag here,
              sum_by-append is_load (poll_round tid (rounds i) flag).1
                  (poll tid rounds (k + left) (suc i) next).1,
            ),
      )

poll-settled :
    (tid : String) (rounds : ℕ → Round) (left i : ℕ) (flag : Bool) (task : HotmethodTask)
    → Delivers rounds i task
    → ((poll tid rounds (suc left) i flag).0 ≡ done task)
      × (sum_by is_load (poll tid rounds (suc left) i flag).1 ≡ 1)
unfolding poll poll_round resume
poll-settled tid rounds left i flag task d = (ground arith, ground arith)

poll-aborted :
    (tid : String) (rounds : ℕ → Round) (left i : ℕ) (flag : Bool)
    → (rounds i).aborted ≡ true
    → ((poll tid rounds (suc left) i flag).0 ≡ abort_error)
      × (sum_by is_load (poll tid rounds (suc left) i flag).1 ≡ 0)
unfolding poll poll_round resume
poll-aborted tid rounds left i flag h = (ground arith, ground arith)

poll-exhausted :
    (tid : String) (rounds : ℕ → Round) (i : ℕ) (flag : Bool)
    → ((poll tid rounds 0 i flag).0 ≡ failed (thrown "任务轮询超时"))
      × (sum_by is_load (poll tid rounds 0 i flag).1 ≡ 0)
unfolding poll
poll-exhausted tid rounds i flag = (refl, refl)

-- If the rounds before round `i` of the 120 are pending and round `i` delivers a settled task, that
-- task is the result, after exactly `i + 1` requests for the task's detail.
pub wait_for_task_result_returns :
    (tid : String) (rounds : ℕ → Round) (i : ℕ) (task : HotmethodTask)
    → i < 120
    → ((j : ℕ) → j < i → IsPending (rounds j))
    → Delivers rounds i task
    → ((wait_for_task_result tid rounds).0 ≡ done task)
      × (sum_by is_load (wait_for_task_result tid rounds).1 ≡ i + 1)
unfolding wait_for_task_result
wait_for_task_result_returns tid rounds i task h pending delivers =
    let (flag, outcome, loads) =
      poll-pending tid rounds i (suc (119 - i)) 0 false (λ j b. rw zero-add (pending j b)) in
    let (ends, asked) = poll-settled tid rounds (119 - i) i flag task delivers in
    let all_rounds : i + suc (119 - i) ≡ 120 = omega arith in
    let start : 0 + i ≡ i = omega arith in
    ((rw (all_rounds, start) at outcome) ∙ ends, (rw (all_rounds, start, asked) at loads))

-- If all 120 rounds are pending, the wait fails with the time-out text, after 120 requests.
pub wait_for_task_result-times_out :
    (tid : String) (rounds : ℕ → Round)
    → ((j : ℕ) → j < 120 → IsPending (rounds j))
    → ((wait_for_task_result tid rounds).0 ≡ failed (thrown "任务轮询超时"))
      × (sum_by is_load (wait_for_task_result tid rounds).1 ≡ 120)
unfolding wait_for_task_result
wait_for_task_result-times_out tid rounds pending =
    let (flag, outcome, loads) =
      poll-pending tid rounds 120 0 0 false (λ j b. rw zero-add (pending j b)) in
    let (ends, asked) = poll-exhausted tid rounds 120 flag in
    (outcome ∙ ends, loads ∙ omega (arith, asked))

-- If the rounds before round `i` of the 120 are pending and the signal is aborted at the start of
-- round `i`, the wait ends with the abort error, and no further request is sent.
pub wait_for_task_result-aborts :
    (tid : String) (rounds : ℕ → Round) (i : ℕ)
    → i < 120
    → ((j : ℕ) → j < i → IsPending (rounds j))
    → (rounds i).aborted ≡ true
    → ((wait_for_task_result tid rounds).0 ≡ abort_error)
      × (sum_by is_load (wait_for_task_result tid rounds).1 ≡ i)
unfolding wait_for_task_result
wait_for_task_result-aborts tid rounds i h pending aborted =
    let (flag, outcome, loads) =
      poll-pending tid rounds i (suc (119 - i)) 0 false (λ j b. rw zero-add (pending j b)) in
    let (ends, asked) = poll-aborted tid rounds (119 - i) i flag aborted in
    let all_rounds : i + suc (119 - i) ≡ 120 = omega arith in
    let start : 0 + i ≡ i = omega arith in
    (
      (rw (all_rounds, start) at outcome) ∙ ends,
      (rw (all_rounds, start) at loads) ∙ omega (arith, asked),
    )
