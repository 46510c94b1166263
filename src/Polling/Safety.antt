-- ===== src/Polling/Safety.antt =====
-- What every run of waitForTaskResult keeps to, whatever the server answers.
use mini_drop_test.Base.{
  ℕ, zero, suc, ◌+◌, ◌≤◌, ◌<◌, ◌≡◌, ◌≢◌, ◌⊎◌, inl, inr, ap, String, Bool, true, false, List, sum_by,
  sum_by-append, arith,
}
use mini_drop_test.Domain.{HotmethodTask}
use mini_drop_test.Polling.{
  Round, Event, load_task, trigger_analysis, done, finish, go_on, Verdict, Outcome, loaded,
  load_reply, poll_round, poll, max_poll_count, wait_for_task_result, resume,
}

abbrev pub is_trigger : Event → ℕ
is_trigger (trigger_analysis tid) = 1
is_trigger _ = 0

abbrev pub is_load : Event → ℕ
is_load (load_task tid) = 1
is_load _ = 0

-- How many analyses a loop with this flag may still start
abbrev may_trigger : Bool → ℕ
may_trigger true = 0
may_trigger false = 1

abbrev left_to_trigger : Verdict → ℕ
left_to_trigger (finish o) = 0
left_to_trigger (go_on flag) = may_trigger flag

poll_round-triggers :
    (tid : String) (round : Round) (flag : Bool)
    → sum_by is_trigger (poll_round tid round flag).1
        + left_to_trigger (poll_round tid round flag).0
      ≤ may_trigger flag
unfolding poll_round
poll_round-triggers tid round true = ground arith
poll_round-triggers tid round false = ground arith

resume-triggers :
    (verdict : Verdict) (events : List Event) (rest : Bool → Outcome × List Event) (n : ℕ)
    → sum_by is_trigger events + left_to_trigger verdict ≤ n
    → ((flag : Bool) → sum_by is_trigger (rest flag).1 ≤ may_trigger flag)
    → sum_by is_trigger (resume verdict events rest).1 ≤ n
unfolding resume
resume-triggers (finish o) events rest n h later = omega arith
resume-triggers (go_on flag) events rest n h later =
    omega (arith, later flag, sum_by-append is_trigger events (rest flag).1)

poll-triggers :
    (tid : String) (rounds : ℕ → Round) (left i : ℕ) (flag : Bool)
    → sum_by is_trigger (poll tid rounds left i flag).1 ≤ may_trigger flag
unfolding poll
poll-triggers tid rounds zero i flag = omega arith
poll-triggers tid rounds (suc left) i flag =
    resume-triggers _ _ _ _ (poll_round-triggers tid (rounds i) flag)
      (poll-triggers tid rounds left (suc i))

poll_round-loads :
    (tid : String) (round : Round) (flag : Bool) → sum_by is_load (poll_round tid round flag).1 ≤ 1
unfolding poll_round
poll_round-loads tid round flag = ground arith

resume-loads :
    (verdict : Verdict) (events : List Event) (rest : Bool → Outcome × List Event) (n : ℕ)
    → sum_by is_load events ≤ 1
    → ((flag : Bool) → sum_by is_load (rest flag).1 ≤ n)
    → sum_by is_load (resume verdict events rest).1 ≤ suc n
unfolding resume
resume-loads (finish o) events rest n h later = omega arith
resume-loads (go_on flag) events rest n h later =
    omega (arith, later flag, sum_by-append is_load events (rest flag).1)

poll-loads :
    (tid : String) (rounds : ℕ → Round) (left i : ℕ) (flag : Bool)
    → sum_by is_load (poll tid rounds left i flag).1 ≤ left
unfolding poll
poll-loads tid rounds zero i flag = omega arith
poll-loads tid rounds (suc left) i flag =
    resume-loads _ _ _ _ (poll_round-loads tid (rounds i) flag) (poll-loads tid rounds left (suc i))

-- The analysis of the task is started at most once, whatever the server answers and for however
-- long the polling goes on.
pub wait_for_task_result-triggers_once :
    (tid : String) (rounds : ℕ → Round) → sum_by is_trigger (wait_for_task_result tid rounds).1 ≤ 1
unfolding wait_for_task_result
wait_for_task_result-triggers_once tid rounds = poll-triggers tid rounds max_poll_count 0 false

-- The task's detail is requested at most 120 times.
pub wait_for_task_result-loads_le :
    (tid : String) (rounds : ℕ → Round) → sum_by is_load (wait_for_task_result tid rounds).1 ≤ 120
unfolding wait_for_task_result
wait_for_task_result-loads_le tid rounds = poll-loads tid rounds max_poll_count 0 false

-- The task has been collected and its analysis is over, with success or failure.
abbrev pub IsSettled : HotmethodTask → Type 0
IsSettled task =
    (4 ≤ task.status)
    × (task.status ≢ 5)
    × (task.status ≢ 6)
    × ((task.analysis_status ≡ 2) ⊎ (task.analysis_status ≡ 3))

resume-done :
    (verdict : Verdict) (events : List Event) (rest : Bool → Outcome × List Event)
    (task : HotmethodTask)
    → (resume verdict events rest).0 ≡ done task
    → (verdict ≡ finish (done task)) ⊎ ((flag : Bool) × ((rest flag).0 ≡ done task))
unfolding resume
resume-done (finish o) events rest task h = inl (ap finish h)
resume-done (go_on flag) events rest task h = inr (flag, h)

poll_round-done :
    (tid : String) (round : Round) (flag : Bool) (task : HotmethodTask)
    → (poll_round tid round flag).0 ≡ finish (done task)
    → (round.aborted ≡ false) × (load_reply round.detail ≡ loaded task) × IsSettled task
unfolding poll_round
poll_round-done tid round flag task h = ground arith

-- Round `i` loaded the task, not aborted, and the task is settled.
abbrev pub Delivers : (ℕ → Round) → ℕ → HotmethodTask → Type 0
Delivers rounds i task =
    ((rounds i).aborted ≡ false) × (load_reply (rounds i).detail ≡ loaded task) × IsSettled task

poll-done :
    (tid : String) (rounds : ℕ → Round) (left i : ℕ) (flag : Bool) (task : HotmethodTask)
    → (poll tid rounds left i flag).0 ≡ done task
    → (j : ℕ) × (j < i + left) × Delivers rounds j task
unfolding poll
poll-done tid rounds zero i flag task h = cc
poll-done tid rounds (suc left) i flag task h = elim (resume-done _ _ _ task h) [
  | inl now ↦ (i, omega arith, poll_round-done tid (rounds i) flag task now)
  | inr (next, later) ↦
      let (j, below, delivers) = poll-done tid rounds left (suc i) next task later in
      (j, omega arith, delivers)
]

-- A task is returned only if one of the 120 rounds, not aborted at its start, loaded that very task
-- with its collection over, neither failed nor timed out, and its analysis completed or failed.
pub wait_for_task_result-done :
    (tid : String) (rounds : ℕ → Round) (task : HotmethodTask)
    → (wait_for_task_result tid rounds).0 ≡ done task
    → (j : ℕ) × (j < 120) × Delivers rounds j task
unfolding wait_for_task_result
wait_for_task_result-done tid rounds task h = poll-done tid rounds max_poll_count 0 false task h
