-- ===== src/TaskResult/Refresh.antt =====
-- shouldPollTask and the interval that reloads the task every three seconds: a tick that finds a
-- task which needs no polling, or no task, clears the interval for good.
use mini_drop_test.Base.{
  ℕ, suc, ◌+◌, ◌≡◌, refl, Bool, true, false, ◌&&◌, Option, none, some, List, [], ◌∷◌, ltb, ◌==◌,
  if◌then◌else◌, length, arith, All, ◌++◌, ◌<◌, ◌⊎◌, ◌↔◌, inl, inr, ap, ◌∙◌, Bool-cases,
}
use mini_drop_test.Domain.{HotmethodTask}

unfoldable pub should_poll_task : Option HotmethodTask → Bool
should_poll_task none = false
should_poll_task (some task) =
    if ltb task.status 4
    then true
    else if task.status == 4 && task.analysis_status == 1
    then true
    else false

-- Whether the interval is set, and how often a tick has reloaded the task
pub record Interval : Type 0 where
  pub set : Bool
  pub reloads : ℕ

-- One tick, with the task that `taskRef` holds then
tick : Interval → Option HotmethodTask → Interval
unfolding should_poll_task
tick s task =
    if s.set
    then if should_poll_task task
      then record s { reloads = s.reloads + 1 }
      else record s { set = false }
    else s

unfoldable pub ticks : Interval → List (Option HotmethodTask) → Interval
unfolding tick
ticks s [] = s
ticks s (task ∷ tasks) = ticks (tick s task) tasks

-- A task that is being collected, or one that is collected and being analysed
abbrev pub IsUnderWay : Option HotmethodTask → Type 0
IsUnderWay none = ⊥
IsUnderWay (some task) = (task.status < 4) ⊎ ((task.status ≡ 4) × (task.analysis_status ≡ 1))

should_poll_task-IsUnderWay :
    (found : Option HotmethodTask) → (should_poll_task found ≡ true) ↔ IsUnderWay found
unfolding should_poll_task
should_poll_task-IsUnderWay none = ground arith
should_poll_task-IsUnderWay (some task) = ground arith

-- A tick of an interval that is set
tick_under_way :
    (n : ℕ) (found : Option HotmethodTask)
    → IsUnderWay found
    → tick (record { set = true; reloads = n }) found ≡ record { set = true; reloads = n + 1 }
unfolding tick
tick_under_way n found under_way = rw ((should_poll_task-IsUnderWay found).1 under_way) refl

tick_over :
    (n : ℕ) (found : Option HotmethodTask)
    → ¬ (IsUnderWay found)
    → tick (record { set = true; reloads = n }) found ≡ record { set = false; reloads = n }
unfolding tick
tick_over n found over = elim (Bool-cases (should_poll_task found)) [
  | inl polls ↦ absurd (over ((should_poll_task-IsUnderWay found).0 polls))
  | inr quiet ↦ rw quiet refl
]

ticks-cleared :
    (n : ℕ) (tasks : List (Option HotmethodTask))
    → ticks (record { set = false; reloads = n }) tasks ≡ record { set = false; reloads = n }
unfolding ticks
ticks-cleared n [] = refl
ticks-cleared n (task ∷ tasks) = ticks-cleared n tasks

no_more : (n : ℕ) → n ≡ n + 0
no_more n = omega arith

none_before : (n : ℕ) → 0 + n ≡ n
none_before n = omega arith

add_one : (n m : ℕ) → n + 1 + m ≡ n + suc m
add_one n m = omega arith

ticks-from :
    (n : ℕ) (before after : List (Option HotmethodTask)) (found : Option HotmethodTask)
    → All IsUnderWay before
    → ¬ (IsUnderWay found)
    → ticks (record { set = true; reloads = n }) (before ++ found ∷ after)
      ≡ record { set = false; reloads = n + length before }
unfolding ticks
ticks-from n [] after found all over =
    ap (λ s. ticks s after) (tick_over n found over)
    ∙ ticks-cleared n after
    ∙ ap (λ k. record { set = false; reloads = k }) (no_more n)
ticks-from n (task ∷ before) after found (under_way, all) over =
    ap (λ s. ticks s (before ++ found ∷ after)) (tick_under_way n task under_way)
    ∙ ticks-from (n + 1) before after found all over
    ∙ ap (λ k. record { set = false; reloads = k }) (add_one n (length before))

-- The ticks of an interval find tasks that are collected or analysed, and then no task or one that
-- is neither: the task was reloaded once for each tick before that one, and the interval is cleared
-- for good, whatever the later ticks would find.
pub reloads-ticks_exact :
    (before after : List (Option HotmethodTask)) (found : Option HotmethodTask)
    → All IsUnderWay before
    → ¬ (IsUnderWay found)
    → ticks (record { set = true; reloads = 0 }) (before ++ found ∷ after)
      ≡ record { set = false; reloads = length before }
reloads-ticks_exact before after found all over =
    ticks-from 0 before after found all over
    ∙ ap (λ k. record { set = false; reloads = k }) (none_before (length before))
