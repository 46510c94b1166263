-- ===== src/Polling/Tests.antt =====
-- Runs of waitForTaskResult: a task that is collected, then analysed, then done.
use mini_drop_test.Base.{
  ℕ, zero, suc, ◌≤◌, ◌<◌, ◌≡◌, refl, inl, inr, true, false, [], ◌∷◌, some, none, sum_by, arith,
}
use mini_drop_test.Domain.{HotmethodTask, TaskDetailData, absent}
use mini_drop_test.Api.{response, thrown, ApiResponse}
use mini_drop_test.Polling.{
  Round, done, failed, wait_for_task_result, load_reply, load_task, trigger_analysis, update,
  collecting, analyzing,
}
use mini_drop_test.Polling.Safety.{
  Delivers, is_load, is_trigger, wait_for_task_result-triggers_once, wait_for_task_result-done,
}
use mini_drop_test.Polling.Progress.{
  IsPending, wait_for_task_result_returns, wait_for_task_result-times_out,
}

abbrev pub task_in : ℕ → ℕ → HotmethodTask
task_in status analysis_status = record {
  id = 1;
  tid = "t1";
  name = "cpu";
  type = 0;
  profiler_type = 0;
  target_ip = "10.0.0.1";
  request_params = absent;
  status = status;
  analysis_status = analysis_status;
  status_info = "";
  uid = "u1";
  user_name = "ann";
  create_time = "";
  begin_time = none;
  end_time = none;
}

abbrev detail_of : HotmethodTask → TaskDetailData
detail_of task = record {
  task = some task;
  suggestions = none;
  cos_files = none;
  state_history = none;
}

abbrev accepted : ApiResponse (Unit {0})
accepted = record { code = 0; payload = none; message = none }

abbrev round_with : HotmethodTask → Round
round_with task = record {
  aborted = false;
  detail = response (record { code = 0; payload = some (detail_of task); message = none });
  trigger = response accepted;
  abort_wait = false;
}

abbrev pub rounds : ℕ → Round
rounds zero = round_with (task_in 2 0)
rounds (suc zero) = round_with (task_in 4 0)
rounds _ = round_with (task_in 4 2)

run : wait_for_task_result "t1" rounds ≡ (
  done (task_in 4 2),
  load_task "t1"
      ∷ update (task_in 2 0) collecting
      ∷ load_task "t1"
      ∷ trigger_analysis "t1"
      ∷ update (task_in 4 0) analyzing
      ∷ load_task "t1"
      ∷ update (task_in 4 2) analyzing
      ∷ [],
)
unfolding wait_for_task_result
run = refl

collecting_IsPending : IsPending (round_with (task_in 2 0))
unfolding load_reply
collecting_IsPending = record {
  task = task_in 2 0;
  running = refl;
  is_loaded = refl;
  not_failed = omega arith;
  not_timed_out = omega arith;
  unsettled = inl (omega arith);
  reply = accepted;
  can_trigger = refl;
  waits = refl;
}

analysed_IsPending : IsPending (round_with (task_in 4 0))
unfolding load_reply
analysed_IsPending = record {
  task = task_in 4 0;
  running = refl;
  is_loaded = refl;
  not_failed = omega arith;
  not_timed_out = omega arith;
  unsettled = inr (omega arith, omega arith);
  reply = accepted;
  can_trigger = refl;
  waits = refl;
}

pub first_two : (j : ℕ) → j < 2 → IsPending (rounds j)
first_two zero h = collecting_IsPending
first_two (suc zero) h = analysed_IsPending
first_two (suc (suc j)) h = absurd (omega arith)

pub third_Delivers : Delivers rounds 2 (task_in 4 2)
unfolding load_reply
third_Delivers = (refl, refl, (omega arith, omega arith, omega arith, inl refl))

triggers_once_example : sum_by is_trigger (wait_for_task_result "t1" rounds).1 ≤ 1
triggers_once_example = wait_for_task_result-triggers_once "t1" rounds

done_example : (j : ℕ) × (j < 120) × Delivers rounds j (task_in 4 2)
unfolding wait_for_task_result
done_example = wait_for_task_result-done "t1" rounds (task_in 4 2) refl

delivers_example :
    ((wait_for_task_result "t1" rounds).0 ≡ done (task_in 4 2))
    × (sum_by is_load (wait_for_task_result "t1" rounds).1 ≡ 3)
delivers_example =
    wait_for_task_result_returns "t1" rounds 2 (task_in 4 2) (omega arith) first_two third_Delivers

times_out_example :
    ((wait_for_task_result "t1" (λ j. round_with (task_in 2 0))).0 ≡ failed (thrown "任务轮询超时"))
    × (sum_by is_load (wait_for_task_result "t1" (λ j. round_with (task_in 2 0))).1 ≡ 120)
times_out_example =
    wait_for_task_result-times_out "t1" (λ j. round_with (task_in 2 0))
      (λ j h. collecting_IsPending)

abbrev stopped : ℕ → Round
stopped zero = round_with (task_in 2 0)
stopped _ = record (round_with (task_in 2 0)) { aborted = true }

first-IsPending : (j : ℕ) → j < 1 → IsPending (stopped j)
first-IsPending zero h = collecting_IsPending
first-IsPending (suc j) h = absurd (omega arith)
