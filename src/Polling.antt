-- ===== src/Polling.antt =====
-- web/src/taskPolling.ts: waitForTaskResult polls a task until its analysis is over. What the
-- server and the abort signal do in each round is a parameter; a round that waits is followed by
-- the next.
pub mod Safety
pub mod Progress
pub mod Tests
use mini_drop_test.Base.{
  ℕ, zero, suc, ◌+◌, String, Bool, true, false, not, ◌&&◌, ◌||◌, Option, none, some, List, [], ◌∷◌,
  ◌++◌, ltb, ◌==◌, if◌then◌else◌, or_text, or_else,
}
use mini_drop_test.Domain.{HotmethodTask, TaskDetailData}
use mini_drop_test.Api.{ApiResponse, Failure, Reply, response, rejected, thrown, is_ok}

abbrev pub max_poll_count : ℕ
max_poll_count = 120

pub data TaskPollPhase : Type 0 where
  collecting analyzing : TaskPollPhase

-- What the world does in one round: whether the signal is aborted at its start, the replies to
-- `getTaskDetail` and to `triggerAnalysis`, and whether the signal is aborted before the wait ends.
pub record Round : Type 0 where
  pub aborted : Bool
  pub detail : Reply TaskDetailData
  pub trigger : Reply (Unit {0})
  pub abort_wait : Bool

pub data Event : Type 0 where
  load_task : String → Event
  trigger_analysis : String → Event
  update : HotmethodTask → TaskPollPhase → Event  -- `onUpdate`

pub data Outcome : Type 0 where
  done : HotmethodTask → Outcome
  abort_error : Outcome
  failed : Failure → Outcome

-- A round ends the loop, or goes on with the flag `analysisTriggered`.
pub data Verdict : Type 0 where
  finish : Outcome → Verdict
  go_on : Bool → Verdict

pub data Loaded : Type 0 where
  loaded : HotmethodTask → Loaded
  load_failed : Failure → Loaded

-- `wait`: an abort before or during the delay rejects the promise.
abbrev after_wait : Round → Bool → Verdict
after_wait round triggered = if round.abort_wait then finish abort_error else go_on triggered

abbrev task_of : Option TaskDetailData → Option HotmethodTask
task_of none = none
task_of (some d) = d.task

abbrev check_task : Bool → Option String → Option HotmethodTask → Loaded
check_task true message (some task) = loaded task
check_task _ message _ = load_failed (thrown (or_else message "任务状态加载失败"))

unfoldable pub load_reply : Reply TaskDetailData → Loaded
load_reply (rejected e) = load_failed e
load_reply (response res) = check_task (is_ok res) res.message (task_of res.payload)

failed_text : HotmethodTask → String
failed_text task = or_text task.status_info (if task.status == 6 then "任务超时" else "任务执行失败")

-- The round from `onUpdate(task, 'analyzing')` on
abbrev finish_analyzing : HotmethodTask → Round → Bool → Verdict
finish_analyzing task round triggered =
    if task.analysis_status == 2 || task.analysis_status == 3
    then finish (done task)
    else after_wait round triggered

abbrev analyze : String → HotmethodTask → Round → Bool → Verdict × List Event
analyze tid task round triggered =
    if not triggered && task.analysis_status == 0
    then elim round.trigger [
      | rejected e ↦ (finish (failed e), trigger_analysis tid ∷ [])
      | response _ ↦
          (finish_analyzing task round true, trigger_analysis tid ∷ update task analyzing ∷ [])
    ]
    else (finish_analyzing task round triggered, update task analyzing ∷ [])

abbrev with_task : String → Round → Bool → Loaded → Verdict × List Event
with_task tid round triggered (load_failed e) = (finish (failed e), [])
with_task tid round triggered (loaded task) =
    if task.status == 5 || task.status == 6
    then (finish (failed (thrown (failed_text task))), [])
    else if ltb task.status 4
    then (after_wait round triggered, update task collecting ∷ [])
    else analyze tid task round triggered

-- The body of the `for` loop
pub poll_round : String → Round → Bool → Verdict × List Event
unfolding load_reply failed_text
poll_round tid round triggered =
    if round.aborted
    then (finish abort_error, [])
    else let (verdict, events) = with_task tid round triggered (load_reply round.detail) in
      (verdict, load_task tid ∷ events)

-- What a round's verdict means for the loop; `rest` runs the rounds after it.
pub resume : Verdict → List Event → (Bool → Outcome × List Event) → Outcome × List Event
resume (finish outcome) events rest = (outcome, events)
resume (go_on flag) events rest = let (outcome, later) = rest flag in (outcome, events ++ later)

-- The loop with `left` rounds to go, of which the next is number `i`
pub poll : String → (ℕ → Round) → ℕ → ℕ → Bool → Outcome × List Event
unfolding resume
poll tid rounds zero i triggered = (failed (thrown "任务轮询超时"), [])
poll tid rounds (suc left) i triggered =
    let (verdict, events) = poll_round tid (rounds i) triggered in
    resume verdict events (poll tid rounds left (suc i))

unfoldable pub wait_for_task_result : String → (ℕ → Round) → Outcome × List Event
unfolding poll poll_round
wait_for_task_result tid rounds = poll tid rounds max_poll_count 0 false
