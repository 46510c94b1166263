-- ===== src/Diff.antt =====
-- web/src/pages/FlameDiff.tsx: the two task ids and the request that compares them. `R` is the type
-- of the comparison's result, which the page hands to the chart.
pub mod Laws
pub mod Tree
pub mod View
pub mod Panel
pub mod Events
mod Tests
use mini_drop_test.Base.{
  ℕ, String, Bool, true, false, not, ◌&&◌, ◌||◌, Option, none, some, List, [], ◌∷◌, truthy, or_text,
  or_else, trim, str_eq, if◌then◌else◌, filter, take, map,
}
use mini_drop_test.Domain.{HotmethodTask, TaskListData}
use mini_drop_test.Api.{ApiResponse, Failure, Reply, response, rejected, is_ok, failure_text}
use mini_drop_test.Api.Requests.{flame_diff, get_tasks}
use mini_drop_test.Effects.{Effect, Run, send}

pub record TaskOption : Type 0 where
  pub tid : String
  pub name : String

module _ (R : Type 0) where
  pub record DiffState : Type 0 where
    pub tid1 : String
    pub tid2 : String
    pub loading : Bool
    pub result : Option R
    pub error : String
    pub task_options : List TaskOption

  unfoldable pub diff_start : Option String → Option String → DiffState
  diff_start tid1 tid2 = record {
    tid1 = or_else tid1 "";
    tid2 = or_else tid2 "";
    loading = false;
    result = none;
    error = "";
    task_options = [];
  }

  abbrev option_of : HotmethodTask → TaskOption
  option_of task = record { tid = task.tid; name = or_text task.name task.tid }

  options_reply : Reply TaskListData → DiffState → DiffState
  options_reply (rejected e) s = s
  options_reply (response res) s =
      if is_ok res
      then elim res.payload [
        | none ↦ s
        | some data' ↦ record s { task_options = map option_of data'.list }
      ]
      else s

  unfoldable pub load_options : Reply TaskListData → DiffState → Run DiffState
  unfolding options_reply
  load_options reply s = (
    options_reply reply s,
    send (get_tasks (record { page = some 1; size = some 50; keyword = none })) ∷ [],
  )

  diff_answer : ApiResponse R → Option R → DiffState → DiffState
  diff_answer res none s = record s { error = or_else res.message "对比失败" }
  diff_answer res (some result) s = record s { result = some result }

  pub diff_reply : Reply R → DiffState → DiffState
  unfolding diff_answer
  diff_reply (rejected e) s = record s { error = failure_text "请求失败" e }
  diff_reply (response res) s = diff_answer res (if is_ok res then res.payload else none) s

  unfoldable pub do_diff : Reply R → DiffState → Run DiffState
  unfolding diff_reply trim
  do_diff reply s =
      if not (truthy (trim s.tid1)) || not (truthy (trim s.tid2))
      then (s, [])
      else if str_eq (trim s.tid1) (trim s.tid2)
      then (record s { error = "两个任务 ID 不能相同" }, [])
      else (
        record (diff_reply reply (record s { error = ""; result = none })) { loading = false },
        send (flame_diff (trim s.tid1) (trim s.tid2)) ∷ [],
      )

  unfoldable pub swap_tids : DiffState → DiffState
  swap_tids s = record s { tid1 = s.tid2; tid2 = s.tid1; result = none }

  unfoldable pub change_tid1 : String → DiffState → DiffState
  change_tid1 v s = record s { tid1 = v; result = none; error = "" }

  unfoldable pub change_tid2 : String → DiffState → DiffState
  change_tid2 v s = record s { tid2 = v; result = none; error = "" }

  -- The tasks offered below a field that holds `value`
  unfoldable pub helper_options : String → DiffState → List TaskOption
  helper_options value s =
      let other = if str_eq value s.tid1 then s.tid2 else s.tid1 in
      take 6 (filter (λ option. not (str_eq option.tid other)) s.task_options)

  unfoldable pub can_submit : DiffState → Bool
  unfolding trim
  can_submit s = truthy (trim s.tid1) && truthy (trim s.tid2) && not s.loading
