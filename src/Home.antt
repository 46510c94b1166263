-- ===== src/Home.antt =====
-- web/src/pages/Home.tsx: the overview, which loads tasks and agents and creates tasks.
pub mod View
pub mod Laws
mod Tests
use mini_drop_test.Base.{
  ℕ, String, Bool, true, false, not, ◌&&◌, ◌||◌, Option, none, some, List, [], ◌∷◌, ◌++◌, truthy,
  or_else, if◌then◌else◌, value_or, take,
}
use mini_drop_test.Domain.{AgentInfo, HotmethodTask, TaskListData}
use mini_drop_test.Api.{ApiResponse, Failure, Reply, response, rejected, is_ok}
use mini_drop_test.Api.Requests.{Call, get_tasks, get_agents, create_task}
use mini_drop_test.Effects.{Effect, Run, send, navigate, alert, start_poller}
use mini_drop_test.Creation.{
  CreationState, Created, creation_start, fill_target, created_tid, task_payload, is_incomplete,
  result_address,
}

pub record HomeState : Type 0 where
  pub tasks : List HotmethodTask
  pub agents : List AgentInfo
  pub loading : Bool
  pub creation : CreationState
  pub poller : Option String

unfoldable pub home_start : HomeState
unfolding creation_start
home_start = record {
  tasks = [];
  agents = [];
  loading = true;
  creation = creation_start;
  poller = none;
}

abbrev pub hundred_tasks : Call
hundred_tasks = get_tasks (record { page = some 1; size = some 100; keyword = none })

-- `Promise.all` of the tasks and of the agents; a failure is only logged.
pub data HomeReply : Type 0 where
  answered : ApiResponse TaskListData → ApiResponse (List AgentInfo) → HomeReply
  failed : HomeReply

abbrev list_of : Option TaskListData → List HotmethodTask
list_of none = []
list_of (some data') = data'.list

take_tasks : ApiResponse TaskListData → HomeState → HomeState
take_tasks res s = if is_ok res then record s { tasks = list_of res.payload } else s

take_agents : ApiResponse (List AgentInfo) → HomeState → HomeState
unfolding fill_target
take_agents res s =
    let agents = value_or [] res.payload in
    let form = s.creation.form in
    if is_ok res
    then record s {
      agents = agents;
      creation = record (s.creation) {
        form = record form { target_ip = fill_target agents form.target_ip };
      };
    }
    else s

home_reply : HomeReply → HomeState → HomeState
unfolding take_tasks take_agents
home_reply failed s = s
home_reply (answered task_res agent_res) s = take_agents agent_res (take_tasks task_res s)

unfoldable pub fetch_data : HomeReply → HomeState → Run HomeState
unfolding home_reply
fetch_data reply s =
    (record (home_reply reply s) { loading = false }, send hundred_tasks ∷ send get_agents ∷ [])

unfoldable pub recent_tasks : HomeState → List HotmethodTask
recent_tasks s = take 3 s.tasks

abbrev finished : HomeState → HomeState
finished s = record s { creation = record (s.creation) { submitting = false } }

submit_failed : Option String → HomeState → Run HomeState
submit_failed message s = (finished s, alert (or_else message "创建任务失败") ∷ [])

follow : Option String → HomeState → Run HomeState
follow none s = (s, [])
follow (some tid) s =
    (record s { poller = some tid }, navigate (result_address tid) ∷ start_poller tid ∷ [])

-- The tasks are asked for again before the result page is opened; a failure of that request goes
-- to the handler's `catch`.
then_list : Option String → Reply TaskListData → HomeState → Run HomeState
unfolding submit_failed follow take_tasks
then_list tid (rejected e) s = submit_failed e.message s
then_list tid (response res) s = follow tid (finished (take_tasks res s))

submit_accepted : Option String → Reply TaskListData → HomeState → Run HomeState
unfolding then_list
submit_accepted tid list s =
    let (t, effects) =
      then_list tid list (record s { creation = record (s.creation) { show_create = false } }) in
    (t, send hundred_tasks ∷ effects)

submit_reply : Reply Created → Reply TaskListData → HomeState → Run HomeState
unfolding submit_failed submit_accepted
submit_reply (rejected e) list s = submit_failed e.message s
submit_reply (response res) list s =
    if is_ok res
    then submit_accepted (created_tid res.payload) list s
    else submit_failed (some (or_else res.message "创建任务失败")) s

unfoldable pub submit_task : Reply Created → Reply TaskListData → HomeState → Run HomeState
unfolding is_incomplete task_payload submit_reply
submit_task reply list s =
    if is_incomplete s.creation.form
    then (s, [])
    else let (t, effects) = submit_reply reply list s in
      (t, send (create_task (task_payload s.creation.form)) ∷ effects)
