-- ===== src/TaskList.antt =====
-- web/src/pages/TaskList.tsx: the list of tasks, its pages, and the creation of a task from it.
pub mod Table
pub mod View
pub mod Laws
pub mod Pollers
pub mod Tests
use Prim.Native.String.{◌++◌}
use mini_drop_test.Base.{
  ℕ, ◌+◌, ◌-◌, ◌/◌, String, Bool, true, false, not, ◌&&◌, ◌||◌, Option, none, some, List, [], ◌∷◌,
  truthy, or_else, nonempty, if◌then◌else◌, ◌==◌, leb, value_or, filter, length, str_eq, is_empty,
}
use mathlib.Core.List
use mini_drop_test.Domain.{AgentInfo, HotmethodTask, TaskListData}
use mini_drop_test.Api.{
  ApiResponse, Failure, Reply, response, rejected, thrown, is_ok, failure_text,
}
use mini_drop_test.Api.Requests.{get_tasks, get_agents, create_task, delete_task, retry_task}
use mini_drop_test.Effects.{Effect, Run, send, navigate, alert, start_poller}
use mini_drop_test.Creation.{
  CreationState, Created, creation_start, default_form, fill_target, created_tid, task_payload,
  is_incomplete, result_address,
}

pub data ActiveView : Type 0 where
  tasks schedules : ActiveView

pub record ListState : Type 0 where
  pub search : String
  pub page : ℕ
  pub total : ℕ
  pub tasks : List HotmethodTask
  pub all_tasks : List HotmethodTask
  pub agents : List AgentInfo
  pub loading : Bool
  pub error : String
  pub creation : CreationState
  pub active_view : ActiveView
  pub poller : Option String  -- the task of `pollerRef.current`

abbrev pub page_size : ℕ
page_size = 20

unfoldable pub list_start : ListState
unfolding creation_start
list_start = record {
  search = "";
  page = 1;
  total = 0;
  tasks = [];
  all_tasks = [];
  agents = [];
  loading = true;
  error = "";
  creation = creation_start;
  active_view = ActiveView.tasks;
  poller = none;
}

-- `Promise.all` of the page and of all tasks: both answers, or the first failure.
pub data ListReply : Type 0 where
  answered : ApiResponse TaskListData → ApiResponse TaskListData → ListReply
  failed : Failure → ListReply

abbrev list_of : Option TaskListData → List HotmethodTask
list_of none = []
list_of (some data') = data'.list

abbrev total_of : Option TaskListData → ℕ
total_of none = 0
total_of (some data') = data'.total

abbrev page_of : ℕ → Option TaskListData → ℕ
page_of next none = next
page_of next (some data') = if data'.page == 0 then next else data'.page

show_page : ℕ → ApiResponse TaskListData → ListState → ListState
show_page next res s =
    if is_ok res
    then record s {
      tasks = list_of res.payload;
      total = total_of res.payload;
      page = page_of next res.payload;
    }
    else s

show_all : ApiResponse TaskListData → ListState → ListState
show_all res s = if is_ok res then record s { all_tasks = list_of res.payload } else s

list_reply : ℕ → ListReply → ListState → ListState
unfolding show_page show_all
list_reply next (answered page_res stats_res) s = show_all stats_res (show_page next page_res s)
list_reply next (failed e) s = record s { error = failure_text "任务列表加载失败" e; tasks = []; total = 0 }

unfoldable pub list_requests : ℕ → String → List Effect
list_requests next search =
    send (get_tasks (record { page = some next; size = some page_size; keyword = nonempty search }))
    ∷ send (get_tasks (record { page = some 1; size = some 10000; keyword = none }))
    ∷ []

unfoldable pub load_tasks : ListReply → ℕ → ListState → Run ListState
unfolding list_reply list_requests
load_tasks reply next s = (
  record (list_reply next reply (record s { error = "" })) { loading = false },
  list_requests next s.search,
)

agents_reply : Reply (List AgentInfo) → List AgentInfo
agents_reply (rejected e) = []
agents_reply (response res) = if is_ok res then value_or [] res.payload else []

unfoldable pub load_agents : Reply (List AgentInfo) → ListState → Run ListState
unfolding agents_reply fill_target
load_agents reply s =
    let agents = agents_reply reply in
    let form = s.creation.form in
    (
      record s {
        agents = agents;
        creation = record (s.creation) {
          form = record form { target_ip = fill_target agents form.target_ip };
        };
      },
      send get_agents ∷ [],
    )

unfoldable pub change_view : Option String → ListState → ListState
change_view none s = record s { active_view = ActiveView.tasks }
change_view (some view) s = record s {
  active_view = if str_eq view "schedules" then schedules else ActiveView.tasks;
}

create_failed : Option String → ListState → Run ListState
create_failed message s = (
  record s { creation = record (s.creation) { submitting = false } },
  alert (or_else message "创建任务失败") ∷ [],
)

follow : Option String → ListState → Run ListState
follow none s = (s, [])
follow (some tid) s =
    (record s { poller = some tid }, navigate (result_address tid) ∷ start_poller tid ∷ [])

abbrev also : List Effect → Run ListState → Run ListState
also before (s, effects) = (s, List.◌++◌ before effects)

-- The dialog is closed, the form starts again with its target, and the first page is loaded.
create_accepted : Option String → ListReply → ListState → Run ListState
unfolding default_form follow load_tasks
create_accepted tid list s =
    let form = record default_form { target_ip = s.creation.form.target_ip } in
    let closed = record s {
      creation = record (s.creation) { show_create = false; submitting = false; form = form };
    } in
    let (loaded, requests) = load_tasks list 1 closed in also requests (follow tid loaded)

create_reply : Reply Created → ListReply → ListState → Run ListState
unfolding create_accepted create_failed
create_reply (rejected e) list s = create_failed e.message s
create_reply (response res) list s =
    if is_ok res
    then create_accepted (created_tid res.payload) list s
    else create_failed (some (or_else res.message "创建任务失败")) s

unfoldable pub submit_create : Reply Created → ListReply → ListState → Run ListState
unfolding is_incomplete task_payload create_reply
submit_create reply list s =
    if is_incomplete s.creation.form
    then (s, [])
    else also (send (create_task (task_payload s.creation.form)) ∷ []) (create_reply reply list s)

-- A rejected request leaves the handler by its exception: the list is not loaded again.
unfoldable pub remove_task :
    Bool → String → Reply (Unit {0}) → ListReply → ListState → Run ListState
unfolding load_tasks
remove_task confirmed tid (rejected e) list s =
    if confirmed then (s, send (delete_task tid) ∷ []) else (s, [])
remove_task confirmed tid (response res) list s =
    if confirmed then also (send (delete_task tid) ∷ []) (load_tasks list s.page s) else (s, [])

unfoldable pub retry : String → Reply (Unit {0}) → ListReply → ListState → Run ListState
unfolding load_tasks
retry tid (rejected e) list s = (s, send (retry_task tid) ∷ [])
retry tid (response res) list s = also (send (retry_task tid) ∷ []) (load_tasks list 1 s)
