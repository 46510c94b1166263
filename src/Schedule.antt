-- ===== src/Schedule.antt =====
-- web/src/components/ScheduleTasksPanel.tsx: the scheduled tasks and the form that adds one.
pub mod View
pub mod Laws
mod Tests
use mini_drop_test.Base.{
  ℕ, String, Bool, true, false, not, ◌&&◌, ◌||◌, Option, none, some, List, [], ◌∷◌, ◌++◌, truthy,
  trim, if◌then◌else◌, value_or, filter, find?, length, ℤ, pos, int, num_truthy, num_or,
}
use mini_drop_test.Domain.{AgentInfo, HotmethodTask, CreateScheduleTaskParams}
use mini_drop_test.Api.{ApiResponse, Failure, Reply, response, rejected, is_ok, failure_text}
use mini_drop_test.Api.Requests.{get_schedule_tasks, create_schedule_task, delete_schedule_task}
use mini_drop_test.Effects.{Effect, Run, also, send}
use mini_drop_test.Creation.{fill_target}

pub record PanelState : Type 0 where
  pub tasks : List HotmethodTask
  pub form : CreateScheduleTaskParams
  pub loading : Bool
  pub submitting : Bool
  pub error : String
  pub message : String

unfoldable pub default_form : CreateScheduleTaskParams
default_form = record {
  task_name = "";
  type = 0;
  profiler_type = 0;
  target_ip = "";
  pid = int (pos 0);
  duration = int (pos 30);
  hz = int (pos 99);
  callgraph = "dwarf";
  cron_expr = "0 * * * *";
}

unfoldable pub panel_start : PanelState
unfolding default_form
panel_start = record {
  tasks = [];
  form = default_form;
  loading = true;
  submitting = false;
  error = "";
  message = "";
}

unfoldable pub online_agents : List AgentInfo → List AgentInfo
online_agents agents = filter (λ agent. agent.online) agents

load_reply : Reply (List HotmethodTask) → PanelState → PanelState
load_reply (rejected e) s = record s { error = failure_text "定时任务加载失败" e }
load_reply (response res) s = if is_ok res then record s { tasks = value_or [] res.payload } else s

unfoldable pub load : Reply (List HotmethodTask) → PanelState → Run PanelState
unfolding load_reply
load reply s = (
  record (load_reply reply (record s { error = "" })) { loading = false },
  send get_schedule_tasks ∷ [],
)

-- The effect that runs when the agents change
unfoldable pub take_agents : List AgentInfo → PanelState → PanelState
unfolding fill_target
take_agents agents s =
    let form = s.form in
    record s { form = record form { target_ip = fill_target agents form.target_ip } }

unfoldable pub can_submit : PanelState → Bool
unfolding trim
can_submit s =
    truthy (trim s.form.task_name)
    && truthy s.form.target_ip
    && num_truthy s.form.pid
    && num_truthy s.form.duration
    && truthy (trim s.form.cron_expr)
    && not s.submitting

unfoldable pub schedule_payload : CreateScheduleTaskParams → CreateScheduleTaskParams
unfolding trim
schedule_payload form = record form {
  task_name = trim form.task_name;
  hz = num_or form.hz (int (pos 99));
  cron_expr = trim form.cron_expr;
}

abbrev cleared : PanelState → PanelState
cleared s = record s { error = ""; message = "" }

schedule_created : Reply (Unit {0}) → Reply (List HotmethodTask) → PanelState → Run PanelState
unfolding load default_form
schedule_created (rejected e) list s = (record s { error = failure_text "创建定时任务失败" e }, [])
schedule_created (response res) list s =
    let form = record default_form { target_ip = s.form.target_ip } in
    load list (record s { message = "定时任务已创建"; form = form })

abbrev submitted : Run PanelState → Run PanelState
submitted (s, effects) = (record s { submitting = false }, effects)

unfoldable pub submit : Reply (Unit {0}) → Reply (List HotmethodTask) → PanelState → Run PanelState
unfolding can_submit schedule_payload schedule_created
submit reply list s =
    if can_submit s
    then submitted (
        also (send (create_schedule_task (schedule_payload s.form)))
          (schedule_created reply list (cleared s)))
    else (s, [])

schedule_deleted : Reply (Unit {0}) → Reply (List HotmethodTask) → PanelState → Run PanelState
unfolding load
schedule_deleted (rejected e) list s = (record s { error = failure_text "删除定时任务失败" e }, [])
schedule_deleted (response res) list s = load list (record s { message = "定时任务已删除" })

unfoldable pub remove :
    Bool → String → Reply (Unit {0}) → Reply (List HotmethodTask) → PanelState → Run PanelState
unfolding schedule_deleted
remove confirmed tid reply list s =
    if confirmed
    then also (send (delete_schedule_task tid)) (schedule_deleted reply list (cleared s))
    else (s, [])
