-- ===== src/Schedule/View.antt =====
-- web/src/components/ScheduleTasksPanel.tsx: the fields of the form, the counters and the table.
-- `none` for a view is the TypeError that reading a field of null throws.
use Prim.Native.String.{◌++◌}
use mini_drop_test.Base.{
  ℕ, zero, String, Bool, true, false, Option, none, some, List, [], ◌∷◌, map, filter, length,
  is_empty, truthy, or_text, if◌then◌else◌, show, Number,
}
use mini_drop_test.Domain.{AgentInfo, HotmethodTask, CreateScheduleTaskParams, TaskParams}
use mini_drop_test.Domain.Maps.{task_type_map}
use mini_drop_test.Domain.Params.{Parsed, parse_task_params}
use mini_drop_test.Domain.Format.{format_date}
use mini_drop_test.Schedule.{PanelState, online_agents}

pub data Field : Type 0 where
  task_name target_ip cron_expr : String → Field
  pid duration hz : Number → Field

with_field : Field → CreateScheduleTaskParams → CreateScheduleTaskParams
with_field (task_name v) form = record form { task_name = v }
with_field (target_ip v) form = record form { target_ip = v }
with_field (cron_expr v) form = record form { cron_expr = v }
with_field (pid x) form = record form { pid = x }
with_field (duration x) form = record form { duration = x }
with_field (hz x) form = record form { hz = x }

unfoldable pub change_field : Field → PanelState → PanelState
unfolding with_field
change_field field s = record s { form = with_field field s.form }

-- The line above the counters, and whether it is an error
unfoldable pub notice_line : PanelState → Option (String × Bool)
notice_line s =
    if truthy s.error
    then some (s.error, true)
    else if truthy s.message
    then some (s.message, false)
    else none

unfoldable pub agent_label : AgentInfo → String
agent_label agent =
    or_text agent.hostname agent.ip_addr
    ++ " / "
    ++ agent.ip_addr
    ++ (if agent.online then "" else " / 离线")

abbrev text_or : Option String → String → String
text_or none d = d
text_or (some s) d = or_text s d

abbrev has_cron : TaskParams → Bool
has_cron params = truthy (text_or params.cron_expr "")

abbrev number_or_dash : Option ℕ → String
number_or_dash none = "-"
number_or_dash (some zero) = "-"
number_or_dash (some n) = show n

abbrev seconds_or_dash : Option ℕ → String
seconds_or_dash none = "-"
seconds_or_dash (some zero) = "-"
seconds_or_dash (some n) = show n ++ "s"

abbrev label_or_number : Option String → ℕ → String
label_or_number none n = show n
label_or_number (some label) n = label

-- A task with its parameters, read for every task
abbrev pub WithParams : Type 0
WithParams = HotmethodTask × TaskParams

abbrev and_then :
    Option TaskParams → HotmethodTask → Option (List WithParams) → Option (List WithParams)
and_then none task rest = none
and_then (some params) task none = none
and_then (some params) task (some rest) = some ((task, params) ∷ rest)

pub record Counters : Type 0 where
  pub total : ℕ
  pub active_agents : ℕ
  pub cron_count : ℕ

pub record ScheduleRow : Type 0 where
  pub tid : String
  pub name : String
  pub target_ip : String
  pub cron_expr : String
  pub type : String
  pub pid : String
  pub duration : String
  pub created : String

pub data Table : Type 0 where
  notice : String → Table
  rows : List ScheduleRow → Table

module _ (json_parse : String → Parsed) where
  unfoldable pub with_params : List HotmethodTask → Option (List WithParams)
  unfolding parse_task_params
  with_params [] = some []
  with_params (task ∷ tasks) =
      and_then (parse_task_params json_parse task.request_params) task (with_params tasks)

  -- `stats`, which the panel computes whether or not it shows the table
  unfoldable pub counters : List AgentInfo → PanelState → Option Counters
  unfolding with_params online_agents
  counters agents s = elim (with_params s.tasks) [
    | none ↦ none
    | some pairs ↦ some (record {
      total = length s.tasks;
      active_agents = length (online_agents agents);
      cron_count = length (filter (λ pair. has_cron pair.1) pairs);
    })
  ]

  module _ (get_time : String → Option ℕ) (to_locale : ℕ → String) where
    schedule_row : WithParams → ScheduleRow
    unfolding task_type_map format_date
    schedule_row (task, params) = record {
      tid = task.tid;
      name = or_text task.name "-";
      target_ip = task.target_ip;
      cron_expr = text_or params.cron_expr "-";
      type = label_or_number (task_type_map task.type) task.type;
      pid = number_or_dash params.pid;
      duration = seconds_or_dash params.duration;
      created = format_date get_time to_locale (some task.create_time);
    }

    unfoldable pub table : PanelState → Option Table
    unfolding with_params schedule_row
    table s =
        if s.loading
        then some (notice "加载定时任务中...")
        else if is_empty s.tasks
        then some (notice "暂无定时任务")
        else elim (with_params s.tasks) [
          | none ↦ none
          | some pairs ↦ some (rows (map schedule_row pairs))
        ]
