-- ===== src/Creation/Modal/View.antt =====
-- web/src/components/CreateTaskModal.tsx: what the dialog shows, its options, and what its buttons
-- call.
use Prim.Native.String.{◌++◌}
use mini_drop_test.Base.{
  ℕ, zero, String, Bool, true, false, not, ◌&&◌, ◌||◌, Option, none, some, List, [], ◌∷◌, map,
  filter, is_empty, truthy, or_text, trim, ◌==◌, if◌then◌else◌, show, join, Number, int, pos,
  num_or,
}
use mini_drop_test.Domain.{AgentInfo, TaskCreateMode, NaturalLanguageTaskPlan, PlanMode}
use mini_drop_test.Creation.{CreationState}
use mini_drop_test.Creation.Modal.{ModalState, is_continuous}

unfoldable pub mode_hint : TaskCreateMode → String
mode_hint TaskCreateMode.natural = "用一句话描述采集意图，系统会识别工具、参数和缺失信息。"
mode_hint TaskCreateMode.continuous = "常驻低频采样，定时切割窗口，按时间轴回溯。"
mode_hint TaskCreateMode.oneshot = "选择在线 Agent，配置采样目标和采集参数。"

-- The buttons that change the mode
abbrev pub modes : List TaskCreateMode
modes = TaskCreateMode.oneshot ∷ TaskCreateMode.continuous ∷ TaskCreateMode.natural ∷ []

unfoldable pub mode_label : TaskCreateMode → String
mode_label TaskCreateMode.oneshot = "单次采集"
mode_label TaskCreateMode.continuous = "常驻采集"
mode_label TaskCreateMode.natural = "自然语言"

pub record AgentOption : Type 0 where
  pub value : String
  pub label : String
  pub disabled : Bool

unfoldable pub agent_option : AgentInfo → AgentOption
agent_option agent = record {
  value = agent.ip_addr;
  label =
      or_text agent.hostname agent.ip_addr
      ++ " ("
      ++ agent.ip_addr
      ++ ") "
      ++ (if agent.online then "" else "- 离线");
  disabled = not agent.online;
}

unfoldable pub agent_options : List AgentInfo → List AgentOption
unfolding agent_option
agent_options agents = map agent_option agents

-- The notice that no agent is online
unfoldable pub lacks_agents : List AgentInfo → Bool
lacks_agents agents = is_empty (filter (λ agent. agent.online) agents)

abbrev pub type_options : List (ℕ × String)
type_options =
    (0, "CPU / perf")
    ∷ (1, "Java / async-profiler")
    ∷ (6, "eBPF / bpftrace")
    ∷ (10, "pprof CPU")
    ∷ (11, "pprof Heap")
    ∷ (5, "Resource Analysis")
    ∷ (4, "Python / memray")
    ∷ (12, "Java Heap")
    ∷ []

abbrev pub callgraph_options : List String
callgraph_options = "dwarf" ∷ "fp" ∷ "lbr" ∷ []

-- What the numeric fields and the selection of the call graph hold
unfoldable pub shown_window : CreationState → Number
shown_window s = num_or s.continuous_form.window_sec (int (pos 300))

unfoldable pub shown_hz : CreationState → Number
shown_hz s =
    if is_continuous s.task_mode then num_or s.continuous_form.hz (int (pos 10)) else s.form.hz

unfoldable pub shown_callgraph : CreationState → String
shown_callgraph s =
    if is_continuous s.task_mode
    then or_text s.continuous_form.callgraph "dwarf"
    else s.form.callgraph

-- The events of eBPF, with the chosen one, where the field is shown
unfoldable pub event_field : CreationState → Option String
event_field s =
    if not (is_continuous s.task_mode) && s.form.type == 6
    then some (or_text s.form.event "io")
    else none

abbrev pub event_options : List (String × String)
event_options = ("io", "IO latency") ∷ ("sched", "Scheduler latency") ∷ []

-- The button that parses the text without creating a task
unfoldable pub parse_disabled : ModalState → Bool
unfolding trim
parse_disabled m = not (truthy (trim m.nl_text)) || m.nl_submitting

-- `n || d` as text
abbrev number_or : ℕ → String → String
number_or zero d = d
number_or n d = show n

abbrev window_of : Option ℕ → ℕ
window_of none = 300
window_of (some zero) = 300
window_of (some n) = n

plan_head : NaturalLanguageTaskPlan → PlanMode → String
plan_head plan PlanMode.continuous = plan.name ++ " · 常驻采集"
plan_head plan PlanMode.oneshot = plan.name ++ " · 单次采集"

plan_target : NaturalLanguageTaskPlan → String
plan_target plan =
    "Agent "
    ++ or_text plan.target_ip "-"
    ++ " / PID "
    ++ number_or plan.pid "-"
    ++ " / 类型 "
    ++ show plan.type
    ++ " / 采集器 "
    ++ show plan.profiler_type
    ++ " / event "
    ++ or_text plan.event "-"

plan_rate : NaturalLanguageTaskPlan → PlanMode → String
plan_rate plan PlanMode.continuous =
    "窗口 " ++ show (window_of plan.window_sec) ++ "s @ " ++ show plan.hz ++ "Hz"
plan_rate plan PlanMode.oneshot = "时长 " ++ show plan.duration ++ "s @ " ++ show plan.hz ++ "Hz"

abbrev unless : Bool → String → List String → List String
unless true line rest = rest
unless false line rest = line ∷ rest

-- The lines that describe a plan
unfoldable pub plan_lines : NaturalLanguageTaskPlan → List String
unfolding plan_head plan_target plan_rate join
plan_lines plan =
    plan_head plan plan.mode
    ∷ plan_target plan
    ∷ plan_rate plan plan.mode
    ∷ unless (is_empty plan.rationale) (join "；" plan.rationale)
        (unless (not (truthy plan.clarifying_question)) plan.clarifying_question [])

-- What the button at the bottom calls
pub data Submission : Type 0 where
  by_plan of_continuous of_task : Submission

unfoldable pub submission : TaskCreateMode → Submission
submission TaskCreateMode.natural = by_plan
submission TaskCreateMode.continuous = of_continuous
submission TaskCreateMode.oneshot = of_task

submit_label : TaskCreateMode → String
submit_label TaskCreateMode.natural = "按意图创建"
submit_label TaskCreateMode.continuous = "启动常驻采集"
submit_label TaskCreateMode.oneshot = "创建任务"

unfoldable pub submit_text : CreationState → ModalState → String
unfolding submit_label
submit_text s m = if s.submitting || m.nl_submitting then "创建中..." else submit_label s.task_mode
