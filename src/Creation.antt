-- ===== src/Creation.antt =====
-- What web/src/pages/TaskList.tsx and web/src/pages/Home.tsx share: the state behind the creation
-- dialog and the handlers that both pages have in the same words.
pub mod Modal
pub mod Edits
pub mod Laws
pub mod Tests
use Prim.Native.String.{◌++◌}
use mini_drop_test.Base.{
  ℕ, String, Bool, true, false, not, ◌&&◌, ◌||◌, Option, none, some, List, [], ◌∷◌, truthy, or_text,
  or_else, if◌then◌else◌, ℤ, pos, Number, int, num_truthy, num_or, find?,
}
use mini_drop_test.Domain.{
  AgentInfo, CreateTaskParams, CreateContinuousParams, TaskCreateMode, oneshot,
  NaturalLanguageTaskPlan, PlanMode,
}
use mini_drop_test.Api.{ApiResponse, Failure, Reply, response, rejected, thrown, is_ok}
use mini_drop_test.Api.Requests.{create_continuous_task}
use mini_drop_test.Effects.{Effect, Run, send, navigate, alert}

pub record CreationState : Type 0 where
  pub show_create : Bool
  pub submitting : Bool
  pub form : CreateTaskParams
  pub task_mode : TaskCreateMode
  pub continuous_form : CreateContinuousParams

unfoldable pub default_form : CreateTaskParams
default_form = record {
  name = "";
  type = 0;
  profiler_type = 0;
  target_ip = "";
  pid = int (pos 0);
  duration = int (pos 30);
  hz = int (pos 99);
  callgraph = "dwarf";
  subprocess = true;
  event = "cpu-cycles";
}

unfoldable pub creation_start : CreationState
unfolding default_form
creation_start = record {
  show_create = false;
  submitting = false;
  form = default_form;
  task_mode = TaskCreateMode.oneshot;
  continuous_form = record {
    name = none;
    target_ip = "";
    pid = int (pos 0);
    hz = int (pos 10);
    window_sec = int (pos 300);
    callgraph = "dwarf";
  };
}

-- The effect that runs when the form's target or PID changes
unfoldable pub sync_continuous : CreationState → CreationState
sync_continuous s = record s {
  continuous_form = record (s.continuous_form) { target_ip = s.form.target_ip; pid = s.form.pid };
}

-- The form's target where it is given, and else the address of the first agent that is online
unfoldable pub fill_target : List AgentInfo → String → String
fill_target agents target_ip = elim (find? (λ agent. agent.online) agents) [
  | none ↦ target_ip
  | some agent ↦ or_text target_ip agent.ip_addr
]

-- What `createTask` and `createContinuousTask` answer: `data.tid`
pub record Created : Type 0 where
  pub tid : Option String

abbrev pub created_tid : Option Created → Option String
created_tid none = none
created_tid (some data') = elim data'.tid [
  | none ↦ none
  | some tid ↦ if truthy tid then some tid else none
]

unfoldable pub continuous_payload : CreationState → CreateContinuousParams
continuous_payload s = record (s.continuous_form) {
  name = some (or_text s.form.name ("常驻采集 - " ++ s.continuous_form.target_ip));
  hz = num_or s.continuous_form.hz (int (pos 10));
  window_sec = num_or s.continuous_form.window_sec (int (pos 300));
}

continuous_failed : Option String → CreationState → Run CreationState
continuous_failed message s =
    (record s { submitting = false }, alert (or_else message "创建常驻任务失败") ∷ [])

continuous_created : ApiResponse Created → CreationState → Run CreationState
unfolding continuous_failed
continuous_created res s =
    if is_ok res
    then (
      record s { show_create = false; submitting = false },
      elim (created_tid res.payload) [
        | none ↦ []
        | some tid ↦ navigate ("/continuous?tid=" ++ tid) ∷ []
      ],
    )
    else continuous_failed (some (or_else res.message "创建常驻任务失败")) s

continuous_reply : Reply Created → CreationState → Run CreationState
unfolding continuous_created continuous_failed
continuous_reply (rejected e) s = continuous_failed e.message s
continuous_reply (response res) s = continuous_created res s

unfoldable pub handle_continuous_submit : Reply Created → CreationState → Run CreationState
unfolding continuous_payload continuous_reply
handle_continuous_submit reply s =
    if not (truthy s.continuous_form.target_ip) || not (num_truthy s.continuous_form.pid)
    then (s, [])
    else let (t, effects) = continuous_reply reply s in
      (t, send (create_continuous_task (continuous_payload s)) ∷ effects)

-- What `createTask` is given
unfoldable pub task_payload : CreateTaskParams → CreateTaskParams
task_payload form = record form {
  name = or_text form.name ("CPU 采样 - " ++ form.target_ip);
  hz = num_or form.hz (int (pos 99));
}

-- `!form.target_ip || !form.pid || !form.duration`
unfoldable pub is_incomplete : CreateTaskParams → Bool
is_incomplete form =
    not (truthy form.target_ip) || not (num_truthy form.pid) || not (num_truthy form.duration)

abbrev pub result_address : String → String
result_address tid = "/task/result?tid=" ++ tid

planned_address : PlanMode → String → String
planned_address PlanMode.continuous tid = "/continuous?tid=" ++ tid
planned_address PlanMode.oneshot tid = result_address tid

unfoldable pub handle_natural_language_created :
    String → NaturalLanguageTaskPlan → CreationState → Run CreationState
unfolding planned_address
handle_natural_language_created tid plan s =
    (record s { show_create = false }, navigate (planned_address plan.mode tid) ∷ [])
