-- ===== src/Creation/Modal.antt =====
-- web/src/components/CreateTaskModal.tsx: the dialog's validation, its fields and the request in
-- natural language. The fields change the form of the page that shows the dialog.
pub mod View
use mini_drop_test.Base.{
  ℕ, String, Bool, true, false, not, ◌&&◌, ◌||◌, Option, none, some, [], ◌∷◌, truthy, or_text,
  or_else, nonempty, trim, ◌==◌, if◌then◌else◌, Number, num_truthy, at_least, at_most, is_positive,
  is_integer, floor, max_with, min_with,
}
use mini_drop_test.Domain.{
  CreateTaskParams, CreateContinuousParams, TaskCreateMode, NaturalLanguageTaskPlan,
}
use mini_drop_test.Api.{Reply, response, rejected, is_ok, failure_text}
use mini_drop_test.Api.Requests.{NaturalLanguageText, create_natural_language_task}
use mini_drop_test.Effects.{Run, send}
use mini_drop_test.Creation.{CreationState}

pub record ModalState : Type 0 where
  pub nl_text : String
  pub nl_plan : Option NaturalLanguageTaskPlan
  pub nl_error : String
  pub nl_submitting : Bool

unfoldable pub pid_valid : CreateTaskParams → Bool
pid_valid form = is_positive form.pid && is_integer form.pid

unfoldable pub duration_valid : CreateTaskParams → Bool
duration_valid form = at_least 1 form.duration && at_most 3600 form.duration

unfoldable pub hz_valid : CreateTaskParams → Bool
hz_valid form = not (num_truthy form.hz) || (at_least 1 form.hz && at_most 1000 form.hz)

-- The submit button is enabled.
unfoldable pub can_submit : CreationState → ModalState → Bool
unfolding pid_valid duration_valid hz_valid trim
can_submit s m = elim s.task_mode [
  | TaskCreateMode.natural ↦ truthy (trim m.nl_text) && not s.submitting && not m.nl_submitting
  | TaskCreateMode.continuous ↦
      truthy s.continuous_form.target_ip && pid_valid s.form && hz_valid s.form && not s.submitting
  | TaskCreateMode.oneshot ↦
      truthy s.form.target_ip
      && pid_valid s.form
      && duration_valid s.form
      && hz_valid s.form
      && not s.submitting
]

unfoldable pub profiler_of : ℕ → ℕ
profiler_of type =
    if type == 1
    then 1
    else if type == 6
    then 3
    else if type == 10 || type == 11
    then 2
    else if type == 4
    then 4
    else if type == 12
    then 5
    else if type == 5
    then 6
    else 0

unfoldable pub event_of : ℕ → String → String
event_of type event =
    if type == 6
    then or_text event "io"
    else if type == 10
    then "cpu"
    else if type == 11
    then "heap"
    else if type == 0
    then "cpu-cycles"
    else event

unfoldable pub change_type : ℕ → CreateTaskParams → CreateTaskParams
unfolding profiler_of event_of
change_type type form = record form {
  type = type;
  profiler_type = profiler_of type;
  event = event_of type form.event;
}

unfoldable pub change_pid : Number → CreateTaskParams → CreateTaskParams
change_pid x form = record form { pid = max_with 1 (floor x) }

unfoldable pub change_duration : Number → CreateTaskParams → CreateTaskParams
change_duration x form = record form { duration = max_with 1 (min_with 3600 (floor x)) }

unfoldable pub change_window : Number → CreateContinuousParams → CreateContinuousParams
change_window x form = record form { window_sec = max_with 15 (min_with 3600 (floor x)) }

abbrev pub is_continuous : TaskCreateMode → Bool
is_continuous TaskCreateMode.continuous = true
is_continuous _ = false

unfoldable pub change_hz : Number → CreationState → CreationState
change_hz x s =
    let v = max_with 1 (min_with 1000 (floor x)) in
    if is_continuous s.task_mode
    then record s { continuous_form = record (s.continuous_form) { hz = v } }
    else record s { form = record (s.form) { hz = v } }

unfoldable pub change_callgraph : String → CreationState → CreationState
change_callgraph v s =
    if is_continuous s.task_mode
    then record s { continuous_form = record (s.continuous_form) { callgraph = v } }
    else record s { form = record (s.form) { callgraph = v } }

-- The answer's data has a plan, and a task id where one was created.
pub record Planned : Type 0 where
  pub tid : Option String
  pub plan : Option NaturalLanguageTaskPlan

abbrev plan_of : Option Planned → Option NaturalLanguageTaskPlan
plan_of none = none
plan_of (some data') = data'.plan

abbrev planned_tid : Option Planned → Option String
planned_tid none = none
planned_tid (some data') = data'.tid

abbrev keep_plan : Option NaturalLanguageTaskPlan → ModalState → ModalState
keep_plan none m = m
keep_plan (some plan) m = record m { nl_plan = some plan }

abbrev question_of : Option NaturalLanguageTaskPlan → Option String
question_of none = none
question_of (some plan) = some plan.clarifying_question

-- The call of `onNaturalLanguageCreated`, where there is one
abbrev pub Announced : Type 0
Announced = Option (String × NaturalLanguageTaskPlan)

announce : Bool → Option String → Option NaturalLanguageTaskPlan → Announced
announce true (some tid) (some plan) = if truthy tid then some (tid, plan) else none
announce _ _ _ = none

-- `error_plan` is what `e.response.data.data.plan` gives for a rejected request.
natural_answer :
    Bool → Reply Planned → Option NaturalLanguageTaskPlan → ModalState → ModalState × Announced
unfolding announce
natural_answer execute (rejected e) error_plan m =
    (record (keep_plan error_plan m) { nl_error = failure_text "自然语言采集失败" e }, none)
natural_answer execute (response res) error_plan m =
    let plan = plan_of res.payload in
    if is_ok res then (keep_plan plan m, announce execute (planned_tid res.payload) plan) else (
      record (keep_plan plan m) {
        nl_error = or_else res.message (or_else (question_of plan) "自然语言采集失败");
      },
      none,
    )

natural_request : CreateTaskParams → Bool → String → NaturalLanguageText
natural_request form execute text = record {
  text = text;
  target_ip = nonempty form.target_ip;
  pid = if num_truthy form.pid then some form.pid else none;
  execute = execute;
}

unfoldable pub handle_natural_language :
    CreateTaskParams
    → Bool
    → Reply Planned
    → Option NaturalLanguageTaskPlan
    → ModalState
    → Run ModalState × Announced
unfolding natural_answer natural_request trim
handle_natural_language form execute reply error_plan m =
    if not (truthy (trim m.nl_text))
    then ((m, []), none)
    else let (after, announced) =
        natural_answer execute reply error_plan (record m { nl_error = "" }) in
      (
        (
          record after { nl_submitting = false },
          send (create_natural_language_task (natural_request form execute m.nl_text)) ∷ [],
        ),
        announced,
      )
