-- ===== src/Creation/Tests.antt =====
-- A form for one PID, in both modes.
use mini_drop_test.Base.{◌≡◌, arith, true, false, none, List, [], ◌∷◌, pos, int}
use mini_drop_test.Domain.{CreateTaskParams, TaskCreateMode}
use mini_drop_test.Creation.{CreationState, creation_start}
use mini_drop_test.Creation.Modal.{ModalState, can_submit}
use mini_drop_test.Creation.Edits.{
  Edit, set_type, set_target, set_pid, set_duration, edits, IsTyped, can_submit-edits,
}

abbrev pub no_text : ModalState
no_text = record { nl_text = ""; nl_plan = none; nl_error = ""; nl_submitting = false }

abbrev pub filled_form : CreateTaskParams
filled_form = record {
  name = "";
  type = 0;
  profiler_type = 0;
  target_ip = "10.0.0.1";
  pid = int (pos 42);
  duration = int (pos 30);
  hz = int (pos 99);
  callgraph = "dwarf";
  subprocess = true;
  event = "cpu-cycles";
}

abbrev pub filled : TaskCreateMode → CreationState
filled mode = record {
  show_create = true;
  submitting = false;
  form = filled_form;
  task_mode = mode;
  continuous_form = record {
    name = none;
    target_ip = "";
    pid = int (pos 0);
    hz = int (pos 10);
    window_sec = int (pos 300);
    callgraph = "dwarf";
  };
}

abbrev some_edits : List Edit
some_edits =
    set_type 6 ∷ set_target "10.0.0.1" ∷ set_pid (int (pos 42)) ∷ set_duration (int (pos 9000)) ∷ []

can_submit-edits_example : can_submit (edits some_edits creation_start) no_text ≡ true
unfolding edits creation_start can_submit IsTyped
can_submit-edits_example = (can_submit-edits some_edits no_text (ground arith) (ground arith)).1
