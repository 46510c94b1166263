-- ===== src/Creation/Laws.antt =====
-- What the dialog's validation and its fields guarantee for the requests behind it.
use Prim.Native.String.append
use Prim.Native.String.{◌++◌}
use mini_drop_test.Base.{
  ◌≡◌, refl, ap, ◌≢◌, ◌↔◌, String, true, false, some, arith, truthy, or_text, Number, nan, infinite,
  at_least, at_most, is_positive, is_integer, head?,
}
use mini_drop_test.Domain.{CreateTaskParams, CreateContinuousParams, TaskCreateMode}
use mini_drop_test.Api.{Reply}
use mini_drop_test.Api.Requests.{create_continuous_task}
use mini_drop_test.Effects.{send}
use mini_drop_test.Creation.{
  CreationState, Created, sync_continuous, continuous_payload, handle_continuous_submit,
  task_payload, is_incomplete,
}
use mini_drop_test.Creation.Modal.{
  ModalState, can_submit, pid_valid, duration_valid, change_pid, change_duration, change_hz,
  change_window,
}

-- A task with a name, a target, a positive whole PID, a duration of 1 to 3600 and a rate of 1 to
-- 1000
pub record IsAcceptable (p : CreateTaskParams) : Type 0 where
  pub name : truthy p.name ≡ true
  pub target : truthy p.target_ip ≡ true
  pub pid : (is_positive p.pid ≡ true) × (is_integer p.pid ≡ true)
  pub duration : (at_least 1 p.duration ≡ true) × (at_most 3600 p.duration ≡ true)
  pub hz : (at_least 1 p.hz ≡ true) × (at_most 1000 p.hz ≡ true)

truthy-or_text : (name target : String) → truthy (or_text name ("CPU 采样 - " ++ target)) ≡ true
truthy-or_text String.[] target = ap truthy (append.cons "C" "PU 采样 - " target)
truthy-or_text (String.◌∷◌ c name) target = refl

-- A one-shot form that enables the button passes the handler's own guard, and the task that is
-- sent for it is acceptable: an empty name and a missing rate are filled in.
pub can_submit-task_payload :
    (s : CreationState) (m : ModalState)
    → s.task_mode ≡ TaskCreateMode.oneshot
    → can_submit s m ≡ true
    → (is_incomplete s.form ≡ false) × IsAcceptable (task_payload s.form)
unfolding can_submit task_payload is_incomplete
can_submit-task_payload s m h g = ground (arith, truthy-or_text s.form.name s.form.target_ip)

-- In continuous mode a form that follows the target and the PID of the one-shot form and enables
-- the button sends its payload at once, with a target and a positive whole PID.
pub can_submit-handle_continuous_submit :
    (s : CreationState) (m : ModalState) (reply : Reply Created)
    → s.task_mode ≡ TaskCreateMode.continuous
    → can_submit (sync_continuous s) m ≡ true
    → (head? (handle_continuous_submit reply (sync_continuous s)).1
        ≡ some (send (create_continuous_task (continuous_payload (sync_continuous s)))))
      × (is_positive (continuous_payload (sync_continuous s)).pid ≡ true)
      × (is_integer (continuous_payload (sync_continuous s)).pid ≡ true)
      × (truthy (continuous_payload (sync_continuous s)).target_ip ≡ true)
unfolding can_submit handle_continuous_submit sync_continuous continuous_payload
can_submit-handle_continuous_submit s m reply h g = ground arith

-- The PID field gives a valid PID exactly for the inputs that are numbers and not positive
-- infinity, the duration field a valid duration exactly for the inputs that are numbers.
pub change_pid-change_duration_valid :
    (x : Number) (form : CreateTaskParams)
    → ((pid_valid (change_pid x form) ≡ true) ↔ ((x ≢ nan) × (x ≢ infinite true)))
      × ((duration_valid (change_duration x form) ≡ true) ↔ (x ≢ nan))
unfolding pid_valid change_pid duration_valid change_duration
change_pid-change_duration_valid x form = ground arith

-- In continuous mode the rate and the window that the fields set stay in their ranges for every
-- number.
pub change_hz-change_window_range :
    (x : Number) (s : CreationState) (form : CreateContinuousParams)
    → x ≢ nan
    → s.task_mode ≡ TaskCreateMode.continuous
    → (at_least 1 (change_hz x s).continuous_form.hz ≡ true)
      × (at_most 1000 (change_hz x s).continuous_form.hz ≡ true)
      × (at_least 15 (change_window x form).window_sec ≡ true)
      × (at_most 3600 (change_window x form).window_sec ≡ true)
unfolding change_hz change_window
change_hz-change_window_range x s form h g = ground arith
