-- ===== src/Creation/Edits.antt =====
-- The fields of web/src/components/CreateTaskModal.tsx, one after the other, and the effect of
-- web/src/pages/TaskList.tsx and web/src/pages/Home.tsx that copies the target and the PID into the
-- form of the continuous task.
use mini_drop_test.Base.{
  ◌≡◌, refl, ◌∙◌, ◌≢◌, ℕ, String, true, false, ◌&&◌, List, [], ◌∷◌, All, Number, nan, at_least,
  at_most, truthy, arith,
}
use mini_drop_test.Domain.{TaskCreateMode}
use mini_drop_test.Creation.{CreationState, creation_start, sync_continuous}
use mini_drop_test.Creation.Modal.{
  ModalState, can_submit, pid_valid, duration_valid, hz_valid, profiler_of, change_type, change_pid,
  change_duration, change_window, change_hz, change_callgraph,
}

pub data Edit : Type 0 where
  set_name set_target set_event set_callgraph : String → Edit
  set_type : ℕ → Edit
  set_pid set_duration set_window set_hz : Number → Edit
  set_mode : TaskCreateMode → Edit

unfoldable pub edit : Edit → CreationState → CreationState
unfolding change_type change_pid change_duration change_window change_hz change_callgraph
    sync_continuous
edit (set_name value) s = record s { form = record (s.form) { name = value } }
edit (set_target value) s =
    sync_continuous (record s { form = record (s.form) { target_ip = value } })
edit (set_event value) s = record s { form = record (s.form) { event = value } }
edit (set_callgraph value) s = change_callgraph value s
edit (set_type type) s = record s { form = change_type type s.form }
edit (set_pid x) s = sync_continuous (record s { form = change_pid x s.form })
edit (set_duration x) s = record s { form = change_duration x s.form }
edit (set_window x) s = record s { continuous_form = change_window x s.continuous_form }
edit (set_hz x) s = change_hz x s
edit (set_mode mode) s = record s { task_mode = mode }

-- The edits in their order
unfoldable pub edits : List Edit → CreationState → CreationState
unfolding edit
edits [] s = s
edits (e ∷ es) s = edits es (edit e s)

-- What a numeric input gives: an empty or wrong text is read as 0, never as NaN.
unfoldable pub IsTyped : Edit → Type 0
IsTyped (set_pid x) = x ≢ nan
IsTyped (set_duration x) = x ≢ nan
IsTyped (set_window x) = x ≢ nan
IsTyped (set_hz x) = x ≢ nan
IsTyped _ = Unit

abbrev pub IsBetween : ℕ → ℕ → Number → Type 0
IsBetween low high x = (at_least low x ≡ true) × (at_most high x ≡ true)

-- The profiler is the one of the type, the numbers are in the ranges of their fields, and the
-- continuous task has the target and the PID of the form.
pub record IsSteady (s : CreationState) : Type 0 where
  pub profiler : s.form.profiler_type ≡ profiler_of s.form.type
  pub duration : IsBetween 1 3600 s.form.duration
  pub hz : IsBetween 1 1000 s.form.hz
  pub continuous_hz : IsBetween 1 1000 s.continuous_form.hz
  pub window : IsBetween 15 3600 s.continuous_form.window_sec
  pub target : s.continuous_form.target_ip ≡ s.form.target_ip
  pub pid : s.continuous_form.pid ≡ s.form.pid

edit-IsSteady : (e : Edit) (s : CreationState) → IsTyped e → IsSteady s → IsSteady (edit e s)
unfolding edit IsTyped
edit-IsSteady (set_name v) s typed steady = ground arith
edit-IsSteady (set_target v) s typed steady = ground arith
edit-IsSteady (set_event v) s typed steady = ground arith
edit-IsSteady (set_callgraph v) s typed steady = ground arith
edit-IsSteady (set_type type) s typed steady = ground arith
edit-IsSteady (set_pid x) s typed steady = ground arith
edit-IsSteady (set_duration x) s typed steady = ground arith
edit-IsSteady (set_window x) s typed steady = ground arith
edit-IsSteady (set_hz x) s typed steady = ground arith
edit-IsSteady (set_mode m) s typed steady = ground arith

edits-IsSteady :
    (es : List Edit) (s : CreationState) → All IsTyped es → IsSteady s → IsSteady (edits es s)
unfolding edits
edits-IsSteady [] s typed steady = steady
edits-IsSteady (e ∷ es) s (typed, rest) steady =
    edits-IsSteady es (edit e s) rest (edit-IsSteady e s typed steady)

creation_start-IsSteady : IsSteady creation_start
unfolding creation_start profiler_of
creation_start-IsSteady = record {
  profiler = refl;
  duration = (refl, refl);
  hz = (refl, refl);
  continuous_hz = (refl, refl);
  window = (refl, refl);
  target = refl;
  pid = refl;
}

start_idle : creation_start.submitting ≡ false
unfolding creation_start
start_idle = refl

edit-submitting : (e : Edit) (s : CreationState) → (edit e s).submitting ≡ s.submitting
unfolding edit
edit-submitting (set_name v) s = ground arith
edit-submitting (set_target v) s = ground arith
edit-submitting (set_event v) s = ground arith
edit-submitting (set_callgraph v) s = ground arith
edit-submitting (set_type type) s = ground arith
edit-submitting (set_pid x) s = ground arith
edit-submitting (set_duration x) s = ground arith
edit-submitting (set_window x) s = ground arith
edit-submitting (set_hz x) s = ground arith
edit-submitting (set_mode m) s = ground arith

edits-submitting : (es : List Edit) (s : CreationState) → (edits es s).submitting ≡ s.submitting
unfolding edits edit
edits-submitting [] s = refl
edits-submitting (e ∷ es) s = edits-submitting es (edit e s) ∙ edit-submitting e s

IsSteady-can_submit :
    (s : CreationState) (m : ModalState)
    → IsSteady s
    → s.submitting ≡ false
    → s.task_mode ≢ TaskCreateMode.natural
    → can_submit s m ≡ (truthy s.form.target_ip && pid_valid s.form)
unfolding can_submit pid_valid duration_valid hz_valid
IsSteady-can_submit s m steady idle mode = ground arith

-- Whatever is entered in the dialog, from the opening of the page on and in either mode of the form,
-- the profiler stays the one of the type, duration, rate and window stay in their ranges, and the
-- button is enabled exactly if a target is given and the PID is positive and whole. Numeric inputs
-- do not give NaN.
pub can_submit-edits :
    (es : List Edit) (m : ModalState)
    → All IsTyped es
    → (edits es creation_start).task_mode ≢ TaskCreateMode.natural
    → IsSteady (edits es creation_start)
      × (can_submit (edits es creation_start) m ≡ (
          truthy (edits es creation_start).form.target_ip
          && pid_valid (edits es creation_start).form))
can_submit-edits es m typed mode =
    let steady = edits-IsSteady es creation_start typed creation_start-IsSteady in
    (
      steady,
      IsSteady-can_submit (edits es creation_start) m steady
          (edits-submitting es creation_start ∙ start_idle) mode,
    )
