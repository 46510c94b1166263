-- ===== src/Schedule/Tests.antt =====
-- An hourly task in the form, and a list with a task whose parameters are the text null.
use mini_drop_test.Base.{◌≡◌, refl, true, false, none, [], ◌∷◌, int, pos, trim}
use mini_drop_test.Domain.{text}
use mini_drop_test.Domain.Params.{null}
use mini_drop_test.Polling.Tests.{task_in}
use mini_drop_test.Schedule.{PanelState, can_submit}
use mini_drop_test.Schedule.View.{counters}

abbrev hourly : PanelState
hourly = record {
  tasks = record (task_in 0 0) { request_params = text "null" } ∷ [];
  form = record {
    task_name = " hourly-cpu ";
    type = 0;
    profiler_type = 0;
    target_ip = "10.0.0.1";
    pid = int (pos 42);
    duration = int (pos 30);
    hz = int (pos 0);
    callgraph = "dwarf";
    cron_expr = "0 * * * *";
  };
  loading = false;
  submitting = false;
  error = "";
  message = "";
}

hourly_is_enabled : can_submit hourly ≡ true
unfolding can_submit trim
hourly_is_enabled = refl

null_parameters_throw : counters (λ s. null) [] hourly ≡ none
unfolding counters
null_parameters_throw = refl
