-- ===== src/TaskList/Tests.antt =====
-- A list of 41 tasks, from which a task is created.
use mini_drop_test.Base.{◌≤◌, ◌≡◌, refl, true, false, none, some, inr, [], ◌∷◌, ap, arith}
use mini_drop_test.Domain.{TaskCreateMode}
use mini_drop_test.Api.{ApiResponse, response, thrown}
use mini_drop_test.Creation.{Created}
use mini_drop_test.Creation.Modal.{can_submit}
use mini_drop_test.Creation.Tests.{filled, no_text}
use mini_drop_test.TaskList.{ListState, ListReply, failed, submit_create, tasks}
use mini_drop_test.TaskList.Table.{total_pages, next_page}
use mini_drop_test.TaskList.Pollers.{Shell, perform_all, leave, poller_over, visit, visits}
use mini_drop_test.TaskList.Pollers.Laws.{
  asked_first, left_early, submit_create-leave, submit_create-left_early,
}
use mini_drop_test.Polling.Tests.{rounds, first_two, third_Delivers, task_in}
use mini_drop_test.TaskList.Laws.{previous_page-next_page_bounds, submit_create-created}

abbrev pub created : ApiResponse Created
created = record { code = 0; payload = some (record { tid = some "t9" }); message = none }

abbrev refusal : ApiResponse Created
refusal = record { code = 4; payload = none; message = some "no agent" }

abbrev forty_one : ListState
forty_one = record {
  search = "";
  page = 2;
  total = 41;
  tasks = [];
  all_tasks = [];
  agents = [];
  loading = false;
  error = "";
  creation = filled TaskCreateMode.oneshot;
  active_view = tasks;
  poller = none;
}

abbrev broken : ListReply
broken = failed (thrown "timeout")

buttons_example : (1 ≤ 3) × (3 ≤ total_pages forty_one)
unfolding next_page total_pages
buttons_example = previous_page-next_page_bounds forty_one 3 (ground arith) (inr refl)

created_example : (submit_create (response created) broken forty_one).0.creation.show_create ≡ false
unfolding can_submit
created_example =
    (submit_create-created forty_one no_text created "t9" broken refl refl refl refl).2

abbrev shell : Shell
shell = record { mounted = true; address = "/tasks"; pollers = [] }

submit_create-leave_example :
    (leave
      (submit_create (response created) broken forty_one).0.poller
      (perform_all (submit_create (response created) broken forty_one).1 shell)).pollers
    ≡ record { tid = "t9"; aborted = true } ∷ []
unfolding can_submit
submit_create-leave_example =
    ap (λ t. t.pollers)
      (submit_create-leave forty_one no_text created "t9" broken shell refl refl refl refl refl)

left_early_example :
    (poller_over "t9" rounds (
      visits
        (some "t9")
        (visit "/agents" ∷ [])
        (left_early none "t9" (asked_first forty_one) shell))).address
    ≡ "/task/result?tid=t9"
unfolding can_submit
left_early_example =
    (submit_create-left_early forty_one no_text created "t9" broken shell (visit "/agents" ∷ [])
      rounds 2 (task_in 4 2) refl refl refl refl refl (omega arith) first_two third_Delivers).2
