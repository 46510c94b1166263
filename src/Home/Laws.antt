-- ===== src/Home/Laws.antt =====
-- What the overview does after it has created a task.
use mini_drop_test.Base.{Bool, ◌==◌, is_some, ◌≡◌, String, true, false, some, [], ◌∷◌, arith}
use mini_drop_test.Api.{ApiResponse, Reply, response, rejected, is_ok}
use mini_drop_test.Api.Requests.{create_task}
use mini_drop_test.Effects.{Effect, send, alert, navigate, start_poller}
use mini_drop_test.Domain.{TaskListData}
use mini_drop_test.Creation.{Created, created_tid, task_payload, is_incomplete, result_address}
use mini_drop_test.Home.{HomeState, submit_task, hundred_tasks}

-- What the visitor notices of a run
abbrev pub is_alert : Effect → Bool
is_alert (alert text) = true
is_alert _ = false

abbrev pub is_navigation : Effect → Bool
is_navigation (navigate to) = true
is_navigation _ = false

abbrev pub is_poller : Effect → Bool
is_poller (start_poller tid) = true
is_poller _ = false

-- The server has created a task, and answered the list
abbrev pub is_created : Reply Created → Bool
is_created (rejected e) = false
is_created (response res) = res.code == 0

-- The answer has the id of a task.
abbrev pub has_tid : Reply Created → Bool
has_tid (rejected e) = false
has_tid (response res) = is_some (created_tid res.payload)

abbrev pub is_answered : Reply TaskListData → Bool
is_answered (rejected e) = false
is_answered (response res) = true

-- If the task of a complete form is created with an id and the list is answered, the result page is
-- opened and its poller is started, in this order, and nothing is being submitted.
pub submit_task-created :
    (s : HomeState) (res : ApiResponse Created) (tid : String) (list : ApiResponse TaskListData)
    → is_incomplete s.creation.form ≡ false
    → is_ok res ≡ true
    → created_tid res.payload ≡ some tid
    → ((submit_task (response res) (response list) s).1
        ≡ send (create_task (task_payload s.creation.form))
          ∷ send hundred_tasks
          ∷ navigate (result_address tid)
          ∷ start_poller tid
          ∷ [])
      × ((submit_task (response res) (response list) s).0.creation.submitting ≡ false)
unfolding submit_task
submit_task-created s res tid list h ok created = ground arith
