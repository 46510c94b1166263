-- ===== src/TaskList/Laws.antt =====
-- What the list promises: the pages, the numbers above the table, and the creation of a task.
use mini_drop_test.Base.{
  ℕ, ◌+◌, ◌*◌, ◌≤◌, ◌≡◌, ◌↔◌, ◌⊎◌, String, true, false, ◌&&◌, ◌||◌, ◌==◌, leb, some, List, [], ◌∷◌,
  ◌++◌, arith, filter, length, or_else, head?,
}
use mini_drop_test.Domain.{HotmethodTask, TaskCreateMode}
use mini_drop_test.Api.{ApiResponse, Reply, response, is_ok}
use mini_drop_test.Api.Requests.{create_task, delete_task}
use mini_drop_test.Effects.{send, navigate, alert, start_poller}
use mini_drop_test.Creation.{Created, task_payload, created_tid, result_address, is_incomplete}
use mini_drop_test.Creation.Modal.{ModalState, can_submit}
use mini_drop_test.Creation.Laws.{can_submit-task_payload, IsAcceptable}
use mini_drop_test.TaskList.{
  ListState, ListReply, load_tasks, submit_create, remove_task, page_size, list_requests,
}
use mini_drop_test.TaskList.Table.{stats, total_pages, previous_page, next_page}

count_le :
    (tasks : List HotmethodTask)
    → length (filter (λ task. leb 1 task.status && leb task.status 3) tasks)
        + length (filter (λ task. task.status == 4) tasks)
        + length (filter (λ task. task.status == 5 || task.status == 6) tasks)
      ≤ length tasks
count_le [] = ground arith
count_le (task ∷ tasks) = ground (arith, count_le tasks)

-- No task is counted as running, done and failed at once: the three numbers together are at most
-- the number of all tasks.
pub stats_le :
    (s : ListState) → (stats s).running + (stats s).done + (stats s).failed ≤ length s.all_tasks
unfolding stats
stats_le s = count_le s.all_tasks

-- The number of pages is the least positive number of pages that holds all tasks.
pub total_pages-least :
    (s : ListState) (n : ℕ) → (total_pages s ≤ n) ↔ ((1 ≤ n) × (s.total ≤ n * page_size))
unfolding total_pages
total_pages-least s n = ground arith

-- From a page that is not behind the last, each button leads to a page between the first and the
-- last.
pub previous_page-next_page_bounds :
    (s : ListState) (n : ℕ)
    → s.page ≤ total_pages s
    → (previous_page s ≡ some n) ⊎ (next_page s ≡ some n)
    → (1 ≤ n) × (n ≤ total_pages s)
unfolding previous_page next_page
previous_page-next_page_bounds s n h step = ground arith

-- A one-shot form that enables the button, and whose task the server creates with an id: an
-- acceptable task is sent, the first page is asked for, the result page is opened and its poller is
-- started, in this order and whatever the list answers; the dialog is closed and nothing is being
-- submitted.
pub submit_create-created :
    (s : ListState) (m : ModalState) (res : ApiResponse Created) (tid : String) (list : ListReply)
    → s.creation.task_mode ≡ TaskCreateMode.oneshot
    → can_submit s.creation m ≡ true
    → is_ok res ≡ true
    → created_tid res.payload ≡ some tid
    → ((submit_create (response res) list s).1
        ≡ send (create_task (task_payload s.creation.form))
          ∷ (list_requests 1 s.search ++ (navigate (result_address tid) ∷ start_poller tid ∷ [])))
      × IsAcceptable (task_payload s.creation.form)
      × ((submit_create (response res) list s).0.creation.show_create ≡ false)
      × ((submit_create (response res) list s).0.creation.submitting ≡ false)
unfolding submit_create load_tasks
submit_create-created s m res tid list mode h ok created =
    ground (arith, can_submit-task_payload s.creation m mode h)

-- If the server does not create the task of a complete form, its reason is shown; the list, the
-- form and the dialog stay, and nothing is being submitted.
pub submit_create-refused :
    (s : ListState) (res : ApiResponse Created) (list : ListReply)
    → is_incomplete s.creation.form ≡ false
    → is_ok res ≡ false
    → ((submit_create (response res) list s).1
        ≡ send (create_task (task_payload s.creation.form))
          ∷ alert (or_else (some (or_else res.message "创建任务失败")) "创建任务失败")
          ∷ [])
      × ((submit_create (response res) list s).0
          ≡ record s { creation = record (s.creation) { submitting = false } })
unfolding submit_create
submit_create-refused s res list h code = ground arith

-- Without the confirmation nothing is sent and nothing changes; with it, the first request is the
-- deletion.
pub remove_task-confirmed :
    (tid : String) (reply : Reply (Unit {0})) (list : ListReply) (s : ListState)
    → (remove_task false tid reply list s ≡ (s, []))
      × (head? (remove_task true tid reply list s).1 ≡ some (send (delete_task tid)))
unfolding remove_task
remove_task-confirmed tid reply list s = ground arith
