-- ===== src/TaskList/Pollers/Laws.antt =====
-- Whether the poller of a created task is stopped.
use mini_drop_test.Base.{
  Option, arith, eq_iff, ℕ, ◌<◌, ◌≡◌, refl, sym, ap, if◌then◌else◌, String, true, false, some, List,
  [], ◌∷◌, ◌++◌, head?, ◌∙◌,
}
use mathlib.Core.Path.{subst}
use mini_drop_test.Domain.{HotmethodTask, TaskCreateMode}
use mini_drop_test.Api.{ApiResponse, response, is_ok}
use mini_drop_test.Api.Requests.{create_task}
use mini_drop_test.Effects.{Effect, send, navigate, start_poller}
use mini_drop_test.Polling.{Round, done, wait_for_task_result}
use mini_drop_test.Polling.Safety.{Delivers}
use mini_drop_test.Polling.Progress.{IsPending, wait_for_task_result_returns}
use mini_drop_test.Creation.{Created, created_tid, task_payload, result_address}
use mini_drop_test.Creation.Modal.{ModalState, can_submit}
use mini_drop_test.TaskList.{ListState, ListReply, submit_create, load_tasks, list_requests}
use mini_drop_test.Creation.Laws.{can_submit-task_payload}
use mini_drop_test.TaskList.Laws.{submit_create-created}
use mini_drop_test.TaskList.Pollers.{
  Shell, perform_all, leave, abort_ref, poller_over, Visit, visit, leave_again, visits,
}

perform_all-append :
    (before after : List Effect) (s : Shell)
    → perform_all (before ++ after) s ≡ perform_all after (perform_all before s)
unfolding perform_all
perform_all-append [] after s = refl
perform_all-append (e ∷ es) after s = perform_all-append es after _

-- What the handler does behind `await loadTasks(1)`
abbrev pub opens : String → List Effect
opens tid = navigate (result_address tid) ∷ start_poller tid ∷ []

submit_create-poller :
    (s : ListState) (m : ModalState) (res : ApiResponse Created) (tid : String) (list : ListReply)
    → s.creation.task_mode ≡ TaskCreateMode.oneshot
    → can_submit s.creation m ≡ true
    → is_ok res ≡ true
    → created_tid res.payload ≡ some tid
    → (submit_create (response res) list s).0.poller ≡ some tid
unfolding submit_create load_tasks
submit_create-poller s m res tid list mode h ok created =
    ground (arith, can_submit-task_payload s.creation m mode h)

leave-newest :
    (tid : String) (shell : Shell)
    → shell.mounted ≡ true
    → leave (some tid) (perform_all (opens tid) shell) ≡ record shell {
      mounted = false;
      address = result_address tid;
      pollers = record { tid = tid; aborted = true } ∷ shell.pollers;
    }
unfolding leave perform_all
leave-newest tid shell mounted = rw ((eq_iff tid tid).1 refl) (rw mounted refl)

-- A task is created and the page opens its result: when the page with the state that the handler
-- has left is unmounted, its clean-up stops the poller that was started for the task; the pollers
-- before are as they were.
pub submit_create-leave :
    (s : ListState) (m : ModalState) (res : ApiResponse Created) (tid : String) (list : ListReply)
    (shell : Shell)
    → s.creation.task_mode ≡ TaskCreateMode.oneshot
    → can_submit s.creation m ≡ true
    → is_ok res ≡ true
    → created_tid res.payload ≡ some tid
    → shell.mounted ≡ true
    → leave
        (submit_create (response res) list s).0.poller
        (perform_all (submit_create (response res) list s).1 shell)
      ≡ record shell {
        mounted = false;
        address = result_address tid;
        pollers = record { tid = tid; aborted = true } ∷ shell.pollers;
      }
unfolding perform_all list_requests
submit_create-leave s m res tid list shell mode h ok created mounted =
    rw
      (
        (submit_create-created s m res tid list mode h ok created).0,
        submit_create-poller s m res tid list mode h ok created,
      )
      (leave-newest tid shell mounted)

leave-unmounted : (ref : Option String) (s : Shell) → s.mounted ≡ false → s ≡ leave ref s
unfolding leave
leave-unmounted ref s gone =
    subst
      (λ b. s ≡ (if b then record s { mounted = false; pollers = abort_ref ref s.pollers } else s))
      (sym gone) refl

visits-unmounted :
    (ref : Option String) (vs : List Visit) (s : Shell)
    → s.mounted ≡ false
    → (visits ref vs s).pollers ≡ s.pollers
unfolding visits leave
visits-unmounted ref [] s gone = refl
visits-unmounted ref (visit to ∷ vs) s gone =
    visits-unmounted ref vs (record s { address = to }) gone
visits-unmounted ref (leave_again ∷ vs) s gone =
    subst (λ t. (visits ref vs t).pollers ≡ s.pollers) (leave-unmounted ref s gone)
      (visits-unmounted ref vs s gone)

-- What it asks for first
abbrev pub asked_first : ListState → List Effect
asked_first s = send (create_task (task_payload s.creation.form)) ∷ list_requests 1 s.search

asked_first-mounted :
    (s : ListState) (shell : Shell) → (perform_all (asked_first s) shell).mounted ≡ shell.mounted
unfolding perform_all list_requests
asked_first-mounted s shell = refl

-- The page is left while the list is asked for, and the handler goes on behind that.
unfoldable pub left_early : Option String → String → List Effect → Shell → Shell
unfolding perform_all leave
left_early ref tid asked shell = perform_all (opens tid) (leave ref (perform_all asked shell))

left_early-starts :
    (ref : Option String) (tid : String) (asked : List Effect) (shell : Shell)
    → (perform_all asked shell).mounted ≡ true
    → ((left_early ref tid asked shell).mounted ≡ false)
      × (head? (left_early ref tid asked shell).pollers
          ≡ some (record { tid = tid; aborted = false }))
unfolding left_early perform_all leave
left_early-starts ref tid asked shell mounted = rw mounted (refl, refl)

poller_over-delivers :
    (tid : String) (rounds : ℕ → Round) (task : HotmethodTask) (shell : Shell)
    → (wait_for_task_result tid rounds).0 ≡ done task
    → (poller_over tid rounds shell).address ≡ result_address tid
unfolding poller_over
poller_over-delivers tid rounds task shell ends = rw ends refl

-- A task is created, and the page is left while the handler still asks for the list: the handler
-- then opens the result page and starts a poller that nothing stops, whatever the visitor does. If
-- one of its rounds delivers, those before it pending, the result page is opened once more, whatever
-- page is shown by then.
pub submit_create-left_early :
    (s : ListState) (m : ModalState) (res : ApiResponse Created) (tid : String) (list : ListReply)
    (shell : Shell) (vs : List Visit) (rounds : ℕ → Round) (i : ℕ) (task : HotmethodTask)
    → s.creation.task_mode ≡ TaskCreateMode.oneshot
    → can_submit s.creation m ≡ true
    → is_ok res ≡ true
    → created_tid res.payload ≡ some tid
    → shell.mounted ≡ true
    → i < 120
    → ((j : ℕ) → j < i → IsPending (rounds j))
    → Delivers rounds i task
    → ((submit_create (response res) list s).1 ≡ asked_first s ++ opens tid)
      × (head? (visits (some tid) vs (left_early s.poller tid (asked_first s) shell)).pollers
          ≡ some (record { tid = tid; aborted = false }))
      × ((poller_over tid rounds
            (visits (some tid) vs (left_early s.poller tid (asked_first s) shell))).address
          ≡ result_address tid)
submit_create-left_early s m res tid list shell vs rounds i task mode h ok created mounted below
      pending delivers =
    let gone = left_early s.poller tid (asked_first s) shell in
    let (unmounted, starts) =
      left_early-starts s.poller tid (asked_first s) shell
        (asked_first-mounted s shell ∙ mounted) in
    (
      (submit_create-created s m res tid list mode h ok created).0,
      ap head? (visits-unmounted (some tid) vs gone unmounted) ∙ starts,
      poller_over-delivers tid rounds task (visits (some tid) vs gone)
          (wait_for_task_result_returns tid rounds i task below pending delivers).0,
    )
