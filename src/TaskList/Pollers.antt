-- ===== src/TaskList/Pollers.antt =====
-- The poller that web/src/pages/TaskList.tsx starts for a created task, the clean-up that stops it,
-- and what it does when it is over; web/src/pages/Home.tsx has the same words.
pub mod Laws
use mini_drop_test.Base.{
  ℕ, String, Bool, true, false, Option, none, some, List, [], ◌∷◌, if◌then◌else◌, str_eq,
}
use mini_drop_test.Effects.{Effect, navigate, replace, start_poller}
use mini_drop_test.Polling.{Round, Outcome, done, wait_for_task_result}
use mini_drop_test.Creation.{result_address}

pub record Poller : Type 0 where
  pub tid : String
  pub aborted : Bool

-- One mounting of the page, in the browser: the address, and the pollers that the page has started,
-- the newest first. The ref of the page is in its own state.
pub record Shell : Type 0 where
  pub mounted : Bool
  pub address : String
  pub pollers : List Poller

abbrev pub perform : Effect → Shell → Shell
perform (navigate to) s = record s { address = to }
perform (replace to) s = record s { address = to }
perform (start_poller tid) s = record s {
  pollers = record { tid = tid; aborted = false } ∷ s.pollers;
}
perform _ s = s

unfoldable pub perform_all : List Effect → Shell → Shell
perform_all [] s = s
perform_all (effect ∷ effects) s = perform_all effects (perform effect s)

-- `pollerRef.current?.abort()`: the ref holds the last poller that was started for its task.
abbrev pub abort_ref : Option String → List Poller → List Poller
abort_ref none ps = ps
abort_ref (some tid) [] = []
abort_ref (some tid) (p ∷ ps) =
    let rest = abort_ref (some tid) ps in
    if str_eq p.tid tid then record p { aborted = true } ∷ ps else p ∷ rest

-- The page is unmounted, by whatever changes the address; its clean-up reads the ref.
unfoldable pub leave : Option String → Shell → Shell
leave ref s =
    if s.mounted then record s { mounted = false; pollers = abort_ref ref s.pollers } else s

-- `poller.promise.then(...)`: a failure is only logged.
after_wait : String → Outcome → Shell → Shell
after_wait tid (done task) s = perform (replace (result_address tid)) s
after_wait tid _ s = s

unfoldable pub poller_over : String → (ℕ → Round) → Shell → Shell
unfolding after_wait
poller_over tid rounds s = after_wait tid (wait_for_task_result tid rounds).0 s

-- What the visitor does once the page is gone
pub data Visit : Type 0 where
  visit : String → Visit
  leave_again : Visit

unfoldable pub visits : Option String → List Visit → Shell → Shell
unfolding leave
visits ref [] s = s
visits ref (visit to ∷ vs) s = visits ref vs (record s { address = to })
visits ref (leave_again ∷ vs) s = visits ref vs (leave ref s)
