-- ===== src/TaskResult/Load/Session.antt =====
-- The result page from its opening to its end, as a sequence of loads and of changes of the task.
use mini_drop_test.Base.{
  ◌≡◌, refl, String, true, List, [], ◌∷◌, ◌++◌, truthy, arith, All, sum_by, sum_by-append,
}
use mini_drop_test.Api.{Reply}
use mini_drop_test.Effects.{Run}
use mini_drop_test.TaskResult.State.{PageState, reset, initial, leave}
use mini_drop_test.TaskResult.Load.{Replies, Reader, load_task, run_analysis}
use mini_drop_test.TaskResult.Load.Urls.{
  creates, revokes, held, IsBalanced, then_do-IsBalanced, reset-IsBalanced, load_task-IsBalanced,
}

-- What happens to the page: it loads a task when it is opened with an id, an interval's tick loads
-- it again, the button triggers the analysis, or the id changes. Each load has its replies.
pub data Step (J : Type 0) : Type 0 where
  load : String → Replies J → Step J
  reload : String → Replies J → Step J
  analyze : String → Reply (Unit {0}) → Replies J → Step J
  change_task : Step J

module _ {J : Type 0} (reader : Reader J) where
  abbrev pub take_step : Step J → PageState J → Run (PageState J)
  take_step (load tid w) s = load_task reader w tid (record s { loading = true })
  take_step (reload tid w) s = load_task reader w tid s
  take_step (analyze tid trigger w) s = run_analysis reader w tid trigger s
  take_step change_task s = reset J s

  abbrev pub take_steps : List (Step J) → PageState J → Run (PageState J)
  take_steps [] s = (s, [])
  take_steps (step ∷ steps) s =
      let (t, effects) = take_step step s in
      let (u, later) = take_steps steps t in (u, effects ++ later)

  -- `createObjectURL` never gives the empty text.
  abbrev pub GivesUrls : Step J → Type 0
  GivesUrls (load tid w) = (html : String) → truthy (w.object_url html) ≡ true
  GivesUrls (reload tid w) = (html : String) → truthy (w.object_url html) ≡ true
  GivesUrls (analyze tid trigger w) = (html : String) → truthy (w.object_url html) ≡ true
  GivesUrls change_task = Unit

  run_analysis-IsBalanced :
      (tid : String) (trigger : Reply (Unit {0})) (w : Replies J) (s : PageState J)
      → ((html : String) → truthy (w.object_url html) ≡ true)
      → IsBalanced s (run_analysis reader w tid trigger s)
  unfolding run_analysis
  run_analysis-IsBalanced tid trigger w s given =
      ground (arith, load_task-IsBalanced reader w tid given s)

  take_step-IsBalanced :
      (step : Step J) (s : PageState J) → GivesUrls step → IsBalanced s (take_step step s)
  take_step-IsBalanced (load tid w) s given =
      load_task-IsBalanced reader w tid given (record s { loading = true })
  take_step-IsBalanced (reload tid w) s given = load_task-IsBalanced reader w tid given s
  take_step-IsBalanced (analyze tid trigger w) s given =
      run_analysis-IsBalanced tid trigger w s given
  take_step-IsBalanced change_task s given = reset-IsBalanced s

  take_steps-IsBalanced :
      (steps : List (Step J)) (s : PageState J)
      → All GivesUrls steps
      → IsBalanced s (take_steps steps s)
  take_steps-IsBalanced [] s h = refl
  take_steps-IsBalanced (step ∷ steps) s (given, rest) =
      then_do-IsBalanced s (take_step step s) (take_steps steps (take_step step s).0)
        (take_step-IsBalanced step s given) (take_steps-IsBalanced steps (take_step step s).0 rest)

  leave_releases : (s : PageState J) → sum_by revokes (leave J s) ≡ held s
  unfolding leave
  leave_releases s = ground arith

  -- Where the browser gives no empty URL: from the opening of the page to its end, whatever is
  -- loaded and however often the task changes, as many object URLs are released as were created.
  pub revokes-take_steps :
      (steps : List (Step J))
      → All GivesUrls steps
      → sum_by revokes
          ((take_steps steps (initial J)).1 ++ leave J (take_steps steps (initial J)).0)
        ≡ sum_by creates (take_steps steps (initial J)).1
  unfolding initial
  revokes-take_steps steps given = omega (
    arith,
    take_steps-IsBalanced steps (initial J) given,
    leave_releases (take_steps steps (initial J)).0,
    sum_by-append revokes (take_steps steps (initial J)).1
        (leave J (take_steps steps (initial J)).0),
  )
