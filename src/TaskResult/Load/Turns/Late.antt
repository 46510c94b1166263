-- ===== src/TaskResult/Load/Turns/Late.antt =====
-- Answers that come too late: after the page is left, and after the id has changed.
use mini_drop_test.Base.{
  get_elem?, ℕ, zero, suc, ◌≡◌, refl, sym, inl, String, true, false, some, List, [], ◌∷◌, truthy,
  if◌then◌else◌, All, length, ap,
}
use mathlib.Core.Path.{subst}
use mathlib.Core.Option.{some-injective}
use mini_drop_test.TaskResult.State.{PageState}
use mini_drop_test.TaskResult.Load.{Reader, got}
use mini_drop_test.TaskResult.Load.Turns.{Stage, memray_answer, answer_turn, turn}
use mini_drop_test.TaskResult.Load.Turns.Events.{
  Load, Event, load, reload, analyze, change_task, leave_page, answer, World, with_run, advance,
  go_on, answer_at, open_step, left_step, step, steps, opened,
}
use mini_drop_test.TaskResult.Load.Turns.Urls.{
  GivesUrls, answer_at-keeps, answer_at-GivesUrls, answer_turn-IsShown,
}
use mini_drop_test.TaskResult.Load.Turns.Leaving.{
  IsLeaked, IsLeaked-IsUrlLaw, GivesUrl, Stays, steps-IsOpen, leave_page_lem, opened-IsOpen,
}

module _ {J : Type 0} where
  -- It waits for the text of a Memray page, which will come and is not empty.
  pub record WaitsForHtml (l : Load J) (html : String) : Type 0 where
    pub key : String
    pub later : List Stage
    pub waits : l.rest ≡ memray_answer key ∷ later
    pub comes : l.replies.artifact_text key ≡ got (some html)
    pub some_text : truthy html ≡ true

module _ {J : Type 0} (reader : Reader J) where
  -- A page that was left, with one URL that nobody releases
  abbrev HasLeaked : World J → Type 0
  HasLeaked world = (world.left ≡ true) × IsLeaked world.scene × All GivesUrls world.loads

  left_step-HasLeaked :
      (event : Event J) (world : World J)
      → HasLeaked world
      → HasLeaked (left_step reader event world)
  unfolding left_step
  left_step-HasLeaked (load tid w) world h = h
  left_step-HasLeaked (reload tid w) world h = h
  left_step-HasLeaked (analyze tid reply w) world h = h
  left_step-HasLeaked change_task world h = h
  left_step-HasLeaked leave_page world h = h
  left_step-HasLeaked (answer k) world (left, leaked, loads) = (
    left,
    answer_at-keeps reader IsLeaked IsLeaked-IsUrlLaw k world.loads world.scene loads leaked,
    answer_at-GivesUrls reader k world.loads world.scene loads,
  )

  step-left :
      (event : Event J) (world : World J)
      → world.left ≡ true
      → left_step reader event world ≡ step reader event world
  unfolding step
  step-left event world left =
      subst
        (λ b.
          left_step reader event world
          ≡ (if b then left_step reader event world else open_step reader event world))
        (sym left) refl

  steps-HasLeaked :
      (events : List (Event J)) (world : World J)
      → HasLeaked world
      → HasLeaked (steps reader events world)
  unfolding steps
  steps-HasLeaked [] world h = h
  steps-HasLeaked (event ∷ events) world h =
      steps-HasLeaked events (step reader event world)
        (subst HasLeaked (step-left event world h.0) (left_step-HasLeaked event world h))

  go_on-leaks :
      (l : Load J) (html : String) (page : PageState J)
      → GivesUrls l
      → WaitsForHtml l html
      → IsLeaked (advance reader l (page, [])).0
  unfolding advance go_on turn
  go_on-leaks l html page given waits =
      let shows = answer_turn-IsShown reader l.replies l.tid given html page waits.some_text in
      subst (λ rest. IsLeaked (go_on reader l rest (page, [])).0) (sym waits.waits)
        (subst
          (λ fetched. IsLeaked (
            with_run l.replies.object_url (answer_turn reader l.replies l.tid fetched page)
              (page, [])))
          (sym waits.comes) (shows.0, shows.2 [] (inl refl)))

  answer_at-leaks :
      (k : ℕ) (ls : List (Load J)) (l : Load J) (html : String) (page : PageState J)
      → get_elem? ls k ≡ some l
      → All GivesUrls ls
      → WaitsForHtml l html
      → IsLeaked (answer_at reader k ls (page, [])).0
  unfolding answer_at
  answer_at-leaks k [] l html page h given waits = cc
  answer_at-leaks zero (m ∷ ls) l html page h (given, rest) waits =
      go_on-leaks m html page given
        (subst (λ x. WaitsForHtml x html) (sym (some-injective m l h)) waits)
  answer_at-leaks (suc k) (m ∷ ls) l html page h (given, rest) waits =
      answer_at-leaks k ls l html page h rest waits

  left_after : (world : World J) → world.left ≡ false → (step reader leave_page world).left ≡ true
  unfolding step open_step
  left_after world is_open =
      subst
        (λ b.
          (if b then left_step reader leave_page world else open_step reader leave_page world).left
          ≡ true)
        (sym is_open) refl

  same_loads :
      (world : World J) → world.left ≡ false → (step reader leave_page world).loads ≡ world.loads
  unfolding step open_step
  same_loads world is_open =
      subst
        (λ b.
          (if b then left_step reader leave_page world else open_step reader leave_page world).loads
          ≡ world.loads)
        (sym is_open) refl

  answer-HasLeaked :
      (world : World J) (k : ℕ) (l : Load J) (html : String)
      → world.left ≡ true
      → world.scene.1 ≡ []
      → All GivesUrls world.loads
      → get_elem? world.loads k ≡ some l
      → WaitsForHtml l html
      → HasLeaked (step reader (answer k) world)
  unfolding step left_step
  answer-HasLeaked world k l html left empty given h waits =
      subst HasLeaked (step-left (answer k) world left) (
        left,
        subst (λ urls. IsLeaked (answer_at reader k world.loads (world.scene.0, urls)).0)
            (sym empty) (answer_at-leaks k world.loads l html world.scene.0 h given waits),
        answer_at-GivesUrls reader k world.loads world.scene given,
      )

  -- If the page is left while a load waits for the text of a Memray page, which comes and is not
  -- empty, then its object URL, or that of a later answer, is kept whatever arrives later: one is
  -- never released.
  pub leave_page-leaks :
      (before later : List (Event J)) (k : ℕ) (l : Load J) (html : String)
      → All GivesUrl before
      → All Stays before
      → get_elem? (steps reader before (opened J)).loads k ≡ some l
      → WaitsForHtml l html
      → length
          (steps reader later (
            step reader
              (answer k)
              (step reader leave_page (steps reader before (opened J))))).scene.1
        ≡ 1
  leave_page-leaks before later k l html given stays h waits =
      let world = steps reader before (opened J) in
      let (is_open, held, loads) =
        steps-IsOpen reader before (opened J) given stays (opened-IsOpen reader) in
      let same = same_loads world is_open in
      let (left, (some_url, kept), all_give) =
        steps-HasLeaked later (step reader (answer k) (step reader leave_page world)) (
          answer-HasLeaked (step reader leave_page world) k l html (left_after world is_open)
            (leave_page_lem reader world (is_open, held, loads))
            (subst (All GivesUrls) (sym same) loads)
            (subst (λ ls. get_elem? ls k ≡ some l) (sym same) h) waits) in
      ap length kept
