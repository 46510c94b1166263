-- ===== src/TaskResult/Load/Turns/Events.antt =====
-- The result page with all its loads, from its opening to its end: what happens to it, in any order.
use mini_drop_test.Base.{
  ℕ, zero, suc, String, Bool, true, false, not, List, [], ◌∷◌, ◌++◌, str_eq, filter, truthy,
  if◌then◌else◌,
}
use mini_drop_test.Api.{Reply}
use mini_drop_test.Effects.{Effect, Run, create_object_url, revoke_object_url}
use mini_drop_test.TaskResult.State.{PageState, reset, leave, initial}
use mini_drop_test.TaskResult.Load.{Replies, Reader}
use mini_drop_test.TaskResult.Load.Turns.{Stage, trigger, turn, begin}

-- A load that is under way: its task, the answers that it will get, and what it waits for
pub record Load (J : Type 0) : Type 0 where
  pub tid : String
  pub replies : Replies J
  pub rest : List Stage

-- The page, and the object URLs that the browser keeps
abbrev pub Scene : Type 0 → Type 0
Scene J = PageState J × List String

-- A handler or an answer, whole: a load starts when the id is given or changes, by the interval or
-- by the button, which waits for its own answer first; the id changes; the load of that number goes
-- on; the page is left.
pub data Event (J : Type 0) : Type 0 where
  load reload : String → Replies J → Event J
  analyze : String → Reply (Unit {0}) → Replies J → Event J
  change_task leave_page : Event J
  answer : ℕ → Event J

pub record World (J : Type 0) : Type 0 where
  pub scene : Scene J
  pub loads : List (Load J)
  pub left : Bool

-- What an effect does to the URLs that the browser keeps
abbrev pub browse : (String → String) → Effect → List String → List String
browse object_url (create_object_url html) urls = object_url html ∷ urls
browse object_url (revoke_object_url url) urls = filter (λ u. not (str_eq u url)) urls
browse object_url _ urls = urls

unfoldable pub browse_all : (String → String) → List Effect → List String → List String
browse_all object_url [] urls = urls
browse_all object_url (effect ∷ effects) urls =
    browse_all object_url effects (browse object_url effect urls)

module _ {J : Type 0} where
  abbrev pub with_run : (String → String) → Run (PageState J) → Scene J → Scene J
  with_run object_url (page, effects) scene = (page, browse_all object_url effects scene.1)

-- For effects that create no URL
abbrev pub no_url : String → String
no_url html = ""

module _ {J : Type 0} (reader : Reader J) where
  unfoldable pub go_on : Load J → List Stage → Scene J → Scene J × Load J
  unfolding browse_all turn
  go_on l [] scene = (scene, l)
  go_on l (stage ∷ rest) scene =
      let (run, more) = turn reader l.replies l.tid stage scene.0 in
      (with_run l.replies.object_url run scene, record l { rest = more ++ rest })

  -- One turn of a load, if it has not ended
  unfoldable pub advance : Load J → Scene J → Scene J × Load J
  unfolding go_on
  advance l scene = go_on l l.rest scene

  unfoldable pub answer_at : ℕ → List (Load J) → Scene J → Scene J × List (Load J)
  unfolding advance
  answer_at k [] scene = (scene, [])
  answer_at zero (l ∷ ls) scene = let (next, m) = advance l scene in (next, m ∷ ls)
  answer_at (suc k) (l ∷ ls) scene = let (next, ms) = answer_at k ls scene in (next, l ∷ ms)

  -- A load begins: everything up to its first await happens at once.
  unfoldable pub start : String → Replies J → PageState J → World J → World J
  unfolding begin browse_all
  start tid w page world =
      let (run, stages) = begin reader w tid page in
      record world {
        scene = with_run w.object_url run world.scene;
        loads = record { tid = tid; replies = w; rest = stages } ∷ world.loads;
      }

  unfoldable pub analyzing : String → Reply (Unit {0}) → Replies J → World J → World J
  analyzing tid reply w world =
      if truthy tid
      then record world {
        loads = record { tid = tid; replies = w; rest = trigger reply ∷ [] } ∷ world.loads;
      }
      else world

  unfoldable pub open_step : Event J → World J → World J
  unfolding start analyzing browse_all answer_at
  open_step (load tid w) world = start tid w (record (world.scene.0) { loading = true }) world
  open_step (reload tid w) world = start tid w world.scene.0 world
  open_step (analyze tid reply w) world = analyzing tid reply w world
  open_step change_task world = record world {
    scene = with_run no_url (reset J world.scene.0) world.scene;
  }
  open_step leave_page world = record world {
    scene = with_run no_url (world.scene.0, leave J world.scene.0) world.scene;
    left = true;
  }
  open_step (answer k) world =
      let (scene, loads) = answer_at k world.loads world.scene in
      record world { scene = scene; loads = loads }

  -- Answers still arrive when the page is left; nothing else happens to it.
  unfoldable pub left_step : Event J → World J → World J
  unfolding answer_at
  left_step (answer k) world =
      let (scene, loads) = answer_at k world.loads world.scene in
      record world { scene = scene; loads = loads }
  left_step _ world = world

  unfoldable pub step : Event J → World J → World J
  unfolding open_step left_step
  step event world = if world.left then left_step event world else open_step event world

  unfoldable pub steps : List (Event J) → World J → World J
  unfolding step
  steps [] world = world
  steps (event ∷ events) world = steps events (step event world)

unfoldable pub opened : (J : Type 0) → World J
unfolding initial
opened J = record { scene = (initial J, []); loads = []; left = false }
