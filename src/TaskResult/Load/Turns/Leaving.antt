-- ===== src/TaskResult/Load/Turns/Leaving.antt =====
-- From the opening of the result page to its end, with overlapping loads: what becomes of the object
-- URLs.
use mini_drop_test.Base.{
  ◌≡◌, refl, sym, inr, String, Bool, true, false, List, [], ◌∷◌, truthy, eq_refl, if◌then◌else◌,
  All,
}
use mathlib.Core.Path.{subst}
use mini_drop_test.Api.{Reply}
use mini_drop_test.TaskResult.State.{PageState, reset, leave}
use mini_drop_test.TaskResult.Load.{Replies, Reader}
use mini_drop_test.TaskResult.Load.Turns.{begin}
use mini_drop_test.TaskResult.Load.Turns.Events.{
  Scene, Event, load, reload, analyze, change_task, leave_page, answer, World, browse_all, with_run,
  no_url, start, analyzing, open_step, left_step, step, steps, opened,
}
use mini_drop_test.TaskResult.Load.Turns.Urls.{
  held_urls, IsHeld, GivesUrls, IsUrlLaw, answer_at-keeps, answer_at-GivesUrls, begin-IsQuiet,
  with_run-keeps,
}

module _ {J : Type 0} where
  pub IsHeld-IsUrlLaw : IsUrlLaw (IsHeld {J = J})
  IsHeld-IsUrlLaw = record {
    quiet = λ s t urls object html (kept, same). (rw object kept, rw (html, object) same);
    kept = λ s urls (kept, same). inr kept;
    shown = λ t some_url same. (rw some_url refl, same);
  }

  -- After the page is left: the URL of an answer that came too late
  abbrev pub IsLeaked : Scene J → Type 0
  IsLeaked (s, urls) = (truthy s.memray_object_url ≡ true) × (urls ≡ s.memray_object_url ∷ [])

  pub IsLeaked-IsUrlLaw : IsUrlLaw IsLeaked
  IsLeaked-IsUrlLaw = record {
    quiet = λ s t urls object html (some_url, kept). (rw object some_url, rw object kept);
    kept = λ s urls (some_url, kept). inr (rw (some_url) kept);
    shown = λ t some_url same. (some_url, refl);
  }

  abbrev pub GivesUrl : Event J → Type 0
  GivesUrl (load tid w) = (html : String) → truthy (w.object_url html) ≡ true
  GivesUrl (reload tid w) = (html : String) → truthy (w.object_url html) ≡ true
  GivesUrl (analyze tid reply w) = (html : String) → truthy (w.object_url html) ≡ true
  GivesUrl _ = Unit

  -- The page is not left.
  abbrev pub Stays : Event J → Type 0
  Stays leave_page = ⊥
  Stays _ = Unit

module _ {J : Type 0} (reader : Reader J) where
  -- A page that is open: what the browser keeps is what the page holds, and all loads give URLs.
  abbrev pub IsOpen : World J → Type 0
  IsOpen world = (world.left ≡ false) × IsHeld world.scene × All GivesUrls world.loads

  start-IsOpen :
      (tid : String) (w : Replies J) (page : PageState J) (world : World J)
      → ((html : String) → truthy (w.object_url html) ≡ true)
      → page.memray_object_url ≡ world.scene.0.memray_object_url
      → page.memray_html_url ≡ world.scene.0.memray_html_url
      → IsOpen world
      → IsOpen (start reader tid w page world)
  unfolding start
  start-IsOpen tid w page world given object html (is_open, held, loads) = (
    is_open,
    with_run-keeps IsHeld IsHeld-IsUrlLaw w.object_url page world.scene.1
        (begin reader w tid page).0 (begin-IsQuiet reader w tid page)
        (IsHeld-IsUrlLaw.quiet world.scene.0 page world.scene.1 object html held),
    (given, loads),
  )

  IsOpen-if :
      (b : Bool) (world other : World J)
      → IsOpen world
      → IsOpen other
      → IsOpen (if b then world else other)
  IsOpen-if true world other h g = h
  IsOpen-if false world other h g = g

  analyzing-IsOpen :
      (tid : String) (reply : Reply (Unit {0})) (w : Replies J) (world : World J)
      → ((html : String) → truthy (w.object_url html) ≡ true)
      → IsOpen world
      → IsOpen (analyzing reader tid reply w world)
  unfolding analyzing
  analyzing-IsOpen tid reply w world given (is_open, held, loads) =
      IsOpen-if (truthy tid) _ world (is_open, held, (given, loads)) (is_open, held, loads)

  released_if :
      (held : Bool) (page : PageState J) (urls : List String)
      → truthy page.memray_object_url ≡ held
      → urls ≡ held_urls page
      → browse_all no_url (leave J page) urls ≡ []
  unfolding leave browse_all
  released_if true page urls h kept = rw (kept, h) (rw (eq_refl page.memray_object_url) refl)
  released_if false page urls h kept = rw (kept, h) refl

  reset_if :
      (held : Bool) (page : PageState J) (urls : List String)
      → truthy page.memray_object_url ≡ held
      → urls ≡ held_urls page
      → IsHeld (with_run no_url (reset J page) (page, urls))
  unfolding reset browse_all
  reset_if true page urls h kept = (rw (kept, h) (rw (eq_refl page.memray_object_url) refl), refl)
  reset_if false page urls h kept = (rw (kept, h) refl, refl)

  open_step-IsOpen :
      (event : Event J) (world : World J)
      → GivesUrl event
      → Stays event
      → IsOpen world
      → IsOpen (open_step reader event world)
  unfolding open_step
  open_step-IsOpen (load tid w) world given stays h =
      start-IsOpen tid w (record (world.scene.0) { loading = true }) world given refl refl h
  open_step-IsOpen (reload tid w) world given stays h =
      start-IsOpen tid w world.scene.0 world given refl refl h
  open_step-IsOpen (analyze tid reply w) world given stays h =
      analyzing-IsOpen tid reply w world given h
  open_step-IsOpen change_task world given stays (is_open, held, loads) =
      (is_open, reset_if _ world.scene.0 world.scene.1 refl held.0, loads)
  open_step-IsOpen leave_page world given stays h = absurd stays
  open_step-IsOpen (answer k) world given stays (is_open, held, loads) = (
    is_open,
    answer_at-keeps reader IsHeld IsHeld-IsUrlLaw k world.loads world.scene loads held,
    answer_at-GivesUrls reader k world.loads world.scene loads,
  )

  step-IsOpen :
      (event : Event J) (world : World J)
      → GivesUrl event
      → Stays event
      → IsOpen world
      → IsOpen (step reader event world)
  unfolding step
  step-IsOpen event world given stays h =
      subst (λ b. IsOpen (if b then left_step reader event world else open_step reader event world))
        (sym h.0) (open_step-IsOpen event world given stays h)

  pub steps-IsOpen :
      (events : List (Event J)) (world : World J)
      → All GivesUrl events
      → All Stays events
      → IsOpen world
      → IsOpen (steps reader events world)
  unfolding steps
  steps-IsOpen [] world given stays h = h
  steps-IsOpen (event ∷ events) world (given, all_given) (stays, all_stay) h =
      steps-IsOpen events (step reader event world) all_given all_stay
        (step-IsOpen event world given stays h)

  pub leave_page_lem :
      (world : World J) → IsOpen world → (step reader leave_page world).scene.1 ≡ []
  unfolding step open_step
  leave_page_lem world (is_open, held, loads) =
      subst
        (λ b.
          (if b
            then left_step reader leave_page world
            else open_step reader leave_page world).scene.1
          ≡ [])
        (sym is_open) (released_if _ world.scene.0 world.scene.1 refl held.0)

  pub opened-IsOpen : IsOpen (opened J)
  unfolding opened
  opened-IsOpen = (refl, (refl, refl), tt)

  -- From the opening of the page on, while it is open and however its loads overlap: the browser
  -- keeps exactly the object URL that the page holds, the page shows that URL, and when the page is
  -- left none is kept. The browser gives no empty URL.
  pub steps-IsHeld :
      (events : List (Event J))
      → All GivesUrl events
      → All Stays events
      → IsHeld (steps reader events (opened J)).scene
        × ((step reader leave_page (steps reader events (opened J))).scene.1 ≡ [])
  steps-IsHeld events given stays =
      let h = steps-IsOpen events (opened J) given stays opened-IsOpen in
      (h.1, leave_page_lem (steps reader events (opened J)) h)
