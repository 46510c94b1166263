-- ===== src/TaskResult/Load/Turns/Urls.antt =====
-- The object URLs of the Memray page when loads overlap and the page is left: what the browser keeps
-- is what the page holds.
use mini_drop_test.Base.{
  ℕ, zero, suc, ◌≡◌, refl, ◌⊎◌, inl, inr, String, Bool, true, false, Option, none, some, List, [],
  ◌∷◌, truthy, eq_refl, if◌then◌else◌, arith, All,
}
use mini_drop_test.Api.{Reply}
use mini_drop_test.Effects.{Run}
use mini_drop_test.TaskResult.State.{PageState}
use mini_drop_test.TaskResult.Load.{
  Replies, Reader, Fetched, got, refused, load_suggestions, load_flame, load_files, load_top,
  load_stacks, load_ebpf, load_pprof, load_optional, take_html, show_html, key_of, memray_file,
}
use mini_drop_test.TaskResult.Load.Turns.{
  Request, suggestions, flame, files, top, stacks, ebpf, pprof, optional, Stage, trigger, ask,
  detail, memray, settle, memray_answer, turn, begin, load_of, memray_turn, answer_turn, reply_turn,
  trigger_turn,
}
use mini_drop_test.TaskResult.Load.Turns.Events.{
  Load, Scene, browse_all, with_run, advance, go_on, answer_at,
}

module _ {J : Type 0} where
  abbrev pub held_urls : PageState J → List String
  held_urls s = if truthy s.memray_object_url then s.memray_object_url ∷ [] else []

  -- The browser keeps exactly the URL that the page holds, and the page shows that one.
  abbrev pub IsHeld : Scene J → Type 0
  IsHeld (s, urls) = (urls ≡ held_urls s) × (s.memray_html_url ≡ s.memray_object_url)

  abbrev IsQuiet : PageState J → Run (PageState J) → (String → String) → Type 0
  IsQuiet s (t, effects) url =
      (t.memray_object_url ≡ s.memray_object_url)
      × (t.memray_html_url ≡ s.memray_html_url)
      × ((urls : List String) → browse_all url effects urls ≡ urls)

module _ {J : Type 0} (reader : Reader J) (w : Replies J) (tid : String) where
  load_of-IsQuiet :
      (r : Request) (s : PageState J) → IsQuiet s (load_of reader w tid r s) w.object_url
  unfolding browse_all load_suggestions load_flame load_files load_top load_stacks load_ebpf
      load_pprof load_optional
  load_of-IsQuiet suggestions s = ground arith
  load_of-IsQuiet flame s = ground arith
  load_of-IsQuiet files s = ground arith
  load_of-IsQuiet top s = ground arith
  load_of-IsQuiet stacks s = ground arith
  load_of-IsQuiet ebpf s = ground arith
  load_of-IsQuiet pprof s = ground arith
  load_of-IsQuiet optional s = ground arith

  pub begin-IsQuiet : (s : PageState J) → IsQuiet s (begin reader w tid s).0 w.object_url
  unfolding browse_all begin
  begin-IsQuiet s = ground arith

  reply_turn-IsQuiet :
      (reply : Reply _) (s : PageState J)
      → IsQuiet s (reply_turn reader w tid reply s).0 w.object_url
  unfolding browse_all reply_turn
  reply_turn-IsQuiet reply s = ground arith

  memray_turn-IsQuiet :
      (key : Option String) (s : PageState J)
      → IsQuiet s (memray_turn reader w tid key s).0 w.object_url
  unfolding browse_all memray_turn
  memray_turn-IsQuiet key s = ground arith

  trigger_turn-IsQuiet :
      (reply : Reply (Unit {0})) (s : PageState J)
      → IsQuiet s (trigger_turn reader w tid reply s).0 w.object_url
  unfolding browse_all trigger_turn
  trigger_turn-IsQuiet reply s = ground (arith, begin-IsQuiet s)

  -- A new URL is held and shown, and the browser keeps no other, if it kept none or the last one.
  abbrev pub IsShown : PageState J → Run (PageState J) → Type 0
  IsShown s (t, effects) =
      (truthy t.memray_object_url ≡ true)
      × (t.memray_html_url ≡ t.memray_object_url)
      × ((urls : List String)
          → (urls ≡ []) ⊎ (urls ≡ held_urls s)
          → browse_all w.object_url effects urls ≡ t.memray_object_url ∷ [])

  browse-shown :
      (html : String) (s : PageState J) (held : Bool) (urls : List String)
      → truthy s.memray_object_url ≡ held
      → truthy html ≡ true
      → (urls ≡ []) ⊎ (urls ≡ held_urls s)
      → browse_all w.object_url (answer_turn reader w tid (got (some html)) s).1 urls
        ≡ w.object_url html ∷ []
  unfolding browse_all answer_turn take_html show_html
  browse-shown html s true urls h some_text (inl none_kept) = rw (h, some_text, none_kept) refl
  browse-shown html s true urls h some_text (inr kept) =
      rw (h, some_text, kept) (rw (h, eq_refl s.memray_object_url) refl)
  browse-shown html s false urls h some_text (inl none_kept) = rw (h, some_text, none_kept) refl
  browse-shown html s false urls h some_text (inr kept) = rw (h, some_text, kept) (rw h refl)

  pub answer_turn-IsShown :
      ((html : String) → truthy (w.object_url html) ≡ true)
      → (html : String) (s : PageState J) → truthy html ≡ true
      → IsShown s (answer_turn reader w tid (got (some html)) s)
  unfolding browse_all answer_turn take_html show_html
  answer_turn-IsShown given String.[] s none_given = cc
  answer_turn-IsShown given (String.◌∷◌ c html) s some_text = (
    given (String.◌∷◌ c html),
    refl,
    λ urls h. browse-shown (String.◌∷◌ c html) s _ urls refl refl h,
  )

  answer_turn-cases :
      ((html : String) → truthy (w.object_url html) ≡ true)
      → (fetched : Fetched (Option String)) (s : PageState J)
      → IsQuiet s (answer_turn reader w tid fetched s) w.object_url
        ⊎ IsShown s (answer_turn reader w tid fetched s)
  unfolding browse_all answer_turn take_html show_html
  answer_turn-cases given (got none) s = inl (refl, refl, λ urls. refl)
  answer_turn-cases given (got (some String.[])) s = inl (refl, refl, λ urls. refl)
  answer_turn-cases given (got (some (String.◌∷◌ c html))) s =
      inr (answer_turn-IsShown given (String.◌∷◌ c html) s refl)
  answer_turn-cases given (refused e) s = inl (refl, refl, λ urls. refl)

  turn-cases :
      ((html : String) → truthy (w.object_url html) ≡ true)
      → (stage : Stage) (s : PageState J)
      → IsQuiet s (turn reader w tid stage s).0 w.object_url
        ⊎ IsShown s (turn reader w tid stage s).0
  unfolding turn browse_all
  turn-cases given (trigger reply) s = inl (trigger_turn-IsQuiet reply s)
  turn-cases given detail s = inl (reply_turn-IsQuiet w.detail s)
  turn-cases given memray s = inl (memray_turn-IsQuiet (key_of (memray_file reader w tid)) s)
  turn-cases given settle s = inl (refl, refl, λ urls. refl)
  turn-cases given (ask r) s = inl (load_of-IsQuiet r s)
  turn-cases given (memray_answer key) s = answer_turn-cases given (w.artifact_text key) s

-- `createObjectURL` never gives the empty text.
abbrev pub GivesUrls : {J : Type 0} → Load J → Type 0
GivesUrls l = (html : String) → truthy (l.replies.object_url html) ≡ true

-- What every turn keeps: a predicate that quiet turns keep, that has the browser keep no other URL
-- than the one that is held, and that holds where a URL has just been shown.
pub record IsUrlLaw {J : Type 0} (P : Scene J → Type 0) : Type 0 where
  pub quiet :
      (s t : PageState J) (urls : List String)
      → t.memray_object_url ≡ s.memray_object_url
      → t.memray_html_url ≡ s.memray_html_url
      → P (s, urls)
      → P (t, urls)
  pub kept :
      (s : PageState J) (urls : List String) → P (s, urls) → (urls ≡ []) ⊎ (urls ≡ held_urls s)
  pub shown :
      (t : PageState J)
      → truthy t.memray_object_url ≡ true
      → t.memray_html_url ≡ t.memray_object_url
      → P (t, t.memray_object_url ∷ [])

module _ {J : Type 0} (P : Scene J → Type 0) (law : IsUrlLaw P) where
  pub with_run-keeps :
      (url : String → String) (s : PageState J) (urls : List String) (run : Run (PageState J))
      → IsQuiet s run url
      → P (s, urls)
      → P (with_run url run (s, urls))
  with_run-keeps url s urls run (object, html, same) p =
      rw (same urls) (law.quiet s run.0 urls object html p)

module _ {J : Type 0} (reader : Reader J) (P : Scene J → Type 0) (law : IsUrlLaw P) where
  go_on-keeps :
      (l : Load J) (rest : List Stage) (s : PageState J) (urls : List String)
      → GivesUrls l
      → P (s, urls)
      → P (go_on reader l rest (s, urls)).0
  unfolding go_on
  go_on-keeps l [] s urls given p = p
  go_on-keeps l (stage ∷ rest) s urls given p =
      elim (turn-cases reader l.replies l.tid given stage s) [
        | inl quiet ↦
            with_run-keeps P law l.replies.object_url s urls (turn reader l.replies l.tid stage s).0
              quiet p
        | inr (some_url, same, kept) ↦
            rw (kept urls (law.kept s urls p))
              (law.shown (turn reader l.replies l.tid stage s).0.0 some_url same)
      ]

  pub answer_at-keeps :
      (k : ℕ) (ls : List (Load J)) (scene : Scene J)
      → All GivesUrls ls
      → P scene
      → P (answer_at reader k ls scene).0
  unfolding answer_at advance
  answer_at-keeps k [] scene given p = p
  answer_at-keeps zero (l ∷ ls) (s, urls) (given, rest) p = go_on-keeps l l.rest s urls given p
  answer_at-keeps (suc k) (l ∷ ls) scene (given, rest) p = answer_at-keeps k ls scene rest p

go_on-replies :
    {J : Type 0} (reader : Reader J) (l : Load J) (rest : List Stage) (scene : Scene J)
    → (go_on reader l rest scene).1.replies ≡ l.replies
unfolding go_on
go_on-replies reader l [] scene = refl
go_on-replies reader l (stage ∷ rest) scene = refl

pub answer_at-GivesUrls :
    {J : Type 0} (reader : Reader J) (k : ℕ) (ls : List (Load J)) (scene : Scene J)
    → All GivesUrls ls
    → All GivesUrls (answer_at reader k ls scene).1
unfolding answer_at advance
answer_at-GivesUrls reader k [] scene given = tt
answer_at-GivesUrls reader zero (l ∷ ls) scene (given, rest) =
    (λ html. rw (go_on-replies reader l l.rest scene) (given html), rest)
answer_at-GivesUrls reader (suc k) (l ∷ ls) scene (given, rest) =
    (given, answer_at-GivesUrls reader k ls scene rest)
