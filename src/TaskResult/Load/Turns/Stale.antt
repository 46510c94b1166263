-- ===== src/TaskResult/Load/Turns/Stale.antt =====
-- An answer for the last task that comes after the id has changed, while the new task loads.
use mini_drop_test.Base.{
  ◌≡◌, refl, sym, String, Bool, true, false, Option, none, some, [], ◌∷◌, truthy, arith, ◌∙◌, ap,
}
use mathlib.Core.Path.{subst}
use mini_drop_test.Domain.{HotmethodTask, TaskDetailData}
use mini_drop_test.Api.{Reply, response, rejected, is_ok}
use mini_drop_test.TaskResult.State.{PageState, reset}
use mini_drop_test.TaskResult.Load.{
  Replies, Reader, got, take_html, show_html, with_detail, load_memray, memray_at, key_of,
  memray_file, load_artifacts, load_found, load_detail, load_reply, run_stages, stages,
}
use mini_drop_test.TaskResult.Load.Frame.{framed}
use mini_drop_test.TaskResult.Load.Turns.{detail, settle, memray_answer, turn, begin, answer_turn}
use mini_drop_test.TaskResult.Load.Turns.Alone.{drain, drain-detail_settle}
use mini_drop_test.TaskResult.Load.Turns.Urls.{answer_turn-IsShown}

module _ {J : Type 0} (reader : Reader J) (w : Replies J) (tid : String) where
  -- The page still shows the Memray page that it holds.
  abbrev KeepsHtml : PageState J → PageState J → Type 0
  KeepsHtml s t = truthy s.memray_object_url ≡ true → t.memray_html_url ≡ s.memray_html_url

  memray_at-KeepsHtml :
      (key : Option String) (s : PageState J) → KeepsHtml s (memray_at reader w tid key s).0
  unfolding memray_at
  memray_at-KeepsHtml key s held = ground arith

  load_artifacts-KeepsHtml : (s : PageState J) → KeepsHtml s (load_artifacts reader w tid s).0
  unfolding load_artifacts load_memray
  load_artifacts-KeepsHtml s held =
      let t = (run_stages reader w tid (stages reader w tid) s).0 in
      let (core, url) = framed reader w tid s in
      memray_at-KeepsHtml (key_of (memray_file reader w tid)) t (rw url.object held) ∙ url.html

  load_found-KeepsHtml :
      (d : TaskDetailData) (task : Option HotmethodTask) (message : Option String) (s : PageState J)
      → KeepsHtml s (load_found reader w tid d task message s).0
  unfolding load_found
  load_found-KeepsHtml d none message s held = refl
  load_found-KeepsHtml d (some task) message s held =
      load_artifacts-KeepsHtml (with_detail reader w tid d task s) held

  load_detail-KeepsHtml :
      (d : Option TaskDetailData) (ok : Bool) (message : Option String) (s : PageState J)
      → KeepsHtml s (load_detail reader w tid d ok message s).0
  unfolding load_detail
  load_detail-KeepsHtml none ok message s held = refl
  load_detail-KeepsHtml (some d) false message s held = refl
  load_detail-KeepsHtml (some d) true message s held = load_found-KeepsHtml d d.task message s held

  load_reply-KeepsHtml :
      (reply : Reply TaskDetailData) (s : PageState J)
      → KeepsHtml s (load_reply reader w tid reply s).0
  unfolding load_reply
  load_reply-KeepsHtml (rejected e) s held = refl
  load_reply-KeepsHtml (response res) s held =
      load_detail-KeepsHtml res.payload (is_ok res) res.message s held

  drain-KeepsHtml :
      (s : PageState J) → KeepsHtml s (drain reader w tid 12 (detail ∷ settle ∷ []) s).0
  drain-KeepsHtml s held =
      ap (λ run. run.0.memray_html_url) (drain-detail_settle reader w tid s)
      ∙ load_reply-KeepsHtml w.detail s held

module _ {J : Type 0} (reader : Reader J) (old new : Replies J) (old_tid new_tid : String) where
  -- The id changes and the new task begins to load; then the last task's Memray page arrives.
  unfoldable pub after_late_html : String → PageState J → PageState J
  unfolding turn begin reset
  after_late_html key s =
      let start = (begin reader new new_tid (reset J s).0).0.0 in
      (turn reader old old_tid (memray_answer key) start).0.0

  answered_late :
      (html : String) (s : PageState J)
      → truthy html ≡ true
      → (answer_turn reader old old_tid (got (some html)) s).0.memray_html_url ≡ old.object_url html
  unfolding answer_turn take_html show_html
  answered_late html s some_text = rw some_text refl

  late_html :
      (key html : String) (s : PageState J)
      → old.artifact_text key ≡ got (some html)
      → truthy html ≡ true
      → (after_late_html key s).memray_html_url ≡ old.object_url html
  unfolding after_late_html turn
  late_html key html s comes some_text =
      let start = (begin reader new new_tid (reset J s).0).0.0 in
      subst
        (λ fetched.
          (answer_turn reader old old_tid fetched start).0.memray_html_url ≡ old.object_url html)
        (sym comes) (answered_late html start some_text)

  late_url :
      (key html : String) (s : PageState J)
      → ((text : String) → truthy (old.object_url text) ≡ true)
      → old.artifact_text key ≡ got (some html)
      → truthy html ≡ true
      → truthy (after_late_html key s).memray_object_url ≡ true
  unfolding after_late_html turn
  late_url key html s given comes some_text =
      let start = (begin reader new new_tid (reset J s).0).0.0 in
      subst
        (λ fetched.
          truthy (answer_turn reader old old_tid fetched start).0.memray_object_url ≡ true)
        (sym comes) (answer_turn-IsShown reader old old_tid given html start some_text).0

  -- The id changes and the new task begins to load, then the text of the last task's Memray page
  -- arrives: when the new task has loaded, whatever is answered for it, the page shows the Memray
  -- page of the last one. The text and the URLs that the browser gives are not empty.
  pub late_html-stays :
      (key html : String) (s : PageState J)
      → ((text : String) → truthy (old.object_url text) ≡ true)
      → old.artifact_text key ≡ got (some html)
      → truthy html ≡ true
      → (drain reader new new_tid 12
          (detail ∷ settle ∷ [])
          (after_late_html key s)).0.memray_html_url
        ≡ old.object_url html
  late_html-stays key html s given comes some_text =
      drain-KeepsHtml reader new new_tid (after_late_html key s)
        (late_url key html s given comes some_text)
      ∙ late_html key html s comes some_text
