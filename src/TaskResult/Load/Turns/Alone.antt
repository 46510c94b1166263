-- ===== src/TaskResult/Load/Turns/Alone.antt =====
-- A load whose turns follow one another with nothing in between is the loadTask of Load.
use mini_drop_test.Base.{
  ℕ, zero, suc, ◌≡◌, refl, ap, sym, ◌∙◌, String, Bool, true, false, Option, none, some, List, [],
  ◌∷◌, ◌++◌, truthy,
}
use mathlib.Core.List.{append_assoc, append-nil}
use mini_drop_test.Domain.{HotmethodTask, TaskDetailData}
use mini_drop_test.Api.{Reply, response, rejected, is_ok}
use mini_drop_test.Api.Requests.{fetch_artifact_text, get_task_detail}
use mini_drop_test.Effects.{Run, send}
use mini_drop_test.TaskResult.State.{PageState, clear_for_load}
use mini_drop_test.TaskResult.Load.{
  Replies, Reader, Fetched, got, refused, load_task, load_reply, load_detail, load_found,
  load_artifacts, load_memray, memray_at, load_memray_key, with_detail, run_stages, stages, key_of,
  memray_file, take_html, show_html,
}
use mini_drop_test.TaskResult.Load.Turns.{
  detail, Request, suggestions, flame, files, top, stacks, ebpf, pprof, optional, Stage, ask,
  memray, settle, turn, begin, load_of, requests, memray_turn, answer_turn, found_turn, detail_turn,
  reply_turn,
}

module _ {J : Type 0} (reader : Reader J) (w : Replies J) (tid : String) where
  -- At most so many turns, one after the other
  unfoldable pub drain : ℕ → List Stage → PageState J → Run (PageState J)
  unfolding turn
  drain zero rest s = (s, [])
  drain (suc n) [] s = (s, [])
  drain (suc n) (stage ∷ rest) s =
      let ((t, effects), more) = turn reader w tid stage s in
      let (u, later) = drain n (more ++ rest) t in (u, effects ++ later)

  -- The detail, eight requests, two turns for the Memray page, and the end
  unfoldable pub load_alone : PageState J → Run (PageState J)
  unfolding drain begin
  load_alone s =
      let ((t, effects), list) = begin reader w tid s in
      let (u, later) = drain 12 list t in (u, effects ++ later)

  all_asked : List Request → List Stage
  all_asked [] = []
  all_asked (r ∷ rs) = ask r ∷ all_asked rs

  length_of : List Request → ℕ → ℕ
  length_of [] n = n
  length_of (r ∷ rs) n = suc (length_of rs n)

  abbrev loads_of : List Request → List (PageState J → Run (PageState J))
  loads_of [] = []
  loads_of (r ∷ rs) = load_of reader w tid r ∷ loads_of rs

  then_drain : ℕ → List Stage → Run (PageState J) → Run (PageState J)
  then_drain n rest (s, effects) = let (u, later) = drain n rest s in (u, effects ++ later)

  drain-all_asked :
      (rs : List Request) (n : ℕ) (rest : List Stage) (s : PageState J)
      → drain (length_of rs n) (all_asked rs ++ rest) s
        ≡ then_drain n rest (run_stages reader w tid (loads_of rs) s)
  unfolding drain run_stages all_asked length_of then_drain
  drain-all_asked [] n rest s = refl
  drain-all_asked (r ∷ rs) n rest s =
      let (t, effects) = load_of reader w tid r s in
      let (u, later) = run_stages reader w tid (loads_of rs) t in
      rw (drain-all_asked rs n rest t)
        (ap (λ l. ((drain n rest u).0, l)) (sym (append_assoc effects later (drain n rest u).1)))

  abbrev pub ended : Run (PageState J) → Run (PageState J)
  ended (s, effects) = (record s { loading = false }, effects)

  drain-memray_answer :
      (fetched : Fetched (Option String)) (s : PageState J)
      → truthy s.memray_object_url ≡ false
      → ended (answer_turn reader w tid fetched (record s { memray_loading = true }))
        ≡ ended (
          record (take_html reader w tid fetched s).0 { memray_loading = false },
          (take_html reader w tid fetched s).1,
        )
  unfolding answer_turn take_html show_html
  drain-memray_answer (got none) s free = refl
  drain-memray_answer (got (some String.[])) s free = refl
  drain-memray_answer (got (some (String.◌∷◌ c html))) s free = rw free refl
  drain-memray_answer (refused e) s free = refl

  drain-memray_free :
      (key : String) (s : PageState J) (held : Bool)
      → truthy s.memray_object_url ≡ held
      → then_drain 2
          ((memray_turn reader w tid (some key) s).1 ++ (settle ∷ []))
          (memray_turn reader w tid (some key) s).0
        ≡ ended (memray_at reader w tid (some key) s)
  unfolding drain then_drain memray_turn memray_at load_memray_key
  drain-memray_free key s true h = rw h refl
  drain-memray_free key s false h =
      let a = answer_turn reader w tid (w.artifact_text key) (record s { memray_loading = true }) in
      rw (h, append-nil a.1)
        (ap (λ run. (run.0, send (fetch_artifact_text tid key) ∷ run.1))
          (drain-memray_answer (w.artifact_text key) s h))

  drain-memray_turn :
      (key : Option String) (s : PageState J)
      → then_drain 2
          ((memray_turn reader w tid key s).1 ++ (settle ∷ []))
          (memray_turn reader w tid key s).0
        ≡ ended (memray_at reader w tid key s)
  unfolding then_drain drain memray_turn memray_at
  drain-memray_turn none s = refl
  drain-memray_turn (some key) s = drain-memray_free key s (truthy s.memray_object_url) refl

  drain-memray :
      (s : PageState J) → drain 3 (memray ∷ settle ∷ []) s ≡ ended (load_memray reader w tid s)
  unfolding drain then_drain load_memray
  drain-memray s = drain-memray_turn (key_of (memray_file reader w tid)) s

  abbrev all_requests : List Request
  all_requests = suggestions ∷ flame ∷ files ∷ top ∷ stacks ∷ ebpf ∷ pprof ∷ optional ∷ []

  drain-requests :
      (s : PageState J)
      → drain 11 (requests ++ (memray ∷ settle ∷ [])) s ≡ ended (load_artifacts reader w tid s)
  unfolding all_asked length_of load_artifacts stages then_drain
  drain-requests s =
      let (t, effects) = run_stages reader w tid (loads_of all_requests) s in
      drain-all_asked all_requests 3 (memray ∷ settle ∷ []) s
      ∙ ap (λ run. (run.0, effects ++ run.1)) (drain-memray t)

  drain-found :
      (d : TaskDetailData) (task : Option HotmethodTask) (message : Option String) (s : PageState J)
      → then_drain 11
          ((found_turn reader w tid d task message s).1 ++ (settle ∷ []))
          (found_turn reader w tid d task message s).0
        ≡ ended (load_found reader w tid d task message s)
  unfolding found_turn load_found drain then_drain
  drain-found d none message s = refl
  drain-found d (some task) message s = drain-requests (with_detail reader w tid d task s)

  drain-detail :
      (d : Option TaskDetailData) (ok : Bool) (message : Option String) (s : PageState J)
      → then_drain 11
          ((detail_turn reader w tid d ok message s).1 ++ (settle ∷ []))
          (detail_turn reader w tid d ok message s).0
        ≡ ended (load_detail reader w tid d ok message s)
  unfolding detail_turn load_detail drain then_drain
  drain-detail none ok message s = refl
  drain-detail (some d) false message s = refl
  drain-detail (some d) true message s = drain-found d d.task message s

  drain-reply :
      (reply : Reply TaskDetailData) (s : PageState J)
      → then_drain 11
          ((reply_turn reader w tid reply s).1 ++ (settle ∷ []))
          (reply_turn reader w tid reply s).0
        ≡ ended (load_reply reader w tid reply s)
  unfolding reply_turn load_reply drain then_drain
  drain-reply (rejected e) s = refl
  drain-reply (response res) s = drain-detail res.payload (is_ok res) res.message s

  pub drain-detail_settle :
      (s : PageState J)
      → drain 12 (detail ∷ settle ∷ []) s ≡ ended (load_reply reader w tid w.detail s)
  unfolding drain then_drain
  drain-detail_settle s = drain-reply w.detail s

  load_alone-if :
      (s : PageState J) (given : Bool)
      → truthy tid ≡ given
      → load_alone s ≡ load_task reader w tid s
  unfolding load_alone load_task drain then_drain
  load_alone-if s false h = rw h refl
  load_alone-if s true h = rw h (
      ap (λ run. (run.0, send (get_task_detail tid) ∷ run.1))
        (drain-reply w.detail (clear_for_load J s)))

  -- A load whose turns follow one another with nothing in between leaves the page and the effects of
  -- `loadTask`, after at most twelve turns.
  pub load_alone-load_task : (s : PageState J) → load_alone s ≡ load_task reader w tid s
  load_alone-load_task s = load_alone-if s (truthy tid) refl
