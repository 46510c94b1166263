-- ===== src/TaskResult/Load/Urls.antt =====
-- The object URLs of the Memray page: created by loadTask, released by the reset and when the page
-- is left. `held` is 1 while the page holds one.
use mini_drop_test.Base.{
  ℕ, ◌+◌, ◌≡◌, refl, String, Bool, true, false, List, [], ◌∷◌, ◌++◌, truthy, if◌then◌else◌, arith,
  All, sum_by, sum_by-append, Option, none, some,
}
use mini_drop_test.Domain.{HotmethodTask, TaskDetailData}
use mini_drop_test.Api.{Reply, response, rejected, is_ok}
use mini_drop_test.Effects.{Effect, Run, create_object_url, revoke_object_url}
use mini_drop_test.TaskResult.State.{PageState, reset, clear_for_load}
use mini_drop_test.TaskResult.Load.{
  Replies, Reader, load_suggestions, load_flame, load_files, load_top, load_stacks, load_ebpf,
  load_pprof, load_optional, load_memray, load_artifacts, run_stages, stages, load_task, load_reply,
  load_detail, load_found, with_detail, show_html, take_html, memray_at, key_of, memray_file,
  Fetched, got, refused,
}

abbrev pub creates : Effect → ℕ
creates (create_object_url _) = 1
creates _ = 0

abbrev pub revokes : Effect → ℕ
revokes (revoke_object_url _) = 1
revokes _ = 0

module _ {J : Type 0} where
  abbrev pub held : PageState J → ℕ
  held s = if truthy s.memray_object_url then 1 else 0

  -- Each URL that was held or created is released or held.
  abbrev pub IsBalanced : PageState J → Run (PageState J) → Type 0
  IsBalanced s (t, effects) = held s + sum_by creates effects ≡ held t + sum_by revokes effects

  pub then_do-IsBalanced :
      (s : PageState J) (run later : Run (PageState J))
      → IsBalanced s run
      → IsBalanced run.0 later
      → IsBalanced s (later.0, run.1 ++ later.1)
  then_do-IsBalanced s run later h g =
      omega (arith, h, g, sum_by-append creates run.1 later.1, sum_by-append revokes run.1 later.1)

  pub reset-IsBalanced : (s : PageState J) → IsBalanced s (reset J s)
  unfolding reset
  reset-IsBalanced s = ground arith

module _ {J : Type 0} (reader : Reader J) (w : Replies J) (tid : String) where
  load_suggestions-IsBalanced : (s : PageState J) → IsBalanced s (load_suggestions reader w tid s)
  unfolding load_suggestions
  load_suggestions-IsBalanced s = ground arith

  load_flame-IsBalanced : (s : PageState J) → IsBalanced s (load_flame reader w tid s)
  unfolding load_flame
  load_flame-IsBalanced s = ground arith

  load_files-IsBalanced : (s : PageState J) → IsBalanced s (load_files reader w tid s)
  unfolding load_files
  load_files-IsBalanced s = ground arith

  load_top-IsBalanced : (s : PageState J) → IsBalanced s (load_top reader w tid s)
  unfolding load_top
  load_top-IsBalanced s = ground arith

  load_stacks-IsBalanced : (s : PageState J) → IsBalanced s (load_stacks reader w tid s)
  unfolding load_stacks
  load_stacks-IsBalanced s = ground arith

  load_ebpf-IsBalanced : (s : PageState J) → IsBalanced s (load_ebpf reader w tid s)
  unfolding load_ebpf
  load_ebpf-IsBalanced s = ground arith

  load_pprof-IsBalanced : (s : PageState J) → IsBalanced s (load_pprof reader w tid s)
  unfolding load_pprof
  load_pprof-IsBalanced s = ground arith

  load_optional-IsBalanced : (s : PageState J) → IsBalanced s (load_optional reader w tid s)
  unfolding load_optional
  load_optional-IsBalanced s = ground arith

  show_html-IsBalanced :
      ((html : String) → truthy (w.object_url html) ≡ true)
      → (html : String) (s : PageState J) → truthy s.memray_object_url ≡ false
      → IsBalanced s (show_html reader w tid html s)
  unfolding show_html
  show_html-IsBalanced given html s free = ground (arith, given html)

  take_html-IsBalanced :
      ((html : String) → truthy (w.object_url html) ≡ true)
      → (fetched : Fetched (Option String)) (s : PageState J) → truthy s.memray_object_url ≡ false
      → IsBalanced s (take_html reader w tid fetched s)
  unfolding take_html
  take_html-IsBalanced given (got none) s free = ground arith
  take_html-IsBalanced given (got (some html)) s free = show_html-IsBalanced given html s free
  take_html-IsBalanced given (refused e) s free = ground arith

  memray_at-IsBalanced :
      ((html : String) → truthy (w.object_url html) ≡ true)
      → (key : Option String) (s : PageState J) → IsBalanced s (memray_at reader w tid key s)
  unfolding memray_at
  memray_at-IsBalanced given none s = refl
  memray_at-IsBalanced given (some key) s =
      ground (arith, take_html-IsBalanced given (w.artifact_text key) s)

  load_memray-IsBalanced :
      ((html : String) → truthy (w.object_url html) ≡ true)
      → (s : PageState J) → IsBalanced s (load_memray reader w tid s)
  unfolding load_memray
  load_memray-IsBalanced given s = memray_at-IsBalanced given (key_of (memray_file reader w tid)) s

  abbrev AllBalanced : List (PageState J → Run (PageState J)) → Type 0
  AllBalanced = All λ stage. (s : PageState J) → IsBalanced s (stage s)

  run_stages-IsBalanced :
      (list : List (PageState J → Run (PageState J))) (s : PageState J)
      → AllBalanced list
      → IsBalanced s (run_stages reader w tid list s)
  unfolding run_stages
  run_stages-IsBalanced [] s h = refl
  run_stages-IsBalanced (stage ∷ list) s (h, rest) =
      then_do-IsBalanced s (stage s) (run_stages reader w tid list (stage s).0) (h s)
        (run_stages-IsBalanced list (stage s).0 rest)

  stages-AllBalanced : AllBalanced (stages reader w tid)
  unfolding stages
  stages-AllBalanced = (
    load_suggestions-IsBalanced,
    (
      load_flame-IsBalanced,
      (
        load_files-IsBalanced,
        (
          load_top-IsBalanced,
          (
            load_stacks-IsBalanced,
            (load_ebpf-IsBalanced, (load_pprof-IsBalanced, (load_optional-IsBalanced, tt))),
          ),
        ),
      ),
    ),
  )

  load_artifacts-IsBalanced :
      ((html : String) → truthy (w.object_url html) ≡ true)
      → (s : PageState J) → IsBalanced s (load_artifacts reader w tid s)
  unfolding load_artifacts
  load_artifacts-IsBalanced given s =
      then_do-IsBalanced s (run_stages reader w tid (stages reader w tid) s)
        (load_memray reader w tid (run_stages reader w tid (stages reader w tid) s).0)
        (run_stages-IsBalanced (stages reader w tid) s stages-AllBalanced)
        (load_memray-IsBalanced given (run_stages reader w tid (stages reader w tid) s).0)

  load_found-IsBalanced :
      ((html : String) → truthy (w.object_url html) ≡ true)
      → (d : TaskDetailData) (task : Option HotmethodTask) (message : Option String)
        (s : PageState J)
      → IsBalanced s (load_found reader w tid d task message s)
  unfolding load_found
  load_found-IsBalanced given d none message s = refl
  load_found-IsBalanced given d (some task) message s =
      load_artifacts-IsBalanced given (with_detail reader w tid d task s)

  load_detail-IsBalanced :
      ((html : String) → truthy (w.object_url html) ≡ true)
      → (d : Option TaskDetailData) (ok : Bool) (message : Option String) (s : PageState J)
      → IsBalanced s (load_detail reader w tid d ok message s)
  unfolding load_detail
  load_detail-IsBalanced given none ok message s = ground arith
  load_detail-IsBalanced given (some d) false message s = refl
  load_detail-IsBalanced given (some d) true message s =
      load_found-IsBalanced given d d.task message s

  load_reply-IsBalanced :
      ((html : String) → truthy (w.object_url html) ≡ true)
      → (reply : Reply TaskDetailData) (s : PageState J)
      → IsBalanced s (load_reply reader w tid reply s)
  unfolding load_reply
  load_reply-IsBalanced given (rejected e) s = refl
  load_reply-IsBalanced given (response res) s =
      load_detail-IsBalanced given res.payload (is_ok res) res.message s

  pub load_task-IsBalanced :
      ((html : String) → truthy (w.object_url html) ≡ true)
      → (s : PageState J) → IsBalanced s (load_task reader w tid s)
  unfolding load_task clear_for_load
  load_task-IsBalanced given s =
      ground (arith, load_reply-IsBalanced given w.detail (clear_for_load J s))
