-- ===== src/TaskResult/Load/Frame.antt =====
-- What the requests behind the task's detail leave alone: they never touch the page's error, its
-- task or its loading flag.
use mini_drop_test.Base.{◌≡◌, String, List, [], ◌∷◌, arith, All}
use mini_drop_test.TaskResult.State.{PageState}
use mini_drop_test.TaskResult.Load.{
  Replies, Reader, load_suggestions, load_flame, load_files, load_top, load_stacks, load_ebpf,
  load_pprof, load_optional, load_memray, load_artifacts, run_stages, stages,
}
use mini_drop_test.Effects.{Run}

module _ {J : Type 0} where
  pub record SameCore (s t : PageState J) : Type 0 where
    pub error : t.error ≡ s.error
    pub task : t.task ≡ s.task
    pub loading : t.loading ≡ s.loading

  -- The address that is shown is the object URL that is held.
  abbrev pub HoldsUrl : PageState J → Type 0
  HoldsUrl s = s.memray_html_url ≡ s.memray_object_url

  pub record SameUrl (s t : PageState J) : Type 0 where
    pub html : t.memray_html_url ≡ s.memray_html_url
    pub object : t.memray_object_url ≡ s.memray_object_url

  abbrev pub IsFramed : PageState J → PageState J → Type 0
  IsFramed s t = SameCore s t × SameUrl s t

module _ {J : Type 0} (reader : Reader J) (w : Replies J) (tid : String) where
  load_suggestions-IsFramed : (s : PageState J) → IsFramed s (load_suggestions reader w tid s).0
  unfolding load_suggestions
  load_suggestions-IsFramed s = ground arith

  load_flame-IsFramed : (s : PageState J) → IsFramed s (load_flame reader w tid s).0
  unfolding load_flame
  load_flame-IsFramed s = ground arith

  load_files-IsFramed : (s : PageState J) → IsFramed s (load_files reader w tid s).0
  unfolding load_files
  load_files-IsFramed s = ground arith

  load_top-IsFramed : (s : PageState J) → IsFramed s (load_top reader w tid s).0
  unfolding load_top
  load_top-IsFramed s = ground arith

  load_stacks-IsFramed : (s : PageState J) → IsFramed s (load_stacks reader w tid s).0
  unfolding load_stacks
  load_stacks-IsFramed s = ground arith

  load_ebpf-IsFramed : (s : PageState J) → IsFramed s (load_ebpf reader w tid s).0
  unfolding load_ebpf
  load_ebpf-IsFramed s = ground arith

  load_pprof-IsFramed : (s : PageState J) → IsFramed s (load_pprof reader w tid s).0
  unfolding load_pprof
  load_pprof-IsFramed s = ground arith

  load_optional-IsFramed : (s : PageState J) → IsFramed s (load_optional reader w tid s).0
  unfolding load_optional
  load_optional-IsFramed s = ground arith

  load_memray-SameCore : (s : PageState J) → SameCore s (load_memray reader w tid s).0
  unfolding load_memray
  load_memray-SameCore s = ground arith

  load_memray-HoldsUrl : (s : PageState J) → HoldsUrl s → HoldsUrl (load_memray reader w tid s).0
  unfolding load_memray
  load_memray-HoldsUrl s h = ground arith

  abbrev AllFramed : List (PageState J → Run (PageState J)) → Type 0
  AllFramed = All λ stage. (s : PageState J) → IsFramed s (stage s).0

  run_stages-IsFramed :
      (list : List (PageState J → Run (PageState J))) (s : PageState J)
      → AllFramed list
      → IsFramed s (run_stages reader w tid list s).0
  unfolding run_stages
  run_stages-IsFramed [] s h = ground arith
  run_stages-IsFramed (stage ∷ list) s (h, rest) =
      ground (arith, h s, run_stages-IsFramed list (stage s).0 rest)

  stages-AllFramed : AllFramed (stages reader w tid)
  unfolding stages
  stages-AllFramed = (
    load_suggestions-IsFramed,
    (
      load_flame-IsFramed,
      (
        load_files-IsFramed,
        (
          load_top-IsFramed,
          (
            load_stacks-IsFramed,
            (load_ebpf-IsFramed, (load_pprof-IsFramed, (load_optional-IsFramed, tt))),
          ),
        ),
      ),
    ),
  )

  pub framed : (s : PageState J) → IsFramed s (run_stages reader w tid (stages reader w tid) s).0
  framed s = run_stages-IsFramed (stages reader w tid) s stages-AllFramed

  pub load_artifacts-SameCore : (s : PageState J) → SameCore s (load_artifacts reader w tid s).0
  unfolding load_artifacts
  load_artifacts-SameCore s =
      ground
        (arith, framed s, load_memray-SameCore (run_stages reader w tid (stages reader w tid) s).0)

  pub load_artifacts-HoldsUrl :
      (s : PageState J) → HoldsUrl s → HoldsUrl (load_artifacts reader w tid s).0
  unfolding load_artifacts
  load_artifacts-HoldsUrl s h =
      ground
        (arith, framed s, load_memray-HoldsUrl (run_stages reader w tid (stages reader w tid) s).0)
