-- ===== src/TaskResult/Load/Turns/Tests.antt =====
-- A task with a Memray page, loaded while the page shows another.
use mini_drop_test.Base.{ℕ, zero, suc, ◌≡◌, refl, List, [], ◌∷◌, All, length, split}
use mini_drop_test.Api.{response}
use mini_drop_test.TaskResult.State.{initial}
use mini_drop_test.TaskResult.Artifacts.{
  is_memray_html_artifact, find_artifact, collapsed_file, is_collapsed_artifact,
}
use mini_drop_test.TaskResult.Load.{
  Replies, key_of, files, load_optional, load_pprof, load_ebpf, load_stacks, load_top, load_files,
  load_flame, load_suggestions,
}
use mini_drop_test.TaskResult.Tests.{reader, replies, detail_res}
use mini_drop_test.TaskResult.Load.Turns.{settle, memray_answer, detail}
use mini_drop_test.TaskResult.Load.Turns.Alone.{drain}
use mini_drop_test.TaskResult.Load.Turns.Events.{
  Event, Load, load, change_task, leave_page, answer, steps, step, opened,
}
use mini_drop_test.TaskResult.Load.Turns.Leaving.{GivesUrl, Stays, steps-IsHeld}
use mini_drop_test.TaskResult.Load.Turns.Late.{leave_page-leaks}
use mini_drop_test.TaskResult.Load.Turns.Stale.{after_late_html, late_html-stays}

abbrev found : Replies ℕ
found = replies (response detail_res)

abbrev answers : ℕ → List (Event ℕ)
answers zero = []
answers (suc n) = answer 0 ∷ answers n

-- Ten answers bring a load to the Memray page.
abbrev one_waits : List (Event ℕ)
one_waits = load "t1" found ∷ answers 10

answers-GivesUrl : (n : ℕ) → All GivesUrl (answers n)
answers-GivesUrl zero = tt
answers-GivesUrl (suc n) = (tt, answers-GivesUrl n)

answers-Stays : (n : ℕ) → All Stays (answers n)
answers-Stays zero = tt
answers-Stays (suc n) = (tt, answers-Stays n)

-- The id changes while the first task loads; the second load is the newer one.
abbrev overlapping : List (Event ℕ)
overlapping = load "t1" found ∷ answer 0 ∷ change_task ∷ load "t2" found ∷ answer 1 ∷ answers 12

steps-IsHeld_example : (step reader leave_page (steps reader overlapping (opened ℕ))).scene.1 ≡ []
steps-IsHeld_example =
    (steps-IsHeld reader overlapping
      ((λ html. refl), (tt, (tt, ((λ html. refl), (tt, answers-GivesUrl 12)))))
      (tt, (tt, (tt, (tt, (tt, answers-Stays 12)))))).1

abbrev waiting : Load ℕ
waiting = record {
  tid = "t1";
  replies = found;
  rest = memray_answer "t1/memray.html" ∷ settle ∷ [];
}

leave_page-leaks_example :
    length
      (steps reader (answer 0 ∷ []) (
        step reader
          (answer 0)
          (step reader leave_page (steps reader one_waits (opened ℕ))))).scene.1
    ≡ 1
unfolding opened steps key_of files is_memray_html_artifact split load_optional find_artifact
    load_pprof load_ebpf load_stacks collapsed_file is_collapsed_artifact load_top load_files
    load_flame load_suggestions
leave_page-leaks_example =
    leave_page-leaks reader one_waits (answer 0 ∷ []) 0 waiting "<svg/>"
      ((λ html. refl), answers-GivesUrl 10) (tt, answers-Stays 10) refl
      (record {
        key = "t1/memray.html";
        later = settle ∷ [];
        waits = refl;
        comes = refl;
        some_text = refl;
      })

late_html_example :
    (drain reader found "t2" 12
      (detail ∷ settle ∷ [])
      (after_late_html reader found found "t1" "t2" "t1/memray.html" (initial ℕ))).0.memray_html_url
    ≡ "blob:1"
late_html_example =
    late_html-stays reader found found "t1" "t2" "t1/memray.html" "<svg/>" (initial ℕ)
      (λ text. refl) refl refl
