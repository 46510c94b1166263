-- ===== src/TaskResult/Load/Laws.antt =====
-- What loadTask promises on each of its branches.
use mini_drop_test.Base.Text.Chars.{truthy-or_else}
use mathlib.Core.Path.{subst}
use mini_drop_test.Base.{
  sym, if◌then◌else◌, ◌==◌, ◌∙◌, ℕ, zero, suc, refl, List, ◌⊎◌, inl, inr, or_else, ◌≡◌, String,
  Bool, true, false, Option, none, some, [], ◌∷◌, truthy, arith,
}
use mini_drop_test.Domain.{HotmethodTask, TaskDetailData}
use mini_drop_test.Api.{
  ApiResponse, Reply, response, rejected, is_ok, failure_text, truthy-failure_text,
}
use mini_drop_test.Api.Requests.{get_task_detail}
use mini_drop_test.Effects.{Effect, send}
use mini_drop_test.TaskResult.State.{PageState, clear_for_load}
use mini_drop_test.TaskResult.Load.{
  Replies, Reader, load_task, load_detail, load_found, load_reply, with_detail,
}
use mini_drop_test.TaskResult.Load.Frame.{
  HoldsUrl, load_artifacts-SameCore, load_artifacts-HoldsUrl,
}

-- The task of a detail that is answered with code 0
abbrev pub answered_task : ℕ → Option TaskDetailData → Option HotmethodTask
answered_task zero none = none
answered_task zero (some d) = d.task
answered_task (suc code) payload = none

abbrev pub found_task : Reply TaskDetailData → Option HotmethodTask
found_task (rejected e) = none
found_task (response res) = answered_task res.code res.payload

-- What the page says where there is none
abbrev pub said : Reply TaskDetailData → String
said (rejected e) = failure_text "任务详情加载失败" e
said (response res) = or_else res.message "任务不存在"

suc-is-not-zero : (n : ℕ) → (suc n == 0) ≡ false
suc-is-not-zero n = ground arith

module _ {J : Type 0} (reader : Reader J) (w : Replies J) (tid : String) where
  -- Whatever the replies are, the page is no longer loading when `loadTask` is over.
  pub load_task_ends : (s : PageState J) → (load_task reader w tid s).0.loading ≡ false
  unfolding load_task
  load_task_ends s = ground arith

  -- The detail was found, and the page shows it; or it keeps its task, says why, and asks for
  -- nothing else.
  abbrev pub Settles : Reply TaskDetailData → PageState J → PageState J × List Effect → Type 0
  Settles reply s (t, effects) =
      ((task : HotmethodTask) × (found_task reply ≡ some task)
        × (t.task ≡ some task)
        × (t.error ≡ ""))
      ⊎ ((found_task reply ≡ none)
          × (t.task ≡ s.task)
          × (t.error ≡ said reply)
          × (truthy t.error ≡ true)
          × (effects ≡ []))

  load_found-Settles :
      (res : ApiResponse TaskDetailData) (d : TaskDetailData) (found : Option HotmethodTask)
      (s : PageState J)
      → found_task (response res) ≡ found
      → s.error ≡ ""
      → Settles (response res) s (load_found reader w tid d found res.message s)
  unfolding load_found
  load_found-Settles res d none s is fine =
      inr (is, refl, refl, truthy-or_else res.message "任务不存在" refl, refl)
  load_found-Settles res d (some task) s is fine =
      let kept = load_artifacts-SameCore reader w tid (with_detail reader w tid d task s) in
      inl (task, is, kept.task, kept.error ∙ fine)

  load_detail-Settles :
      (res : ApiResponse TaskDetailData) (code : ℕ) (payload : Option TaskDetailData)
      (s : PageState J)
      → found_task (response res) ≡ answered_task code payload
      → s.error ≡ ""
      → Settles (response res) s (load_detail reader w tid payload (code == 0) res.message s)
  unfolding load_detail
  load_detail-Settles res zero none s is fine =
      inr (is, refl, refl, truthy-or_else res.message "任务不存在" refl, refl)
  load_detail-Settles res (suc code) none s is fine =
      inr (is, refl, refl, truthy-or_else res.message "任务不存在" refl, refl)
  load_detail-Settles res zero (some d) s is fine = load_found-Settles res d d.task s is fine
  load_detail-Settles res (suc code) (some d) s is fine =
      rw (suc-is-not-zero code)
        (inr (is, refl, refl, truthy-or_else res.message "任务不存在" refl, refl))

  load_reply-Settles :
      (reply : Reply TaskDetailData) (s : PageState J)
      → s.error ≡ ""
      → Settles reply s (load_reply reader w tid reply s)
  unfolding load_reply
  load_reply-Settles (rejected e) s fine =
      inr (refl, refl, refl, truthy-failure_text "任务详情加载失败" e refl, refl)
  load_reply-Settles (response res) s fine =
      load_detail-Settles res res.code res.payload s refl fine

  -- The request for the detail comes first, and the page is not loading.
  abbrev pub Ends : PageState J → PageState J × List Effect → Type 0
  Ends s run =
      (run.0.loading ≡ false)
      × ((effects : List Effect) × (run.1 ≡ send (get_task_detail tid) ∷ effects)
          × Settles w.detail s (run.0, effects))

  -- For a given task id the request for the detail is sent first, and at the end the page is not
  -- loading. Where the detail is answered with code 0 and a task, the page shows that task without
  -- an error, whatever the other requests answer. In every other case it keeps its task, shows the
  -- failure or the message of the answer, and sends no other request.
  pub load_task-Settles : (s : PageState J) → truthy tid ≡ true → Ends s (load_task reader w tid s)
  unfolding load_task clear_for_load
  load_task-Settles s h =
      let (t, effects) = load_reply reader w tid w.detail (clear_for_load J s) in
      subst
        (λ b. Ends s (
          if b
          then (record t { loading = false }, send (get_task_detail tid) ∷ effects)
          else (record s { error = "缺少任务 ID"; loading = false }, [])))
        (sym h) (refl, (effects, refl, load_reply-Settles w.detail (clear_for_load J s) refl))

  load_found-HoldsUrl :
      (d : TaskDetailData) (task : Option HotmethodTask) (message : Option String) (s : PageState J)
      → HoldsUrl s
      → HoldsUrl (load_found reader w tid d task message s).0
  unfolding load_found
  load_found-HoldsUrl d none message s h = h
  load_found-HoldsUrl d (some task) message s h =
      load_artifacts-HoldsUrl reader w tid (with_detail reader w tid d task s) h

  load_detail-HoldsUrl :
      (d : Option TaskDetailData) (ok : Bool) (message : Option String) (s : PageState J)
      → HoldsUrl s
      → HoldsUrl (load_detail reader w tid d ok message s).0
  unfolding load_detail
  load_detail-HoldsUrl none ok message s h = ground arith
  load_detail-HoldsUrl (some d) false message s h = ground arith
  load_detail-HoldsUrl (some d) true message s h = load_found-HoldsUrl d d.task message s h

  load_reply-HoldsUrl :
      (reply : Reply TaskDetailData) (s : PageState J)
      → HoldsUrl s
      → HoldsUrl (load_reply reader w tid reply s).0
  unfolding load_reply
  load_reply-HoldsUrl (rejected e) s h = h
  load_reply-HoldsUrl (response res) s h =
      load_detail-HoldsUrl res.payload (is_ok res) res.message s h

  -- Loading keeps the address of the Memray page equal to the object URL that is held.
  pub load_task-HoldsUrl : (s : PageState J) → HoldsUrl s → HoldsUrl (load_task reader w tid s).0
  unfolding load_task clear_for_load
  load_task-HoldsUrl s h = ground (arith, load_reply-HoldsUrl w.detail (clear_for_load J s) h)
