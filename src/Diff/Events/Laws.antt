-- ===== src/Diff/Events/Laws.antt =====
-- What the comparison page shows while requests overlap.
use mini_drop_test.Base.{
  get_elem?, get_elem?-All, erase_idx-All, ◌≡◌, refl, sym, ◌⊎◌, inl, inr, String, true, false,
  Option, none, some, List, [], ◌∷◌, truthy, str_eq, All, arith,
}
use mathlib.Core.Path.{subst}
use mini_drop_test.Api.{Reply, ApiResponse, response, rejected, is_ok}
use mini_drop_test.Diff.{
  DiffState, diff_start, do_diff, diff_reply, change_tid1, change_tid2, swap_tids,
}
use mini_drop_test.Diff.Events.{
  Ids, DiffWorld, DiffEvent, type_tid1, type_tid2, pick_tid1, pick_tid2, swap, compare, answered,
  begin_diff, end_diff, answer_with, also_sent, diff_step, diff_steps,
}

abbrev pub IsPair : Ids → Type 0
IsPair (tid1, tid2) = (truthy tid1 ≡ true) × (truthy tid2 ≡ true) × (str_eq tid1 tid2 ≡ false)

begin_diff-IsPair :
    {R : Type 0} (s : DiffState R) (ids : Ids) → (begin_diff s).1 ≡ some ids → IsPair ids
unfolding begin_diff
begin_diff-IsPair s ids h = ground arith

module _ {R : Type 0} where
  -- Sent and answered with nothing in between, a request does what `doDiff` does.
  pub end_diff-begin_diff :
      (reply : Reply R) (s : DiffState R) (ids : Ids)
      → (begin_diff s).1 ≡ some ids
      → end_diff reply (begin_diff s).0 ≡ (do_diff R reply s).0
  unfolding begin_diff end_diff do_diff diff_reply
  end_diff-begin_diff reply s ids h = ground arith

  -- This comparison beside this first id, without an error
  abbrev pub ShowsStale : DiffState R → String → R → Type 0
  ShowsStale s v r = (s.result ≡ some r) × (s.tid1 ≡ v) × (s.error ≡ "") × (s.loading ≡ false)

  end_diff-shown :
      (res : ApiResponse R) (s : DiffState R) (r : R)
      → is_ok res ≡ true
      → res.payload ≡ some r
      → s.error ≡ ""
      → ShowsStale (end_diff (response res) s) s.tid1 r
  unfolding end_diff diff_reply
  end_diff-shown res s r ok payload fine = ground arith

  begin_diff-result :
      (s : DiffState R) (r : R) → (begin_diff s).0.result ≡ some r → s.result ≡ some r
  unfolding begin_diff
  begin_diff-result s r shown = ground arith

  end_diff-result :
      (res : ApiResponse R) (s : DiffState R) (r : R)
      → (end_diff (response res) s).result ≡ some r
      → ((is_ok res ≡ true) × (res.payload ≡ some r)) ⊎ (s.result ≡ some r)
  unfolding end_diff diff_reply
  end_diff-result res s r shown = ground arith

module _ {R : Type 0} (server : Ids → Reply R) where
  -- The server's answer for two ids that are given and different
  abbrev pub Compares : R → Ids → Type 0
  Compares r ids =
      IsPair ids
      × ((res : ApiResponse R) × (server ids ≡ response res)
          × (is_ok res ≡ true)
          × (res.payload ≡ some r))

  -- What is shown has been requested and answered.
  abbrev IsFounded : DiffState R → Type 0
  IsFounded s = (r : R) → s.result ≡ some r → (ids : Ids) × Compares r ids

  abbrev IsSound : DiffWorld R → Type 0
  IsSound w = IsFounded w.page × All IsPair w.sent

  end_diff-IsFounded :
      (ids : Ids) (reply : Reply R) (s : DiffState R)
      → server ids ≡ reply
      → IsPair ids
      → IsFounded s
      → IsFounded (end_diff reply s)
  unfolding end_diff diff_reply
  end_diff-IsFounded ids (rejected e) s is pair h r shown = h r shown
  end_diff-IsFounded ids (response res) s is pair h r shown = elim (end_diff-result res s r shown) [
    | inl (ok, payload) ↦ (ids, (pair, (res, is, ok, payload)))
    | inr old ↦ h r old
  ]

  answer_with-IsFounded :
      (found : Option Ids) (s : DiffState R)
      → ((ids : Ids) → found ≡ some ids → IsPair ids)
      → IsFounded s
      → IsFounded (answer_with server found s)
  unfolding answer_with
  answer_with-IsFounded none s pair h = h
  answer_with-IsFounded (some ids) s pair h =
      end_diff-IsFounded ids (server ids) s refl (pair ids refl) h

  begin_diff-IsFounded : (s : DiffState R) → IsFounded s → IsFounded (begin_diff s).0
  unfolding begin_diff
  begin_diff-IsFounded s h r shown = h r (begin_diff-result s r shown)

  also_sent-IsPair :
      (ids : Option Ids) (sent : List Ids)
      → ((found : Ids) → ids ≡ some found → IsPair found)
      → All IsPair sent
      → All IsPair (also_sent ids sent)
  also_sent-IsPair none sent pair all = all
  also_sent-IsPair (some ids) sent pair all = (pair ids refl, all)

  diff_step-IsSound :
      (event : DiffEvent) (w : DiffWorld R) → IsSound w → IsSound (diff_step server event w)
  unfolding diff_step change_tid1 change_tid2 swap_tids
  diff_step-IsSound (type_tid1 v) w (h, all) = (λ r shown. cc, all)
  diff_step-IsSound (type_tid2 v) w (h, all) = (λ r shown. cc, all)
  diff_step-IsSound (pick_tid1 v) w (h, all) = (λ r shown. cc, all)
  diff_step-IsSound (pick_tid2 v) w (h, all) = (λ r shown. cc, all)
  diff_step-IsSound swap w (h, all) = (λ r shown. cc, all)
  diff_step-IsSound compare w (h, all) = (
    begin_diff-IsFounded w.page h,
    also_sent-IsPair (begin_diff w.page).1 w.sent (begin_diff-IsPair w.page) all,
  )
  diff_step-IsSound (answered k) w (h, all) = (
    answer_with-IsFounded (get_elem? w.sent k) w.page (λ ids. get_elem?-All IsPair w.sent k ids all)
        h,
    erase_idx-All IsPair w.sent k all,
  )

  diff_steps-IsSound :
      (events : List DiffEvent) (w : DiffWorld R) → IsSound w → IsSound (diff_steps server events w)
  unfolding diff_steps
  diff_steps-IsSound [] w h = h
  diff_steps-IsSound (event ∷ events) w h =
      diff_steps-IsSound events (diff_step server event w) (diff_step-IsSound event w h)

  -- From the opening of the page on, however requests overlap and the fields change: a comparison
  -- that is shown is what the server answered, with code 0, for two ids that are given and different.
  pub diff_steps-Compares :
      (events : List DiffEvent) (tid1 tid2 : Option String) (r : R)
      → (diff_steps server events (record { page = diff_start R tid1 tid2; sent = [] })).page.result
        ≡ some r
      → (ids : Ids) × Compares r ids
  unfolding diff_start
  diff_steps-Compares events tid1 tid2 r shown =
      (diff_steps-IsSound events (record { page = diff_start R tid1 tid2; sent = [] })
          (λ q none_shown. cc, tt)).0
        r shown

  -- A comparison is asked for, and a field changes before the answer comes, with code 0: the page
  -- shows the comparison of the ids that were sent, beside the new id.
  pub answered-stale :
      (w : DiffWorld R) (ids : Ids) (v : String) (res : ApiResponse R) (r : R)
      → (begin_diff w.page).1 ≡ some ids
      → server ids ≡ response res
      → is_ok res ≡ true
      → res.payload ≡ some r
      → ShowsStale (diff_steps server (compare ∷ type_tid1 v ∷ answered 0 ∷ []) w).page v r
  unfolding diff_steps diff_step answer_with end_diff diff_reply change_tid1
  answered-stale w ids v res r sends is ok payload =
      subst
        (λ found.
          ShowsStale
            (answer_with server (get_elem? (also_sent found w.sent) 0)
              (change_tid1 R v (begin_diff w.page).0))
            v r)
        (sym sends)
        (subst (λ reply. ShowsStale (end_diff reply (change_tid1 R v (begin_diff w.page).0)) v r)
          (sym is) (end_diff-shown res (change_tid1 R v (begin_diff w.page).0) r ok payload refl))
