-- ===== src/Diff/Events.antt =====
-- The comparison page while requests are under way: the Enter key sends another one before the last
-- is answered, and the fields can change meanwhile. `server` is what the comparison of two tasks is
-- answered with.
pub mod Laws
use mini_drop_test.Base.{
  ℕ, get_elem?, erase_idx, String, Bool, true, false, not, ◌||◌, Option, none, some, List, [], ◌∷◌,
  truthy, trim, str_eq, if◌then◌else◌,
}
use mini_drop_test.Api.{Reply}
use mini_drop_test.Diff.{DiffState, diff_reply, swap_tids, change_tid1, change_tid2}

-- The two ids of a request that is not answered yet
abbrev pub Ids : Type 0
Ids = String × String

pub record DiffWorld (R : Type 0) : Type 0 where
  pub page : DiffState R
  pub sent : List Ids

pub data DiffEvent : Type 0 where
  type_tid1 type_tid2 pick_tid1 pick_tid2 : String → DiffEvent
  swap compare : DiffEvent
  answered : ℕ → DiffEvent  -- the request of that number, the newest being 0

abbrev pub also_sent : Option Ids → List Ids → List Ids
also_sent none sent = sent
also_sent (some ids) sent = ids ∷ sent

module _ {R : Type 0} where
  -- `doDiff` up to its await, and the ids that it sends
  unfoldable pub begin_diff : DiffState R → DiffState R × Option Ids
  unfolding trim
  begin_diff s =
      if not (truthy (trim s.tid1)) || not (truthy (trim s.tid2))
      then (s, none)
      else if str_eq (trim s.tid1) (trim s.tid2)
      then (record s { error = "两个任务 ID 不能相同" }, none)
      else (record s { loading = true; error = ""; result = none }, some (trim s.tid1, trim s.tid2))

  -- `doDiff` behind its await
  unfoldable pub end_diff : Reply R → DiffState R → DiffState R
  unfolding diff_reply
  end_diff reply s = record (diff_reply R reply s) { loading = false }

module _ {R : Type 0} (server : Ids → Reply R) where
  unfoldable pub answer_with : Option Ids → DiffState R → DiffState R
  unfolding end_diff
  answer_with none s = s
  answer_with (some ids) s = end_diff (server ids) s

  unfoldable pub diff_step : DiffEvent → DiffWorld R → DiffWorld R
  unfolding begin_diff answer_with change_tid1 change_tid2 swap_tids
  diff_step (type_tid1 v) w = record w { page = change_tid1 R v w.page }
  diff_step (type_tid2 v) w = record w { page = change_tid2 R v w.page }
  diff_step (pick_tid1 v) w = record w { page = record (w.page) { tid1 = v; result = none } }
  diff_step (pick_tid2 v) w = record w { page = record (w.page) { tid2 = v; result = none } }
  diff_step swap w = record w { page = swap_tids R w.page }
  diff_step compare w =
      let (page, ids) = begin_diff w.page in record { page = page; sent = also_sent ids w.sent }
  diff_step (answered k) w = record {
    page = answer_with (get_elem? w.sent k) w.page;
    sent = erase_idx w.sent k;
  }

  unfoldable pub diff_steps : List DiffEvent → DiffWorld R → DiffWorld R
  unfolding diff_step
  diff_steps [] w = w
  diff_steps (event ∷ events) w = diff_steps events (diff_step event w)
