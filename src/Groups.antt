-- ===== src/Groups.antt =====
-- web/src/pages/Groups.tsx: the groups, the members that have been loaded, and the requests that
-- change them. A helper whose promise may be rejected gives the failure beside its run.
pub mod Laws
pub mod View
mod Tests
use mini_drop_test.Base.{
  ℕ, String, Bool, true, false, not, ◌&&◌, ◌||◌, Option, none, some, List, [], ◌∷◌, ◌++◌, truthy,
  trim, if◌then◌else◌, ◌==◌, find?, any, head?, lookup, value_or, filter, is_some,
}
use mini_drop_test.Domain.{GroupInfo, GroupMemberInfo}
use mini_drop_test.Api.{ApiResponse, Failure, Reply, response, rejected, is_ok, failure_text}
use mini_drop_test.Api.Requests.{
  get_groups, get_group_members, create_group, delete_group, add_member, remove_member,
}
use mini_drop_test.Effects.{Effect, Run, send, also, then_do}

pub record GroupsState : Type 0 where
  pub groups : List GroupInfo
  pub members : List (ℕ × List GroupMemberInfo)
  pub selected_gid : Option ℕ
  pub group_name : String
  pub member_uid : String
  pub loading : Bool
  pub submitting : Bool
  pub error : String
  pub message : String

-- What the server answers while a handler runs
pub record GroupReplies : Type 0 where
  pub groups : Reply (List GroupInfo)
  pub members : ℕ → Reply (List GroupMemberInfo)
  pub change : Reply (Option ℕ)  -- to the request that changes a group: `data.gid`, if it has one

abbrev pub Attempt : Type 0
Attempt = Option Failure × Run GroupsState

abbrev or_first : Option GroupInfo → List GroupInfo → Option GroupInfo
or_first (some group) groups = some group
or_first none groups = head? groups

abbrev has_gid : Option ℕ → GroupInfo → Bool
has_gid none group = false
has_gid (some gid) group = group.gid == gid

unfoldable pub selected_group : GroupsState → Option GroupInfo
selected_group s = or_first (find? (has_gid s.selected_gid) s.groups) s.groups

unfoldable pub drop_members : ℕ → List (ℕ × List GroupMemberInfo) → List (ℕ × List GroupMemberInfo)
drop_members gid [] = []
drop_members gid ((k, list) ∷ rest) =
    let kept = drop_members gid rest in if k == gid then kept else (k, list) ∷ kept

unfoldable pub put_members :
    ℕ → List GroupMemberInfo → List (ℕ × List GroupMemberInfo) → List (ℕ × List GroupMemberInfo)
unfolding drop_members
put_members gid list members = (gid, list) ∷ drop_members gid members

module _ (w : GroupReplies) where
  members_reply : ℕ → Reply (List GroupMemberInfo) → GroupsState → Option Failure × GroupsState
  unfolding put_members
  members_reply gid (rejected e) s = (some e, s)
  members_reply gid (response res) s = (
    none,
    if is_ok res
        then record s { members = put_members gid (value_or [] res.payload) s.members }
        else s,
  )

  unfoldable pub load_members : ℕ → GroupsState → Attempt
  unfolding members_reply
  load_members gid s =
      let (failure, t) = members_reply gid (w.members gid) s in
      (failure, (t, send (get_group_members gid) ∷ []))

  abbrev first_gid : List GroupInfo → Option ℕ
  first_gid [] = none
  first_gid (group ∷ groups) = if group.gid == 0 then none else some group.gid

  abbrev keep_gid : Option ℕ → List GroupInfo → Bool
  keep_gid none list = false
  keep_gid (some gid) list = not (gid == 0) && any (λ group. group.gid == gid) list

  unfoldable pub next_gid : Option ℕ → List GroupInfo → Option ℕ
  next_gid selected list = if keep_gid selected list then selected else first_gid list

  groups_failed : Failure → GroupsState → GroupsState
  groups_failed e s = record s { error = failure_text "用户组加载失败" e; groups = []; loading = false }

  settle_members : Attempt → Run GroupsState
  unfolding groups_failed
  settle_members (none, (s, effects)) = (record s { loading = false }, effects)
  settle_members (some e, (s, effects)) = (groups_failed e s, effects)

  load_next : Option ℕ → GroupsState → Run GroupsState
  unfolding settle_members load_members
  load_next none s = (record s { loading = false }, [])
  load_next (some gid) s = settle_members (load_members gid s)

  abbrev list_of : ApiResponse (List GroupInfo) → List GroupInfo
  list_of res = if is_ok res then value_or [] res.payload else []

  groups_reply : Reply (List GroupInfo) → GroupsState → Run GroupsState
  unfolding groups_failed load_next next_gid
  groups_reply (rejected e) s = (groups_failed e s, [])
  groups_reply (response res) s =
      let list = list_of res in
      let next = next_gid s.selected_gid list in
      load_next next (record s { groups = list; selected_gid = next })

  unfoldable pub load_groups : GroupsState → Run GroupsState
  unfolding groups_reply
  load_groups s =
      let (t, effects) = groups_reply w.groups (record s { error = "" }) in
      (t, send get_groups ∷ effects)

  catch_select : Attempt → Run GroupsState
  catch_select (none, run) = run
  catch_select (some e, (s, effects)) = (record s { error = failure_text "成员列表加载失败" e }, effects)

  -- `seen` is the members of the render that made the handler.
  unfoldable pub select_group : List (ℕ × List GroupMemberInfo) → ℕ → GroupsState → Run GroupsState
  unfolding catch_select load_members
  select_group seen gid s =
      let t = record s { selected_gid = some gid; message = ""; error = "" } in
      if is_some (lookup gid seen) then (t, []) else catch_select (load_members gid t)

  abbrev change_failed : String → Failure → GroupsState → GroupsState
  change_failed fallback e s = record s { error = failure_text fallback e }

  abbrev submitted : Run GroupsState → Run GroupsState
  submitted (s, effects) = (record s { submitting = false }, effects)

  abbrev cleared : GroupsState → GroupsState
  cleared s = record s { error = ""; message = "" }

  -- The new group is selected where the answer has its number.
  select_new : List (ℕ × List GroupMemberInfo) → Option (Option ℕ) → GroupsState → Run GroupsState
  unfolding select_group
  select_new seen (some (some gid)) s = if gid == 0 then (s, []) else select_group seen gid s
  select_new seen _ s = (s, [])

  group_created : Reply (Option ℕ) → List (ℕ × List GroupMemberInfo) → GroupsState → Run GroupsState
  unfolding load_groups select_new
  group_created (rejected e) seen s = (change_failed "创建用户组失败" e s, [])
  group_created (response res) seen s =
      then_do (load_groups (record s { group_name = ""; message = "用户组已创建" }))
        (select_new seen res.payload)

  unfoldable pub submit_group : GroupsState → Run GroupsState
  unfolding group_created trim
  submit_group s =
      if truthy (trim s.group_name)
      then submitted (
          also (send (create_group (trim s.group_name)))
            (group_created w.change s.members (cleared s)))
      else (s, [])

  catch_change : String → Attempt → Run GroupsState
  catch_change fallback (none, run) = run
  catch_change fallback (some e, (s, effects)) = (change_failed fallback e s, effects)

  member_added : Reply (Option ℕ) → ℕ → GroupsState → Run GroupsState
  unfolding catch_change load_members
  member_added (rejected e) gid s = (change_failed "添加成员失败" e s, [])
  member_added (response res) gid s =
      catch_change "添加成员失败" (load_members gid (record s { member_uid = ""; message = "成员已添加" }))

  unfoldable pub submit_member : GroupsState → Run GroupsState
  unfolding selected_group member_added trim
  submit_member s = elim (selected_group s) [
    | none ↦ (s, [])
    | some group ↦
        if truthy (trim s.member_uid)
        then submitted (
            also (send (add_member group.gid (trim s.member_uid)))
              (member_added w.change group.gid (cleared s)))
        else (s, [])
  ]

  member_removed : Reply (Option ℕ) → ℕ → GroupsState → Run GroupsState
  unfolding catch_change load_members
  member_removed (rejected e) gid s = (change_failed "移除成员失败" e s, [])
  member_removed (response res) gid s =
      catch_change "移除成员失败" (load_members gid (record s { message = "成员已移除" }))

  unfoldable pub remove : Bool → String → GroupsState → Run GroupsState
  unfolding selected_group member_removed
  remove confirmed uid s = elim (selected_group s) [
    | none ↦ (s, [])
    | some group ↦
        if confirmed
        then also (send (remove_member group.gid uid))
            (member_removed w.change group.gid (cleared s))
        else (s, [])
  ]

  group_removed : Reply (Option ℕ) → ℕ → GroupsState → Run GroupsState
  unfolding load_groups drop_members
  group_removed (rejected e) gid s = (change_failed "删除用户组失败" e s, [])
  group_removed (response res) gid s =
      load_groups (record s { message = "用户组已删除"; members = drop_members gid s.members })

  unfoldable pub remove_group : Bool → GroupInfo → GroupsState → Run GroupsState
  unfolding group_removed
  remove_group confirmed group s =
      if confirmed
      then also (send (delete_group group.gid)) (group_removed w.change group.gid (cleared s))
      else (s, [])

unfoldable pub current_members : GroupsState → List GroupMemberInfo
unfolding selected_group
current_members s = elim (selected_group s) [
  | none ↦ []
  | some group ↦ value_or [] (lookup group.gid s.members)
]
