-- ===== src/Groups/Laws.antt =====
-- What loading the groups and their members promises, and what a deletion leaves.
use mini_drop_test.Base.{
  Bool, if◌then◌else◌, ℕ, ◌≡◌, refl, true, false, Option, none, some, List, [], ◌∷◌, arith, ◌==◌,
  any, lookup, value_or,
}
use mini_drop_test.Domain.{GroupInfo, GroupMemberInfo}
use mini_drop_test.Api.{ApiResponse, Reply, response, rejected, is_ok}
use mini_drop_test.Api.Requests.{get_group_members}
use mini_drop_test.Effects.{Effect, send}
use mini_drop_test.Groups.{
  GroupsState, GroupReplies, load_members, load_groups, load_next, remove_group, group_removed,
  groups_reply, settle_members, members_reply, groups_failed, next_gid, list_of, put_members,
  drop_members,
}

lookup-drop_members_other :
    (k gid : ℕ) (members : List (ℕ × List GroupMemberInfo))
    → (k == gid) ≡ false
    → lookup k (drop_members gid members) ≡ lookup k members
unfolding drop_members
lookup-drop_members_other k gid [] h = refl
lookup-drop_members_other k gid ((j, list) ∷ members) h =
    ground (arith, lookup-drop_members_other k gid members h)

lookup-drop_members :
    (gid : ℕ) (members : List (ℕ × List GroupMemberInfo))
    → lookup gid (drop_members gid members) ≡ none
unfolding drop_members
lookup-drop_members gid [] = refl
lookup-drop_members gid ((j, list) ∷ members) = ground (arith, lookup-drop_members gid members)

-- An answer with code 0 puts the members of its group into the table, and the other groups keep
-- theirs.
pub lookup-load_members :
    (w : GroupReplies) (gid k : ℕ) (s : GroupsState) (res : ApiResponse (List GroupMemberInfo))
    → w.members gid ≡ response res
    → is_ok res ≡ true
    → (k == gid) ≡ false
    → (lookup gid (load_members w gid s).1.0.members ≡ some (value_or [] res.payload))
      × (lookup k (load_members w gid s).1.0.members ≡ lookup k s.members)
unfolding load_members put_members
lookup-load_members w gid k s res reply ok other =
    ground (arith, lookup-drop_members_other k gid s.members other)

any-next_gid :
    (w : GroupReplies) (selected : Option ℕ) (list : List GroupInfo) (gid : ℕ)
    → next_gid w selected list ≡ some gid
    → any (λ group. group.gid == gid) list ≡ true
unfolding next_gid
any-next_gid w selected [] gid h = ground arith
any-next_gid w selected (group ∷ list) gid h = ground arith

-- If the groups are answered and the members of every group are answered with code 0, a group that
-- is selected after loading is one of the list, its members are in the table, and the page is not
-- loading.
pub load_groups-selected :
    (w : GroupReplies) (s : GroupsState) (res : ApiResponse (List GroupInfo))
    (members : ℕ → ApiResponse (List GroupMemberInfo)) (gid : ℕ)
    → w.groups ≡ response res
    → ((k : ℕ) → (w.members k ≡ response (members k)) × (is_ok (members k) ≡ true))
    → (load_groups w s).0.selected_gid ≡ some gid
    → (any (λ group. group.gid == gid) (load_groups w s).0.groups ≡ true)
      × (lookup gid (load_groups w s).0.members ≡ some (value_or [] (members gid).payload))
      × ((load_groups w s).0.loading ≡ false)
unfolding load_groups load_members put_members
load_groups-selected w s res members gid reply answers selected =
    ground (arith, answers gid, any-next_gid w s.selected_gid (list_of w res) gid)

-- No trace of the group: not in the list, not selected, and without members in the table
abbrev pub Lacks : ℕ → GroupsState → Type 0
Lacks gid s =
    (any (λ group. group.gid == gid) s.groups ≡ false)
    × (¬ (s.selected_gid ≡ some gid))
    × (lookup gid s.members ≡ none)

any-other :
    (list : List GroupInfo) (k gid : ℕ)
    → any (λ group. group.gid == k) list ≡ true
    → any (λ group. group.gid == gid) list ≡ false
    → (gid == k) ≡ false
any-other [] k gid h lacks = ground arith
any-other (group ∷ list) k gid h lacks = ground (arith, any-other list k gid)

lookup-put_members :
    (k gid : ℕ) (list : List GroupMemberInfo) (members : List (ℕ × List GroupMemberInfo))
    → (gid == k) ≡ false
    → lookup gid members ≡ none
    → lookup gid (put_members k list members) ≡ none
unfolding put_members
lookup-put_members k gid list members other h =
    ground (arith, lookup-drop_members_other gid k members other)

Lacks-if :
    (gid : ℕ) (b : Bool) (s t : GroupsState)
    → Lacks gid s
    → Lacks gid t
    → Lacks gid (if b then s else t)
Lacks-if gid true s t h g = h
Lacks-if gid false s t h g = g

settle_members-Lacks :
    (w : GroupReplies) (k gid : ℕ) (reply : Reply (List GroupMemberInfo)) (effects : List Effect)
    (s : GroupsState)
    → (gid == k) ≡ false
    → Lacks gid s
    → Lacks gid
        (settle_members w
          ((members_reply w k reply s).0, ((members_reply w k reply s).1, effects))).0
unfolding settle_members members_reply put_members groups_failed
settle_members-Lacks w k gid (rejected e) effects s other (list, selected, members) =
    (refl, selected, members)
settle_members-Lacks w k gid (response res) effects s other h =
    Lacks-if gid (is_ok res)
      (record s { members = put_members k (value_or [] res.payload) s.members }) s
      (h.0, h.1, lookup-put_members k gid (value_or [] res.payload) s.members other h.2) h

gid-other : (gid : ℕ) → (gid == gid) ≡ false → ⊥
gid-other gid h = ground arith

load_next-Lacks :
    (w : GroupReplies) (next : Option ℕ) (gid : ℕ) (s : GroupsState)
    → ((k : ℕ) → next ≡ some k → (gid == k) ≡ false)
    → Lacks gid s
    → Lacks gid (load_next w next s).0
unfolding load_next load_members put_members
load_next-Lacks w none gid s other h = h
load_next-Lacks w (some k) gid s other h =
    settle_members-Lacks w k gid (w.members k) (send (get_group_members k) ∷ []) s (other k refl) h

-- If the request to delete a group that the visitor has confirmed is not rejected, and the list is
-- then answered without that group, no trace of the group is left on the page, whatever is answered
-- for the members of the others.
pub remove_group-Lacks :
    (w : GroupReplies) (group : GroupInfo) (s : GroupsState) (change : ApiResponse (Option ℕ))
    (res : ApiResponse (List GroupInfo))
    → w.change ≡ response change
    → w.groups ≡ response res
    → any (λ other. other.gid == group.gid) (list_of w res) ≡ false
    → Lacks group.gid (remove_group w true group s).0
unfolding remove_group group_removed load_groups groups_reply
remove_group-Lacks w group s change res changed reply lacks =
    let list = list_of w res in
    let next = next_gid w s.selected_gid list in
    let t = record s {
      error = "";
      message = "用户组已删除";
      members = drop_members group.gid s.members;
      groups = list;
      selected_gid = next;
    } in
    let other : (k : ℕ) → next ≡ some k → (group.gid == k) ≡ false =
      λ k is. any-other list k group.gid (any-next_gid w s.selected_gid list k is) lacks in
    rw (changed, reply)
      (load_next-Lacks w next group.gid t other (
        lacks,
        λ is. gid-other group.gid (other group.gid is),
        lookup-drop_members group.gid s.members,
      ))
