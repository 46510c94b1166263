-- ===== src/Groups/View.antt =====
-- web/src/pages/Groups.tsx: the fields and what the page shows.
use Prim.Native.String.{◌++◌}
use mini_drop_test.Base.{
  ℕ, String, Bool, false, not, ◌||◌, Option, none, some, List, nonempty, truthy, trim, or_text,
  if◌then◌else◌, ◌==◌, is_empty, map, length, show,
}
use mini_drop_test.Domain.{GroupInfo}
use mini_drop_test.Domain.Format.{format_date}
use mini_drop_test.Groups.{GroupsState, selected_group, current_members}

unfoldable pub change_group_name : String → GroupsState → GroupsState
change_group_name v s = record s { group_name = v }

unfoldable pub change_member_uid : String → GroupsState → GroupsState
change_member_uid v s = record s { member_uid = v }

-- An error, or else a message
unfoldable pub notice : GroupsState → Option String
notice s = nonempty (or_text s.error s.message)

unfoldable pub create_disabled : GroupsState → Bool
unfolding trim
create_disabled s = s.submitting || not (truthy (trim s.group_name))

unfoldable pub add_disabled : GroupsState → Bool
unfolding trim
add_disabled s = s.submitting || not (truthy (trim s.member_uid))

-- A group in the list: its name, the line below, and whether it is marked
pub record GroupRow : Type 0 where
  pub name : String
  pub line : String
  pub active : Bool

is_active : Option GroupInfo → GroupInfo → Bool
is_active none group = false
is_active (some selected) group = selected.gid == group.gid

unfoldable pub group_row : Option GroupInfo → GroupInfo → GroupRow
unfolding is_active
group_row selected group = record {
  name = group.name;
  line = "GID " ++ (show group.gid ++ (" · Owner " ++ group.owner_id));
  active = is_active selected group;
}

pub data GroupList : Type 0 where
  waiting_groups no_groups : GroupList
  group_rows : List GroupRow → GroupList

unfoldable pub group_list : GroupsState → GroupList
unfolding group_row selected_group
group_list s =
    if s.loading
    then waiting_groups
    else if is_empty s.groups
    then no_groups
    else group_rows (map (group_row (selected_group s)) s.groups)

-- The right side
pub record GroupPanel : Type 0 where
  pub title : String
  pub line : String
  pub rows : List (ℕ × String)  -- none: the text for no members

pub data Panel : Type 0 where
  choose_group : Panel
  group_panel : GroupPanel → Panel

module _ (get_time : String → Option ℕ) (to_locale : ℕ → String) where
  unfoldable pub panel : GroupsState → Panel
  unfolding selected_group current_members format_date
  panel s = elim (selected_group s) [
    | none ↦ choose_group
    | some group ↦ group_panel (record {
      title = group.name;
      line =
          "创建时间 "
          ++ (format_date get_time to_locale (some group.created_at)
              ++ (" · 成员 " ++ show (length (current_members s))));
      rows = map (λ member. (member.gid, member.uid)) (current_members s);
    })
  ]
