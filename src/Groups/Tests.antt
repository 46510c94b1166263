-- ===== src/Groups/Tests.antt =====
-- One group with one member.
use mini_drop_test.Base.{ℕ, ◌≡◌, refl, true, false, none, some, [], ◌∷◌, lookup, List}
use mini_drop_test.Domain.{GroupInfo, GroupMemberInfo}
use mini_drop_test.Api.{ApiResponse, response}
use mini_drop_test.Groups.{GroupsState, GroupReplies, load_members, load_groups, remove_group}
use mini_drop_test.Groups.Laws.{load_groups-selected, remove_group-Lacks}

abbrev team : GroupInfo
team = record { gid = 7; name = "team"; owner_id = "u1"; created_at = ""; updated_at = "" }

abbrev ann : List GroupMemberInfo
ann = record { gid = 7; uid = "ann" } ∷ []

abbrev members_of : ℕ → ApiResponse (List GroupMemberInfo)
members_of gid = record { code = 0; payload = some ann; message = none }

abbrev groups_answer : ApiResponse (List GroupInfo)
groups_answer = record { code = 0; payload = some (team ∷ []); message = none }

abbrev server : GroupReplies
server = record {
  groups = response groups_answer;
  members = λ gid. response (members_of gid);
  change = response (record { code = 0; payload = none; message = none });
}

abbrev empty : GroupsState
empty = record {
  groups = [];
  members = [];
  selected_gid = none;
  group_name = "";
  member_uid = "";
  loading = true;
  submitting = false;
  error = "";
  message = "";
}

selected_example : lookup 7 (load_groups server empty).0.members ≡ some ann
unfolding load_groups load_members
selected_example =
    (load_groups-selected server empty groups_answer members_of 7 refl (λ k. (refl, refl)) refl).1

abbrev staff : GroupInfo
staff = record team { gid = 8; name = "staff" }

-- The second group is selected, and its members are loaded.
abbrev two_groups : GroupsState
two_groups = record empty {
  groups = team ∷ staff ∷ [];
  members = (8, ann) ∷ [];
  selected_gid = some 8;
}

remove_group-Lacks_example : lookup 8 (remove_group server true staff two_groups).0.members ≡ none
remove_group-Lacks_example =
    (remove_group-Lacks server staff two_groups
      (record { code = 0; payload = none; message = none }) groups_answer refl refl refl).2
