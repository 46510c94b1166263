-- ===== src/TaskResult/Labels.antt =====
-- stateHistoryLabel, stateHistoryColor and the labels of the header.
use mini_drop_test.Base.{
  ℕ, String, Option, none, some, ℤ, pos, negsuc, ◌==◌, if◌then◌else◌, or_text, show,
}
use mini_drop_test.Domain.{HotmethodTask, TaskStateHistory}
use mini_drop_test.Domain.Maps.{Badge, status_map, analysis_map}

abbrev label_or : Option Badge → String → String
label_or none other = other
label_or (some b) other = or_text b.label other

abbrev color_or : Option Badge → String → String
color_or none other = other
color_or (some b) other = or_text b.color other

-- The table that a change is read by; a negative state is in no table.
unfoldable pub mapping : TaskStateHistory → ℕ → Option Badge
unfolding status_map analysis_map
mapping item n = if item.change_type == 1 then analysis_map n else status_map n

unfoldable pub state_label : TaskStateHistory → ℤ → String
unfolding mapping
state_label item (negsuc n) = "创建"
state_label item (pos n) = label_or (mapping item n) (show n)

color_of : TaskStateHistory → ℤ → String
unfolding mapping
color_of item (negsuc n) = "gray"
color_of item (pos n) = color_or (mapping item n) "gray"

unfoldable pub state_history_color : TaskStateHistory → String
unfolding color_of
state_history_color item = color_of item item.to_state

-- `task ? (table[task.status] || table[0]) : table[0]`
abbrev badge_at : (ℕ → Option Badge) → Option ℕ → Option Badge
badge_at table none = table 0
badge_at table (some n) = elim (table n) [ none ↦ table 0 | some b ↦ some b ]

abbrev status_of : Option HotmethodTask → Option ℕ
status_of none = none
status_of (some task) = some task.status

abbrev analysis_status_of : Option HotmethodTask → Option ℕ
analysis_status_of none = none
analysis_status_of (some task) = some task.analysis_status

unfoldable pub status_badge : Option HotmethodTask → Option Badge
unfolding status_map
status_badge task = badge_at status_map (status_of task)

unfoldable pub analysis_badge : Option HotmethodTask → Option Badge
unfolding analysis_map
analysis_badge task = badge_at analysis_map (analysis_status_of task)
