-- ===== src/TaskResult/Panels/Laws.antt =====
-- The tabs of the result page and the active one.
use mini_drop_test.Base.{
  ℕ, ◌≡◌, true, false, Option, some, List, any, arith, Bool-cases, Option-cases, inl, inr, ◌⊎◌, ◌∙◌,
}
use mini_drop_test.Domain.{HotmethodTask}
use mini_drop_test.TaskResult.Panels.{
  ResultPanelKey, flame, topn, suggestions, ebpf, pprof, memory, TabKey, info, states, files, panel,
  Loaded, visible_panel, visible_tab_keys, has_tab, settle_tab, expected_panels_by_task_type,
  primary_panel_by_task_type, panel_eq, primary_or_info,
}

-- A panel has a tab exactly if it is expected for the task's type or its data are there; the tabs
-- of the information, the state history and the files are always there.
pub has_tab-visible_tab_keys :
    (task : Option HotmethodTask) (d : Loaded) (key : ResultPanelKey)
    → (has_tab (panel key) (visible_tab_keys task d) ≡ visible_panel task d key)
      × (has_tab info (visible_tab_keys task d) ≡ true)
      × (has_tab states (visible_tab_keys task d) ≡ true)
      × (has_tab files (visible_tab_keys task d) ≡ true)
unfolding visible_tab_keys
has_tab-visible_tab_keys task d flame = ground arith
has_tab-visible_tab_keys task d topn = ground arith
has_tab-visible_tab_keys task d suggestions = ground arith
has_tab-visible_tab_keys task d ebpf = ground arith
has_tab-visible_tab_keys task d pprof = ground arith
has_tab-visible_tab_keys task d memory = ground arith

primary_is_expected :
    (type : ℕ) (key : ResultPanelKey)
    → primary_panel_by_task_type type ≡ some key
    → any (λ k. panel_eq k key) (expected_panels_by_task_type type) ≡ true
unfolding primary_panel_by_task_type expected_panels_by_task_type
primary_is_expected type key h = ground arith

abbrev tabs_of : HotmethodTask → Loaded → List TabKey
tabs_of task d = visible_tab_keys (some task) d

-- The panel that a task's type prefers is expected for that type, so it always has a tab.
pub primary-has_tab :
    (task : HotmethodTask) (d : Loaded) (key : ResultPanelKey)
    → primary_panel_by_task_type task.type ≡ some key
    → has_tab (panel key) (tabs_of task d) ≡ true
unfolding visible_panel
primary-has_tab task d key h =
    (has_tab-visible_tab_keys (some task) d key).0 ∙ rw (primary_is_expected task.type key h)

settle_tab_visible :
    (task : HotmethodTask) (d : Loaded) (active : TabKey)
    → has_tab active (tabs_of task d) ≡ true
    → settle_tab (some task) d active ≡ active
unfolding settle_tab
settle_tab_visible task d active h = rw h

settle_tab_hidden :
    (task : HotmethodTask) (d : Loaded) (active : TabKey)
    → has_tab active (tabs_of task d) ≡ false
    → settle_tab (some task) d active
      ≡ primary_or_info (primary_panel_by_task_type task.type) (tabs_of task d)
unfolding settle_tab
settle_tab_hidden task d active h = rw h

has_tab-primary_or_info :
    (task : HotmethodTask) (d : Loaded)
    → has_tab
        (primary_or_info (primary_panel_by_task_type task.type) (tabs_of task d))
        (tabs_of task d)
      ≡ true
has_tab-primary_or_info task d = elim (Option-cases (primary_panel_by_task_type task.type)) [
  | inl p ↦ rw p (has_tab-visible_tab_keys (some task) d flame).1
  | inr (key, p) ↦ rw (p, primary-has_tab task d key p) (primary-has_tab task d key p)
]

-- Once a task is loaded the active tab is a visible one, and a tab that was visible stays active.
pub settle_tab_lem :
    (task : HotmethodTask) (d : Loaded) (active : TabKey)
    → (has_tab (settle_tab (some task) d active) (tabs_of task d) ≡ true)
      × ((settle_tab (some task) d active ≡ active) ⊎ (has_tab active (tabs_of task d) ≡ false))
settle_tab_lem task d active = elim (Bool-cases (has_tab active (tabs_of task d))) [
  | inl h ↦ (rw (settle_tab_visible task d active h) h, inl (settle_tab_visible task d active h))
  | inr h ↦ (rw (settle_tab_hidden task d active h) (has_tab-primary_or_info task d), inr h)
]
