-- ===== src/TaskResult/Panels.antt =====
-- The panels of the result page: which are expected and available, the tabs, and the active tab.
pub mod Laws
use Prim.Native.String.{◌++◌}
use mini_drop_test.Base.{
  ℕ, zero, suc, String, Bool, true, false, ◌&&◌, ◌||◌, Option, none, some, List, [], ◌∷◌, map, ltb,
  ◌==◌, if◌then◌else◌, filter, any, lookup, truthy, length, join,
}
use mini_drop_test.Domain.{HotmethodTask}

pub data ResultPanelKey : Type 0 where
  flame topn suggestions ebpf pprof memory : ResultPanelKey

-- The keys of the tabs: three fixed ones and the panels
pub data TabKey : Type 0 where
  info states files : TabKey
  panel : ResultPanelKey → TabKey

abbrev pub panel_eq : ResultPanelKey → ResultPanelKey → Bool
panel_eq flame flame = true
panel_eq topn topn = true
panel_eq suggestions suggestions = true
panel_eq ebpf ebpf = true
panel_eq pprof pprof = true
panel_eq memory memory = true
panel_eq _ _ = false

abbrev pub tab_eq : TabKey → TabKey → Bool
tab_eq info info = true
tab_eq states states = true
tab_eq files files = true
tab_eq (panel p) (panel q) = panel_eq p q
tab_eq _ _ = false

pub record PanelMeta : Type 0 where
  pub label : String
  pub artifacts : List String

unfoldable pub panel_meta : ResultPanelKey → PanelMeta
panel_meta flame = record {
  label = "火焰图";
  artifacts = "collapsed.txt" ∷ "flamegraph.svg" ∷ "top.json" ∷ [];
}
panel_meta topn = record { label = "热点函数"; artifacts = "top.json" ∷ [] }
panel_meta suggestions = record {
  label = "归因分析";
  artifacts = "suggestions.md" ∷ "attribution_evidence.json" ∷ [];
}
panel_meta ebpf = record { label = "eBPF 分析"; artifacts = "biosnoop_stats.json" ∷ [] }
panel_meta pprof = record {
  label = "pprof 分析";
  artifacts = "pprof_cpu.json" ∷ "pprof_heap.json" ∷ [];
}
panel_meta memory = record {
  label = "内存/资源";
  artifacts = "memleak.json" ∷ "heap_stats.json" ∷ "resource_stats.json" ∷ [];
}

-- `Object.keys(panelMeta)`
abbrev pub panel_keys : List ResultPanelKey
panel_keys = flame ∷ topn ∷ suggestions ∷ ebpf ∷ pprof ∷ memory ∷ []

abbrev expected_table : List (ℕ × List ResultPanelKey)
expected_table =
    (0, flame ∷ topn ∷ suggestions ∷ [])
    ∷ (1, flame ∷ topn ∷ suggestions ∷ [])
    ∷ (4, suggestions ∷ memory ∷ [])
    ∷ (5, suggestions ∷ memory ∷ [])
    ∷ (6, suggestions ∷ ebpf ∷ [])
    ∷ (10, suggestions ∷ pprof ∷ [])
    ∷ (11, suggestions ∷ pprof ∷ [])
    ∷ (12, suggestions ∷ memory ∷ [])
    ∷ []

unfoldable pub expected_panels_by_task_type : ℕ → List ResultPanelKey
expected_panels_by_task_type type = elim (lookup type expected_table) [
  | none ↦ []
  | some panels ↦ panels
]

abbrev primary_table : List (ℕ × ResultPanelKey)
primary_table =
    (0, flame)
    ∷ (1, flame)
    ∷ (4, memory)
    ∷ (5, memory)
    ∷ (6, ebpf)
    ∷ (10, pprof)
    ∷ (11, pprof)
    ∷ (12, memory)
    ∷ []

unfoldable pub primary_panel_by_task_type : ℕ → Option ResultPanelKey
primary_panel_by_task_type type = lookup type primary_table

-- A missing task has the type -1, which is in no table.
unfoldable pub expected_panels_for_task : Option HotmethodTask → List ResultPanelKey
unfolding expected_panels_by_task_type
expected_panels_for_task none = []
expected_panels_for_task (some task) = expected_panels_by_task_type task.type

-- Which of the page's data are there
pub record Loaded : Type 0 where
  pub collapsed_text : Bool
  pub topn_rows : Bool
  pub svg_markup : Bool
  pub suggestion_rows : Bool
  pub evidence_rows : Bool
  pub ebpf_data : Bool
  pub pprof_cpu_rows : Bool
  pub pprof_heap_rows : Bool
  pub memory_data : Bool
  pub memray_html_url : Bool
  pub memray_loading : Bool
  pub heap_rows : Bool
  pub resource_summary : Bool

unfoldable pub panel_available : Loaded → ResultPanelKey → Bool
panel_available d flame = d.collapsed_text || d.topn_rows || d.svg_markup
panel_available d topn = d.topn_rows
panel_available d suggestions = d.suggestion_rows || d.evidence_rows
panel_available d ebpf = d.ebpf_data
panel_available d pprof = d.pprof_cpu_rows || d.pprof_heap_rows
panel_available d memory =
    d.memory_data || d.memray_html_url || d.memray_loading || d.heap_rows || d.resource_summary

unfoldable pub visible_panel : Option HotmethodTask → Loaded → ResultPanelKey → Bool
unfolding expected_panels_for_task panel_available
visible_panel task d key =
    any (λ k. panel_eq k key) (expected_panels_for_task task) || panel_available d key

abbrev add_panels : (ResultPanelKey → Bool) → List ResultPanelKey → List TabKey
add_panels visible [] = files ∷ []
add_panels visible (key ∷ keys) =
    let rest = add_panels visible keys in if visible key then panel key ∷ rest else rest

unfoldable pub visible_tab_keys : Option HotmethodTask → Loaded → List TabKey
visible_tab_keys task d = info ∷ states ∷ add_panels (visible_panel task d) panel_keys

abbrev pub has_tab : TabKey → List TabKey → Bool
has_tab tab tabs = any (λ t. tab_eq t tab) tabs

abbrev primary_or_info : Option ResultPanelKey → List TabKey → TabKey
primary_or_info none tabs = info
primary_or_info (some key) tabs = if has_tab (panel key) tabs then panel key else info

-- The effect that replaces an active tab which is not visible
unfoldable pub settle_tab : Option HotmethodTask → Loaded → TabKey → TabKey
unfolding visible_tab_keys primary_panel_by_task_type
settle_tab none d active = active
settle_tab (some task) d active =
    if has_tab active (visible_tab_keys (some task) d)
    then active
    else primary_or_info (primary_panel_by_task_type task.type) (visible_tab_keys (some task) d)

abbrev analysis_failed : Option HotmethodTask → Bool
analysis_failed none = false
analysis_failed (some task) = task.analysis_status == 3

-- The text of a panel without data
unfoldable pub empty_panel : Option HotmethodTask → ResultPanelKey → String
unfolding panel_meta join
empty_panel task key =
    if analysis_failed task
    then "分析失败，查看状态迁移里的错误信息。"
    else "分析已完成但未找到预期产物：" ++ join " / " (panel_meta key).artifacts
