-- ===== src/Diff/Panel.antt =====
-- web/src/pages/FlameDiff.tsx: DiffFlamePanel, which the page shows while it has a comparison. Its
-- chart lives as that of Flame.Chart does, with the panel's size and without an address of its own.
pub mod Laws
use mini_drop_test.Base.{ℕ, String, Bool, Option, none, some, List, [], ◌∷◌}
use mathlib.Core.Option
use mini_drop_test.Flame.Chart.{
  ChartState, diff_panel_size, mount, set_root, type_search, fullscreen_change, window_resize,
  resize_timeout,
}
use mini_drop_test.Diff.Tree.{FlameDiffResult, DrawnNode, chart_data}

-- The comparison of the page, and the chart of the panel that shows it
pub record PanelState : Type 0 where
  pub result : Option FlameDiffResult
  pub chart : Option (ChartState DrawnNode)

-- `result_set` comes with the size that a new panel would find.
pub data PanelEvent : Type 0 where
  result_set : Option FlameDiffResult → ℕ → ℕ → PanelEvent
  searched : String → PanelEvent
  fullscreen : Bool → PanelEvent
  resized : ℕ → ℕ → PanelEvent
  timed_out : PanelEvent

unfoldable pub panel_start : PanelState
panel_start = record { result = none; chart = none }

-- A panel that is there already stays, and its chart takes the new tree.
chart_for : FlameDiffResult → ℕ → ℕ → Option (ChartState DrawnNode) → ChartState DrawnNode
unfolding mount set_root chart_data
chart_for result window_height offset_width none =
    mount diff_panel_size (chart_data result) none window_height offset_width
chart_for result window_height offset_width (some s) =
    set_root diff_panel_size (chart_data result) s

unfoldable pub show_result : Option FlameDiffResult → ℕ → ℕ → PanelState → PanelState
unfolding chart_for
show_result none window_height offset_width p = record { result = none; chart = none }
show_result (some result) window_height offset_width p = record {
  result = some result;
  chart = some (chart_for result window_height offset_width p.chart);
}

-- An event of the chart, where there is one
abbrev pub on_chart : (ChartState DrawnNode → ChartState DrawnNode) → PanelState → PanelState
on_chart f p = record p { chart = Option.map f p.chart }

unfoldable pub panel_step : PanelEvent → PanelState → PanelState
unfolding show_result type_search fullscreen_change window_resize resize_timeout
panel_step (result_set result window_height offset_width) p =
    show_result result window_height offset_width p
panel_step (searched term) p = on_chart (type_search diff_panel_size term) p
panel_step (fullscreen full) p = on_chart (fullscreen_change diff_panel_size full) p
panel_step (resized window_height offset_width) p =
    on_chart (window_resize window_height offset_width) p
panel_step timed_out p = on_chart (resize_timeout diff_panel_size) p

unfoldable pub panel_steps : List PanelEvent → PanelState → PanelState
unfolding panel_step
panel_steps [] p = p
panel_steps (event ∷ events) p = panel_steps events (panel_step event p)
