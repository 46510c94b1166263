-- ===== src/Diff/Panel/Laws.antt =====
-- What the panel of a comparison draws.
use mini_drop_test.Base.{
  ℕ, ◌≡◌, refl, sym, ap, ◌∙◌, inl, inr, true, Option, none, some, List, [], ◌∷◌, arith,
}
use mini_drop_test.Flame.Chart.{
  Chart, ChartState, diff_panel_size, type_search, fullscreen_change, window_resize, resize_timeout,
  has_container,
}
use mini_drop_test.Flame.Chart.Steps.{Reachable, mounted, stepped, IsCurrent, Step, new_root}
use mathlib.Core.Option.{none-ne-some, some-injective}
use mathlib.Core.Option
use mini_drop_test.Flame.Chart.Invariant.{Reachable-IsCurrent}
use mini_drop_test.Flame.Chart.Keeping.{
  Keeps, type_search-Keeps, fullscreen_change-Keeps, resize_timeout-Keeps, set_root-Keeps,
  mount-Keeps, window_resize-Keeps,
}
use mini_drop_test.Diff.Tree.{FlameDiffResult, DiffNode, DrawnNode, chart_data, transform_node}
use mini_drop_test.Diff.Panel.{
  PanelState, PanelEvent, result_set, panel_start, show_result, chart_for, panel_step, panel_steps,
}

-- A chart of the panel for this comparison
abbrev IsChartOf : FlameDiffResult → ChartState DrawnNode → Type 0
IsChartOf result s = Reachable diff_panel_size s × Keeps diff_panel_size (chart_data result) none s

-- The panel is there exactly with a comparison, and its chart has the tree of the comparison.
abbrev Fits : Option FlameDiffResult → Option (ChartState DrawnNode) → Type 0
Fits none none = Unit {0}
Fits none (some s) = ⊥
Fits (some result) none = ⊥
Fits (some result) (some s) = IsChartOf result s

abbrev Matches : PanelState → Type 0
Matches p = Fits p.result p.chart

-- Steps of the chart that keep its tree
abbrev IsOwn : (ChartState DrawnNode → ChartState DrawnNode) → Type 0
IsOwn f =
    (s : ChartState DrawnNode)
    → Step diff_panel_size s (f s)
      × ((root : Option DrawnNode)
          → Keeps diff_panel_size root none s
          → Keeps diff_panel_size root none (f s))

Fits-map :
    (f : ChartState DrawnNode → ChartState DrawnNode) (result : Option FlameDiffResult)
    (chart : Option (ChartState DrawnNode))
    → IsOwn f
    → Fits result chart
    → Fits result (Option.map f chart)
Fits-map f none none own h = h
Fits-map f none (some s) own h = h
Fits-map f (some result) none own h = h
Fits-map f (some result) (some s) own (r, h) =
    (stepped r (own s).0, (own s).1 (chart_data result) h)

chart_for-IsChartOf :
    (result before : FlameDiffResult) (window_height offset_width : ℕ) (s : ChartState DrawnNode)
    → IsChartOf before s
    → IsChartOf result (chart_for result window_height offset_width (some s))
unfolding chart_for
chart_for-IsChartOf result before window_height offset_width s (r, h) = (
  stepped r (new_root (chart_data result)),
  set_root-Keeps diff_panel_size s (chart_data result) none h.1,
)

Fits-chart_for :
    (old : Option FlameDiffResult) (result : FlameDiffResult) (window_height offset_width : ℕ)
    (chart : Option (ChartState DrawnNode))
    → Fits old chart
    → IsChartOf result (chart_for result window_height offset_width chart)
unfolding chart_for
Fits-chart_for old result window_height offset_width none h = (
  mounted (chart_data result) none window_height offset_width,
  mount-Keeps diff_panel_size (chart_data result) none window_height offset_width,
)
Fits-chart_for (some before) result window_height offset_width (some s) h =
    chart_for-IsChartOf result before window_height offset_width s h
Fits-chart_for none result window_height offset_width (some s) h = absurd h

panel_step-Matches :
    (event : PanelEvent) (p : PanelState) → Matches p → Matches (panel_step event p)
unfolding panel_step show_result
panel_step-Matches (result_set none window_height offset_width) p h = tt
panel_step-Matches (result_set (some result) window_height offset_width) p h =
    Fits-chart_for p.result result window_height offset_width p.chart h
panel_step-Matches (PanelEvent.searched term) p h =
    Fits-map (type_search diff_panel_size term) p.result p.chart
      (λ s. (Step.searched term, λ root. type_search-Keeps diff_panel_size term s root none)) h
panel_step-Matches (PanelEvent.fullscreen full) p h =
    Fits-map (fullscreen_change diff_panel_size full) p.result p.chart
      (λ s.
        (Step.fullscreen full, λ root. fullscreen_change-Keeps diff_panel_size full s root none))
      h
panel_step-Matches (PanelEvent.resized window_height offset_width) p h =
    Fits-map (window_resize window_height offset_width) p.result p.chart
      (λ s. (
        Step.resized window_height offset_width,
        λ root. window_resize-Keeps diff_panel_size window_height offset_width s root none,
      ))
      h
panel_step-Matches PanelEvent.timed_out p h =
    Fits-map (resize_timeout diff_panel_size) p.result p.chart
      (λ s. (Step.timed_out, λ root. resize_timeout-Keeps diff_panel_size s root none)) h

panel_steps-Matches :
    (events : List PanelEvent) (p : PanelState) → Matches p → Matches (panel_steps events p)
unfolding panel_steps
panel_steps-Matches [] p h = h
panel_steps-Matches (event ∷ events) p h =
    panel_steps-Matches events (panel_step event p) (panel_step-Matches event p h)

-- The chart in the panel's container draws this tree at the height of the last rendering.
abbrev pub DrawsTree : DrawnNode → ChartState DrawnNode → Type 0
DrawsTree root s =
    (s.drawn ≡ true)
    × ((chart : Chart DrawnNode) × (s.chart_ref ≡ some chart)
        × (chart.root ≡ root)
        × (chart.height ≡ s.height))

IsCurrent-DrawsTree :
    (s : ChartState DrawnNode) (root : DrawnNode)
    → IsCurrent s
    → Keeps diff_panel_size (some root) none s
    → DrawsTree root s
unfolding has_container
IsCurrent-DrawsTree s root (timer, inl (bare, drawn)) (tree, url) =
    absurd (ground (arith, bare, tree, url))
IsCurrent-DrawsTree s root (timer, inr (full, drawn, (chart, (ref, tree', ref', height))))
      (tree, url) =
    (drawn, (chart, ref, some-injective chart.root root (sym tree' ∙ tree), height))

chart_data_tree :
    (result : FlameDiffResult) (node : DiffNode)
    → result.tree ≡ some node
    → chart_data result ≡ some (transform_node node)
unfolding chart_data
chart_data_tree result node h = ground arith

Fits-DrawsTree :
    (found : Option FlameDiffResult) (chart : Option (ChartState DrawnNode))
    (result : FlameDiffResult) (node : DiffNode)
    → found ≡ some result
    → result.tree ≡ some node
    → Fits found chart
    → (s : ChartState DrawnNode) × (chart ≡ some s) × DrawsTree (transform_node node) s
Fits-DrawsTree none chart result node is tree h = absurd (none-ne-some result is)
Fits-DrawsTree (some found) none result node is tree h = absurd h
Fits-DrawsTree (some found) (some s) result node is tree (r, (own, url)) =
    let same = ap chart_data (some-injective found result is) ∙ chart_data_tree result node tree in
    (
      s,
      refl,
      IsCurrent-DrawsTree s (transform_node node) (Reachable-IsCurrent diff_panel_size r)
          (own ∙ same, url),
    )

-- Whatever arrives and whatever the visitor does with the panel, from the page without a comparison
-- on: while the page has a comparison with a tree, the panel is there, and its container holds a
-- chart of the transformed tree of that comparison.
pub panel_steps-DrawsTree :
    (events : List PanelEvent) (result : FlameDiffResult) (node : DiffNode)
    → (panel_steps events panel_start).result ≡ some result
    → result.tree ≡ some node
    → (s : ChartState DrawnNode) × ((panel_steps events panel_start).chart ≡ some s)
      × DrawsTree (transform_node node) s
unfolding panel_start
panel_steps-DrawsTree events result node is tree =
    let p = panel_steps events panel_start in
    Fits-DrawsTree p.result p.chart result node is tree (panel_steps-Matches events panel_start tt)
