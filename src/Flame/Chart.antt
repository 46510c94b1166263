-- ===== src/Flame/Chart.antt =====
-- web/src/components/FlameGraph.tsx and the DiffFlamePanel of pages/FlameDiff.tsx: the life of the
-- chart in its container, from the component's effects. `N` is the type of the tree that is drawn.
-- d3-flame-graph draws what it is given.
pub mod Steps
pub mod Invariant
pub mod Search
pub mod Keeping
mod Tests
use mini_drop_test.Base.{
  ℕ, zero, suc, ◌+◌, ◌-◌, String, Bool, true, false, not, ◌&&◌, Option, none, some, List, [], ◌∷◌,
  ltb, leb, ◌==◌, if◌then◌else◌, is_some, opt_truthy, str_eq, truthy,
}

-- A drawn chart; `highlight` is the term that it was last searched for, empty after `clear`.
pub record Chart {ℓ} (N : Type ℓ) : Type ℓ where
  pub root : N
  pub width : ℕ
  pub height : ℕ
  pub highlight : String

-- `root` is the memo of the data, `height` the chart's height at the last rendering, `root_ref` and
-- `chart_ref` the two refs, `drawn` whether the container holds the chart, and `timer` the height
-- that the pending resize timer would draw with.
pub record ChartState {ℓ} (N : Type ℓ) : Type ℓ where
  pub root : Option N
  pub url : Option String
  pub search_term : String
  pub is_fullscreen : Bool
  pub window_height : ℕ
  pub offset_width : ℕ
  pub height : ℕ
  pub root_ref : Option N
  pub chart_ref : Option (Chart N)
  pub drawn : Bool
  pub timer : Option ℕ

-- `width || default` and `Math.max(a, b)` on natural numbers
abbrev width_or : ℕ → ℕ → ℕ
width_or zero d = d
width_or (suc n) d = suc n

abbrev max : ℕ → ℕ → ℕ
max a b = if leb a b then b else a

-- The chart's plain size, and what the full screen leaves of the window's height.
pub record Size : Type 0 where
  pub base_width : ℕ
  pub base_height : ℕ
  pub margin : ℕ

-- FlameGraph's own size, and that of DiffFlamePanel
unfoldable pub flame_graph_size : Size
flame_graph_size = record { base_width = 960; base_height = 400; margin = 82 }

unfoldable pub diff_panel_size : Size
diff_panel_size = record { base_width = 960; base_height = 480; margin = 138 }

module _ {ℓ} {N : Type ℓ} where
  -- The page has a container exactly if it has a tree and no url.
  unfoldable pub has_container : ChartState N → Bool
  has_container s = not (opt_truthy s.url) && is_some s.root

  search_chart : String → Option (Chart N) → Option (Chart N)
  search_chart term none = none
  search_chart term (some chart) = some (record chart { highlight = term })

  -- `search(term)`, or `clear()` for the empty one
  search_effect : String → ChartState N → ChartState N
  unfolding search_chart
  search_effect term s = record s { chart_ref = search_chart term s.chart_ref }

  -- The window has a new size: the timer starts again, and nothing is rendered.
  unfoldable pub window_resize : ℕ → ℕ → ChartState N → ChartState N
  window_resize window_height offset_width s = record s {
    window_height = window_height;
    offset_width = offset_width;
    timer = some s.height;
  }

  -- The component goes away: listeners and the timer with it.
  unfoldable pub unmount : ChartState N → ChartState N
  unmount s = record s { drawn = false; timer = none }

module _ {ℓ} {N : Type ℓ} (size : Size) where
  -- A difference below 0 is below the plain height too.
  unfoldable pub chart_height : ChartState N → ℕ
  chart_height s =
      if s.is_fullscreen
      then max (s.window_height - size.margin) size.base_height
      else size.base_height

  draw : ℕ → Option N → ChartState N → ChartState N
  draw height none s = s
  draw height (some root) s = record s {
    chart_ref = some (record {
      root = root;
      width = width_or s.offset_width size.base_width;
      height = height;
      highlight = "";
    });
    drawn = true;
  }

  unfoldable pub render_chart : ℕ → ChartState N → ChartState N
  unfolding draw has_container
  render_chart height s = if has_container s then draw height s.root_ref s else s

  -- The effect of the tree, after the cleanup of the last one: the old chart is taken down.
  unfoldable pub chart_effect : ChartState N → ChartState N
  unfolding render_chart has_container
  chart_effect s =
      let bare = record s { drawn = false } in
      if has_container s then render_chart s.height (record bare { root_ref = s.root }) else bare

  -- The effects that depend on the height: the chart's, and the cleanup of the resize listener, which
  -- stops the timer.
  redraw : ChartState N → ChartState N
  unfolding chart_effect
  redraw s = record (chart_effect s) { timer = none }

  -- A rendering computes the height again.
  unfoldable pub rerender : ChartState N → ChartState N
  unfolding redraw chart_height
  rerender s =
      let h = chart_height s in if h == s.height then s else redraw (record s { height = h })

  -- New data, whether or not the height has changed
  unfoldable pub set_root : Option N → ChartState N → ChartState N
  unfolding chart_effect redraw chart_height
  set_root root s =
      let h = chart_height s in
      if h == s.height
      then chart_effect (record s { root = root })
      else redraw (record s { root = root; height = h })

  -- The effects of the rendering come first.
  unfoldable pub type_search : String → ChartState N → ChartState N
  unfolding rerender search_effect
  type_search term s =
      if str_eq term s.search_term
      then s
      else search_effect term (rerender (record s { search_term = term }))

  -- A state that stays as it is renders nothing.
  unfoldable pub fullscreen_change : Bool → ChartState N → ChartState N
  unfolding rerender
  fullscreen_change true s =
      if s.is_fullscreen then s else rerender (record s { is_fullscreen = true })
  fullscreen_change false s =
      if s.is_fullscreen then rerender (record s { is_fullscreen = false }) else s

  -- The timer of 100 milliseconds runs out.
  fire : Option ℕ → ChartState N → ChartState N
  unfolding render_chart
  fire none s = s
  fire (some height) s =
      let t = record s { timer = none } in if is_some s.root_ref then render_chart height t else t

  unfoldable pub resize_timeout : ChartState N → ChartState N
  unfolding fire
  resize_timeout s = fire s.timer s

  abbrev pub fresh : Option N → Option String → ℕ → ℕ → ChartState N
  fresh root url window_height offset_width = record {
    root = root;
    url = url;
    search_term = "";
    is_fullscreen = false;
    window_height = window_height;
    offset_width = offset_width;
    height = size.base_height;
    root_ref = none;
    chart_ref = none;
    drawn = false;
    timer = none;
  }

  -- The first rendering, with the effect of the chart; the search's effect clears a new chart.
  unfoldable pub mount : Option N → Option String → ℕ → ℕ → ChartState N
  unfolding chart_effect
  mount root url window_height offset_width =
      chart_effect (fresh root url window_height offset_width)

-- `toggleFullscreen`: what the browser is asked for; a refusal is ignored.
pub data FullscreenRequest : Type 0 where
  exit_fullscreen request_fullscreen : FullscreenRequest

unfoldable pub toggle_fullscreen : Bool → FullscreenRequest
toggle_fullscreen own_fullscreen = if own_fullscreen then exit_fullscreen else request_fullscreen

-- What the component shows
pub data ChartView : Type 0 where
  frame_of : String → ChartView
  empty_chart : ChartView
  chart_container : Bool → ChartView  -- with the button that clears the search, or without

module _ {ℓ} {N : Type ℓ} where
  view_without_url : ChartState N → ChartView
  view_without_url s =
      if is_some s.root then chart_container (truthy s.search_term) else empty_chart

  unfoldable pub chart_view : ChartState N → ChartView
  unfolding view_without_url
  chart_view s = elim s.url [
    | none ↦ view_without_url s
    | some url ↦ if truthy url then frame_of url else view_without_url s
  ]
