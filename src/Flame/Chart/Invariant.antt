-- ===== src/Flame/Chart/Invariant.antt =====
-- The chart in the container is always one of the present tree.
use mini_drop_test.Base.{
  ℕ, ◌≡◌, refl, inl, inr, String, Bool, true, false, Option, none, some, ◌==◌, str_eq,
  if◌then◌else◌, opt_truthy, is_some, sym,
}
use mathlib.Core.Path.{subst}
use mini_drop_test.Flame.Chart.{
  Size, ChartState, mount, set_root, type_search, fullscreen_change, window_resize, resize_timeout,
  has_container, render_chart, chart_effect, redraw, rerender, draw, fire, fresh, search_chart,
  search_effect, chart_height,
}
use mini_drop_test.Flame.Chart.Steps.{
  Step, new_root, searched, fullscreen, resized, timed_out, Reachable, mounted, stepped, IsDrawn,
  TimerFits, IsCurrent,
}

module _ {ℓ} {N : Type ℓ} where
  -- Split on whether there is a url and whether there is a tree.
  chart_effect_cases :
      (size : Size) (s : ChartState N) (root : Option N) (url : Bool)
      → s.root ≡ root
      → opt_truthy s.url ≡ url
      → (TimerFits s → TimerFits (chart_effect size s)) × IsDrawn (chart_effect size s)
  unfolding chart_effect has_container
  chart_effect_cases size s root true e u = rw u (λ h. h, inl (rw u refl, refl))
  chart_effect_cases size s none false e u = rw (e, u) (λ h. h, inl (rw u refl, refl))
  chart_effect_cases size s (some r) false e u =
      rw (e, u) (λ h. h, inr (rw u refl, refl, (_, (refl, refl, refl, refl))))

  chart_effect_lem :
      (size : Size) (s : ChartState N)
      → (TimerFits s → TimerFits (chart_effect size s)) × IsDrawn (chart_effect size s)
  chart_effect_lem size s = chart_effect_cases size s s.root (opt_truthy s.url) refl refl

  IsCurrent-if :
      (b : Bool) (s t : ChartState N) → IsCurrent s → IsCurrent t → IsCurrent (if b then s else t)
  IsCurrent-if true s t h g = h
  IsCurrent-if false s t h g = g

  redraw-IsCurrent : (size : Size) (s : ChartState N) → IsCurrent (redraw size s)
  unfolding redraw has_container
  redraw-IsCurrent size s = (inl refl, (chart_effect_lem size s).1)

  pub rerender-IsCurrent :
      (size : Size) (s : ChartState N) → IsCurrent s → IsCurrent (rerender size s)
  unfolding rerender
  rerender-IsCurrent size s h =
      IsCurrent-if (chart_height size s == s.height) s
        (redraw size (record s { height = chart_height size s })) h
        (redraw-IsCurrent size (record s { height = chart_height size s }))

  set_root-IsCurrent :
      (size : Size) (root : Option N) (s : ChartState N)
      → IsCurrent s
      → IsCurrent (set_root size root s)
  unfolding set_root
  set_root-IsCurrent size root s h =
      let t = record s { root = root } in
      let u = record s { root = root; height = chart_height size s } in
      IsCurrent-if (chart_height size s == s.height) (chart_effect size t) (redraw size u)
        ((chart_effect_lem size t).0 h.0, (chart_effect_lem size t).1) (redraw-IsCurrent size u)

  search_effect-IsCurrent :
      (term : String) (s : ChartState N) → IsCurrent s → IsCurrent (search_effect term s)
  unfolding search_effect search_chart has_container
  search_effect-IsCurrent term s (h, inl g) = (h, inl g)
  search_effect-IsCurrent term s (h, inr (g, d, (chart, (c, r, q, t)))) =
      (h, inr (g, d, (record chart { highlight = term }, (rw c refl, r, q, t))))

  type_search-IsCurrent :
      (size : Size) (term : String) (s : ChartState N)
      → IsCurrent s
      → IsCurrent (type_search size term s)
  unfolding type_search has_container
  type_search-IsCurrent size term s h =
      let t = record s { search_term = term } in
      IsCurrent-if (str_eq term s.search_term) s (search_effect term (rerender size t)) h
        (search_effect-IsCurrent term (rerender size t) (rerender-IsCurrent size t h))

  fullscreen_change-IsCurrent :
      (size : Size) (full : Bool) (s : ChartState N)
      → IsCurrent s
      → IsCurrent (fullscreen_change size full s)
  unfolding fullscreen_change has_container
  fullscreen_change-IsCurrent size true s h =
      let t = record s { is_fullscreen = true } in
      IsCurrent-if s.is_fullscreen s (rerender size t) h (rerender-IsCurrent size t h)
  fullscreen_change-IsCurrent size false s h =
      let t = record s { is_fullscreen = false } in
      IsCurrent-if s.is_fullscreen (rerender size t) s (rerender-IsCurrent size t h) h

  window_resize-IsCurrent :
      (window_height offset_width : ℕ) (s : ChartState N)
      → IsCurrent s
      → IsCurrent (window_resize window_height offset_width s)
  unfolding window_resize has_container
  window_resize-IsCurrent window_height offset_width s h = (inr refl, h.1)

  render_chart-IsCurrent :
      (size : Size) (s : ChartState N) → IsCurrent s → IsCurrent (render_chart size s.height s)
  unfolding render_chart has_container
  render_chart-IsCurrent size s (h, inl (g, d)) = subst IsCurrent (hidden g) (h, inl (g, d))
    where
      hidden : has_container s ≡ false → s ≡ render_chart size s.height s
      hidden g = rw g refl
  render_chart-IsCurrent size s (h, inr (g, d, (chart, (c, r, q, t)))) =
      subst IsCurrent (shown g q) (h, inr (g, refl, (_, (refl, r, q, refl))))
    where
      shown :
          has_container s ≡ true
          → s.root_ref ≡ some chart.root
          → draw size s.height (some chart.root) s ≡ render_chart size s.height s
      shown g q = rw (g, q) refl

  resize_timeout-IsCurrent :
      (size : Size) (s : ChartState N) → IsCurrent s → IsCurrent (resize_timeout size s)
  unfolding resize_timeout has_container
  resize_timeout-IsCurrent size s (inl none_left, h) = rw none_left (inl refl, h)
  resize_timeout-IsCurrent size s (inr pending, h) =
      let t = record s { timer = none } in
      subst (λ timer. IsCurrent (fire size timer s)) (sym pending)
        (IsCurrent-if (is_some s.root_ref) (render_chart size s.height t) t
          (render_chart-IsCurrent size t (inl refl, h)) (inl refl, h))

  mount-IsCurrent :
      (size : Size) (root : Option N) (url : Option String) (wh ow : ℕ)
      → IsCurrent (mount size root url wh ow)
  unfolding mount
  mount-IsCurrent size root url wh ow =
      let (timer, drawn) = chart_effect_lem size (fresh size root url wh ow) in
      (timer (inl refl), drawn)

  step-IsCurrent : (size : Size) {s t : ChartState N} → Step size s t → IsCurrent s → IsCurrent t
  step-IsCurrent size (new_root root) h = set_root-IsCurrent size root _ h
  step-IsCurrent size (searched term) h = type_search-IsCurrent size term _ h
  step-IsCurrent size (fullscreen full) h = fullscreen_change-IsCurrent size full _ h
  step-IsCurrent size (resized wh ow) h = window_resize-IsCurrent wh ow _ h
  step-IsCurrent size timed_out h = resize_timeout-IsCurrent size _ h

  -- In every state that a chart comes to by new data, searches, full screen changes, resizes of the
  -- window and timeouts: if the page has a container, it holds a chart of the present tree with the
  -- height of the last rendering, and else no chart; and a pending timer draws with that height.
  pub Reachable-IsCurrent : (size : Size) {s : ChartState N} → Reachable size s → IsCurrent s
  Reachable-IsCurrent size (mounted root url wh ow) = mount-IsCurrent size root url wh ow
  Reachable-IsCurrent size (stepped r step) = step-IsCurrent size step (Reachable-IsCurrent size r)
