-- ===== src/Flame/Chart/Search.antt =====
-- What the chart is searched for.
use mini_drop_test.Base.{
  ℕ, ◌≡◌, refl, inl, inr, String, Bool, true, false, Option, none, some, ◌==◌, str_eq, Bool-cases,
  opt_truthy, ◌∙◌, if◌then◌else◌, arith,
}
use mini_drop_test.Flame.Chart.{
  Size, Chart, ChartState, type_search, resize_timeout, has_container, render_chart, chart_effect,
  redraw, rerender, draw, search_chart, search_effect, chart_height,
}
use mini_drop_test.Flame.Chart.Invariant.{Reachable-IsCurrent, rerender-IsCurrent}
use mini_drop_test.Flame.Chart.Steps.{Reachable, IsDrawn, IsCurrent}

module _ {ℓ} {N : Type ℓ} where
  search_effect-highlight :
      (term : String) (s : ChartState N)
      → IsDrawn s
      → has_container s ≡ true
      → (chart : Chart N) × (((search_effect term s).chart_ref ≡ some chart)
          × (chart.highlight ≡ term))
  unfolding search_effect search_chart
  search_effect-highlight term s (inl (g, d)) h = cc (g, h)
  search_effect-highlight term s (inr (g, d, (chart, (c, r, q, t)))) h =
      (record chart { highlight = term }, (rw c refl, refl))

  chart_effect-has_container :
      (size : Size) (s : ChartState N) (root : Option N) (url : Bool)
      → s.root ≡ root
      → opt_truthy s.url ≡ url
      → has_container (chart_effect size s) ≡ has_container s
  unfolding chart_effect has_container
  chart_effect-has_container size s root true e u = rw u (rw u refl)
  chart_effect-has_container size s none false e u = rw (e, u) (rw u refl)
  chart_effect-has_container size s (some r) false e u = rw (e, u) (rw u refl)

  rerender-has_container :
      (size : Size) (s : ChartState N) → has_container (rerender size s) ≡ has_container s
  unfolding rerender redraw has_container
  rerender-has_container size s = elim (Bool-cases (chart_height size s == s.height)) [
    | inl p ↦ rw p refl
    | inr p ↦ rw p (
        chart_effect-has_container size (record s { height = chart_height size s }) s.root
          (opt_truthy s.url) refl refl)
  ]

  -- A new term that is typed is what the chart is searched for, in every state that the chart comes
  -- to with a container.
  pub type_search-highlight :
      (size : Size) (term : String) {s : ChartState N}
      → Reachable size s
      → has_container s ≡ true
      → str_eq term s.search_term ≡ false
      → (chart : Chart N) × (((type_search size term s).chart_ref ≡ some chart)
          × (chart.highlight ≡ term))
  unfolding type_search has_container
  type_search-highlight size term {s} reach h new =
      let t = record s { search_term = term } in
      rw new (
        search_effect-highlight term (rerender size t)
          (rerender-IsCurrent size t (typed (Reachable-IsCurrent size reach))).1
          (rerender-has_container size t ∙ h))
    where
      typed : IsCurrent s → IsCurrent (record s { search_term = term })
      typed h = h

  resize_timeout_draws :
      (size : Size) (s : ChartState N) (height : ℕ) (r : N)
      → s.timer ≡ some height
      → s.root_ref ≡ some r
      → has_container s ≡ true
      → resize_timeout size s ≡ draw size height (some r) (record s { timer = none })
  unfolding resize_timeout render_chart has_container
  resize_timeout_draws size s height r p q g = rw (p, q, g) refl

  -- A chart that has just been drawn: of the page's tree, in this height and the container's present
  -- width, and searched for nothing
  abbrev pub IsRedrawn : Size → ℕ → ChartState N → ChartState N → Type ℓ
  IsRedrawn size height s t =
      (t.drawn ≡ true)
      × (t.timer ≡ none)
      × ((chart : Chart N) × (t.chart_ref ≡ some chart)
          × (s.root ≡ some chart.root)
          × (chart.width ≡ (if s.offset_width == 0 then size.base_width else s.offset_width))
          × (chart.height ≡ height)
          × (chart.highlight ≡ ""))

  draw-IsRedrawn :
      (size : Size) (height : ℕ) (s : ChartState N) (root : N)
      → s.root ≡ some root
      → IsRedrawn size height s (draw size height (some root) (record s { timer = none }))
  unfolding draw
  draw-IsRedrawn size height s root h = (refl, refl, (_, refl, h, ground arith, refl, refl))

  -- When the timer of a resize runs out, in every state that the chart comes to with a container:
  -- the chart is drawn again with the container's present width and the timer's height, and it is no
  -- longer searched, though the term in the input stays.
  pub resize_timeout-forgets_search :
      (size : Size) (height : ℕ) {s : ChartState N}
      → Reachable size s
      → has_container s ≡ true
      → s.timer ≡ some height
      → ((resize_timeout size s).search_term ≡ s.search_term)
        × IsRedrawn size height s (resize_timeout size s)
  unfolding draw
  resize_timeout-forgets_search size height {s} reach h pending =
      forgets (Reachable-IsCurrent size reach).1
    where
      forgets :
          IsDrawn s
          → ((resize_timeout size s).search_term ≡ s.search_term)
            × IsRedrawn size height s (resize_timeout size s)
      forgets (inl (g, d)) = cc (g, h)
      forgets (inr (g, d, (chart, (c, r, q, t)))) =
          rw (resize_timeout_draws size s height chart.root pending q g)
            (refl, draw-IsRedrawn size height s chart.root r)
