-- ===== src/Flame/Chart/Keeping.antt =====
-- The tree and the address of a chart, which only the page changes.
use mini_drop_test.Base.{
  ℕ, ◌≡◌, refl, String, Bool, true, false, Option, none, some, if◌then◌else◌, str_eq, ◌==◌, is_some,
}
use mini_drop_test.Flame.Chart.{
  Size, ChartState, mount, set_root, window_resize, type_search, fullscreen_change, resize_timeout,
  has_container, chart_effect, redraw, rerender, render_chart, draw, search_effect, fire,
  chart_height, fresh,
}

module _ {ℓ} {N : Type ℓ} (size : Size) where
  -- The same tree and the same address
  abbrev pub Keeps : Option N → Option String → ChartState N → Type ℓ
  Keeps root url s = (s.root ≡ root) × (s.url ≡ url)

  draw-Keeps :
      (height : ℕ) (drawn : Option N) (s : ChartState N) (root : Option N) (url : Option String)
      → Keeps root url s
      → Keeps root url (draw size height drawn s)
  unfolding draw
  draw-Keeps height none s root url h = h
  draw-Keeps height (some n) s root url h = h

  Keeps-if :
      (b : Bool) (s t : ChartState N) (root : Option N) (url : Option String)
      → Keeps root url s
      → Keeps root url t
      → Keeps root url (if b then s else t)
  Keeps-if true s t root url h g = h
  Keeps-if false s t root url h g = g

  render_chart-Keeps :
      (height : ℕ) (s : ChartState N) (root : Option N) (url : Option String)
      → Keeps root url s
      → Keeps root url (render_chart size height s)
  unfolding render_chart
  render_chart-Keeps height s root url h =
      Keeps-if (has_container s) (draw size height s.root_ref s) s root url
        (draw-Keeps height s.root_ref s root url h) h

  chart_effect-Keeps :
      (s : ChartState N) (root : Option N) (url : Option String)
      → Keeps root url s
      → Keeps root url (chart_effect size s)
  unfolding chart_effect
  chart_effect-Keeps s root url h =
      let bare = record s { drawn = false } in
      let next = record bare { root_ref = s.root } in
      Keeps-if (has_container s) (render_chart size s.height next) bare root url
        (render_chart-Keeps s.height next root url h) h

  rerender-Keeps :
      (s : ChartState N) (root : Option N) (url : Option String)
      → Keeps root url s
      → Keeps root url (rerender size s)
  unfolding rerender redraw
  rerender-Keeps s root url h =
      let next = record s { height = chart_height size s } in
      Keeps-if (chart_height size s == s.height) s (redraw size next) root url h
        (chart_effect-Keeps next root url h)

  pub set_root-Keeps :
      (s : ChartState N) (root : Option N) (url : Option String)
      → s.url ≡ url
      → Keeps root url (set_root size root s)
  unfolding set_root redraw
  set_root-Keeps s root url h =
      let t = record s { root = root } in
      let u = record t { height = chart_height size s } in
      Keeps-if (chart_height size s == s.height) (chart_effect size t) (redraw size u) root url
        (chart_effect-Keeps t root url (refl, h)) (chart_effect-Keeps u root url (refl, h))

  search_effect-Keeps :
      (term : String) (s : ChartState N) (root : Option N) (url : Option String)
      → Keeps root url s
      → Keeps root url (search_effect term s)
  unfolding search_effect
  search_effect-Keeps term s root url h = h

  pub type_search-Keeps :
      (term : String) (s : ChartState N) (root : Option N) (url : Option String)
      → Keeps root url s
      → Keeps root url (type_search size term s)
  unfolding type_search
  type_search-Keeps term s root url h =
      let t = record s { search_term = term } in
      Keeps-if (str_eq term s.search_term) s (search_effect term (rerender size t)) root url h
        (search_effect-Keeps term (rerender size t) root url (rerender-Keeps t root url h))

  pub fullscreen_change-Keeps :
      (full : Bool) (s : ChartState N) (root : Option N) (url : Option String)
      → Keeps root url s
      → Keeps root url (fullscreen_change size full s)
  unfolding fullscreen_change
  fullscreen_change-Keeps true s root url h =
      let t = record s { is_fullscreen = true } in
      Keeps-if s.is_fullscreen s (rerender size t) root url h (rerender-Keeps t root url h)
  fullscreen_change-Keeps false s root url h =
      let t = record s { is_fullscreen = false } in
      Keeps-if s.is_fullscreen (rerender size t) s root url (rerender-Keeps t root url h) h

  fire-Keeps :
      (timer : Option ℕ) (s : ChartState N) (root : Option N) (url : Option String)
      → Keeps root url s
      → Keeps root url (fire size timer s)
  unfolding fire
  fire-Keeps none s root url h = h
  fire-Keeps (some height) s root url h =
      let t = record s { timer = none } in
      Keeps-if (is_some s.root_ref) (render_chart size height t) t root url
        (render_chart-Keeps height t root url h) h

  pub resize_timeout-Keeps :
      (s : ChartState N) (root : Option N) (url : Option String)
      → Keeps root url s
      → Keeps root url (resize_timeout size s)
  unfolding resize_timeout
  resize_timeout-Keeps s root url h = fire-Keeps s.timer s root url h

  pub window_resize-Keeps :
      (window_height offset_width : ℕ) (s : ChartState N) (root : Option N) (url : Option String)
      → Keeps root url s
      → Keeps root url (window_resize window_height offset_width s)
  unfolding window_resize
  window_resize-Keeps window_height offset_width s root url h = h

  pub mount-Keeps :
      (root : Option N) (url : Option String) (window_height offset_width : ℕ)
      → Keeps root url (mount size root url window_height offset_width)
  unfolding mount
  mount-Keeps root url window_height offset_width =
      chart_effect-Keeps (fresh size root url window_height offset_width) root url (refl, refl)
