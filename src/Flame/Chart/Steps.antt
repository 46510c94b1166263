-- ===== src/Flame/Chart/Steps.antt =====
-- The states that a chart comes to, and what holds in all of them.
use mini_drop_test.Base.{ℕ, ◌≡◌, ◌⊎◌, String, Bool, true, false, Option, none, some}
use mini_drop_test.Flame.Chart.{
  Size, Chart, ChartState, mount, set_root, type_search, fullscreen_change, window_resize,
  resize_timeout, has_container,
}

module _ {ℓ} {N : Type ℓ} (size : Size) where
  pub data Step : ChartState N → ChartState N → Type ℓ where
    new_root : {s : ChartState N} (root : Option N) → Step s (set_root size root s)
    searched : {s : ChartState N} (term : String) → Step s (type_search size term s)
    fullscreen : {s : ChartState N} (full : Bool) → Step s (fullscreen_change size full s)
    resized :
        {s : ChartState N} (window_height offset_width : ℕ)
        → Step s (window_resize window_height offset_width s)
    timed_out : {s : ChartState N} → Step s (resize_timeout size s)

  pub data Reachable : ChartState N → Type ℓ where
    mounted :
        (root : Option N) (url : Option String) (window_height offset_width : ℕ)
        → Reachable (mount size root url window_height offset_width)
    stepped : {s t : ChartState N} → Reachable s → Step s t → Reachable t

module _ {ℓ} {N : Type ℓ} where
  abbrev pub Shows : ChartState N → Chart N → Type ℓ
  Shows s chart =
      (s.chart_ref ≡ some chart)
      × (s.root ≡ some chart.root)
      × (s.root_ref ≡ some chart.root)
      × (chart.height ≡ s.height)

  -- The container holds a chart of the present tree, as high as the last rendering made it; or there
  -- is no container, and no chart.
  abbrev pub IsDrawn : ChartState N → Type ℓ
  IsDrawn s =
      ((has_container s ≡ false) × (s.drawn ≡ false))
      ⊎ ((has_container s ≡ true) × (s.drawn ≡ true) × ((chart : Chart N) × Shows s chart))

  -- A pending timer would draw with that height too.
  abbrev pub TimerFits : ChartState N → Type 0
  TimerFits s = (s.timer ≡ none) ⊎ (s.timer ≡ some s.height)

  abbrev pub IsCurrent : ChartState N → Type ℓ
  IsCurrent s = TimerFits s × IsDrawn s
