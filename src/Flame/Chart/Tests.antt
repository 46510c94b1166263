-- ===== src/Flame/Chart/Tests.antt =====
-- A chart that is drawn, searched, and drawn again after a resize.
use mini_drop_test.Base.{◌≡◌, refl, String, true, some, none}
use mini_drop_test.Flame.Chart.{
  Size, ChartState, mount, type_search, window_resize, resize_timeout, has_container,
  fullscreen_change,
}
use mini_drop_test.Flame.Chart.Steps.{
  Reachable, mounted, stepped, searched, resized, fullscreen, TimerFits,
}
use mini_drop_test.Flame.Chart.Invariant.{Reachable-IsCurrent}
use mini_drop_test.Flame.Chart.Search.{IsRedrawn, resize_timeout-forgets_search}

abbrev size : Size
size = record { base_width = 960; base_height = 400; margin = 82 }

abbrev first : ChartState String
first = mount size (some "tree") none 900 0

abbrev resized_chart : ChartState String
resized_chart = window_resize 1000 700 (type_search size "read" (fullscreen_change size true first))

reaches_first : Reachable size first
reaches_first = mounted (some "tree") none 900 0

reaches_resized : Reachable size resized_chart
reaches_resized =
    stepped (stepped (stepped reaches_first (fullscreen true)) (searched "read")) (resized 1000 700)

IsCurrent_example : TimerFits resized_chart
IsCurrent_example = (Reachable-IsCurrent size reaches_resized).0

forgets_search_example :
    ((resize_timeout size resized_chart).search_term ≡ resized_chart.search_term)
    × IsRedrawn size 818 resized_chart (resize_timeout size resized_chart)
unfolding window_resize type_search fullscreen_change mount has_container
forgets_search_example = resize_timeout-forgets_search size 818 reaches_resized refl refl

resized_term : resized_chart.search_term ≡ "read"
unfolding window_resize type_search fullscreen_change mount
resized_term = refl

drawn_again :
    (resize_timeout size resized_chart).chart_ref
    ≡ some (record { root = "tree"; width = 700; height = 818; highlight = "" })
unfolding window_resize type_search fullscreen_change mount resize_timeout
drawn_again = refl
