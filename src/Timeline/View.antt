-- ===== src/Timeline/View.antt =====
-- web/src/pages/ContinuousTimeline.tsx: what the page shows. `locale_time` is the browser's
-- `new Date(text).toLocaleTimeString()`.
use mini_drop_test.Base.{
  ℕ, String, Bool, false, not, ◌||◌, Option, none, some, List, truthy, or_else, ◌==◌, is_empty,
  str_eq, map, if◌then◌else◌,
}
use mini_drop_test.Domain.{ContinuousWindow, TopFunction}
use mini_drop_test.Timeline.{TimelineState}

-- The right side of the page
pub data View : Type 0 where
  hint : String → View
  waiting : View
  flame_graph : String → List TopFunction → View
  svg_view : String → View
  no_data : String → View

unfoldable pub view : TimelineState → View
view s = elim s.selected [
  | none ↦ hint (if s.is_filtering then "选择窗口查看火焰图" else "选择左侧窗口查看火焰图")
  | some window ↦
      if s.loading
      then waiting
      else if truthy s.collapsed_text || not (is_empty s.topn)
      then flame_graph s.collapsed_text s.topn
      else if truthy s.svg_markup
      then svg_view s.svg_markup
      else no_data (or_else (some s.flame_error) "该窗口暂无火焰图数据")
]

-- The left side of the page
unfoldable pub stop_label : TimelineState → String
stop_label s = if s.stopping then "停止中..." else "停止"

unfoldable pub can_take_five_minutes : TimelineState → Bool
can_take_five_minutes s = truthy s.to_time

unfoldable pub can_search : TimelineState → Bool
can_search s = truthy s.from_time || truthy s.to_time

-- Shown with the button that resets
unfoldable pub filter_note : TimelineState → Option String
filter_note s = if s.is_filtering then some "已启用时间过滤，自动轮询已暂停" else none

unfoldable pub empty_text : TimelineState → Option String
empty_text s =
    if is_empty s.windows
    then some (if s.is_filtering then "该时间范围内无窗口数据" else "等待第一个窗口完成...")
    else none

unfoldable pub status_badge : ℕ → String
status_badge status = if status == 1 then "完成" else if status == 2 then "失败" else "采集中"

-- A line of the list
pub record WindowRow : Type 0 where
  pub seq : ℕ
  pub badge : String
  pub from_to : String × String
  pub active : Bool

unfoldable pub is_active : Option ContinuousWindow → ContinuousWindow → Bool
is_active none w = false
is_active (some window) w = str_eq window.window_tid w.window_tid

module _ (locale_time : String → String) where
  unfoldable pub window_row : TimelineState → ContinuousWindow → WindowRow
  unfolding status_badge is_active
  window_row s w = record {
    seq = w.seq;
    badge = status_badge w.status;
    from_to = (locale_time w.start_time, locale_time w.end_time);
    active = is_active s.selected w;
  }

  unfoldable pub window_rows : TimelineState → List WindowRow
  unfolding window_row
  window_rows s = map (window_row s) s.windows
