-- ===== src/Timeline/Tests.antt =====
-- Two windows: one that is complete and one that is still collected.
use mini_drop_test.Base.{◌≡◌, refl, none, some, Option, String, List, get_elem?, [], ◌∷◌, arith}
use mini_drop_test.Domain.{ContinuousWindow}
use mini_drop_test.Api.{ApiResponse, response, rejected, thrown}
use mini_drop_test.TaskResult.Load.{got}
use mini_drop_test.Timeline.{timeline_start, text, flame, select, answers}
use mini_drop_test.Timeline.Laws.{select-answers, select-stays_loading}
use mini_drop_test.Timeline.View.{view, waiting}
use mini_drop_test.Timeline.Windows.{handle_search}
use mini_drop_test.Timeline.Events.{
  TimelineWorld, TimelineEvent, type_from, search, tick, windows_answered, times_of, timeline_steps,
  timeline_open,
}
use mini_drop_test.Timeline.Events.Laws.{timeline_open-IsAsked}
use mini_drop_test.Timeline.Events.Late.{search-late_poll, ticks}

abbrev complete : ContinuousWindow
complete = record {
  id = 1;
  parent_tid = "p";
  window_tid = "w1";
  seq = 1;
  start_time = "";
  end_time = "";
  status = 1;
  cos_key = "k";
  created_at = "";
}

abbrev collecting : ContinuousWindow
collecting = record complete { window_tid = "w2"; status = 0 }

select-answers_example :
    answers ((0, text (got (some "main 1"))) ∷ []) (select complete timeline_start).0
    ≡ ((select complete timeline_start).0, [])
unfolding timeline_start
select-answers_example =
    select-answers complete ((0, text (got (some "main 1"))) ∷ []) timeline_start (ground arith, tt)

abbrev iso : String → Option String
iso t = some t

abbrev listed : List ContinuousWindow → ApiResponse (List ContinuousWindow)
listed windows = record { code = 0; payload = some windows; message = none }

-- A window is selected, a poll is sent, and the visitor filters before the answers come.
abbrev filters : List TimelineEvent
filters =
    windows_answered 0 (response (listed (complete ∷ [])))
    ∷ type_from "08:00"
    ∷ tick
    ∷ search
    ∷ windows_answered 2 (response (listed []))
    ∷ []

timeline_open-IsAsked_example :
    get_elem? (timeline_steps iso iso "p" filters (timeline_open iso "p")).asked 0
    ≡ some (some "08:00", none)
unfolding times_of timeline_steps timeline_open
timeline_open-IsAsked_example =
    timeline_open-IsAsked iso "p" refl iso filters (some "08:00", none) refl

abbrev watching : TimelineWorld
watching = record {
  page = record timeline_start {
    windows = complete ∷ [];
    selected = some complete;
    from_time = "08:00";
  };
  asked = [];
  sent = [];
}

search-late_poll_example :
    (timeline_steps iso iso "p"
      (tick
        ∷ search
        ∷ windows_answered 0 (response (listed []))
        ∷ windows_answered 0 (response (listed (complete ∷ [])))
        ∷ ticks 3)
      watching).page.windows
    ≡ complete ∷ []
unfolding timeline_start times_of handle_search
search-late_poll_example =
    (search-late_poll iso iso "p" watching complete (some "08:00", none) (listed [])
      (listed (complete ∷ [])) [] (complete ∷ []) 3 refl refl refl refl refl refl refl refl refl).0

stays_loading_example :
    view
      (answers
        ((1, flame complete (rejected (thrown "x"))) ∷ [])
        (select collecting (select complete timeline_start).0).0).0
    ≡ waiting
unfolding timeline_start select
stays_loading_example =
    select-stays_loading complete collecting ((1, flame complete (rejected (thrown "x"))) ∷ [])
      timeline_start refl refl refl (ground arith, tt)
