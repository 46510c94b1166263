-- ===== src/TaskList/View.antt =====
-- web/src/pages/TaskList.tsx: the counters, the tabs and the cells of a row. `none` for a row is the
-- TypeError of formatDuration.
use mini_drop_test.Base.{
  ℕ, String, Bool, true, false, Option, none, some, List, [], ◌∷◌, or_text, show, if◌then◌else◌,
}
use mini_drop_test.Domain.{HotmethodTask}
use mini_drop_test.Domain.Maps.{Badge, status_map, analysis_map, or_badge}
use mini_drop_test.Domain.Params.{Parsed}
use mini_drop_test.Domain.Format.{format_date, format_duration}
use mini_drop_test.Effects.{Effect, Run, navigate}
use mini_drop_test.TaskList.{ListState, ListReply, ActiveView, schedules, load_tasks}
use mini_drop_test.TaskList.Table.{stats, details_address}

unfoldable pub stat_cards : ListState → List (String × String)
unfolding stats
stat_cards s =
    ("总任务", show (stats s).total)
    ∷ ("进行中", show (stats s).running)
    ∷ ("已完成", show (stats s).done)
    ∷ ("失败", show (stats s).failed)
    ∷ []

-- The tabs, and the view that each selects
abbrev pub view_tabs : List (ActiveView × String)
view_tabs = (ActiveView.tasks, "采集任务") ∷ (schedules, "定时任务") ∷ []

unfoldable pub select_view : ActiveView → ListState → ListState
select_view view s = record s { active_view = view }

unfoldable pub type_search : String → ListState → ListState
type_search value s = record s { search = value }

-- The Enter key in the search field, and the button beside it, ask for the first page.
unfoldable pub search_key : Bool → ListReply → ListState → Run ListState
unfolding load_tasks
search_key is_enter reply s = if is_enter then load_tasks reply 1 s else (s, [])

unfoldable pub open_create : ListState → ListState
open_create s = record s { creation = record (s.creation) { show_create = true } }

unfoldable pub cancel_create : ListState → ListState
cancel_create s = record s { creation = record (s.creation) { show_create = false } }

unfoldable pub open_details : HotmethodTask → Effect
unfolding details_address
open_details task = navigate (details_address task)

pub record TaskCells : Type 0 where
  pub tid : String
  pub name : String
  pub target_ip : String
  pub status : Option Badge
  pub analysis : Option Badge
  pub duration : String
  pub created : String

module _ (json_parse : String → Parsed) (get_time : String → Option ℕ)
    (to_locale : ℕ → String) where
  with_duration : Option String → HotmethodTask → Option TaskCells
  unfolding status_map analysis_map format_date
  with_duration none task = none
  with_duration (some duration) task = some (record {
    tid = task.tid;
    name = or_text task.name "-";
    target_ip = task.target_ip;
    status = or_badge (status_map task.status) (status_map 0);
    analysis = or_badge (analysis_map task.analysis_status) (analysis_map 0);
    duration = duration;
    created = format_date get_time to_locale (some task.create_time);
  })

  unfoldable pub task_cells : HotmethodTask → Option TaskCells
  unfolding with_duration format_duration
  task_cells task = with_duration (format_duration get_time json_parse task) task
