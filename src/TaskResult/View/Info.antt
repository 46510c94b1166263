-- ===== src/TaskResult/View/Info.antt =====
-- The header of the result page, its counters, the basic information, the history of states, and
-- the tables of functions and of files. `to_fixed digits` is `toFixed`, `get_time` and `to_locale`
-- are `Date`'s.
use Prim.Native.String.{◌++◌}
use mini_drop_test.Base.{
  ℕ, zero, suc, String, Bool, true, not, ◌||◌, Option, none, some, List, [], ◌∷◌, ltb, ◌==◌,
  if◌then◌else◌, truthy, or_text, or_else, show, is_empty, str_eq,
}
use mini_drop_test.Domain.{HotmethodTask, TaskStateHistory, TopFunction, CosFile, TaskParams}
use mini_drop_test.Domain.Maps.{Badge, task_type_map, profiler_type_map}
use mini_drop_test.Domain.Format.{format_date, basename}
use mini_drop_test.TaskResult.Labels.{
  state_label, state_history_color, status_badge, analysis_badge,
}
use mini_drop_test.TaskResult.Rows.{total_samples}

abbrev label_of : Option Badge → String
label_of none = ""
label_of (some b) = b.label

-- `disabled={!task || task.status !== 4}`
unfoldable pub analysis_disabled : Option HotmethodTask → Bool
analysis_disabled none = true
analysis_disabled (some task) = not (task.status == 4)

unfoldable pub compare_address : String → String
compare_address tid = "/flame/diff?tid1=" ++ tid

-- `String(n || '-')`
abbrev number_or_dash : ℕ → String
number_or_dash zero = "-"
number_or_dash (suc n) = show (suc n)

abbrev pub number_or : Option ℕ → String
number_or none = "-"
number_or (some n) = number_or_dash n

-- The four counters above the tabs
unfoldable pub counters :
    (HotmethodTask → String) → HotmethodTask → List TopFunction → List (String × String)
unfolding status_badge analysis_badge total_samples
counters duration task topn =
    ("采集时长", duration task)
    ∷ ("采样数", number_or_dash (total_samples topn))
    ∷ ("任务状态", label_of (status_badge (some task)))
    ∷ ("分析状态", label_of (analysis_badge (some task)))
    ∷ []

abbrev named_or : (ℕ → Option String) → ℕ → String
named_or table n = or_else (table n) (show n)

abbrev rate_text : Option ℕ → String
rate_text none = "-"
rate_text (some n) = if ltb 0 n then show n ++ " Hz" else "-"

abbrev optional : Option String → String
optional none = "-"
optional (some s) = or_text s "-"

-- `infoItems`, for a task that is there
module _ (get_time : String → Option ℕ) (to_locale : ℕ → String) where
  unfoldable pub info_items : HotmethodTask → TaskParams → List (String × String)
  unfolding status_badge task_type_map profiler_type_map format_date
  info_items task params =
      ("任务ID", task.tid)
      ∷ ("任务名称", or_text task.name "-")
      ∷ ("状态", label_of (status_badge (some task)))
      ∷ ("目标 IP", task.target_ip)
      ∷ ("采集类型", named_or task_type_map task.type)
      ∷ ("采集器", named_or profiler_type_map task.profiler_type)
      ∷ ("目标 PID", number_or params.pid)
      ∷ ("采样频率", rate_text params.hz)
      ∷ ("Callgraph", optional params.callgraph)
      ∷ ("创建时间", format_date get_time to_locale (some task.create_time))
      ∷ ("开始时间", format_date get_time to_locale task.begin_time)
      ∷ ("结束时间", format_date get_time to_locale task.end_time)
      ∷ ("状态说明", or_text task.status_info "-")
      ∷ []

  pub record HistoryItem : Type 0 where
    pub color : String
    pub kind : String
    pub change : String
    pub reason : String
    pub created : String

  unfoldable pub history_item : TaskStateHistory → HistoryItem
  unfolding state_label state_history_color format_date
  history_item item = record {
    color = state_history_color item;
    kind = if item.change_type == 1 then "分析状态" else "任务状态";
    change = state_label item item.from_state ++ (" -> " ++ state_label item item.to_state);
    reason = or_text item.reason "-";
    created = format_date get_time to_locale (some item.created_at);
  }

-- A row of the table of functions: its rank, whether that is one of the first three, the function,
-- its own and its inclusive samples, and its share
module _ (percent : ℕ → ℕ → String) where
  abbrev share : ℕ → ℕ → String
  share self zero = "-"
  share self (suc total) = percent self (suc total) ++ "%"

  unfoldable pub topn_row : ℕ → ℕ → TopFunction → String × Bool × String × ℕ × ℕ × String
  topn_row total index item =
      (show (suc index), ltb index 3, item.func, item.self, item.total, share item.self total)

  topn_rows_from : ℕ → ℕ → List TopFunction → List (String × Bool × String × ℕ × ℕ × String)
  unfolding topn_row
  topn_rows_from total index [] = []
  topn_rows_from total index (item ∷ items) =
      topn_row total index item ∷ topn_rows_from total (suc index) items

  unfoldable pub topn_rows : List TopFunction → List (String × Bool × String × ℕ × ℕ × String)
  unfolding topn_rows_from total_samples
  topn_rows topn = topn_rows_from (total_samples topn) 0 topn

-- A row of the table of files: its name, whether it is the raw profile, its key, size and address
abbrev file_name : CosFile → String
unfolding basename
file_name file = basename (some (or_else file.key (or_else file.name "")))

module _ (kilobytes : ℕ → String) where
  abbrev size_text : Option ℕ → String
  size_text none = "-"
  size_text (some zero) = "-"
  size_text (some (suc n)) = kilobytes (suc n) ++ " KB"

  unfoldable pub file_row : CosFile → String × Bool × String × String × String
  unfolding file_name
  file_row file = (
    or_text (file_name file) "-",
    str_eq (file_name file) "perf.data",
    or_else file.key "-",
    size_text file.size,
    file.url,
  )

-- The tab of the flame graph: the chart, the server's picture, or a text in their place
pub data FlameTab : Type 0 where
  flame_chart : FlameTab
  flame_svg : String → FlameTab
  flame_failed : String → FlameTab
  flame_missing : FlameTab

unfoldable pub flame_tab : List TopFunction → String → String → String → FlameTab
flame_tab topn collapsed_text svg_markup flame_error =
    if truthy collapsed_text || not (is_empty topn)
    then flame_chart
    else if truthy svg_markup
    then flame_svg svg_markup
    else if truthy flame_error
    then flame_failed flame_error
    else flame_missing

unfoldable pub flame_label : HotmethodTask → String
flame_label task = if task.type == 1 then "Java 火焰图" else "火焰图"

abbrev or_cpu : Option String → String
or_cpu event = or_else event "cpu"

-- The note above a Java flame graph
unfoldable pub java_note : HotmethodTask → TaskParams → Option String
java_note task params =
    if task.type == 1
    then some (
        "Java async-profiler 用户态栈视图 · event "
        ++ (or_cpu params.event ++ (" · collapsed stack · PID " ++ number_or params.pid)))
    else none

-- The areas below the header
pub data ResultBody : Type 0 where
  loading_body : ResultBody
  error_body : String → ResultBody
  tabs_body : HotmethodTask → ResultBody
  empty_body : ResultBody

abbrev task_body : Option HotmethodTask → ResultBody
task_body none = empty_body
task_body (some task) = tabs_body task

unfoldable pub result_body : Bool → String → Option HotmethodTask → ResultBody
result_body loading error task =
    if loading then loading_body else if truthy error then error_body error else task_body task
