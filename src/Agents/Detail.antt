-- ===== src/Agents/Detail.antt =====
-- web/src/pages/AgentDetail.tsx: one agent, its resources and its latest tasks. `ip` is the decoded
-- parameter of the address; `to_fixed` is `toFixed(1)`.
pub mod Laws
use Prim.Native.String.{◌++◌}
use mini_drop_test.Base.{
  ℕ, zero, suc, String, Bool, true, false, Option, none, some, List, [], ◌∷◌, find?, filter, take,
  value_or, str_eq, if◌then◌else◌, or_text, show, Number, truthy, is_empty, ◌==◌,
}
use mini_drop_test.Domain.{AgentInfo, AgentStatData, HotmethodTask, TaskListData, PidStats}
use mini_drop_test.Domain.Format.{format_relative_time, format_date}
use mini_drop_test.Api.{ApiResponse, Failure, Reply, response, rejected, failure_text, is_ok}
use mini_drop_test.Api.Requests.{Call, get_agents, get_tasks, stat_agent}
use mini_drop_test.Effects.{Effect, Run, send, navigate}
use mini_drop_test.Agents.{list_or_empty}
use mini_drop_test.Agents.View.{
  Counter, self_pstats, children_pstats, cpu_text, rss_text, state_text,
}

pub record DetailState : Type 0 where
  pub agent : Option AgentInfo
  pub stat : Option AgentStatData
  pub tasks : List HotmethodTask
  pub loading : Bool
  pub error : String

unfoldable pub detail_start : DetailState
detail_start = record { agent = none; stat = none; tasks = []; loading = true; error = "" }

-- `Promise.all` of the two requests: both answers, or the first rejection
pub data DetailReply : Type 0 where
  answered : ApiResponse (List AgentInfo) → ApiResponse TaskListData → DetailReply
  failed : Failure → DetailReply

abbrev pub tasks_call : String → Call
tasks_call ip = get_tasks (record { page = some 1; size = some 100; keyword = some ip })

unfoldable pub current_agent : String → ApiResponse (List AgentInfo) → Option AgentInfo
current_agent ip res = find? (λ agent. str_eq agent.ip_addr ip) (list_or_empty res)

-- The list of the answer, whatever its code
abbrev pub task_list : Option TaskListData → List HotmethodTask
task_list none = []
task_list (some data') = data'.list

unfoldable pub agent_tasks : String → ApiResponse TaskListData → List HotmethodTask
agent_tasks ip res = take 12 (filter (λ task. str_eq task.target_ip ip) (task_list res.payload))

detail_failed : Failure → DetailState → DetailState
detail_failed e s = record s { error = failure_text "Agent 详情加载失败" e }

stat_reply : Reply AgentStatData → DetailState → DetailState
unfolding detail_failed
stat_reply (rejected e) s = detail_failed e s
stat_reply (response res) s = record s { stat = res.payload }

-- `current?.online`
abbrev pub online_now : Option AgentInfo → Bool
online_now none = false
online_now (some agent) = agent.online

then_stat : String → Reply AgentStatData → DetailState → Run DetailState
unfolding stat_reply
then_stat ip stat s =
    if online_now s.agent
    then (stat_reply stat s, send (stat_agent ip) ∷ [])
    else (record s { stat = none }, [])

detail_reply : String → DetailReply → Reply AgentStatData → DetailState → Run DetailState
unfolding then_stat detail_failed current_agent agent_tasks
detail_reply ip (failed e) stat s = (detail_failed e s, [])
detail_reply ip (answered agents tasks) stat s =
    then_stat ip stat (record s { agent = current_agent ip agents; tasks = agent_tasks ip tasks })

unfoldable pub load_detail :
    String → DetailReply → Reply AgentStatData → DetailState → Run DetailState
unfolding detail_reply
load_detail ip reply stat s =
    let (t, effects) = detail_reply ip reply stat (record s { loading = true; error = "" }) in
    if truthy ip
    then (record t { loading = false }, send get_agents ∷ send (tasks_call ip) ∷ effects)
    else (s, [])

unfoldable pub stat_rows : (Number → String) → Option AgentStatData → List Counter
stat_rows to_fixed stat =
    ("Agent CPU", cpu_text to_fixed (self_pstats stat))
    ∷ ("Agent RSS", rss_text (self_pstats stat))
    ∷ ("子进程 CPU", cpu_text to_fixed (children_pstats stat))
    ∷ ("子进程 RSS", rss_text (children_pstats stat))
    ∷ []

-- `String(gid || '-')`
abbrev number_or_dash : ℕ → String
number_or_dash zero = "-"
number_or_dash (suc n) = show (suc n)

unfoldable pub agent_rows : (String → Option ℕ) → (ℕ → String) → ℕ → AgentInfo → List Counter
agent_rows get_time to_locale now agent =
    ("环境", or_text agent.environment "-")
    ∷ ("版本", or_text agent.version "-")
    ∷ ("UID", or_text agent.uid "-")
    ∷ ("GID", number_or_dash agent.gid)
    ∷ ("最后心跳", format_relative_time get_time now (some agent.last_heartbeat))
    ∷ ("注册时间", format_date get_time to_locale (some agent.created_at))
    ∷ []

-- The four areas of the page, of which one is shown
pub data DetailView : Type 0 where
  loading_detail : DetailView
  detail_error : String → DetailView
  no_agent : DetailView
  detail_of : AgentInfo → DetailView

abbrev agent_or_none : Option AgentInfo → DetailView
agent_or_none none = no_agent
agent_or_none (some agent) = detail_of agent

unfoldable pub detail_view : DetailState → DetailView
detail_view s =
    if s.loading
    then loading_detail
    else if truthy s.error
    then detail_error s.error
    else agent_or_none s.agent

unfoldable pub open_task : HotmethodTask → List Effect
open_task task =
    navigate ((if task.type == 2 then "/continuous?tid=" else "/task/result?tid=") ++ task.tid) ∷ []
