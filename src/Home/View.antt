-- ===== src/Home/View.antt =====
-- web/src/pages/Home.tsx: what the overview shows, and where its buttons lead.
use Prim.Native.String.{◌++◌}
use mini_drop_test.Base.{
  ℕ, String, Bool, true, false, not, Option, some, List, map, take, is_empty, or_text, ◌==◌,
  if◌then◌else◌,
}
use mini_drop_test.Domain.{AgentInfo, HotmethodTask}
use mini_drop_test.Domain.Maps.{Badge, status_map, or_badge}
use mini_drop_test.Domain.Format.{format_date, format_relative_time}
use mini_drop_test.Effects.{Effect, navigate}
use mini_drop_test.Creation.{CreationState, sync_continuous, result_address}
use mini_drop_test.Home.{HomeState, recent_tasks}

abbrev with_creation : CreationState → HomeState → HomeState
with_creation creation s = record s { creation = creation }

-- The dialog is shown and hidden.
unfoldable pub open_create : HomeState → HomeState
open_create s = with_creation (record (s.creation) { show_create = true }) s

unfoldable pub cancel_create : HomeState → HomeState
cancel_create s = with_creation (record (s.creation) { show_create = false }) s

-- The button of an agent: its address becomes the target, also of the continuous task by the
-- effect that follows, and the dialog is shown.
unfoldable pub sample_agent : AgentInfo → HomeState → HomeState
unfolding sync_continuous open_create
sample_agent agent s =
    let form = s.creation.form in
    open_create (
      with_creation
        (sync_continuous (record (s.creation) { form = record form { target_ip = agent.ip_addr } }))
        s)

-- `agents.slice(0, 4)`
pub record AgentCard : Type 0 where
  pub hostname : String
  pub environment : String
  pub line : String
  pub sample_disabled : Bool

unfoldable pub task_address : HotmethodTask → String
task_address task =
    if task.type == 2 then "/continuous?tid=" ++ task.tid else result_address task.tid

unfoldable pub open_task : HotmethodTask → Effect
unfolding task_address
open_task task = navigate (task_address task)

pub record RecentRow : Type 0 where
  pub name : String
  pub created : String
  pub badge : Option Badge

-- A list, or the notice in its place
pub data Section {ℓ} (A : Type ℓ) : Type ℓ where
  notice : String → Section A
  rows : List A → Section A

module _ (get_time : String → Option ℕ) where
  module _ (now : ℕ) where
    unfoldable pub agent_card : AgentInfo → AgentCard
    unfolding format_relative_time
    agent_card agent = record {
      hostname = agent.hostname;
      environment = agent.environment;
      line =
          agent.ip_addr
          ++ " · v"
          ++ or_text agent.version "-"
          ++ " · 心跳 "
          ++ format_relative_time get_time now (some agent.last_heartbeat);
      sample_disabled = not agent.online;
    }

    unfoldable pub agents_section : HomeState → Section AgentCard
    unfolding agent_card
    agents_section s =
        if is_empty s.agents then notice "暂无 Agent" else rows (map agent_card (take 4 s.agents))

  module _ (to_locale : ℕ → String) where
    unfoldable pub recent_row : HotmethodTask → RecentRow
    unfolding status_map format_date
    recent_row task = record {
      name = task.name;
      created = format_date get_time to_locale (some task.create_time);
      badge = or_badge (status_map task.status) (status_map 0);
    }

    unfoldable pub tasks_section : HomeState → Section RecentRow
    unfolding recent_tasks recent_row
    tasks_section s =
        if s.loading
        then notice "加载中..."
        else if is_empty (recent_tasks s)
        then notice "暂无任务"
        else rows (map recent_row (recent_tasks s))

-- The buttons above the two lists
abbrev pub show_tasks : Effect
show_tasks = navigate "/tasks"

abbrev pub show_agents : Effect
show_agents = navigate "/agents"
