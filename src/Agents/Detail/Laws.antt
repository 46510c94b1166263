-- ===== src/Agents/Detail/Laws.antt =====
-- What the page of one agent promises.
use mini_drop_test.Base.{
  ◌≤◌, ◌≡◌, refl, sym, ◌∙◌, String, Bool, true, false, Option, none, some, List, [], ◌∷◌, arith,
  All-filter, All-take, length-take_le, find?-holds, filter, length, str_eq, truthy, All, eq_iff,
  if◌then◌else◌,
}
use mini_drop_test.Domain.{AgentInfo, AgentStatData, TaskListData}
use mini_drop_test.Api.{ApiResponse, Reply, response, rejected, failure_text, truthy-failure_text}
use mini_drop_test.Api.Requests.{get_agents, stat_agent}
use mini_drop_test.Effects.{send}
use mini_drop_test.Agents.{list_or_empty}
use mini_drop_test.Agents.Detail.{
  DetailState, DetailReply, answered, failed, load_detail, current_agent, agent_tasks, online_now,
  tasks_call, task_list, DetailView, no_agent, detail_of, detail_error, detail_view,
}

-- The tasks of the page are at most twelve, and each of them ran on the agent of the address.
pub agent_tasks-target :
    (ip : String) (res : ApiResponse TaskListData)
    → (length (agent_tasks ip res) ≤ 12)
      × All (λ task. str_eq task.target_ip ip ≡ true) (agent_tasks ip res)
unfolding agent_tasks
agent_tasks-target ip res =
    let own = filter (λ task. str_eq task.target_ip ip) (task_list res.payload) in
    (
      length-take_le 12 own,
      All-take (λ task. str_eq task.target_ip ip ≡ true) 12 own
          (All-filter (λ task. str_eq task.target_ip ip) (task_list res.payload)),
    )

-- The requests of a load of an agent with a nonempty address: the agents and the tasks, and its
-- resources exactly if both were answered and the agent is found online.
abbrev pub stat_wanted : String → DetailReply → Bool
stat_wanted ip (failed e) = false
stat_wanted ip (answered agents tasks) = online_now (current_agent ip agents)

abbrev agent_view : Option AgentInfo → Reply AgentStatData → DetailView
agent_view none stat = no_agent
agent_view (some agent) (rejected e) =
    if agent.online then detail_error (failure_text "Agent 详情加载失败" e) else detail_of agent
agent_view (some agent) (response res) = detail_of agent

-- The area that a load leads to
abbrev pub view_of : String → DetailReply → Reply AgentStatData → DetailView
view_of ip (failed e) stat = detail_error (failure_text "Agent 详情加载失败" e)
view_of ip (answered agents tasks) stat = agent_view (current_agent ip agents) stat

load_detail_answered :
    (ip : String) (agents : ApiResponse (List AgentInfo)) (tasks : ApiResponse TaskListData)
    (stat : Reply AgentStatData) (s : DetailState) (found : Option AgentInfo) (online : Bool)
    → truthy ip ≡ true
    → current_agent ip agents ≡ found
    → online_now found ≡ online
    → (detail_view (load_detail ip (answered agents tasks) stat s).0 ≡ agent_view found stat)
      × ((load_detail ip (answered agents tasks) stat s).1
          ≡ send get_agents
            ∷ send (tasks_call ip)
            ∷ (if online then send (stat_agent ip) ∷ [] else []))
unfolding load_detail detail_view
load_detail_answered ip agents tasks (rejected e) s none online h f o =
    rw (h, f) (refl, ground (arith, o))
load_detail_answered ip agents tasks (response res) s none online h f o =
    rw (h, f) (refl, ground (arith, o))
load_detail_answered ip agents tasks (rejected e) s (some agent) true h f o =
    rw (h, f, o, truthy-failure_text "Agent 详情加载失败" e refl) (refl, refl)
load_detail_answered ip agents tasks (response res) s (some agent) true h f o =
    rw (h, f, o) (refl, refl)
load_detail_answered ip agents tasks (rejected e) s (some agent) false h f o =
    rw (h, f, o) (refl, refl)
load_detail_answered ip agents tasks (response res) s (some agent) false h f o =
    rw (h, f, o) (refl, refl)

-- Loading an address that is not empty ends: the agents and the tasks are asked for, the resources
-- exactly if both are answered and the agent is found online, and the page shows the error of a
-- rejected request, or that there is no such agent, or the agent.
pub load_detail-outcome :
    (ip : String) (reply : DetailReply) (stat : Reply AgentStatData) (s : DetailState)
    → truthy ip ≡ true
    → (detail_view (load_detail ip reply stat s).0 ≡ view_of ip reply stat)
      × ((load_detail ip reply stat s).1
          ≡ send get_agents
            ∷ send (tasks_call ip)
            ∷ (if stat_wanted ip reply then send (stat_agent ip) ∷ [] else []))
unfolding load_detail detail_view
load_detail-outcome ip (failed e) stat s h =
    ground (arith, truthy-failure_text "Agent 详情加载失败" e refl)
load_detail-outcome ip (answered agents tasks) stat s h =
    load_detail_answered ip agents tasks stat s (current_agent ip agents)
      (online_now (current_agent ip agents)) h refl refl

current_agent-ip :
    (ip : String) (res : ApiResponse (List AgentInfo)) (agent : AgentInfo)
    → current_agent ip res ≡ some agent
    → agent.ip_addr ≡ ip
unfolding current_agent
current_agent-ip ip res agent h =
    (eq_iff agent.ip_addr ip).0 (find?-holds (λ a. str_eq a.ip_addr ip) (list_or_empty res) h)

agent_view-detail_of :
    (found : Option AgentInfo) (stat : Reply AgentStatData) (agent : AgentInfo)
    → agent_view found stat ≡ detail_of agent
    → found ≡ some agent
agent_view-detail_of none stat agent h = cc h
agent_view-detail_of (some a) (rejected e) agent h = ground (arith, h)
agent_view-detail_of (some a) (response res) agent h = ground (arith, h)

load_detail-tasks :
    (ip : String) (agents : ApiResponse (List AgentInfo)) (tasks : ApiResponse TaskListData)
    (stat : Reply AgentStatData) (s : DetailState)
    → truthy ip ≡ true
    → (load_detail ip (answered agents tasks) stat s).0.tasks ≡ agent_tasks ip tasks
unfolding load_detail
load_detail-tasks ip agents tasks (rejected e) s h = ground arith
load_detail-tasks ip agents tasks (response res) s h = ground arith

-- An agent that the page shows after loading an address that is not empty has this address, and so
-- have the targets of the tasks that are shown with it, which are at most twelve.
pub load_detail-shown :
    (ip : String) (reply : DetailReply) (stat : Reply AgentStatData) (s : DetailState)
    (agent : AgentInfo)
    → truthy ip ≡ true
    → detail_view (load_detail ip reply stat s).0 ≡ detail_of agent
    → (agent.ip_addr ≡ ip)
      × (length (load_detail ip reply stat s).0.tasks ≤ 12)
      × All (λ task. str_eq task.target_ip ip ≡ true) (load_detail ip reply stat s).0.tasks
load_detail-shown ip (failed e) stat s agent h shown =
    cc (shown, (load_detail-outcome ip (failed e) stat s h).0)
load_detail-shown ip (answered agents tasks) stat s agent h shown =
    let found =
      agent_view-detail_of (current_agent ip agents) stat agent
        (sym (load_detail-outcome ip (answered agents tasks) stat s h).0 ∙ shown) in
    rw (load_detail-tasks ip agents tasks stat s h) (
      current_agent-ip ip agents agent found,
      (agent_tasks-target ip tasks).0,
      (agent_tasks-target ip tasks).1,
    )
