-- ===== src/Agents.antt =====
-- web/src/pages/Agents.tsx: the list of agents, their resources, and the audit log.
pub mod View
pub mod Detail
pub mod Laws
mod Tests
use mini_drop_test.Base.{
  ℕ, String, Bool, true, false, ◌||◌, Option, none, some, List, [], ◌∷◌, ◌++◌, map, filter,
  value_or, includes, str_eq, if◌then◌else◌, is_some,
}
use mathlib.Core.Option
use mini_drop_test.Domain.{AgentInfo, AgentStateHistory, AgentStatData}
use mini_drop_test.Api.{ApiResponse, Failure, Reply, response, rejected, failure_text, is_ok}
use mini_drop_test.Api.Requests.{Call, get_agents, stat_agent, get_agent_audit_log}
use mini_drop_test.Effects.{Effect, Run, send}

-- `stats` holds the entries in the order of `Object.fromEntries`.
pub record AgentsState : Type 0 where
  pub search : String
  pub agents : List AgentInfo
  pub audit_logs : List AgentStateHistory
  pub stats : List (String × AgentStatData)
  pub loading : Bool
  pub error : String

unfoldable pub agents_start : AgentsState
agents_start = record {
  search = "";
  agents = [];
  audit_logs = [];
  stats = [];
  loading = true;
  error = "";
}

-- `res.code === 0 ? (res.data || []) : []`
abbrev pub list_or_empty {ℓ} : {A : Type ℓ} → ApiResponse (List A) → List A
list_or_empty res = if is_ok res then value_or [] res.payload else []

-- The `data` of the agent's answer, whatever its code; undefined where the request is rejected
abbrev pub stat_data : Reply AgentStatData → Option AgentStatData
stat_data (rejected e) = none
stat_data (response res) = res.payload

abbrev pub is_online : AgentInfo → Bool
is_online agent = agent.online

unfoldable pub online_agents : List AgentInfo → List AgentInfo
online_agents = filter is_online

-- The entries with data
unfoldable pub stat_entries :
    (AgentInfo → Reply AgentStatData) → List AgentInfo → List (String × AgentStatData)
stat_entries replies [] = []
stat_entries replies (agent ∷ agents) =
    let rest = stat_entries replies agents in
    elim (stat_data (replies agent)) [ none ↦ rest | some stat ↦ (agent.ip_addr, stat) ∷ rest ]

abbrev audit_of : Reply (List AgentStateHistory) → List AgentStateHistory
audit_of (rejected e) = []
audit_of (response res) = list_or_empty res

abbrev pub stat_sends : List AgentInfo → List Effect
stat_sends agents = map (λ agent. send (stat_agent agent.ip_addr)) agents

load_list :
    List AgentInfo
    → (AgentInfo → Reply AgentStatData)
    → Reply (List AgentStateHistory)
    → AgentsState
    → Run AgentsState
unfolding online_agents stat_entries
load_list list replies audit s = (
  record s {
    agents = list;
    stats = stat_entries replies (online_agents list);
    audit_logs = audit_of audit;
  },
  stat_sends (online_agents list) ++ (send (get_agent_audit_log 8) ∷ []),
)

agents_reply :
    Reply (List AgentInfo)
    → (AgentInfo → Reply AgentStatData)
    → Reply (List AgentStateHistory)
    → AgentsState
    → Run AgentsState
unfolding load_list
agents_reply (rejected e) replies audit s =
    (record s { error = failure_text "Agent 列表加载失败" e; agents = [] }, [])
agents_reply (response res) replies audit s = load_list (list_or_empty res) replies audit s

unfoldable pub load_agents :
    Reply (List AgentInfo)
    → (AgentInfo → Reply AgentStatData)
    → Reply (List AgentStateHistory)
    → AgentsState
    → Run AgentsState
unfolding agents_reply
load_agents list replies audit s =
    let (t, effects) = agents_reply list replies audit (record s { loading = true; error = "" }) in
    (record t { loading = false }, send get_agents ∷ effects)

unfoldable pub type_search : String → AgentsState → AgentsState
type_search value s = record s { search = value }
