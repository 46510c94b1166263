-- ===== src/Agents/View.antt =====
-- What the list of agents shows. `to_fixed` is `toFixed(1)`.
use Prim.Native.String.{◌++◌}
use mini_drop_test.Base.{
  ℕ, ◌+◌, ◌-◌, ◌/◌, String, Bool, ◌||◌, Option, none, some, List, [], ◌∷◌, filter, length, includes,
  is_empty, str_eq, if◌then◌else◌, or_text, show, Number, truthy,
}
use mini_drop_test.Domain.{AgentInfo, AgentStateHistory, AgentStatData, PidStats}
use mini_drop_test.Domain.Format.{format_relative_time}
use mini_drop_test.Effects.{Effect, navigate}
use mini_drop_test.Agents.{AgentsState, online_agents}

abbrev pub matches : String → AgentInfo → Bool
matches search agent = includes search agent.hostname || includes search agent.ip_addr

unfoldable pub filtered : AgentsState → List AgentInfo
filtered s = filter (matches s.search) s.agents

unfoldable pub online_count : AgentsState → ℕ
unfolding online_agents
online_count s = length (online_agents s.agents)

unfoldable pub offline_count : AgentsState → ℕ
unfolding online_count
offline_count s = length s.agents - online_count s

abbrev pub Counter : Type 0
Counter = String × String

unfoldable pub counters : AgentsState → List Counter
unfolding online_count offline_count
counters s =
    ("在线 Agent", show (online_count s))
    ∷ ("离线 Agent", show (offline_count s))
    ∷ ("总 Agent", show (length s.agents))
    ∷ []

-- `stats[ip]`: the last entry of that key
unfoldable pub stat_of : String → List (String × AgentStatData) → Option AgentStatData
stat_of ip [] = none
stat_of ip ((k, stat) ∷ entries) = elim (stat_of ip entries) [
  | some later ↦ some later
  | none ↦ if str_eq k ip then some stat else none
]

-- `stat?.self_pstats`
abbrev pub self_pstats : Option AgentStatData → Option PidStats
self_pstats none = none
self_pstats (some stat) = stat.self_pstats

abbrev pub children_pstats : Option AgentStatData → Option PidStats
children_pstats none = none
children_pstats (some stat) = stat.children_pstats

abbrev percent : (Number → String) → Option Number → String
percent to_fixed none = "-"
percent to_fixed (some cpu) = to_fixed cpu ++ "%"

-- `Math.round(rss_kb / 1024)`
abbrev megabytes : Option ℕ → String
megabytes none = "-"
megabytes (some kb) = show ((kb + 512) / 1024) ++ " MB"

abbrev pub cpu_text : (Number → String) → Option PidStats → String
cpu_text to_fixed none = "-"
cpu_text to_fixed (some pid) = percent to_fixed pid.cpu_percent

abbrev pub rss_text : Option PidStats → String
rss_text none = "-"
rss_text (some pid) = megabytes pid.rss_kb

abbrev pub state_text : Bool → String
state_text online = if online then "在线" else "离线"

pub record AgentCard : Type 0 where
  pub hostname : String
  pub ip_addr : String
  pub state : String
  pub cpu : String
  pub rss : String
  pub environment : String
  pub footer : String

module _ (to_fixed : Number → String) (get_time : String → Option ℕ) (now : ℕ) where
  unfoldable pub agent_card : AgentsState → AgentInfo → AgentCard
  unfolding stat_of
  agent_card s agent =
      let pstats = self_pstats (stat_of agent.ip_addr s.stats) in
      record {
        hostname = or_text agent.hostname "-";
        ip_addr = agent.ip_addr;
        state = state_text agent.online;
        cpu = cpu_text to_fixed pstats;
        rss = rss_text pstats;
        environment = or_text agent.environment "-";
        footer =
            "版本: "
            ++ (or_text agent.version "-"
                ++ (" · 最后心跳: " ++ format_relative_time get_time now (some agent.last_heartbeat)));
      }

  -- The lines of the audit log: the agent, what happened, and when
  unfoldable pub audit_line : AgentStateHistory → String × String × String
  audit_line log = (
    log.ip_addr,
    state_text log.from_state
        ++ (" -> " ++ (state_text log.to_state ++ (" · " ++ or_text log.reason "-"))),
    format_relative_time get_time now (some log.created_at),
  )

-- The area below the search: a notice, or the cards
pub data AgentsBody : Type 0 where
  loading_notice : AgentsBody
  error_notice : String → List AgentInfo → AgentsBody
  empty_notice : AgentsBody
  cards : List AgentInfo → AgentsBody

unfoldable pub agents_body : AgentsState → AgentsBody
unfolding filtered
agents_body s =
    if s.loading
    then loading_notice
    else if truthy s.error
    then error_notice s.error (filtered s)
    else if is_empty (filtered s)
    then empty_notice
    else cards (filtered s)

unfoldable pub open_agent : (String → String) → AgentInfo → List Effect
open_agent encode_uri_component agent =
    navigate ("/agents/" ++ encode_uri_component agent.ip_addr) ∷ []
