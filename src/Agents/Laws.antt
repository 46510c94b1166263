-- ===== src/Agents/Laws.antt =====
-- What the list of agents promises.
use Prim.Native.String.{◌++◌}
use mini_drop_test.Base.{
  ◌==◌, value_or, zero, suc, ◌/◌, show, Number, Option, none, some, ℕ, ◌∙◌, ◌+◌, ◌≡◌, refl, ap,
  String, Bool, true, ◌&&◌, ◌||◌, List, [], ◌∷◌, arith, filter, length, length-filter_le, is_empty,
  includes, str_eq, if◌then◌else◌,
}
use mini_drop_test.Domain.{AgentInfo, AgentStateHistory, AgentStatData}
use mini_drop_test.Api.{ApiResponse, Reply, response, rejected, failure_text, truthy-failure_text}
use mini_drop_test.Agents.{
  AgentsState, load_agents, list_or_empty, stat_data, stat_entries, online_agents, is_online,
  type_search,
}
use mini_drop_test.Agents.View.{
  matches, filtered, online_count, offline_count, stat_of, agent_card, cpu_text, rss_text,
  self_pstats, AgentsBody, error_notice, empty_notice, cards, agents_body,
}

-- The agents counted as online and as offline are together all agents.
pub online_count-offline_count :
    (s : AgentsState) → online_count s + offline_count s ≡ length s.agents
unfolding online_count offline_count
online_count-offline_count s = omega (arith, length-filter_le is_online s.agents)

-- What the last agent of the list that is online, has the address and whose request has data
-- reports
unfoldable pub last_report :
    (AgentInfo → Reply AgentStatData) → String → List AgentInfo → Option AgentStatData
last_report replies ip [] = none
last_report replies ip (agent ∷ agents) = elim (last_report replies ip agents) [
  | some later ↦ some later
  | none ↦ if agent.online && str_eq agent.ip_addr ip then stat_data (replies agent) else none
]

stat_of-entries :
    (replies : AgentInfo → Reply AgentStatData) (ip : String) (list : List AgentInfo)
    → stat_of ip (stat_entries replies (online_agents list)) ≡ last_report replies ip list
unfolding stat_entries online_agents stat_of last_report
stat_of-entries replies ip [] = refl
stat_of-entries replies ip (agent ∷ list) = ground (arith, stat_of-entries replies ip list)

-- The texts of a report
abbrev pub cpu_of : (Number → String) → Option AgentStatData → String
cpu_of to_fixed none = "-"
cpu_of to_fixed (some stat) = elim stat.self_pstats [
  | none ↦ "-"
  | some own ↦ elim own.cpu_percent [ none ↦ "-" | some cpu ↦ to_fixed cpu ++ "%" ]
]

abbrev pub rss_of : Option AgentStatData → String
rss_of none = "-"
rss_of (some stat) = elim stat.self_pstats [
  | none ↦ "-"
  | some own ↦ elim own.rss_kb [ none ↦ "-" | some kb ↦ show ((kb + 512) / 1024) ++ " MB" ]
]

cpu_of_lem :
    (to_fixed : Number → String) (found : Option AgentStatData)
    → cpu_text to_fixed (self_pstats found) ≡ cpu_of to_fixed found
cpu_of_lem to_fixed none = refl
cpu_of_lem to_fixed (some stat) = ground arith

rss_of_lem : (found : Option AgentStatData) → rss_text (self_pstats found) ≡ rss_of found
rss_of_lem none = refl
rss_of_lem (some stat) = ground arith

module _ (to_fixed : Number → String) (get_time : String → Option ℕ) (now : ℕ) where
  card_texts :
      (s : AgentsState) (agent : AgentInfo)
      → ((agent_card to_fixed get_time now s agent).cpu
          ≡ cpu_of to_fixed (stat_of agent.ip_addr s.stats))
        × ((agent_card to_fixed get_time now s agent).rss ≡ rss_of (stat_of agent.ip_addr s.stats))
  unfolding agent_card
  card_texts s agent =
      let found = stat_of agent.ip_addr s.stats in (cpu_of_lem to_fixed found, rss_of_lem found)

  -- After an answered load, the card of an agent shows the CPU share and the memory of the process
  -- that the last online agent with its address reported, and a dash for what is not reported;
  -- rejected requests of other agents and the audit log do not matter.
  pub agent_card-load_agents :
      (res : ApiResponse (List AgentInfo)) (replies : AgentInfo → Reply AgentStatData)
      (audit : Reply (List AgentStateHistory)) (s : AgentsState) (agent : AgentInfo)
      → ((agent_card to_fixed get_time now (load_agents (response res) replies audit s).0 agent).cpu
          ≡ cpu_of to_fixed (last_report replies agent.ip_addr (list_or_empty res)))
        × ((agent_card to_fixed get_time now
              (load_agents (response res) replies audit s).0
              agent).rss
            ≡ rss_of (last_report replies agent.ip_addr (list_or_empty res)))
  unfolding load_agents
  agent_card-load_agents res replies audit s agent =
      let (cpu, rss) = card_texts (load_agents (response res) replies audit s).0 agent in
      let found = stat_of-entries replies agent.ip_addr (list_or_empty res) in
      (cpu ∙ ap (cpu_of to_fixed) found, rss ∙ ap rss_of found)

-- The cards of these agents, or the notice that there is none
abbrev pub list_body : List AgentInfo → AgentsBody
list_body [] = empty_notice
list_body (agent ∷ agents) = cards (agent ∷ agents)

-- What an answer with this code and this data leads to
abbrev pub answered_body : ℕ → Option (List AgentInfo) → String → AgentsBody
answered_body zero none term = empty_notice
answered_body zero (some agents) term =
    list_body (filter (λ a. includes term a.hostname || includes term a.ip_addr) agents)
answered_body (suc code) payload term = empty_notice

abbrev pub body_of : Reply (List AgentInfo) → String → AgentsBody
body_of (rejected e) term = error_notice (failure_text "Agent 列表加载失败" e) []
body_of (response res) term = answered_body res.code res.payload term

list_body_lem :
    (shown : List AgentInfo)
    → (if is_empty shown then empty_notice else cards shown) ≡ list_body shown
list_body_lem [] = refl
list_body_lem (agent ∷ agents) = refl

answered_body_lem :
    (code : ℕ) (payload : Option (List AgentInfo)) (term : String)
    → list_body (filter (matches term) (if code == 0 then value_or [] payload else []))
      ≡ answered_body code payload term
answered_body_lem zero none term = refl
answered_body_lem zero (some agents) term = refl
answered_body_lem (suc code) payload term = ground arith

-- After a load the page shows the error of a rejected list with no cards, else the agents of an
-- answer with code 0 whose name or address has the search in it, with a notice where there is none;
-- of an answer with another code it shows no agent, only the notice.
pub agents_body-load_agents :
    (list : Reply (List AgentInfo)) (replies : AgentInfo → Reply AgentStatData)
    (audit : Reply (List AgentStateHistory)) (s : AgentsState)
    → agents_body (load_agents list replies audit s).0 ≡ body_of list s.search
unfolding load_agents agents_body filtered
agents_body-load_agents (rejected e) replies audit s =
    ground (arith, truthy-failure_text "Agent 列表加载失败" e refl)
agents_body-load_agents (response res) replies audit s =
    list_body_lem (filter (matches s.search) (list_or_empty res))
    ∙ answered_body_lem res.code res.payload s.search

includes-empty : (s : String) → includes "" s ≡ true
unfolding includes
includes-empty String.[] = refl
includes-empty (String.◌∷◌ c s) = rw (includes-empty s) (ground arith)

filter-all {ℓ} :
    {A : Type ℓ} (p : A → Bool) (xs : List A) → ((x : A) → p x ≡ true) → filter p xs ≡ xs
filter-all p [] h = refl
filter-all p (x ∷ xs) h = rw (h x) (ap (λ l. x ∷ l) (filter-all p xs h))

-- With an empty search all agents are shown, in the order of the server's list.
pub filtered-type_search_empty : (s : AgentsState) → filtered (type_search "" s) ≡ s.agents
unfolding filtered type_search
filtered-type_search_empty s =
    filter-all (matches "") s.agents (λ agent. rw (includes-empty agent.hostname) refl)
