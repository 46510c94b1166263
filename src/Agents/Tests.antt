-- ===== src/Agents/Tests.antt =====
-- Two agents, of which one is online.
use mini_drop_test.Base.{◌≡◌, refl, String, none, some, List, [], ◌∷◌, str_eq, show}
use mini_drop_test.Domain.{AgentInfo, AgentStatData, HotmethodTask, absent}
use mini_drop_test.Api.{ApiResponse, Failure, Reply, response, rejected}
use mini_drop_test.Agents.{agents_start, load_agents, list_or_empty}
use mini_drop_test.Agents.View.{AgentCard, agent_card, agents_body, rss_text}
use mini_drop_test.Agents.Laws.{
  agent_card-load_agents, agents_body-load_agents, last_report, rss_of, body_of,
}
use mini_drop_test.Agents.Detail.{
  DetailReply, answered, detail_start, load_detail, detail_view, detail_of,
}
use mini_drop_test.Agents.Detail.Laws.{load_detail-shown}

abbrev agent : String → String → AgentInfo
agent hostname ip = record {
  id = 1;
  hostname = hostname;
  ip_addr = ip;
  online = str_eq ip "10.0.0.1";
  uid = "u1";
  gid = 0;
  version = "1.2";
  environment = "";
  last_heartbeat = "";
  created_at = "";
  updated_at = "";
}

abbrev agents : ApiResponse (List AgentInfo)
agents = record {
  code = 0;
  payload = some (agent "web" "10.0.0.1" ∷ agent "db" "10.0.0.2" ∷ []);
  message = none;
}

abbrev stat : AgentStatData
stat = record {
  self_pstats = some (record { cpu_percent = none; rss_kb = some 2600 });
  children_pstats = none;
}

abbrev stat_reply : AgentInfo → Reply AgentStatData
stat_reply a = response (record { code = 0; payload = some stat; message = none })

abbrev offline : Failure
offline = record { response_message = none; message = some "Network Error" }

abbrev card_of : AgentInfo → AgentCard
card_of a =
    agent_card (λ n. "0.0") (λ t. none) 0
      (load_agents (response agents) stat_reply (rejected offline) agents_start).0 a

agent_card-load_agents_example :
    ((card_of (agent "web" "10.0.0.1")).cpu ≡ "-")
    × ((card_of (agent "web" "10.0.0.1")).rss ≡ rss_of (some stat))
unfolding last_report
agent_card-load_agents_example =
    agent_card-load_agents (λ n. "0.0") (λ t. none) 0 agents stat_reply (rejected offline)
      agents_start (agent "web" "10.0.0.1")

offline_reports : last_report stat_reply "10.0.0.2" (list_or_empty agents) ≡ none
unfolding last_report
offline_reports = refl

agents_body-load_agents_example :
    agents_body (load_agents (response agents) stat_reply (rejected offline) agents_start).0
    ≡ body_of (response agents) ""
unfolding agents_start
agents_body-load_agents_example =
    agents_body-load_agents (response agents) stat_reply (rejected offline) agents_start

abbrev task : HotmethodTask
task = record {
  id = 1;
  tid = "t1";
  name = "cpu";
  type = 0;
  profiler_type = 0;
  target_ip = "10.0.0.1";
  request_params = absent;
  status = 4;
  analysis_status = 2;
  status_info = "";
  uid = "u1";
  user_name = "ann";
  create_time = "";
  begin_time = none;
  end_time = none;
}

abbrev found : DetailReply
found = answered agents (record {
  code = 0;
  payload = some (record { total = 1; list = task ∷ []; page = 1; size = 100 });
  message = none;
})

shows_agent :
    detail_view (load_detail "10.0.0.2" found (rejected offline) detail_start).0
    ≡ detail_of (agent "db" "10.0.0.2")
unfolding detail_view load_detail
shows_agent = refl

load_detail-shown_example : (agent "db" "10.0.0.2").ip_addr ≡ "10.0.0.2"
load_detail-shown_example =
    (load_detail-shown "10.0.0.2" found (rejected offline) detail_start (agent "db" "10.0.0.2") refl
      shows_agent).0

rss_example : rss_text stat.self_pstats ≡ "3 MB"
unfolding show
rss_example = refl
