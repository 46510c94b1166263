-- ===== src/Domain/Records.antt =====
-- web/src/domain.ts: the interfaces.
use mini_drop_test.Base.{ℕ, String, Bool, Option, List, ℤ, Number}

pub record AgentInfo : Type 0 where
  pub id : ℕ
  pub hostname : String
  pub ip_addr : String
  pub online : Bool
  pub uid : String
  pub gid : ℕ
  pub version : String
  pub environment : String
  pub last_heartbeat : String
  pub created_at : String
  pub updated_at : String

pub record AgentStateHistory : Type 0 where
  pub id : ℕ
  pub ip_addr : String
  pub hostname : String
  pub from_state : Bool
  pub to_state : Bool
  pub reason : String
  pub created_at : String

pub record TaskParams : Type 0 where
  pub pid : Option ℕ
  pub duration : Option ℕ
  pub hz : Option ℕ
  pub callgraph : Option String
  pub subprocess : Option Bool
  pub event : Option String
  pub cron_expr : Option String

-- The optional fields that the creation form always fills are plain here.
pub record CreateTaskParams : Type 0 where
  pub name : String
  pub type : ℕ
  pub profiler_type : ℕ
  pub target_ip : String
  pub pid : Number
  pub duration : Number
  pub hz : Number
  pub callgraph : String
  pub subprocess : Bool
  pub event : String

-- `TaskParams | string | null | undefined`
pub data RequestParams : Type 0 where
  absent : RequestParams
  text : String → RequestParams
  given : TaskParams → RequestParams

pub record HotmethodTask : Type 0 where
  pub id : ℕ
  pub tid : String
  pub name : String
  pub type : ℕ
  pub profiler_type : ℕ
  pub target_ip : String
  pub request_params : RequestParams
  pub status : ℕ
  pub analysis_status : ℕ
  pub status_info : String
  pub uid : String
  pub user_name : String
  pub create_time : String
  pub begin_time : Option String
  pub end_time : Option String

pub record TaskListData : Type 0 where
  pub total : ℕ
  pub list : List HotmethodTask
  pub page : ℕ
  pub size : ℕ

pub record CosFile : Type 0 where
  pub key : Option String
  pub name : Option String
  pub url : String
  pub size : Option ℕ

pub record AnalysisSuggestion : Type 0 where
  pub id : ℕ
  pub tid : String
  pub func : String
  pub suggestion : String
  pub ai_suggestion : String
  pub status : ℕ
  pub created_at : String
  pub updated_at : String

pub record TaskStateHistory : Type 0 where
  pub id : ℕ
  pub tid : String
  pub from_state : ℤ
  pub to_state : ℤ
  pub reason : String
  pub change_type : ℕ
  pub created_at : String

pub record GroupInfo : Type 0 where
  pub gid : ℕ
  pub name : String
  pub owner_id : String
  pub created_at : String
  pub updated_at : String

pub record GroupMemberInfo : Type 0 where
  pub gid : ℕ
  pub uid : String

pub record CreateScheduleTaskParams : Type 0 where
  pub task_name : String
  pub type : ℕ
  pub profiler_type : ℕ
  pub target_ip : String
  pub pid : Number
  pub duration : Number
  pub hz : Number
  pub callgraph : String
  pub cron_expr : String

pub record TaskDetailData : Type 0 where
  pub task : Option HotmethodTask
  pub suggestions : Option (List AnalysisSuggestion)
  pub cos_files : Option (List CosFile)
  pub state_history : Option (List TaskStateHistory)

pub record TopFunction : Type 0 where
  pub func : String
  pub self : ℕ
  pub total : ℕ

pub record PidStats : Type 0 where
  pub cpu_percent : Option Number
  pub rss_kb : Option ℕ

pub record AgentStatData : Type 0 where
  pub self_pstats : Option PidStats
  pub children_pstats : Option PidStats

pub record ContinuousWindow : Type 0 where
  pub id : ℕ
  pub parent_tid : String
  pub window_tid : String
  pub seq : ℕ
  pub start_time : String
  pub end_time : String
  pub status : ℕ
  pub cos_key : String
  pub created_at : String

pub record CreateContinuousParams : Type 0 where
  pub name : Option String
  pub target_ip : String
  pub pid : Number
  pub hz : Number
  pub window_sec : Number
  pub callgraph : String

pub data TaskCreateMode : Type 0 where
  oneshot continuous natural : TaskCreateMode

pub data PlanMode : Type 0 where
  oneshot continuous : PlanMode

pub record NaturalLanguageTaskPlan : Type 0 where
  pub name : String
  pub mode : PlanMode
  pub type : ℕ
  pub profiler_type : ℕ
  pub target_ip : String
  pub pid : ℕ
  pub duration : ℕ
  pub hz : ℕ
  pub window_sec : Option ℕ
  pub callgraph : String
  pub subprocess : Bool
  pub event : String
  pub confidence : Number
  pub rationale : List String
  pub missing_fields : List String
  pub clarifying_question : String

pub record NaturalLanguageTaskResult : Type 0 where
  pub tid : Option String
  pub plan : NaturalLanguageTaskPlan

pub record LlmSettings : Type 0 where
  pub base_url : String
  pub model : String
  pub token_configured : Bool
  pub token_masked : Option String
