-- ===== src/Api/Requests.antt =====
-- The exported functions, as the calls that the pages make: method, path and query of each.
use Prim.Native.String.{◌++◌}
use mini_drop_test.Base.{ℕ, String, Option, none, some, List, [], ◌∷◌, Number, Bool, show}
use mathlib.Core.List
use mini_drop_test.Domain.{CreateTaskParams, CreateContinuousParams, CreateScheduleTaskParams}

pub data Method : Type 0 where
  get post put delete : Method

pub record NaturalLanguageText : Type 0 where
  pub text : String
  pub target_ip : Option String
  pub pid : Option Number
  pub execute : Bool

pub record TaskQuery : Type 0 where
  pub page : Option ℕ
  pub size : Option ℕ
  pub keyword : Option String

pub record LlmUpdate : Type 0 where
  pub base_url : String
  pub model : String
  pub token : String
  pub clear_token : Bool

-- A call with the arguments of its function; bodies are the arguments of `post` and `put` calls.
pub data Call : Type 0 where
  auth_check : Call
  login_api : String → String → Call
  register_api : String → String → Call
  healthz : Call
  get_users : Call
  get_llm_settings : Call
  update_llm_settings : LlmUpdate → Call
  get_agents : Call
  stat_agent : String → Call
  get_agent_audit_log : ℕ → Call
  create_task : CreateTaskParams → Call
  create_natural_language_task : NaturalLanguageText → Call
  get_tasks : TaskQuery → Call
  get_task_detail : String → Call
  get_task_state_history : String → Call
  delete_task : String → Call
  retry_task : String → Call
  get_cos_files : String → Call
  fetch_artifact_text : String → String → Call
  fetch_artifact_json : String → String → Call
  create_continuous_task : CreateContinuousParams → Call
  get_continuous_windows : String → Option String → Option String → Call
  stop_continuous_task : String → Call
  get_suggestions : String → Call
  trigger_analysis : String → Call
  get_flame_data : String → Call
  flame_diff : String → String → Call
  create_group : String → Call
  get_groups : Call
  delete_group : ℕ → Call
  add_member : ℕ → String → Call
  remove_member : ℕ → String → Call
  get_group_members : ℕ → Call
  create_schedule_task : CreateScheduleTaskParams → Call
  get_schedule_tasks : Call
  delete_schedule_task : String → Call

unfoldable pub method : Call → Method
method (login_api _ _) = post
method (register_api _ _) = post
method (update_llm_settings _) = put
method (create_task _) = post
method (create_natural_language_task _) = post
method (delete_task _) = delete
method (retry_task _) = post
method (create_continuous_task _) = post
method (stop_continuous_task _) = post
method (trigger_analysis _) = post
method (flame_diff _ _) = post
method (create_group _) = post
method (delete_group _) = delete
method (add_member _ _) = post
method (remove_member _ _) = delete
method (create_schedule_task _) = post
method (delete_schedule_task _) = delete
method _ = get

-- Below the base `/api/v1`
unfoldable pub path : Call → String
path auth_check = "/auth/check"
path (login_api _ _) = "/auth/login"
path (register_api _ _) = "/auth/register"
path healthz = "/healthz"
path get_users = "/users"
path get_llm_settings = "/settings/llm"
path (update_llm_settings _) = "/settings/llm"
path get_agents = "/agents"
path (stat_agent _) = "/agent/stat"
path (get_agent_audit_log _) = "/agent/audit-log"
path (create_task _) = "/tasks"
path (create_natural_language_task _) = "/tasks/nl"
path (get_tasks _) = "/tasks"
path (get_task_detail tid) = "/tasks/" ++ tid
path (get_task_state_history tid) = "/tasks/" ++ (tid ++ "/state_history")
path (delete_task tid) = "/tasks/" ++ tid
path (retry_task tid) = "/tasks/" ++ (tid ++ "/retry")
path (get_cos_files _) = "/cosfiles"
path (fetch_artifact_text tid _) = "/tasks/" ++ (tid ++ "/artifact")
path (fetch_artifact_json tid _) = "/tasks/" ++ (tid ++ "/artifact")
path (create_continuous_task _) = "/tasks/continuous"
path (get_continuous_windows tid _ _) = "/tasks/" ++ (tid ++ "/windows")
path (stop_continuous_task tid) = "/tasks/" ++ (tid ++ "/stop")
path (get_suggestions tid) = "/tasks/" ++ (tid ++ "/suggestions")
path (trigger_analysis tid) = "/tasks/" ++ (tid ++ "/analyze")
path (get_flame_data tid) = "/tasks/" ++ (tid ++ "/flame")
path (flame_diff _ _) = "/flame/diff"
path (create_group _) = "/group"
path get_groups = "/groups"
path (delete_group gid) = "/group/" ++ show gid
path (add_member gid _) = "/group/" ++ (show gid ++ "/members")
path (remove_member gid uid) = "/group/" ++ (show gid ++ ("/members/" ++ uid))
path (get_group_members gid) = "/group/" ++ (show gid ++ "/members")
path (create_schedule_task _) = "/schedule/task"
path get_schedule_tasks = "/schedule/tasks"
path (delete_schedule_task tid) = "/schedule/task/" ++ tid

-- axios leaves out the parameters that are undefined.
abbrev query_text : String → Option String → List (String × String)
query_text name none = []
query_text name (some v) = (name, v) ∷ []

abbrev query_number : String → Option ℕ → List (String × String)
query_number name none = []
query_number name (some v) = (name, show v) ∷ []

unfoldable pub query : Call → List (String × String)
query (stat_agent ip) = ("ip", ip) ∷ []
query (get_agent_audit_log limit) = ("limit", show limit) ∷ []
query (get_tasks q) =
    List.◌++◌ (query_number "page" q.page)
      (List.◌++◌ (query_number "size" q.size) (query_text "keyword" q.keyword))
query (get_cos_files tid) = ("tid", tid) ∷ []
query (fetch_artifact_text _ key) = ("key", key) ∷ []
query (fetch_artifact_json _ key) = ("key", key) ∷ []
query (get_continuous_windows _ from to) = List.◌++◌ (query_text "from" from) (query_text "to" to)
query _ = []
