-- ===== src/Settings.antt =====
-- web/src/pages/Settings.tsx: the server's health, the current user, and the LLM settings.
pub mod Laws
pub mod View
mod Tests
use mini_drop_test.Base.{
  ℕ, String, Bool, true, false, not, Option, none, some, List, [], ◌∷◌, or_text, or_else,
  if◌then◌else◌,
}
use mini_drop_test.Domain.{LlmSettings}
use mini_drop_test.Api.{
  ApiResponse, Failure, Reply, response, rejected, thrown, failure_text, is_ok,
}
use mini_drop_test.Api.Requests.{
  Call, healthz, get_users, get_llm_settings, update_llm_settings, LlmUpdate,
}
use mini_drop_test.Effects.{Run, send}

-- `groups` is the JSON text of a truthy value.
pub record UserInfo : Type 0 where
  pub uid : String
  pub name : String
  pub groups : Option String

pub data Health : Type 0 where
  checking healthy failing : Health

pub record SettingsState : Type 0 where
  pub user : Option UserInfo
  pub api_healthy : Health
  pub error : String
  pub llm : LlmSettings
  pub llm_token_input : String
  pub saving_llm : Bool

unfoldable pub settings_start : SettingsState
settings_start = record {
  user = none;
  api_healthy = checking;
  error = "";
  llm = record {
    base_url = "";
    model = "gpt-4o-mini";
    token_configured = false;
    token_masked = none;
  };
  llm_token_input = "";
  saving_llm = false;
}

-- Whether the request for the health is answered; its answer is not looked at.
take_health : Bool → SettingsState → SettingsState
take_health answered s = record s { api_healthy = if answered then healthy else failing }

take_user : Reply UserInfo → SettingsState → SettingsState
take_user (rejected e) s = record s { error = failure_text "用户信息加载失败" e }
take_user (response res) s = if is_ok res then record s { user = res.payload } else s

abbrev with_llm : Option LlmSettings → SettingsState → SettingsState
with_llm none s = s
with_llm (some llm) s = record s { llm = llm }

take_llm : Reply LlmSettings → SettingsState → SettingsState
take_llm (rejected e) s = record s { error = failure_text "LLM 设置加载失败" e }
take_llm (response res) s = if is_ok res then with_llm res.payload s else s

-- Three requests, one after the other; each has its own `catch`.
unfoldable pub load : Bool → Reply UserInfo → Reply LlmSettings → SettingsState → Run SettingsState
unfolding take_health take_user take_llm
load answered users llm s = (
  take_llm llm
      (take_user users (take_health answered (record s { error = ""; api_healthy = checking }))),
  send healthz ∷ send get_users ∷ send get_llm_settings ∷ [],
)

unfoldable pub llm_update : Bool → SettingsState → LlmUpdate
llm_update clear_token s = record {
  base_url = or_text s.llm.base_url "";
  model = or_text s.llm.model "gpt-4o-mini";
  token = if clear_token then "" else s.llm_token_input;
  clear_token = clear_token;
}

save_failed : Failure → SettingsState → SettingsState
save_failed e s = record s { error = failure_text "LLM 设置保存失败" e }

save_reply : Reply LlmSettings → SettingsState → SettingsState
unfolding save_failed
save_reply (rejected e) s = save_failed e s
save_reply (response res) s =
    if is_ok res
    then record (with_llm res.payload s) { llm_token_input = "" }
    else save_failed (thrown (or_else res.message "LLM 设置保存失败")) s

unfoldable pub save_llm : Bool → Reply LlmSettings → SettingsState → Run SettingsState
unfolding llm_update save_reply
save_llm clear_token reply s = (
  record (save_reply reply (record s { saving_llm = true; error = "" })) { saving_llm = false },
  send (update_llm_settings (llm_update clear_token s)) ∷ [],
)

-- The inputs
unfoldable pub type_base_url : String → SettingsState → SettingsState
type_base_url value s = record s { llm = record (s.llm) { base_url = value } }

unfoldable pub type_model : String → SettingsState → SettingsState
type_model value s = record s { llm = record (s.llm) { model = value } }

unfoldable pub type_token : String → SettingsState → SettingsState
type_token value s = record s { llm_token_input = value }
