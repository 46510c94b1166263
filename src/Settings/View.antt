-- ===== src/Settings/View.antt =====
-- What the settings page shows.
use Prim.Native.String.{◌++◌}
use mini_drop_test.Base.{
  String, Bool, not, ◌||◌, Option, none, some, List, [], ◌∷◌, or_text, or_else, if◌then◌else◌,
}
use mini_drop_test.Settings.{UserInfo, Health, checking, healthy, failing, SettingsState}

pub record Row : Type 0 where
  pub label : String
  pub value : String
  pub color : Option String

abbrev row : String → String → Row
row label value = record { label = label; value = value; color = none }

abbrev health_text : Health → String
health_text checking = "检查中"
health_text healthy = "正常"
health_text failing = "异常"

abbrev health_color : Health → String
health_color checking = "rgba(255,255,255,0.55)"
health_color healthy = "#4ade80"
health_color failing = "#f87171"

unfoldable pub rows : SettingsState → List Row
rows s =
    row "API Base URL" "/api/v1"
    ∷ row "请求超时" "30000 ms"
    ∷ row "Cookie 鉴权" "Drop_user_uid / Drop_user_name"
    ∷ record {
      label = "API 健康状态";
      value = health_text s.api_healthy;
      color = some (health_color s.api_healthy);
    }
    ∷ []

-- `user?.uid || '-'`
abbrev user_field : (UserInfo → String) → Option UserInfo → String
user_field f none = "-"
user_field f (some user) = or_text (f user) "-"

abbrev groups_text : UserInfo → String
groups_text user = or_else user.groups "-"

unfoldable pub user_rows : SettingsState → List Row
user_rows s =
    row "UID" (user_field (λ user. user.uid) s.user)
    ∷ row "用户名" (user_field (λ user. user.name) s.user)
    ∷ row "用户组" (user_field groups_text s.user)
    ∷ []

unfoldable pub token_label : SettingsState → String
token_label s =
    if s.llm.token_configured
    then "Token (" ++ (or_else s.llm.token_masked "已配置" ++ ")")
    else "Token (未配置)"

unfoldable pub token_placeholder : SettingsState → String
token_placeholder s = if s.llm.token_configured then "留空则保留当前 token" else "sk-..."

unfoldable pub save_disabled : SettingsState → Bool
save_disabled s = s.saving_llm

unfoldable pub save_text : SettingsState → String
save_text s = if s.saving_llm then "保存中..." else "保存 LLM 设置"

unfoldable pub clear_disabled : SettingsState → Bool
clear_disabled s = s.saving_llm || not s.llm.token_configured
