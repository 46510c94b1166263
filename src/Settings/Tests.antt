-- ===== src/Settings/Tests.antt =====
-- A settings page whose update is refused, and whose settings fail to load.
use mini_drop_test.Base.{◌≡◌, refl, true, false, none, some}
use mini_drop_test.Domain.{LlmSettings}
use mini_drop_test.Api.{Failure, Reply, response, rejected}
use mini_drop_test.Settings.{UserInfo, settings_start, load, save_llm, type_token}
use mini_drop_test.Settings.Laws.{save_llm-outcome}

abbrev ann : UserInfo
ann = record { uid = "u1"; name = "ann"; groups = none }

abbrev user_reply : Reply UserInfo
user_reply = response (record { code = 0; payload = some ann; message = none })

abbrev offline : Failure
offline = record { response_message = none; message = some "Network Error" }

abbrev broken : Reply LlmSettings
broken = rejected offline

abbrev refused : Reply LlmSettings
refused = response (record { code = 400; payload = none; message = some "bad url" })

load_text : (load true user_reply broken settings_start).0.error ≡ "Network Error"
unfolding load
load_text = refl

save_llm-outcome_example :
    (save_llm false refused (type_token "sk-1" settings_start)).0.saving_llm ≡ false
save_llm-outcome_example = (save_llm-outcome false refused (type_token "sk-1" settings_start)).0

save_keeps_token :
    (save_llm false refused (type_token "sk-1" settings_start)).0.llm_token_input ≡ "sk-1"
unfolding save_llm type_token
save_keeps_token = refl
