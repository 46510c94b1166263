-- ===== src/Settings/Laws.antt =====
-- What loading and saving the settings promise.
use mini_drop_test.Base.{
  ◌≡◌, refl, ◌↔◌, ◌⊎◌, Bool, true, false, arith, truthy, or_else, if◌then◌else◌,
}
use mini_drop_test.Base.Text.Chars.{truthy-or_text}
use mini_drop_test.Domain.{LlmSettings}
use mini_drop_test.Api.{
  Reply, response, rejected, is_ok, thrown, failure_text-ne, truthy-failure_text,
}
use mini_drop_test.Settings.{UserInfo, healthy, failing, SettingsState, load, save_llm, llm_update}

-- The request was answered; a code other than 0 counts as an answer.
abbrev pub IsAnswered {ℓ} : {A : Type ℓ} → Reply A → Type 0
IsAnswered (rejected e) = ⊥
IsAnswered (response res) = Unit

-- Accepted: answered with code 0
abbrev pub IsAccepted {ℓ} : {A : Type ℓ} → Reply A → Type 0
IsAccepted (rejected e) = ⊥
IsAccepted (response res) = is_ok res ≡ true

-- After loading, the page shows an error exactly if the request for the user or the one for the
-- settings was rejected; the health is that of its own request, whatever the other two did; and
-- the token's input and the saving flag are as before.
pub load-error_iff :
    (answered : Bool) (users : Reply UserInfo) (llm : Reply LlmSettings) (s : SettingsState)
    → (((load answered users llm s).0.error ≡ "") ↔ (IsAnswered users × IsAnswered llm))
      × ((load answered users llm s).0.api_healthy ≡ (if answered then healthy else failing))
      × ((load answered users llm s).0.llm_token_input ≡ s.llm_token_input)
      × ((load answered users llm s).0.saving_llm ≡ s.saving_llm)
unfolding load
load-error_iff answered (rejected e) (rejected f) s =
    ground (arith, failure_text-ne "用户信息加载失败" e refl, failure_text-ne "LLM 设置加载失败" f refl)
load-error_iff answered (rejected e) (response res) s =
    ground (arith, failure_text-ne "用户信息加载失败" e refl)
load-error_iff answered (response res) (rejected f) s =
    ground (arith, failure_text-ne "LLM 设置加载失败" f refl)
load-error_iff answered (response res) (response other) s = ground arith

-- Saving ends: nothing is being saved afterwards. If the update is accepted there is no error and
-- the token's input is empty; in every other case an error is shown, and the settings and the
-- token's input are as they were typed.
pub save_llm-outcome :
    (clear_token : Bool) (reply : Reply LlmSettings) (s : SettingsState)
    → ((save_llm clear_token reply s).0.saving_llm ≡ false)
      × ((IsAccepted reply
            × ((save_llm clear_token reply s).0.error ≡ "")
            × ((save_llm clear_token reply s).0.llm_token_input ≡ ""))
          ⊎ ((¬ IsAccepted reply)
              × (truthy (save_llm clear_token reply s).0.error ≡ true)
              × ((save_llm clear_token reply s).0.llm ≡ s.llm)
              × ((save_llm clear_token reply s).0.llm_token_input ≡ s.llm_token_input)))
unfolding save_llm
save_llm-outcome clear_token (rejected e) s =
    ground (arith, truthy-failure_text "LLM 设置保存失败" e refl)
save_llm-outcome clear_token (response res) s =
    ground
      (arith, truthy-failure_text "LLM 设置保存失败" (thrown (or_else res.message "LLM 设置保存失败")) refl)

-- The update has a model, whatever was typed, and it never both sends a token and asks for the
-- stored one to be cleared.
pub llm_update-valid :
    (clear_token : Bool) (s : SettingsState)
    → (truthy (llm_update clear_token s).model ≡ true)
      × (((llm_update clear_token s).clear_token ≡ false) ⊎ ((llm_update clear_token s).token ≡ ""))
unfolding llm_update
llm_update-valid clear_token s = ground (arith, truthy-or_text s.llm.model "gpt-4o-mini" refl)
