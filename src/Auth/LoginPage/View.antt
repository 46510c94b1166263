-- ===== src/Auth/LoginPage/View.antt =====
-- web/src/pages/Login.tsx: what the form shows and how its fields and keys act.
use mini_drop_test.Base.{
  leb, ◌≡◌, String, true, false, not, Option, [], nonempty, str_eq, if◌then◌else◌, truthy, trim,
  arith, length,
}
use mini_drop_test.Api.{Failure, Reply}
use mini_drop_test.Effects.{Run}
use mini_drop_test.Auth.{Session, login, register}
use mini_drop_test.Auth.LoginPage.{
  LoginState, LoginMode, Both, signing_in, registering, can_submit, handle_submit, call_store,
  finish,
}

unfoldable pub login_start : LoginState
login_start = record {
  username = "";
  password = "";
  mode = signing_in;
  show_password = false;
  loading = false;
  error = "";
}

unfoldable pub change_username : String → LoginState → LoginState
change_username v s = record s { username = v }

unfoldable pub change_password : String → LoginState → LoginState
change_password v s = record s { password = v }

unfoldable pub toggle_password : LoginState → LoginState
toggle_password s = record s { show_password = not s.show_password }

unfoldable pub password_type : LoginState → String
password_type s = if s.show_password then "text" else "password"

unfoldable pub toggle_label : LoginState → String
toggle_label s = if s.show_password then "隐藏" else "显示"

unfoldable pub shown_error : LoginState → Option String
shown_error s = nonempty s.error

by_mode : LoginMode → String → String → String
by_mode signing_in text other = text
by_mode registering text other = other

unfoldable pub submit_label : LoginState → String
unfolding by_mode
submit_label s = if s.loading then "处理中..." else by_mode s.mode "登 录" "注 册"

unfoldable pub mode_hint : LoginState → String
unfolding by_mode
mode_hint s = by_mode s.mode "还没有账号？" "已有账号？"

unfoldable pub switch_label : LoginState → String
unfolding by_mode
switch_label s = by_mode s.mode "去注册" "去登录"

module _ (encode_uri_component : String → String) (type_error : Failure)
    (reply : Reply Session) where
  -- A click on the button, which `disabled` may stop
  unfoldable pub click_submit : Both → Run Both
  unfolding can_submit
  click_submit both =
      if can_submit both.page
      then handle_submit encode_uri_component type_error reply both
      else (both, [])

  -- A key in one of the two fields
  unfoldable pub press_key : String → Both → Run Both
  press_key key both =
      if str_eq key "Enter"
      then handle_submit encode_uri_component type_error reply both
      else (both, [])

  -- Where the button is disabled but neither field is blank, the Enter key sends a request.
  pub press_key-disabled :
      (both : Both)
      → can_submit both.page ≡ false
      → truthy (trim (both.page).username) ≡ true
      → truthy (both.page).password ≡ true
      → ((click_submit both).1 ≡ []) × (leb 1 (length (press_key "Enter" both).1) ≡ true)
  unfolding click_submit press_key handle_submit call_store finish login register
  press_key-disabled both disabled name password = ground arith
