-- ===== src/Auth/LoginPage.antt =====
-- web/src/pages/Login.tsx: the form that signs in or registers.
pub mod View
use Prim.Native.Char.{code}
use mini_drop_test.Base.{
  ℕ, ◌+◌, String, Bool, true, false, not, ◌&&◌, ◌||◌, Option, none, some, [], ◌∷◌, ◌++◌, or_else,
  if◌then◌else◌, truthy, trim, leb,
}
use mini_drop_test.Api.{Failure, Reply}
use mini_drop_test.Effects.{Run, replace}
use mini_drop_test.Auth.{AuthState, Session, login, register}

pub data LoginMode : Type 0 where
  signing_in registering : LoginMode

pub record LoginState : Type 0 where
  pub username : String
  pub password : String
  pub mode : LoginMode
  pub show_password : Bool
  pub loading : Bool
  pub error : String

-- `s.length`: a code point above 65535 counts twice.
unfoldable pub text_length : String → ℕ
text_length String.[] = 0
text_length (String.◌∷◌ c s) = (if leb 65536 (code c) then 2 else 1) + text_length s

-- The button is enabled.
unfoldable pub can_submit : LoginState → Bool
unfolding text_length trim
can_submit s =
    leb 2 (text_length (trim s.username)) && leb 4 (text_length s.password) && not s.loading

unfoldable pub other_mode : LoginMode → LoginMode
other_mode signing_in = registering
other_mode registering = signing_in

unfoldable pub switch_mode : LoginState → LoginState
unfolding other_mode
switch_mode s = record s { mode = other_mode s.mode; error = "" }

-- The page and the store, which the submission changes together
pub record Both : Type 0 where
  pub page : LoginState
  pub auth : AuthState

module _ (encode_uri_component : String → String) (type_error : Failure) where
  call_store :
      LoginMode → String → String → Reply Session → AuthState → Option Failure × Run AuthState
  unfolding login register
  call_store signing_in = login encode_uri_component type_error
  call_store registering = register encode_uri_component type_error

  failed_text : LoginMode → String
  failed_text signing_in = "登录失败"
  failed_text registering = "注册失败"

  finish : LoginState → Option Failure × Run AuthState → Run Both
  unfolding failed_text
  finish s (none, (auth, effects)) = (
    record { page = record s { loading = false }; auth = auth },
    effects ++ (replace "/index" ∷ []),
  )
  finish s (some e, (auth, effects)) = (
    record {
      page = record s { loading = false; error = or_else e.message (failed_text s.mode) };
      auth = auth;
    },
    effects,
  )

  unfoldable pub handle_submit : Reply Session → Both → Run Both
  unfolding call_store finish trim
  handle_submit reply both =
      let s = both.page in
      if not (truthy (trim s.username)) || not (truthy s.password)
      then (both, [])
      else finish (record s { loading = true; error = "" })
          (call_store s.mode (trim s.username) s.password reply both.auth)
