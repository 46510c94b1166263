-- ===== src/Auth.antt =====
-- web/src/store/useAuth.ts: who is signed in, kept in the store and in three cookies.
pub mod Laws
pub mod LoginPage
pub mod Guard
pub mod Layout
pub mod Cookies
mod Tests
use mini_drop_test.Base.{
  String, Bool, true, false, Option, none, some, List, [], ◌∷◌, or_else, if◌then◌else◌,
}
use mini_drop_test.Api.{ApiResponse, Failure, Reply, response, rejected, thrown, is_ok}
use mini_drop_test.Api.Requests.{Call, auth_check, login_api, register_api}
use mini_drop_test.Api.Cookies.{find_cookie}
use mini_drop_test.Effects.{Effect, Run, send, set_cookie, expire_cookie}

pub record AuthState : Type 0 where
  pub uid : String
  pub user_name : String
  pub is_auth : Bool
  pub loading : Bool

pub record User : Type 0 where
  pub uid : String
  pub user_name : String

pub record Session : Type 0 where
  pub token : String
  pub uid : String
  pub user_name : String

unfoldable pub initial : AuthState
initial = record { uid = ""; user_name = ""; is_auth = false; loading = true }

-- A checked user; an answer with code 0 and no data ends in the `catch`.
signed_out : AuthState → AuthState
signed_out s = record s { is_auth = false; loading = false }

check_user : Reply User → AuthState → AuthState
unfolding signed_out
check_user (rejected e) s = signed_out s
check_user (response res) s =
    if is_ok res
    then elim res.payload [
      | none ↦ signed_out s
      | some user ↦ record s {
        uid = user.uid;
        user_name = user.user_name;
        is_auth = true;
        loading = false;
      }
    ]
    else signed_out s

unfoldable pub check_auth : String → Reply User → AuthState → Run AuthState
unfolding signed_out check_user
check_auth cookie reply s = elim (find_cookie "drop_user_uid" cookie) [
  | none ↦ (signed_out s, [])
  | some uid ↦ (check_user reply (record s { loading = true }), send auth_check ∷ [])
]

-- The promise of `login` and of `register`: nothing, or the error that it is rejected with.
module _ (encode_uri_component : String → String) (type_error : Failure) where
  enter_with : Option Session → AuthState → Option Failure × Run AuthState
  enter_with none s = (some type_error, (s, []))
  enter_with (some session) s = (
    none,
    (
      record s {
        uid = session.uid;
        user_name = session.user_name;
        is_auth = true;
        loading = false;
      },
      set_cookie "drop_user_token" session.token
          ∷ set_cookie "drop_user_uid" session.uid
          ∷ set_cookie "drop_user_name" (encode_uri_component session.user_name)
          ∷ [],
    ),
  )

  enter : String → Reply Session → AuthState → Option Failure × Run AuthState
  unfolding enter_with
  enter fallback (rejected e) s = (some e, (s, []))
  enter fallback (response res) s =
      if is_ok res
      then enter_with res.payload s
      else (some (thrown (or_else res.message fallback)), (s, []))

  abbrev with_call : Call → Option Failure × Run AuthState → Option Failure × Run AuthState
  with_call call (failure, (s, effects)) = (failure, (s, send call ∷ effects))

  unfoldable pub login :
      String → String → Reply Session → AuthState → Option Failure × Run AuthState
  unfolding enter
  login username password reply s =
      with_call (login_api username password) (enter "login failed" reply s)

  unfoldable pub register :
      String → String → Reply Session → AuthState → Option Failure × Run AuthState
  unfolding enter
  register username password reply s =
      with_call (register_api username password) (enter "register failed" reply s)

unfoldable pub logout : AuthState → Run AuthState
logout s = (
  record s { uid = ""; user_name = ""; is_auth = false },
  expire_cookie "drop_user_uid"
      ∷ expire_cookie "drop_user_name"
      ∷ expire_cookie "drop_user_token"
      ∷ [],
)
