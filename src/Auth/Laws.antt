-- ===== src/Auth/Laws.antt =====
-- What signing in and out promises, from the store to the layout.
use mini_drop_test.Base.Text.Chars.{truthy-or_else}
use mini_drop_test.Base.{
  or_else, zero, List, Option, none, ℕ, suc, ◌≡◌, refl, String, true, false, some, [], ◌∷◌, arith,
  trim, truthy, ◌⊎◌, ◌↔◌, leb,
}
use mini_drop_test.Api.{Failure, Reply, response, rejected, is_ok}
use mini_drop_test.Api.Requests.{Call, login_api, register_api}
use mini_drop_test.Api.Cookies.{find_cookie}
use mini_drop_test.Effects.{Effect, send, replace, set_cookie}
use mini_drop_test.Auth.{AuthState, User, Session, check_auth, logout}
use mini_drop_test.Auth.LoginPage.{
  Both, LoginState, handle_submit, can_submit, text_length, signing_in, registering,
}
use mini_drop_test.Auth.Guard.{to_login, content, layout_view, layout_effect}

-- The server answered with code 0 and a user.
abbrev pub Confirms : Reply User → Type 0
Confirms (rejected e) = ⊥
Confirms (response res) = (is_ok res ≡ true) × ((user : User) × (res.payload ≡ some user))

-- After the check at the start of the application, the layout shows its content exactly if the
-- cookie text has a user id and the server confirms the user; in every other case it shows the
-- way to the login page.
pub layout_view-check_auth :
    (cookie : String) (reply : Reply User) (s : AuthState)
    → ((layout_view (check_auth cookie reply s).0 ≡ content)
        ↔ (((uid : String) × (find_cookie "drop_user_uid" cookie ≡ some uid)) × Confirms reply))
      × ((layout_view (check_auth cookie reply s).0 ≡ content)
          ⊎ (layout_view (check_auth cookie reply s).0 ≡ to_login))
unfolding check_auth layout_view
layout_view-check_auth cookie reply s = ground arith

abbrev entry_call : LoginState → Call
entry_call s = elim s.mode [
  | signing_in ↦ login_api (trim s.username) s.password
  | registering ↦ register_api (trim s.username) s.password
]

truthy-text_length : (s : String) (n : ℕ) → leb (suc n) (text_length s) ≡ true → truthy s ≡ true
unfolding text_length
truthy-text_length String.[] n h = ground arith
truthy-text_length (String.◌∷◌ c s) n h = refl

-- The session of an answer with code 0
abbrev pub answered_session : ℕ → Option Session → Option Session
answered_session zero payload = payload
answered_session (suc code) payload = none

abbrev pub session_of : Reply Session → Option Session
session_of (rejected e) = none
session_of (response res) = answered_session res.code res.payload

-- The visitor is in, with the cookies of the session.
abbrev pub Entered : (String → String) → Both → Session → Both × List Effect → Type 0
Entered encode both session (after, effects) =
    (after.auth ≡ record {
      uid = session.uid;
      user_name = session.user_name;
      is_auth = true;
      loading = false;
    })
    × (after.page.error ≡ "")
    × (effects
        ≡ send (entry_call both.page)
          ∷ set_cookie "drop_user_token" session.token
          ∷ set_cookie "drop_user_uid" session.uid
          ∷ set_cookie "drop_user_name" (encode session.user_name)
          ∷ replace "/index"
          ∷ [])

-- The visitor is not in, and sees an error.
abbrev pub Refused : Both → Both × List Effect → Type 0
Refused both (after, effects) =
    (after.auth ≡ both.auth)
    × (truthy after.page.error ≡ true)
    × (effects ≡ send (entry_call both.page) ∷ [])

-- An enabled button sends one request for the trimmed name. Where it is answered with code 0 and a
-- session, the visitor is in: the store and the three cookies hold the session, and the address is
-- replaced by `/index`, in this order. In every other case the store is as before, the page shows an
-- error, and nothing else is done. The page is not loading afterwards.
pub can_submit-handle_submit :
    (encode : String → String) (type_error : Failure) (reply : Reply Session) (both : Both)
    → can_submit both.page ≡ true
    → ((handle_submit encode type_error reply both).0.page.loading ≡ false)
      × (((session : Session) × (session_of reply ≡ some session)
            × Entered encode both session (handle_submit encode type_error reply both))
          ⊎ ((session_of reply ≡ none) × Refused both (handle_submit encode type_error reply both)))
unfolding handle_submit can_submit
can_submit-handle_submit encode type_error (rejected e) both h = ground (
  arith,
  truthy-text_length (trim both.page.username) 1,
  truthy-text_length both.page.password 3,
  truthy-or_else e.message "登录失败" refl,
  truthy-or_else e.message "注册失败" refl,
)
can_submit-handle_submit encode type_error (response res) both h = ground (
  arith,
  truthy-text_length (trim both.page.username) 1,
  truthy-text_length both.page.password 3,
  truthy-or_else type_error.message "登录失败" refl,
  truthy-or_else type_error.message "注册失败" refl,
  truthy-or_else (some (or_else res.message "login failed")) "登录失败" refl,
  truthy-or_else (some (or_else res.message "register failed")) "注册失败" refl,
)

-- Signing out of a settled store leads the layout to the login page.
pub layout_view-logout :
    (s : AuthState)
    → s.loading ≡ false
    → (layout_view (logout s).0 ≡ to_login) × (layout_effect (logout s).0 ≡ replace "/login" ∷ [])
unfolding logout layout_view layout_effect
layout_view-logout s h = ground arith
