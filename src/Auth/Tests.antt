-- ===== src/Auth/Tests.antt =====
-- A visitor who signs in, whose session is checked later, and who signs out.
use mini_drop_test.Base.{◌⊎◌, ◌≡◌, refl, true, false, none, some, trim, get_last?}
use mini_drop_test.Api.{Failure, Reply, response}
use mini_drop_test.Api.Cookies.{find_cookie}
use mini_drop_test.Effects.{replace}
use mini_drop_test.Auth.{AuthState, User, Session, initial, check_auth}
use mini_drop_test.Auth.LoginPage.{Both, signing_in, handle_submit, can_submit, text_length}
use mini_drop_test.Auth.Guard.{content, layout_view}
use mini_drop_test.Auth.Laws.{
  layout_view-check_auth, can_submit-handle_submit, session_of, Entered, Refused,
}

abbrev user_reply : Reply User
user_reply =
    response (record {
      code = 0;
      payload = some (record { uid = "u1"; user_name = "ann" });
      message = none;
    })

abbrev session_reply : Reply Session
session_reply = response (record {
  code = 0;
  payload = some (record { token = "t"; uid = "u1"; user_name = "ann" });
  message = none;
})

abbrev no_failure : Failure
no_failure = record { response_message = none; message = some "TypeError" }

abbrev ready : Both
ready = record {
  page = record {
    username = " ann ";
    password = "secret";
    mode = signing_in;
    show_password = false;
    loading = false;
    error = "";
  };
  auth = record { uid = ""; user_name = ""; is_auth = false; loading = false };
}

abbrev signed_in : AuthState
signed_in = record { uid = "u1"; user_name = "ann"; is_auth = true; loading = false }

layout_view-check_auth_example :
    layout_view (check_auth "a=b; drop_user_uid=u1" user_reply initial).0 ≡ content
unfolding initial find_cookie
layout_view-check_auth_example =
    (layout_view-check_auth "a=b; drop_user_uid=u1" user_reply initial).0.1
      (("u1", refl), (refl, (record { uid = "u1"; user_name = "ann" }, refl)))

can_submit-handle_submit_example :
    ((handle_submit (λ s. s) no_failure session_reply ready).0.page.loading ≡ false)
    × (((session : Session) × (session_of session_reply ≡ some session)
          × Entered (λ s. s) ready session (handle_submit (λ s. s) no_failure session_reply ready))
        ⊎ ((session_of session_reply ≡ none)
            × Refused ready (handle_submit (λ s. s) no_failure session_reply ready)))
unfolding can_submit text_length trim
can_submit-handle_submit_example =
    can_submit-handle_submit (λ s. s) no_failure session_reply ready refl

enters :
    get_last? (handle_submit (λ s. s) no_failure session_reply ready).1 ≡ some (replace "/index")
unfolding handle_submit trim
enters = refl
