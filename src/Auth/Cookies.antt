-- ===== src/Auth/Cookies.antt =====
-- From useAuth.ts to the request interceptor of api/index.ts: the cookies that signing in writes
-- are those that the next requests read. The browser's cookies are a parameter.
mod Tests
use Prim.Native.Char.{code}
use mathlib.Core.Option
use mini_drop_test.Base.{
  ◌≡◌, refl, ap, sym, ◌∙◌, String, Bool, true, false, ◌&&◌, Option, none, some, List, [], ◌∷◌,
  if◌then◌else◌, truthy, nonempty, str_eq, arith, eq_iff, All, map, ◌++◌,
}
use mini_drop_test.Base.Text.Split.{Lacks, lacks, Lacks-lacks}
use mini_drop_test.Api.{Failure, Reply, response, is_ok, ApiResponse}
use mini_drop_test.Api.Requests.{login_api}
use mini_drop_test.Api.Cookies.{find_cookie, get_cookie}
use mini_drop_test.Api.Cookies.Text.{
  Cookie, cookie_text, IsCookie, value_of, find_cookie-cookie_text,
}
use mini_drop_test.Api.Interceptors.{header, request_headers}
use mini_drop_test.Effects.{Effect, send, set_cookie, expire_cookie}
use mini_drop_test.Auth.{AuthState, Session, login, logout, check_auth, User}

-- What a browser promises of its cookies: a well-formed one is kept until its name is written again
-- or expires, and the others stay.
pub record CookieJar : Type 1 where
  pub Jar : Type 0
  pub cookies : Jar → List Cookie
  pub keep : String → String → Jar → Jar
  pub expire : String → Jar → Jar
  pub value_of-keep :
      (name value : String) (jar : Jar) (other : String)
      → IsCookie (name, value)
      → value_of other (cookies (keep name value jar))
        ≡ (if str_eq name other then nonempty value else value_of other (cookies jar))
  pub value_of-expire :
      (name : String) (jar : Jar) (other : String)
      → value_of other (cookies (expire name jar))
        ≡ (if str_eq name other then none else value_of other (cookies jar))
  pub keep-IsCookie :
      (name value : String) (jar : Jar)
      → IsCookie (name, value)
      → All IsCookie (cookies jar)
      → All IsCookie (cookies (keep name value jar))
  pub expire-IsCookie :
      (name : String) (jar : Jar)
      → All IsCookie (cookies jar)
      → All IsCookie (cookies (expire name jar))

-- The headers in terms of the cookies
request_headers-cookie_text :
    (decode : String → String) (cs : List Cookie) (uid name token : Option String)
    → All IsCookie cs
    → value_of "drop_user_uid" cs ≡ uid
    → value_of "drop_user_name" cs ≡ name
    → value_of "drop_user_token" cs ≡ token
    → request_headers decode (cookie_text cs)
      ≡ header "Drop_user_uid" (Option.map decode uid)
        ++ (header "Drop_user_name" (Option.map decode name)
            ++ header "Drop_user_token" (Option.map decode token))
unfolding request_headers get_cookie
request_headers-cookie_text decode cs uid name token h u n t =
    rw
      (
        find_cookie-cookie_text "drop_user_uid" cs (Lacks-lacks b'=' "drop_user_uid" refl) h,
        find_cookie-cookie_text "drop_user_name" cs (Lacks-lacks b'=' "drop_user_name" refl) h,
        find_cookie-cookie_text "drop_user_token" cs (Lacks-lacks b'=' "drop_user_token" refl) h,
        u,
        n,
        t,
      )
      refl

nonempty-truthy : (s : String) → truthy s ≡ true → nonempty s ≡ some s
nonempty-truthy String.[] h = cc h
nonempty-truthy (String.◌∷◌ c s) h = refl

header-truthy :
    (name value : String) → truthy value ≡ true → header name (some value) ≡ (name, value) ∷ []
header-truthy name value h = rw h refl

login_effects :
    (encode : String → String) (type_error : Failure) (username password : String)
    (res : ApiResponse Session) (session : Session) (s : AuthState)
    → is_ok res ≡ true
    → res.payload ≡ some session
    → (login encode type_error username password (response res) s).1.1
      ≡ send (login_api username password)
        ∷ set_cookie "drop_user_token" session.token
        ∷ set_cookie "drop_user_uid" session.uid
        ∷ set_cookie "drop_user_name" (encode session.user_name)
        ∷ []
unfolding login
login_effects encode type_error username password res session s ok payload =
    ground (arith, ok, payload)

-- The session's values survive being written to the cookies.
abbrev pub PassesCookies : (String → String) → (String → String) → Session → Type 0
PassesCookies encode decode session =
    ((truthy session.uid ≡ true)
      × IsCookie ("drop_user_uid", session.uid)
      × (decode session.uid ≡ session.uid))
    × ((truthy session.token ≡ true)
        × IsCookie ("drop_user_token", session.token)
        × (decode session.token ≡ session.token))
    × ((truthy session.user_name ≡ true)
        × (truthy (encode session.user_name) ≡ true)
        × IsCookie ("drop_user_name", encode session.user_name)
        × (decode (encode session.user_name) ≡ session.user_name))

module _ (browser : CookieJar) where
  abbrev pub apply : Effect → browser.Jar → browser.Jar
  apply (set_cookie name value) jar = browser.keep name value jar
  apply (expire_cookie name) jar = browser.expire name jar
  apply _ jar = jar

  pub apply_all : List Effect → browser.Jar → browser.Jar
  apply_all [] jar = jar
  apply_all (e ∷ es) jar = apply_all es (apply e jar)

  -- `document.cookie`
  abbrev pub document_cookie : browser.Jar → String
  document_cookie jar = cookie_text (browser.cookies jar)

  -- After signing out no request has a header of the user, whatever cookies there were before, if
  -- their names hold no `=` and their names and values neither `;` nor a space.
  pub request_headers-logout :
      (decode : String → String) (s : AuthState) (jar : browser.Jar)
      → All IsCookie (browser.cookies jar)
      → request_headers decode (document_cookie (apply_all (logout s).1 jar)) ≡ []
  unfolding logout apply_all
  request_headers-logout decode s jar h =
      let jar1 = browser.expire "drop_user_uid" jar in
      let jar2 = browser.expire "drop_user_name" jar1 in
      let jar3 = browser.expire "drop_user_token" jar2 in
      let kept = browser.expire-IsCookie "drop_user_token" jar2 (
        browser.expire-IsCookie "drop_user_name" jar1
          (browser.expire-IsCookie "drop_user_uid" jar h)) in
      request_headers-cookie_text decode (browser.cookies jar3) none none none kept
        (browser.value_of-expire "drop_user_token" jar2 "drop_user_uid"
          ∙ browser.value_of-expire "drop_user_name" jar1 "drop_user_uid"
          ∙ browser.value_of-expire "drop_user_uid" jar "drop_user_uid")
        (browser.value_of-expire "drop_user_token" jar2 "drop_user_name"
          ∙ browser.value_of-expire "drop_user_name" jar1 "drop_user_name")
        (browser.value_of-expire "drop_user_token" jar2 "drop_user_token")

  -- Signing in with an answer that has a session writes cookies from which the headers of the next
  -- requests give the session's user id, name and token again, whatever cookies there were before.
  -- The session's three values are not empty, and they pass through the cookies: the token and the
  -- user id hold no `;` and no space and decode to themselves, and the name's encoding holds neither
  -- and decodes to the name.
  pub request_headers-login :
      (encode decode : String → String) (type_error : Failure) (username password : String)
      (res : ApiResponse Session) (session : Session) (s : AuthState) (jar : browser.Jar)
      → is_ok res ≡ true
      → res.payload ≡ some session
      → PassesCookies encode decode session
      → All IsCookie (browser.cookies jar)
      → request_headers decode (
          document_cookie
            (apply_all (login encode type_error username password (response res) s).1.1 jar))
        ≡ ("Drop_user_uid", session.uid)
          ∷ ("Drop_user_name", session.user_name)
          ∷ ("Drop_user_token", session.token)
          ∷ []
  unfolding login apply_all
  request_headers-login encode decode type_error username password res session s jar ok payload
        (
          (uid_there, uid_cookie, uid_plain),
          (token_there, token_cookie, token_plain),
          (name_there, code_there, name_cookie, name_back),
        )
        g =
      let jar1 = browser.keep "drop_user_token" session.token jar in
      let jar2 = browser.keep "drop_user_uid" session.uid jar1 in
      let name = encode session.user_name in
      let jar3 = browser.keep "drop_user_name" name jar2 in
      let kept = browser.keep-IsCookie "drop_user_name" name jar2 name_cookie (
        browser.keep-IsCookie "drop_user_uid" session.uid jar1 uid_cookie
          (browser.keep-IsCookie "drop_user_token" session.token jar token_cookie g)) in
      ap (λ es. request_headers decode (document_cookie (apply_all es jar)))
        (login_effects encode type_error username password res session s ok payload)
      ∙ request_headers-cookie_text decode (browser.cookies jar3) (some session.uid) (some name)
          (some session.token) kept
          (browser.value_of-keep "drop_user_name" name jar2 "drop_user_uid" name_cookie
            ∙ browser.value_of-keep "drop_user_uid" session.uid jar1 "drop_user_uid" uid_cookie
            ∙ nonempty-truthy session.uid uid_there)
          (browser.value_of-keep "drop_user_name" name jar2 "drop_user_name" name_cookie
            ∙ nonempty-truthy name code_there)
          (browser.value_of-keep "drop_user_name" name jar2 "drop_user_token" name_cookie
            ∙ browser.value_of-keep "drop_user_uid" session.uid jar1 "drop_user_token" uid_cookie
            ∙ browser.value_of-keep "drop_user_token" session.token jar "drop_user_token"
                token_cookie
            ∙ nonempty-truthy session.token token_there)
      ∙ rw (
        uid_plain,
        name_back,
        token_plain,
        header-truthy "Drop_user_uid" session.uid uid_there,
        header-truthy "Drop_user_name" session.user_name name_there,
        header-truthy "Drop_user_token" session.token token_there,
      )
