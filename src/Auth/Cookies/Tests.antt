-- ===== src/Auth/Cookies/Tests.antt =====
-- A browser that keeps its cookies in a list, and a visitor who signs in and out with it.
use mini_drop_test.Base.{
  ◌≡◌, refl, String, Bool, true, false, none, some, List, [], ◌∷◌, if◌then◌else◌, nonempty, str_eq,
  arith, eq_iff, All,
}
use mini_drop_test.Base.Text.Split.{lacks, Lacks-lacks}
use mini_drop_test.Api.{Failure, ApiResponse, response}
use mini_drop_test.Api.Cookies.Text.{Cookie, cookie_text, IsCookie, value_of}
use mini_drop_test.Api.Interceptors.{request_headers}
use mini_drop_test.Auth.{Session, initial, login, logout}
use mini_drop_test.Auth.Cookies.{
  CookieJar, apply_all, document_cookie, PassesCookies, request_headers-login,
  request_headers-logout,
}

abbrev without : String → List Cookie → List Cookie
without name [] = []
without name ((k, v) ∷ cs) =
    let rest = without name cs in if str_eq name k then rest else (k, v) ∷ rest

value_of-without :
    (name : String) (cs : List Cookie) (other : String)
    → value_of other (without name cs) ≡ (if str_eq name other then none else value_of other cs)
value_of-without name [] other = ground arith
value_of-without name ((k, v) ∷ cs) other =
    ground (arith, value_of-without name cs other, eq_iff name k, eq_iff name other, eq_iff k other)

keep_or_drop :
    (b : Bool) (c : Cookie) (cs : List Cookie)
    → IsCookie c
    → All IsCookie cs
    → All IsCookie (if b then cs else c ∷ cs)
keep_or_drop true c cs h hs = hs
keep_or_drop false c cs h hs = (h, hs)

without-IsCookie :
    (name : String) (cs : List Cookie) → All IsCookie cs → All IsCookie (without name cs)
without-IsCookie name [] h = tt
without-IsCookie name ((k, v) ∷ cs) (h, hs) =
    keep_or_drop (str_eq name k) (k, v) (without name cs) h (without-IsCookie name cs hs)

value_of-kept :
    (name value : String) (cs : List Cookie) (other : String)
    → value_of other ((name, value) ∷ without name cs)
      ≡ (if str_eq name other then nonempty value else value_of other cs)
value_of-kept name String.[] cs other = ground (arith, value_of-without name cs other)
value_of-kept name (String.◌∷◌ c v) cs other = ground (arith, value_of-without name cs other)

abbrev list_jar : CookieJar
list_jar = record {
  Jar = List Cookie;
  cookies = λ cs. cs;
  keep = λ name value cs. (name, value) ∷ without name cs;
  expire = without;
  value_of-keep = λ name value cs other h. value_of-kept name value cs other;
  value_of-expire = value_of-without;
  keep-IsCookie = λ name value cs h hs. (h, without-IsCookie name cs hs);
  expire-IsCookie = without-IsCookie;
}

abbrev old_cookies : List Cookie
old_cookies = ("theme", "dark") ∷ ("drop_user_uid", "u0") ∷ []

IsCookie-written :
    (name value : String)
    → lacks b'=' name ≡ true
    → lacks b';' value ≡ true
    → lacks 32 name ≡ true
    → lacks 32 value ≡ true
    → IsCookie (name, value)
IsCookie-written name value a b c d = (
  Lacks-lacks b'=' name a,
  Lacks-lacks b';' value b,
  Lacks-lacks 32 name c,
  Lacks-lacks 32 value d,
)

old_are_cookies : All IsCookie old_cookies
old_are_cookies = (
  IsCookie-written "theme" "dark" refl refl refl refl,
  (IsCookie-written "drop_user_uid" "u0" refl refl refl refl, tt),
)

old_text : cookie_text old_cookies ≡ "theme=dark; drop_user_uid=u0"
unfolding cookie_text
old_text = refl

abbrev session : Session
session = record { token = "t9"; uid = "u1"; user_name = "ann" }

abbrev answer : ApiResponse Session
answer = record { code = 0; payload = some session; message = none }

abbrev no_failure : Failure
no_failure = record { response_message = none; message = some "TypeError" }

passes : PassesCookies (λ s. s) (λ s. s) session
passes = (
  (refl, IsCookie-written "drop_user_uid" "u1" refl refl refl refl, refl),
  (refl, IsCookie-written "drop_user_token" "t9" refl refl refl refl, refl),
  (refl, refl, IsCookie-written "drop_user_name" "ann" refl refl refl refl, refl),
)

request_headers-login_example :
    request_headers
      (λ s. s)
      (document_cookie list_jar (
        apply_all list_jar
          (login (λ s. s) no_failure "ann" "secret" (response answer) initial).1.1
          old_cookies))
    ≡ ("Drop_user_uid", "u1") ∷ ("Drop_user_name", "ann") ∷ ("Drop_user_token", "t9") ∷ []
request_headers-login_example =
    request_headers-login list_jar (λ s. s) (λ s. s) no_failure "ann" "secret" answer session
      initial old_cookies refl refl passes old_are_cookies

request_headers-logout_example :
    request_headers
      (λ s. s)
      (document_cookie list_jar (apply_all list_jar (logout initial).1 old_cookies))
    ≡ []
request_headers-logout_example =
    request_headers-logout list_jar (λ s. s) initial old_cookies old_are_cookies
