-- ===== src/Api/Interceptors.antt =====
-- The interceptors of the axios instance.
use mini_drop_test.Base.{
  ℕ, String, Bool, false, ◌&&◌, Option, none, some, List, [], ◌∷◌, ◌++◌, ◌==◌, if◌then◌else◌,
  truthy, or_else,
}
use mini_drop_test.Api.Cookies.{get_cookie}

-- `if (value) cfg.headers[name] = value`
abbrev pub header : String → Option String → List (String × String)
header name none = []
header name (some value) = if truthy value then (name, value) ∷ [] else []

module _ (decode_uri_component : String → String) where
  unfoldable pub request_headers : String → List (String × String)
  unfolding get_cookie
  request_headers cookie =
      header "Drop_user_uid" (get_cookie decode_uri_component "drop_user_uid" cookie)
      ++ (header "Drop_user_name" (get_cookie decode_uri_component "drop_user_name" cookie)
          ++ header "Drop_user_token" (get_cookie decode_uri_component "drop_user_token" cookie))

-- What the response interceptor reads of an error that has a response.
pub record ErrorResponse : Type 0 where
  pub status : ℕ
  pub code : Option ℕ  -- `data?.code`
  pub location : Option String  -- `data.data?.location`

abbrev has_code : ℕ → Option ℕ → Bool
has_code n none = false
has_code n (some k) = k == n

-- The page that the browser is sent to, or none: the error is passed on in every case.
-- `with_redirect raw` is the URL with its redirect_uri, or none where `new URL` throws.
module _ (with_redirect : String → Option String) where
  abbrev target : String → String
  target raw = elim (with_redirect raw) [ none ↦ raw | some url ↦ url ]

  unfoldable pub redirect_on_error : Option ErrorResponse → Option String
  redirect_on_error none = none
  redirect_on_error (some err) =
      if err.status == 401 && has_code 4010001 err.code
      then some (target (or_else err.location "/login"))
      else none
