-- ===== src/Api/Cookies.antt =====
-- getCookie: the first match of `(^| )name=([^;]+)` in the cookie text.
pub mod Text
use Prim.Native.Char.{code}
use Prim.Native.String.{◌++◌}
use mathlib.Core.Option
use mini_drop_test.Base.{
  ◌≡◌, refl, String, Bool, true, Option, none, some, ◌==◌, if◌then◌else◌, truthy,
}

-- The text after a prefix
unfoldable pub strip_prefix : String → String → Option String
strip_prefix String.[] s = some s
strip_prefix (String.◌∷◌ c p) String.[] = none
strip_prefix (String.◌∷◌ c p) (String.◌∷◌ d s) =
    let rest = strip_prefix p s in if code c == code d then rest else none

unfoldable pub until_semicolon : String → String
until_semicolon String.[] = String.[]
until_semicolon (String.◌∷◌ c s) =
    if code c == b';' then String.[] else String.◌∷◌ c (until_semicolon s)

-- `[^;]+` wants at least one character.
abbrev captured : Option String → Option String
captured none = none
captured (some s) = let value = until_semicolon s in if truthy value then some value else none

-- `boundary` holds at the start and after a space.
match_at : String → Bool → String → Option String
unfolding strip_prefix until_semicolon
match_at prefix boundary s = if boundary then captured (strip_prefix prefix s) else none

abbrev or_some : Option String → Option String → Option String
or_some none later = later
or_some (some v) later = some v

search_from : String → Bool → String → Option String
unfolding match_at
search_from prefix boundary String.[] = match_at prefix boundary String.[]
search_from prefix boundary (String.◌∷◌ c s) =
    let later = search_from prefix (code c == 32) s in
    or_some (match_at prefix boundary (String.◌∷◌ c s)) later

unfoldable pub find_cookie : String → String → Option String
unfolding search_from
find_cookie name cookie = search_from (name ++ "=") true cookie

unfoldable pub get_cookie : (String → String) → String → String → Option String
unfolding find_cookie
get_cookie decode_uri_component name cookie =
    Option.map decode_uri_component (find_cookie name cookie)

get_cookie_example :
    find_cookie "drop_user_uid" "xdrop_user_uid=9; drop_user_uid=u1; drop_user_name=" ≡ some "u1"
unfolding find_cookie
get_cookie_example = refl

get_cookie_empty_example : find_cookie "drop_user_name" "drop_user_name=; a=b" ≡ none
unfolding find_cookie
get_cookie_empty_example = refl
