-- ===== src/Api/Cookies/Text.antt =====
-- `document.cookie`: pairs `name=value` with `; ` between them, and what getCookie finds in it.
use Prim.Native.Char.{Char, code}
use Prim.Native.String.append
use Prim.Native.String.{◌++◌}
use text.Mathlib.TextEquality.{Char-path}
use text.Mathlib.TextLemmas.{append_assoc}
use mini_drop_test.Base.{
  ◌≡◌, refl, ap, sym, ◌∙◌, ◌≢◌, inl, inr, String, true, false, ◌&&◌, Option, none, some, List, [],
  ◌∷◌, ◌==◌, if◌then◌else◌, truthy, str_eq, arith, eq_iff, All, Bool-cases,
}
use mini_drop_test.Base.Text.Chars.{truthy-append_right}
use mini_drop_test.Base.Text.Split.{Lacks, Lacks-append}
use mini_drop_test.Api.Cookies.{
  strip_prefix, until_semicolon, captured, match_at, or_some, search_from, find_cookie,
}

abbrev pub Cookie : Type 0
Cookie = String × String

abbrev pub print_cookie : Cookie → String
print_cookie (name, value) = name ++ String.◌∷◌ "=" value

later_cookies : List Cookie → String
later_cookies [] = ""
later_cookies (c ∷ cs) = String.◌∷◌ ";" (String.◌∷◌ " " (print_cookie c ++ later_cookies cs))

unfoldable pub cookie_text : List Cookie → String
unfolding later_cookies
cookie_text [] = ""
cookie_text (c ∷ cs) = print_cookie c ++ later_cookies cs

-- A cookie whose name holds no `=`, and whose name and value hold no `;` and no space
abbrev pub IsCookie : Cookie → Type 0
IsCookie (name, value) = Lacks b'=' name × Lacks b';' value × Lacks 32 name × Lacks 32 value

-- The value of the first cookie of that name that has one
abbrev pub value_of : String → List Cookie → Option String
value_of name [] = none
value_of name ((k, v) ∷ cs) = if str_eq k name && truthy v then some v else value_of name cs

strip_prefix-name :
    (name t : String) → strip_prefix (name ++ "=") (name ++ String.◌∷◌ "=" t) ≡ some t
unfolding strip_prefix
strip_prefix-name String.[] t = rw (append.nil "=", append.nil (String.◌∷◌ "=" t)) refl
strip_prefix-name (String.◌∷◌ c n) t =
    rw (append.cons c n "=", append.cons c n (String.◌∷◌ "=" t))
      (ground (arith, strip_prefix-name n t))

tails-ne :
    (c d : Char) (s t : String)
    → (code c == code d) ≡ true
    → String.◌∷◌ c s ≢ String.◌∷◌ d t
    → s ≢ t
tails-ne c d s t p h e = h (λ i. String.◌∷◌ (Char-path c d (ground arith) i) (e i))

strip_prefix-other :
    (name k t : String)
    → Lacks b'=' name
    → Lacks b'=' k
    → name ≢ k
    → strip_prefix (name ++ "=") (k ++ String.◌∷◌ "=" t) ≡ none
unfolding strip_prefix
strip_prefix-other String.[] String.[] t h g e = absurd (e refl)
strip_prefix-other String.[] (String.◌∷◌ d k) t h (g, gs) e =
    rw (append.nil "=", append.cons d k (String.◌∷◌ "=" t)) (ground arith)
strip_prefix-other (String.◌∷◌ c n) String.[] t (h, hs) g e =
    rw (append.nil (String.◌∷◌ "=" t), append.cons c n "=") (ground arith)
strip_prefix-other (String.◌∷◌ c n) (String.◌∷◌ d k) t (h, hs) (g, gs) e =
    rw (append.cons d k (String.◌∷◌ "=" t), append.cons c n "=")
      (elim (Bool-cases (code c == code d)) [
        | inl p ↦ ground (arith, p, strip_prefix-other n k t hs gs (tails-ne c d n k p e))
        | inr p ↦ ground (arith, p)
      ])

until_semicolon-later :
    (v : String) (cs : List Cookie) → Lacks b';' v → until_semicolon (v ++ later_cookies cs) ≡ v
unfolding until_semicolon later_cookies
until_semicolon-later String.[] [] h = refl
until_semicolon-later String.[] (c ∷ cs) h = rw (append.nil (later_cookies (c ∷ cs))) refl
until_semicolon-later (String.◌∷◌ c v) cs (h, hs) =
    rw (append.cons c v (later_cookies cs), until_semicolon-later v cs hs) (ground arith)

search_from-append :
    (prefix s t : String)
    → Lacks 32 s
    → search_from prefix false (s ++ t) ≡ search_from prefix false t
unfolding search_from match_at
search_from-append prefix String.[] t h = ap (search_from prefix false) (append.nil t)
search_from-append prefix (String.◌∷◌ c s) t (h, hs) =
    rw (append.cons c s t) (ground (arith, search_from-append prefix s t hs))

search_from-start :
    (prefix s t : String)
    → truthy s ≡ true
    → Lacks 32 s
    → search_from prefix true (s ++ t)
      ≡ or_some (captured (strip_prefix prefix (s ++ t))) (search_from prefix false t)
unfolding search_from match_at
search_from-start prefix String.[] t h g = cc h
search_from-start prefix (String.◌∷◌ c s) t h (g, gs) =
    rw (append.cons c s t) (ground (arith, search_from-append prefix s t gs))

captured-value :
    (v : String) (cs : List Cookie)
    → Lacks b';' v
    → captured (some (v ++ later_cookies cs)) ≡ (if truthy v then some v else none)
captured-value v cs h = rw (until_semicolon-later v cs h) refl

-- What is found at the start of a cookie: its value, if it has that name and a value
captured-print_cookie :
    (name k v : String) (cs : List Cookie)
    → Lacks b'=' name
    → IsCookie (k, v)
    → captured (strip_prefix (name ++ "=") (print_cookie (k, v) ++ later_cookies cs))
      ≡ (if str_eq k name && truthy v then some v else none)
captured-print_cookie name k v cs h (eq, semi, k_space, v_space) =
    rw (append_assoc k (String.◌∷◌ "=" v) (later_cookies cs), append.cons "=" v (later_cookies cs))
      (elim (Bool-cases (str_eq k name)) [
        | inl p ↦
            rw ((eq_iff k name).0 p, (eq_iff name name).1 refl)
              (rw (strip_prefix-name name (v ++ later_cookies cs)) (captured-value v cs semi))
        | inr p ↦
            rw
              (
                strip_prefix-other name k (v ++ later_cookies cs) h eq
                    (λ e. cc (p, (eq_iff k name).1 (sym e))),
                p,
              )
              refl
      ])

print_cookie-Lacks_space : (c : Cookie) → IsCookie c → Lacks 32 (print_cookie c)
print_cookie-Lacks_space (k, v) (eq, semi, ks, vs) =
    Lacks-append 32 k (String.◌∷◌ "=" v) ks (refl, vs)

truthy-print_cookie : (c : Cookie) → truthy (print_cookie c) ≡ true
truthy-print_cookie (k, v) = truthy-append_right k (String.◌∷◌ "=" v) refl

or_some-value_of :
    (name k v : String) (cs : List Cookie)
    → or_some (if str_eq k name && truthy v then some v else none) (value_of name cs)
      ≡ value_of name ((k, v) ∷ cs)
or_some-value_of name k v cs = ground arith

search_from-cookies :
    (name : String) (c : Cookie) (cs : List Cookie)
    → Lacks b'=' name
    → IsCookie c
    → search_from (name ++ "=") false (later_cookies cs) ≡ value_of name cs
    → search_from (name ++ "=") true (print_cookie c ++ later_cookies cs) ≡ value_of name (c ∷ cs)
search_from-cookies name (k, v) cs h g later =
    search_from-start (name ++ "=") (print_cookie (k, v)) (later_cookies cs)
      (truthy-print_cookie (k, v)) (print_cookie-Lacks_space (k, v) g)
    ∙ rw (captured-print_cookie name k v cs h g, later) (or_some-value_of name k v cs)

search_from-later :
    (name : String) (cs : List Cookie)
    → Lacks b'=' name
    → All IsCookie cs
    → search_from (name ++ "=") false (later_cookies cs) ≡ value_of name cs
unfolding search_from match_at later_cookies
search_from-later name [] h g = refl
search_from-later name (c ∷ cs) h (g, gs) =
    ground (arith, search_from-cookies name c cs h g (search_from-later name cs h gs))

captured-empty : (name : String) → captured (strip_prefix (name ++ "=") "") ≡ none
unfolding strip_prefix
captured-empty String.[] = refl
captured-empty (String.◌∷◌ c n) = rw (append.cons c n "=") refl

-- Looking up a name in the text of some cookies finds the value of the first cookie of that name
-- that has one, and nothing where there is none; names hold no `=`, and names and values hold no
-- `;` and no space.
pub find_cookie-cookie_text :
    (name : String) (cs : List Cookie)
    → Lacks b'=' name
    → All IsCookie cs
    → find_cookie name (cookie_text cs) ≡ value_of name cs
unfolding find_cookie cookie_text
find_cookie-cookie_text name [] h g = captured-empty name
find_cookie-cookie_text name (c ∷ cs) h (g, gs) =
    search_from-cookies name c cs h g (search_from-later name cs h gs)
