-- ===== src/Base/Text.antt =====
-- JavaScript string methods over the native texts. A text is read by code point.
pub mod Chars
pub mod Trim
pub mod Split
pub mod Show
use Prim.Native.Nat.{ℕ, zero, suc, ◌/◌, ◌%◌}
use Prim.Native.Char.{Char, code}
use Prim.Native.String
use Prim.Native.String.{String}
use mathlib.Core.Path.{◌≡◌, refl}
use mathlib.Core.Bool.{Bool, true, false, not, ◌&&◌, ◌||◌}
use mathlib.Core.List.{List, [], ◌∷◌}
use mathlib.Core.Option.{Option, none, some}
use text.Mathlib.Text
use mini_drop_test.Base.Tests.{leb, ◌==◌, if◌then◌else◌}

abbrev pub str_eq : String → String → Bool
str_eq = Text.◌==◌

-- `Boolean(s)`: a text is falsy exactly when it is empty.
abbrev pub truthy : String → Bool
truthy String.[] = false
truthy (String.◌∷◌ c s) = true

-- `a || b` on texts
abbrev pub or_text : String → String → String
or_text String.[] b = b
or_text (String.◌∷◌ c s) b = String.◌∷◌ c s

-- `a || b` where `a` may be undefined or null
abbrev pub or_else : Option String → String → String
or_else none b = b
or_else (some a) b = or_text a b

abbrev pub opt_truthy : Option String → Bool
opt_truthy none = false
opt_truthy (some s) = truthy s

-- `a || undefined`
abbrev pub nonempty : String → Option String
nonempty String.[] = none
nonempty (String.◌∷◌ c s) = some (String.◌∷◌ c s)

-- The white space and line ends that `trim`, `parseInt` and `\s` skip.
abbrev pub is_space : ℕ → Bool
is_space c =
    (leb 9 c && leb c 13)
    || c == 32
    || c == 160
    || c == 5760
    || (leb 8192 c && leb c 8202)
    || c == 8232
    || c == 8233
    || c == 8239
    || c == 8287
    || c == 12288
    || c == 65279

unfoldable pub trim_start : String → String
trim_start String.[] = String.[]
trim_start (String.◌∷◌ c s) = if is_space (code c) then trim_start s else String.◌∷◌ c s

unfoldable pub trim_end : String → String
trim_end String.[] = String.[]
trim_end (String.◌∷◌ c s) =
    let rest = trim_end s in
    if is_space (code c) && not (truthy rest) then String.[] else String.◌∷◌ c rest

unfoldable pub trim : String → String
unfolding trim_start trim_end
trim s = trim_end (trim_start s)

abbrev push_head : Char → List String → List String
push_head c [] = (String.◌∷◌ c String.[]) ∷ []
push_head c (s ∷ ss) = (String.◌∷◌ c s) ∷ ss

-- `s.split(sep)` for a separator of one code point
unfoldable pub split : ℕ → String → List String
split sep String.[] = String.[] ∷ []
split sep (String.◌∷◌ c s) =
    let rest = split sep s in if code c == sep then String.[] ∷ rest else push_head c rest

-- `s.lastIndexOf(sep)`, as the texts before and after the separator
unfoldable pub split_last : ℕ → String → Option (String × String)
split_last sep String.[] = none
split_last sep (String.◌∷◌ c s) = elim (split_last sep s) [
  | some (before, after) ↦ some (String.◌∷◌ c before, after)
  | none ↦ if code c == sep then some (String.[], s) else none
]

unfoldable pub ends_with : String → String → Bool
ends_with suffix String.[] = str_eq suffix String.[]
ends_with suffix (String.◌∷◌ c s) = str_eq suffix (String.◌∷◌ c s) || ends_with suffix s

abbrev pub starts_with : String → String → Bool
starts_with = Text.starts_with

unfoldable pub includes : String → String → Bool
includes part String.[] = str_eq part String.[]
includes part (String.◌∷◌ c s) = Text.starts_with (String.◌∷◌ c s) part || includes part s

-- `parts.join(sep)`
unfoldable pub join : String → List String → String
join sep [] = String.[]
join sep (s ∷ []) = s
join sep (s ∷ t ∷ ss) = String.◌++◌ s (String.◌++◌ sep (join sep (t ∷ ss)))

digit : ℕ → Char
digit zero = "0"
digit (suc zero) = "1"
digit (suc (suc zero)) = "2"
digit (suc (suc (suc zero))) = "3"
digit (suc (suc (suc (suc zero)))) = "4"
digit (suc (suc (suc (suc (suc zero))))) = "5"
digit (suc (suc (suc (suc (suc (suc zero)))))) = "6"
digit (suc (suc (suc (suc (suc (suc (suc zero))))))) = "7"
digit (suc (suc (suc (suc (suc (suc (suc (suc zero)))))))) = "8"
digit _ = "9"

-- One round for each digit; a number has fewer digits than its successor.
show_from : ℕ → ℕ → String → String
show_from zero n acc = acc
show_from (suc fuel) n acc =
    let more = show_from fuel (n / 10) (String.◌∷◌ (digit (n % 10)) acc) in
    if leb n 9 then String.◌∷◌ (digit n) acc else more

-- `String(n)` for a natural number
unfoldable pub show : ℕ → String
unfolding show_from digit
show n = show_from (suc n) n String.[]

trim_example : trim " a b\n  " ≡ "a b"
unfolding trim
trim_example = refl

show_example : show 1024 ≡ "1024"
unfolding show
show_example = refl
