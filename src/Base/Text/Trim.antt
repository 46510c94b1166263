-- ===== src/Base/Text/Trim.antt =====
-- `trim` leaves a text alone that neither starts nor ends with white space.
use Prim.Native.Char.{Char, code}
use Prim.Native.String.append
use Prim.Native.String.{String, ◌++◌}
use mathlib.Core.Path.{◌≡◌, refl, ap, ◌∙◌}
use mathlib.Core.Bool.{true, false, not}
use native.Mathlib.Omega.{arith}
use mini_drop_test.Base.Text.{truthy, is_space, trim, trim_start, trim_end}
use mini_drop_test.Base.Text.Chars.{AllCodes, truthy-append_right}

-- The text is not empty, and its first code point is no white space.
abbrev pub StartsPlain : String → Type 0
StartsPlain String.[] = ⊥
StartsPlain (String.◌∷◌ c s) = is_space (code c) ≡ false

pub trim_start_plain : (s : String) → StartsPlain s → trim_start s ≡ s
unfolding trim_start
trim_start_plain String.[] h = refl
trim_start_plain (String.◌∷◌ c s) h = rw h

pub trim_end_plain : (s : String) → AllCodes (λ c. not (is_space c)) s → trim_end s ≡ s
unfolding trim_end
trim_end_plain String.[] h = refl
trim_end_plain (String.◌∷◌ c s) (h, hs) = rw (trim_end_plain s hs) (ground arith)

pub trim_end-append : (s t : String) → truthy t ≡ true → trim_end t ≡ t → trim_end (s ++ t) ≡ s ++ t
unfolding trim_end
trim_end-append String.[] t h e = rw (append.nil t) e
trim_end-append (String.◌∷◌ c s) t h e =
    rw (append.cons c s t, trim_end-append s t h e, truthy-append_right s t h) (ground arith)

pub StartsPlain-append : (s t : String) → StartsPlain s → StartsPlain (s ++ t)
StartsPlain-append String.[] t h = elim h [ ]
StartsPlain-append (String.◌∷◌ c s) t h = rw (append.cons c s t) h

pub StartsPlain-truthy : (s : String) → StartsPlain s → truthy s ≡ true
StartsPlain-truthy String.[] h = elim h [ ]
StartsPlain-truthy (String.◌∷◌ c s) h = refl

pub trim_end-cons :
    (c : Char) (t : String)
    → truthy t ≡ true
    → trim_end t ≡ t
    → trim_end (String.◌∷◌ c t) ≡ String.◌∷◌ c t
unfolding trim_end
trim_end-cons c t h e = rw (e, h) (ground arith)

-- A text that starts plain and ends in a text that keeps its end is left alone.
pub trim-append :
    (s t : String) → StartsPlain s → truthy t ≡ true → trim_end t ≡ t → trim (s ++ t) ≡ s ++ t
unfolding trim
trim-append s t h g e =
    ap trim_end (trim_start_plain (s ++ t) (StartsPlain-append s t h)) ∙ trim_end-append s t g e
