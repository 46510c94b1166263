-- ===== src/Base/Text/Chars.antt =====
-- Texts all of whose code points pass a test, and what an append does to them.
use Prim.Native.Nat.{ℕ}
use Prim.Native.Char.{code}
use Prim.Native.String.append
use Prim.Native.String.{String, ◌++◌}
use mathlib.Core.Path.{◌≡◌, refl}
use mathlib.Core.Logic.{◌≢◌}
use mathlib.Core.Bool.{Bool, ◌&&◌, true}
use mathlib.Core.Option.{Option, none, some}
use mini_drop_test.Base.Tests.{&&-eq-true}
use mini_drop_test.Base.Text.{truthy, or_text, or_else}

abbrev pub AllCodes : (ℕ → Bool) → String → Type 0
AllCodes p String.[] = Unit
AllCodes p (String.◌∷◌ c s) = (p (code c) ≡ true) × AllCodes p s

pub AllCodes-append :
    (p : ℕ → Bool) (s t : String) → AllCodes p s → AllCodes p t → AllCodes p (s ++ t)
AllCodes-append p String.[] t h g = rw (append.nil t) g
AllCodes-append p (String.◌∷◌ c s) t (h, hs) g =
    rw (append.cons c s t) (h, AllCodes-append p s t hs g)

pub truthy-append : (s t : String) → truthy s ≡ true → truthy (s ++ t) ≡ true
truthy-append String.[] t h = cc
truthy-append (String.◌∷◌ c s) t h = rw (append.cons c s t)

pub truthy-append_right : (s t : String) → truthy t ≡ true → truthy (s ++ t) ≡ true
truthy-append_right String.[] t h = rw (append.nil t) h
truthy-append_right (String.◌∷◌ c s) t h = rw (append.cons c s t)

pub AllCodes-weaken :
    (p q : ℕ → Bool)
    → ((c : ℕ) → p c ≡ true → q c ≡ true)
    → (s : String) → AllCodes p s
    → AllCodes q s
AllCodes-weaken p q f String.[] h = tt
AllCodes-weaken p q f (String.◌∷◌ c s) (h, hs) = (f (code c) h, AllCodes-weaken p q f s hs)

abbrev pub all_codes : (ℕ → Bool) → String → Bool
all_codes p String.[] = true
all_codes p (String.◌∷◌ c s) = let rest = all_codes p s in p (code c) && rest

pub AllCodes-by_test : (p : ℕ → Bool) (s : String) → all_codes p s ≡ true → AllCodes p s
AllCodes-by_test p String.[] h = tt
AllCodes-by_test p (String.◌∷◌ c s) h =
    let both = &&-eq-true (p (code c)) (all_codes p s) h in (both.0, AllCodes-by_test p s both.1)

pub truthy-or_text : (s t : String) → truthy t ≡ true → truthy (or_text s t) ≡ true
truthy-or_text String.[] t h = h
truthy-or_text (String.◌∷◌ c s) t h = refl

pub truthy-or_else :
    (o : Option String) (t : String) → truthy t ≡ true → truthy (or_else o t) ≡ true
truthy-or_else none t h = h
truthy-or_else (some s) t h = truthy-or_text s t h

pub truthy-ne : (s : String) → truthy s ≡ true → s ≢ ""
truthy-ne String.[] h e = cc h
truthy-ne (String.◌∷◌ c s) h e = cc
