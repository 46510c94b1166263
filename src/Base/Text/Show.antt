-- ===== src/Base/Text/Show.antt =====
-- `String(n)` writes the decimal digits of `n`.
use Prim.Native.Nat.{ℕ, zero, suc, ◌+◌, ◌-◌, ◌*◌, ◌/◌, ◌%◌, ◌≤◌, ◌<◌}
use Prim.Native.Char.{code}
use Prim.Native.String.{String}
use mathlib.Core.Path.{◌≡◌, refl, sym, ap, ◌∙◌, subst}
use mathlib.Core.Bool.{Bool, true, false, ◌&&◌}
use native.Mathlib.Nat.{lt_irrefl}
use native.Mathlib.Omega.{arith}
use mini_drop_test.Base.Tests.{leb, if◌then◌else◌}
use mini_drop_test.Base.Text.{truthy, digit, show_from, show}
use mini_drop_test.Base.Text.Chars.{AllCodes}

abbrev pub is_digit : ℕ → Bool
is_digit c = leb 48 c && leb c 57

-- The number that a text of digits writes after `acc`
unfoldable pub digits_value : ℕ → String → ℕ
digits_value acc String.[] = acc
digits_value acc (String.◌∷◌ c s) = digits_value (acc * 10 + (code c - 48)) s

digit-value : (d : ℕ) → d ≤ 9 → code (digit d) - 48 ≡ d
unfolding digit
digit-value zero h = refl
digit-value (suc zero) h = refl
digit-value (suc (suc (zero))) h = refl
digit-value (suc (suc (suc (zero)))) h = refl
digit-value (suc (suc (suc (suc (zero))))) h = refl
digit-value (suc (suc (suc (suc (suc (zero)))))) h = refl
digit-value (suc (suc (suc (suc (suc (suc (zero))))))) h = refl
digit-value (suc (suc (suc (suc (suc (suc (suc (zero)))))))) h = refl
digit-value (suc (suc (suc (suc (suc (suc (suc (suc (zero))))))))) h = refl
digit-value (suc (suc (suc (suc (suc (suc (suc (suc (suc d))))))))) h = omega arith

digit-is_digit : (d : ℕ) → is_digit (code (digit d)) ≡ true
unfolding digit
digit-is_digit zero = refl
digit-is_digit (suc (zero)) = refl
digit-is_digit (suc (suc (zero))) = refl
digit-is_digit (suc (suc (suc (zero)))) = refl
digit-is_digit (suc (suc (suc (suc (zero))))) = refl
digit-is_digit (suc (suc (suc (suc (suc (zero)))))) = refl
digit-is_digit (suc (suc (suc (suc (suc (suc (zero))))))) = refl
digit-is_digit (suc (suc (suc (suc (suc (suc (suc (zero)))))))) = refl
digit-is_digit (suc (suc (suc (suc (suc (suc (suc (suc (zero))))))))) = refl
digit-is_digit (suc (suc (suc (suc (suc (suc (suc (suc (suc d))))))))) = refl

AllCodes-if :
    (p : ℕ → Bool) (b : Bool) (s t : String)
    → AllCodes p s
    → AllCodes p t
    → AllCodes p (if b then s else t)
AllCodes-if p true s t h g = h
AllCodes-if p false s t h g = g

show_from-AllCodes :
    (fuel n : ℕ) (s : String) → AllCodes is_digit s → AllCodes is_digit (show_from fuel n s)
unfolding show_from
show_from-AllCodes zero n s h = h
show_from-AllCodes (suc fuel) n s h =
    AllCodes-if is_digit (leb n 9) (String.◌∷◌ (digit n) s)
      (show_from fuel (n / 10) (String.◌∷◌ (digit (n % 10)) s)) (digit-is_digit n, h)
      (show_from-AllCodes fuel (n / 10) (String.◌∷◌ (digit (n % 10)) s)
        (digit-is_digit (n % 10), h))

digits_value-cons :
    (acc d v : ℕ) (s : String)
    → acc * 10 + d ≡ v
    → d ≤ 9
    → digits_value acc (String.◌∷◌ (digit d) s) ≡ digits_value v s
unfolding digits_value
digits_value-cons acc d v s e h =
    ap (λ e. digits_value (acc * 10 + e) s) (digit-value d h) ∙ ap (λ v. digits_value v s) e

digits_value-if :
    (n : ℕ) (b : Bool) (s t u : String)
    → leb n 9 ≡ b
    → (n ≤ 9 → digits_value 0 s ≡ digits_value n t)
    → (9 < n → digits_value 0 u ≡ digits_value n t)
    → digits_value 0 (if b then s else u) ≡ digits_value n t
digits_value-if n true s t u e h g = h (ground arith)
digits_value-if n false s t u e h g = g (ground arith)

digits_value-show_from :
    (fuel n : ℕ) (s : String) → n < fuel → digits_value 0 (show_from fuel n s) ≡ digits_value n s
unfolding show_from
digits_value-show_from zero n s h = elim h [ ]
digits_value-show_from (suc fuel) n s h =
    let last = String.◌∷◌ (digit (n % 10)) s in
    digits_value-if n (leb n 9) (String.◌∷◌ (digit n) s) s (show_from fuel (n / 10) last) refl
      (digits_value-cons 0 n n s (omega arith))
      λ g.
        digits_value-show_from fuel (n / 10) last (omega arith)
        ∙ digits_value-cons (n / 10) (n % 10) n s (omega arith) (omega arith)

pub show-AllCodes : (n : ℕ) → AllCodes is_digit (show n)
unfolding show
show-AllCodes n = show_from-AllCodes (suc n) n String.[] tt

pub digits_value-show : (n : ℕ) → digits_value 0 (show n) ≡ n
unfolding show digits_value
digits_value-show n = digits_value-show_from (suc n) n String.[] (omega arith)

value-truthy : (s : String) → 0 < digits_value 0 s → truthy s ≡ true
unfolding digits_value
value-truthy String.[] h = elim (lt_irrefl 0 h) [ ]
value-truthy (String.◌∷◌ c s) h = refl

pub truthy-show : (n : ℕ) → 0 < n → truthy (show n) ≡ true
truthy-show n h = value-truthy (show n) (subst (λ m. 0 < m) (sym (digits_value-show n)) h)
