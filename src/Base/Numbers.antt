-- ===== src/Base/Numbers.antt =====
-- Integers over the native numbers, and JavaScript numbers as far as the forms look at them.
use Prim.Native.Nat.{ℕ, zero, suc}
use mathlib.Core.Bool.{Bool, true, false, not}
use mini_drop_test.Base.Tests.{ltb, leb, if◌then◌else◌}

-- `negsuc n` is -(n + 1).
pub data ℤ : Type 0 where
  pos : ℕ → ℤ
  negsuc : ℕ → ℤ

abbrev pub abs : ℤ → ℕ
abs (pos n) = n
abs (negsuc n) = suc n

-- A JavaScript number: not a number, an infinity, an integer, or a number strictly between `z` and
-- `z + 1`. Comparisons with integers and `Math.floor` need no more.
pub data Number : Type 0 where
  nan : Number
  infinite : Bool → Number
  int : ℤ → Number
  frac : ℤ → Number

-- `n <= x` for a natural number `n`
abbrev pub at_least : ℕ → Number → Bool
at_least n nan = false
at_least n (infinite positive) = positive
at_least n (int (pos k)) = leb n k
at_least n (int (negsuc k)) = false
at_least n (frac (pos k)) = leb n k
at_least n (frac (negsuc k)) = false

-- `x <= n`
abbrev pub at_most : ℕ → Number → Bool
at_most n nan = false
at_most n (infinite positive) = not positive
at_most n (int (pos k)) = leb k n
at_most n (int (negsuc k)) = true
at_most n (frac (pos k)) = ltb k n
at_most n (frac (negsuc k)) = true

-- `x > 0`
abbrev pub is_positive : Number → Bool
is_positive nan = false
is_positive (infinite positive) = positive
is_positive (int (pos k)) = ltb 0 k
is_positive (int (negsuc k)) = false
is_positive (frac (pos k)) = true
is_positive (frac (negsuc k)) = false

-- `Number.isInteger(x)`
abbrev pub is_integer : Number → Bool
is_integer (int z) = true
is_integer _ = false

-- `Boolean(x)`
abbrev pub num_truthy : Number → Bool
num_truthy nan = false
num_truthy (int (pos zero)) = false
num_truthy _ = true

-- `x || d`
abbrev pub num_or : Number → Number → Number
num_or nan d = d
num_or (int (pos zero)) d = d
num_or x d = x

-- `Math.floor(x)`
abbrev pub floor : Number → Number
floor (frac z) = int z
floor x = x

-- `Math.max(n, x)` and `Math.min(n, x)`
abbrev pub max_with : ℕ → Number → Number
max_with n nan = nan
max_with n x = if at_least n x then x else int (pos n)

abbrev pub min_with : ℕ → Number → Number
min_with n nan = nan
min_with n x = if at_most n x then x else int (pos n)
