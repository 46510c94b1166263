-- ===== src/TaskResult/Bytes.antt =====
-- formatBytes, for natural numbers of bytes: dividing by 1024 is exact, and `toFixed(2)` rounds the
-- exact quotient, halves up.
use Prim.Native.String.{◌++◌}
use mini_drop_test.Base.{
  ℕ, zero, suc, ◌+◌, ◌*◌, ◌/◌, ◌%◌, ◌^◌, ◌≤◌, ◌<◌, ◌≡◌, refl, String, leb, ltb, ◌==◌, if◌then◌else◌,
  show, arith, ◌⊎◌,
}

-- Units left, the unit's index and the bytes in one unit
unit_from : ℕ → ℕ → ℕ → ℕ → ℕ
unit_from zero value index bytes = index
unit_from (suc left) value index bytes =
    let larger = unit_from left value (suc index) (1024 * bytes) in
    if leb (1024 * bytes) value then larger else index

-- The `while` loop: the index of the unit, of B, KB, MB, GB and TB
unfoldable pub unit_index : ℕ → ℕ
unfolding unit_from
unit_index value = unit_from 4 value 0 1

units : ℕ → String
units zero = "B"
units (suc zero) = "KB"
units (suc (suc zero)) = "MB"
units (suc (suc (suc zero))) = "GB"
units _ = "TB"

two_digits : ℕ → String
two_digits n = if ltb n 10 then "0" ++ show n else show n

-- `toFixed(2)` of a number of hundredths
fixed : ℕ → String
unfolding two_digits
fixed hundredths = show (hundredths / 100) ++ ("." ++ two_digits (hundredths % 100))

-- The hundredths nearest to `value / bytes`
abbrev hundredths : ℕ → ℕ → ℕ
hundredths value bytes = (200 * value + bytes) / (2 * bytes)

unfoldable pub format_bytes : ℕ → String
unfolding unit_index units fixed
format_bytes zero = "0 B"
format_bytes (suc n) =
    let index = unit_index (suc n) in
    (if index == 0 then show (suc n) else fixed (hundredths (suc n) (1024 ^ index)))
    ++ (" " ++ units index)

-- The unit is the largest that goes into a positive value: the value is at least one of it, and
-- less than 1024 of it unless it is the last.
pub unit_index_bounds :
    (value : ℕ)
    → 0 < value
    → (unit_index value ≤ 4)
      × (1024 ^ unit_index value ≤ value)
      × ((unit_index value ≡ 4) ⊎ (value < 1024 ^ (unit_index value + 1)))
unfolding unit_index
unit_index_bounds value h = ground arith

format_bytes_example : format_bytes 1536 ≡ "1.50 KB"
unfolding format_bytes show
format_bytes_example = refl
