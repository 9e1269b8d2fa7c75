-- ===== src/Common/Int.antt =====
-- Signed integers over the native numbers, for durations and `int64` differences.
use parkirpintar.Common.Tests.{leb, ltb, if◌then◌else◌}
use Prim.Native.Nat.{ℕ, suc, ◌+◌, ◌-◌, ◌*◌, ◌/◌, ◌%◌}
use mathlib.Core.Bool.{Bool}

-- `negsuc n` is -(n + 1).
pub data ℤ : Type 0 where
  pos : ℕ → ℤ
  negsuc : ℕ → ℤ

abbrev pub pos_part : ℤ → ℕ
pos_part (pos n) = n
pos_part (negsuc n) = 0

abbrev pub neg_part : ℤ → ℕ
neg_part (pos n) = 0
neg_part (negsuc n) = suc n

-- a - b, as an integer.
abbrev pub sub_ℕ : ℕ → ℕ → ℤ
sub_ℕ a b = if leb b a then pos (a - b) else negsuc (b - a - 1)

abbrev pub leb_ℤ : ℤ → ℤ → Bool
leb_ℤ a b = leb (pos_part a + neg_part b) (pos_part b + neg_part a)

-- Division by a positive number, rounded towards zero as Go's conversion to an integer does.
abbrev pub quot_ℤ : ℤ → ℕ → ℤ
quot_ℤ (pos n) d = pos (n / d)
quot_ℤ (negsuc n) d = sub_ℕ 0 (suc n / d)

-- a * d
abbrev pub mul_ℤ : ℤ → ℕ → ℤ
mul_ℤ (pos n) d = pos (n * d)
mul_ℤ (negsuc n) d = sub_ℕ 0 (suc n * d)

-- The value of a conversion to a signed integer of `2 * half` values.
abbrev pub wrap_ℤ : ℕ → ℤ → ℤ
wrap_ℤ half (pos n) =
    let m = n % (half + half) in if ltb m half then pos m else negsuc (half + half - m - 1)
wrap_ℤ half (negsuc n) =
    let m = n % (half + half) in if ltb m half then negsuc m else pos (half + half - m - 1)

abbrev pub to_int32 : ℤ → ℤ
to_int32 = wrap_ℤ 2147483648

abbrev pub to_int64 : ℤ → ℤ
to_int64 = wrap_ℤ 9223372036854775808
