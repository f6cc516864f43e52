-- ===== src/Base/Words.antt =====
-- Machine words. An unsigned word is a number below 2 ^ w; an `int32_t` is an integer that wraps
-- into its range; a shift by k is a multiplication or a division by 2 ^ k.
use Prim.Native.Nat.{ℕ, ◌+◌, ◌-◌, ◌*◌, ◌/◌, ◌%◌, ◌^◌}
use mathlib.Core.Path.{◌≡◌}
use mathlib.Core.Bool.{Bool}
use native.Mathlib.Omega.{arith}
use ctu_real_time_systems_pr.Base.Tests.{ltb, ◌==◌, if◌then◌else◌}
use ctu_real_time_systems_pr.Base.Int.{ℤ, pos, negsuc, ◌≤ℤ◌}

-- Conversion to `uint32_t`, and `a - b` on `uint32_t`.
abbrev pub u32 : ℕ → ℕ
u32 n = n % 2 ^ 32

abbrev pub sub_u32 : ℕ → ℕ → ℕ
sub_u32 a b = (a + 2 ^ 32 - b) % 2 ^ 32

abbrev pub u64 : ℕ → ℕ
u64 n = n % 2 ^ 64

-- `x & BIT(i)` is not zero.
abbrev pub has_bit : ℕ → ℕ → Bool
has_bit x i = x / 2 ^ i % 2 == 1

-- Conversion to a w-bit two's complement integer, for w = 8 and w = 32.
abbrev pub signed : ℕ → ℕ → ℤ
signed half w = if ltb w half then pos w else negsuc (2 * half - w - 1)

abbrev pub wrap : ℕ → ℤ → ℤ
wrap half (pos n) = signed half (n % (2 * half))
wrap half (negsuc n) = signed half (2 * half - 1 - n % (2 * half))

unfoldable pub i8 : ℤ → ℤ
i8 z = wrap (2 ^ 7) z

unfoldable pub i32 : ℤ → ℤ
i32 z = wrap (2 ^ 31) z

-- The values of `int8_t` and `int32_t`.
abbrev pub IsI8 : ℤ → Type 0
IsI8 z = (negsuc (2 ^ 7 - 1) ≤ℤ z) × (z ≤ℤ pos (2 ^ 7 - 1))

abbrev pub IsI32 : ℤ → Type 0
IsI32 z = (negsuc (2 ^ 31 - 1) ≤ℤ z) × (z ≤ℤ pos (2 ^ 31 - 1))

pub i32-IsI32 : (z : ℤ) → IsI32 (i32 z)
unfolding i32
i32-IsI32 (pos n) = ground arith
i32-IsI32 (negsuc n) = ground arith

pub i8-IsI8 : (z : ℤ) → IsI8 (i8 z)
unfolding i8
i8-IsI8 (pos n) = ground arith
i8-IsI8 (negsuc n) = ground arith

pub i32_id : (z : ℤ) → IsI32 z → i32 z ≡ z
unfolding i32
i32_id (pos n) h = ground arith
i32_id (negsuc n) h = ground arith

pub i8_id : (z : ℤ) → IsI8 z → i8 z ≡ z
unfolding i8
i8_id (pos n) h = ground arith
i8_id (negsuc n) h = ground arith
