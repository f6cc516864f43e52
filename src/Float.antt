-- ===== src/Float.antt =====
-- The arithmetic of `float` and `double` in C, as IEEE 754 has it: each result is the nearest number
-- of the format, and of two that are as near the one with an even last digit. A finite number is an
-- integer, in units of 2^-1074, of which both formats hold multiples only. The sign of a zero is not
-- kept.
pub mod Rounding
pub mod Near
mod Tests
use ctu_real_time_systems_pr.Base.{
  Bool, false, if◌then◌else◌, leb, ltb, ltb_ℤ, max, neg, negsuc, pos, sub_ℕ, suc, true, zero, ℕ, ℤ,
  ◌%◌, ◌&&◌, ◌*ℤ◌, ◌*◌, ◌+ℤ◌, ◌+◌, ◌-◌, ◌/◌, ◌==◌, ◌^◌, ◌||◌,
}

-- The digits of a format, the exponents of its finest step and of its bound over the unit.
pub record Format : Type 0 where
  pub digits : ℕ
  pub finest : ℕ
  pub top : ℕ

abbrev pub single : Format
single = record { digits = 24; finest = 925; top = 1202 }

abbrev pub double : Format
double = record { digits = 53; finest = 0; top = 2098 }

pub data Float : Type 0 where
  fin : ℤ → Float
  inf minus_inf nan : Float

-- 1.0
unfoldable pub unit : ℕ
unit = 2 ^ 1074

-- The exponent of the highest digit of a number below 2 ^ 2 ^ levels, and 0 for 0.
unfoldable pub log2 : ℕ → ℕ → ℕ
log2 zero n = 0
log2 (suc levels) n = elim (leb (2 ^ 2 ^ levels) n) [
  | true ↦ 2 ^ levels + log2 levels (n / 2 ^ 2 ^ levels)
  | false ↦ log2 levels n
]

-- The exponent of the last digit that a format keeps of n.
unfoldable pub exponent : Format → ℕ → ℕ
exponent f n = max f.finest (log2 13 n + 1 - f.digits)

-- a / b as the nearest multiple of 2 ^ k.
unfoldable pub round_at : ℕ → ℕ → ℕ → ℕ
round_at k a b =
    let d = b * 2 ^ k in
    let q = a / d in
    let r = a % d in (if ltb (2 * r) d || ((2 * r == d) && (q % 2 == 0)) then q else q + 1) * 2 ^ k

unfoldable pub round : Format → ℕ → ℕ → ℕ
round f a b = round_at (exponent f (a / b)) a b

-- A rounded magnitude with its sign.
unfoldable pub signed_float : Format → Bool → ℕ → Float
signed_float f negative n =
    if ltb n (2 ^ f.top)
    then fin (if negative then sub_ℕ 0 n else pos n)
    else (if negative then minus_inf else inf)

-- z / b, for b above 0
unfoldable pub rounded : Format → ℤ → ℕ → Float
rounded f (pos n) b = signed_float f false (round f n b)
rounded f (negsuc n) b = signed_float f true (round f (n + 1) b)

unfoldable pub negated : Float → Float
negated (fin z) = fin (neg z)
negated inf = minus_inf
negated minus_inf = inf
negated nan = nan

unfoldable pub add : Format → Float → Float → Float
add f (fin a) (fin b) = rounded f (a +ℤ b) 1
add f nan y = nan
add f (fin a) y = y
add f inf nan = nan
add f inf minus_inf = nan
add f inf y = inf
add f minus_inf nan = nan
add f minus_inf inf = nan
add f minus_inf y = minus_inf

unfoldable pub sub : Format → Float → Float → Float
sub f x y = add f x (negated y)

-- An infinity with the sign of a number that is not zero.
unfoldable pub infinite : ℤ → Bool → Float
infinite (pos zero) positive = nan
infinite (pos (suc n)) positive = if positive then inf else minus_inf
infinite (negsuc n) positive = if positive then minus_inf else inf

unfoldable pub mul : Format → Float → Float → Float
mul f (fin a) (fin b) = rounded f (a *ℤ b) unit
mul f nan y = nan
mul f (fin a) inf = infinite a true
mul f (fin a) minus_inf = infinite a false
mul f (fin a) nan = nan
mul f inf (fin b) = infinite b true
mul f inf inf = inf
mul f inf minus_inf = minus_inf
mul f inf nan = nan
mul f minus_inf (fin b) = infinite b false
mul f minus_inf inf = minus_inf
mul f minus_inf minus_inf = inf
mul f minus_inf nan = nan

-- x / y; a zero below the line counts as positive.
unfoldable pub div : Format → Float → Float → Float
div f (fin a) (fin (pos zero)) = infinite a true
div f (fin a) (fin (pos (suc n))) = rounded f (a *ℤ pos unit) (suc n)
div f (fin a) (fin (negsuc n)) = rounded f (neg a *ℤ pos unit) (suc n)
div f (fin a) nan = nan
div f (fin a) y = fin (pos 0)
div f nan y = nan
div f inf (fin b) = if ltb_ℤ b (pos 0) then minus_inf else inf
div f inf y = nan
div f minus_inf (fin b) = if ltb_ℤ b (pos 0) then inf else minus_inf
div f minus_inf y = nan

-- x < y
unfoldable pub lt_float : Float → Float → Bool
lt_float (fin a) (fin b) = ltb_ℤ a b
lt_float nan y = false
lt_float (fin a) inf = true
lt_float (fin a) y = false
lt_float inf y = false
lt_float minus_inf nan = false
lt_float minus_inf minus_inf = false
lt_float minus_inf y = true

-- The conversion of an integer, and of a number of the one format to the other.
unfoldable pub of_int : Format → ℤ → Float
of_int f z = rounded f (z *ℤ pos unit) 1

unfoldable pub convert : Format → Float → Float
convert f (fin z) = rounded f z 1
convert f y = y

-- (int) x; without meaning in C for what is no int.
unfoldable pub to_int : Float → ℤ
to_int (fin (pos n)) = pos (n / unit)
to_int (fin (negsuc n)) = sub_ℕ 0 ((n + 1) / unit)
to_int y = pos 0
