-- ===== src/Float/Tests.antt =====
-- Runs of the arithmetic, against what a processor gives.
use ctu_real_time_systems_pr.Base.{negsuc, pos, refl, ◌*ℤ◌, ◌*◌, ◌+ℤ◌, ◌-◌, ◌^◌, ◌≡◌}
use ctu_real_time_systems_pr.Float.{
  negated, infinite, unit, signed_float, round_at, round, rounded, log2, exponent, single, fin, nan,
  add, mul, div, of_int, to_int,
}

-- (float) 16777217 is 16777216.
large_int : of_int single (pos 16777217) ≡ of_int single (pos 16777216)
unfolding of_int exponent log2 rounded round round_at signed_float unit infinite negated ◌*ℤ◌ ◌+ℤ◌
large_int = refl

-- 900 / 7 * 7 is 900 again, and 1.0f / 10 is 13421773 / 2^27.
tenth :
    div single (of_int single (pos 1)) (of_int single (pos 10))
    ≡ fin (pos (13421773 * 2 ^ (1074 - 27)))
unfolding of_int div exponent log2 rounded round round_at signed_float unit infinite negated ◌*ℤ◌
    ◌+ℤ◌
tenth = refl

-- 3000000 + 1.0f / 10 is 3000000: the sum is swallowed.
swallowed :
    add single
      (of_int single (pos 3000000))
      (div single (of_int single (pos 1)) (of_int single (pos 10)))
    ≡ of_int single (pos 3000000)
unfolding of_int div add exponent log2 rounded round round_at signed_float unit infinite negated
    ◌*ℤ◌ ◌+ℤ◌
swallowed = refl

by_zero : mul single (fin (pos 0)) (div single (of_int single (pos 200)) (fin (pos 0))) ≡ nan
unfolding of_int div mul exponent log2 rounded round round_at signed_float unit infinite negated
    ◌*ℤ◌ ◌+ℤ◌
by_zero = refl

cut : (to_int (div single (of_int single (negsuc 6)) (of_int single (pos 2))) ≡ negsuc 2)
unfolding of_int div to_int exponent log2 rounded round round_at signed_float unit infinite negated
    ◌*ℤ◌ ◌+ℤ◌
cut = refl
