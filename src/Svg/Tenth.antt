-- ===== src/Svg/Tenth.antt =====
-- A tenth of the range of an axis, in float and in double, for semestral_project/src/svg_generator.c.
use native.Mathlib.Nat.{le_of_mul-le-mul_right, mul-le-mul_right, add-mul}
use ctu_real_time_systems_pr.Base.{
  arith, neg_part, pos, pos_part, refl, ℕ, ℤ, ◌*ℤ◌, ◌*◌, ◌+◌, ◌<◌, ◌^◌, ◌∙◌, ◌≡◌, ◌≤◌,
}
use ctu_real_time_systems_pr.Float.{
  Format, round, round_at, exponent, log2, signed_float, single, double, fin, unit, rounded, div,
  of_int,
}
use ctu_real_time_systems_pr.Float.Near.{rounded_lem}

pub ten_single : of_int single (pos 10) ≡ fin (pos (10 * unit))
unfolding of_int rounded round round_at exponent log2 signed_float unit ◌*ℤ◌
ten_single = refl

pub ten_double : of_int double (pos 10) ≡ fin (pos (10 * unit))
unfolding of_int rounded round round_at exponent log2 signed_float unit ◌*ℤ◌
ten_double = refl

pub unit_pos : 0 < unit
unfolding unit
unit_pos = omega arith

pub div-pos :
    (f : Format) (h n : ℕ)
    → 0 < n
    → div f (fin (pos h)) (fin (pos n)) ≡ rounded f (pos (h * unit)) n
unfolding div ◌*ℤ◌
div-pos f h n p = ground arith

-- What a common factor leaves.
cancel :
    (u a b x c : ℕ)
    → 0 < u
    → 2 * (a * (10 * u)) + x * u ≤ 2 * (b * (10 * u)) + c * u
    → 20 * a + x ≤ 20 * b + c
cancel u a b x c p h =
    le_of_mul-le-mul_right {m = 20 * a + x} {n = 20 * b + c} {k = u} (grind arith) p

cancel_low :
    (u p n range e : ℕ)
    → 0 < u
    → 2 * (p * (10 * u)) + 2 * 0 ≤ 2 * (n * (10 * u)) + 2 * (range * u) + 10 * u * e
    → 20 * p ≤ 20 * n + (2 * range + 10 * e)
cancel_low u p n range e h near = omega (arith, cancel u p n 0 (2 * range + 10 * e) h (grind arith))

cancel_high :
    (u p n range e : ℕ)
    → 0 < u
    → 2 * (n * (10 * u)) + 2 * (range * u) ≤ 2 * (p * (10 * u)) + 2 * 0 + 10 * u * e
    → 20 * n + 2 * range ≤ 20 * p + 10 * e
cancel_high u p n range e h near = cancel u n p (2 * range) (10 * e) h (grind arith)

below_tenfold : (u range m : ℕ) → 0 < u → range < 10 * m → range * u + 0 < 10 * u * m
below_tenfold u range m h small =
    let below = λ (p : range + 1 ≤ 10 * m). mul-le-mul_right u p in
    let order : 10 * u * m ≡ 10 * m * u = grind arith in
    omega (arith, below (omega arith), order, add-mul range 1 u)

-- A tenth of a range, up to half of 2 ^ k.
pub tenth_lem :
    (f : Format) (m k range : ℕ)
    → of_int f (pos 10) ≡ fin (pos (10 * unit))
    → 0 < f.digits
    → k + f.digits ≡ m
    → f.finest ≤ k
    → m + 1 ≤ f.top
    → range < 10 * 2 ^ m
    → (d : ℤ) × (div f (fin (pos range)) (of_int f (pos 10)) ≡ fin d)
      × (20 * pos_part d ≤ 20 * neg_part d + (2 * range + 10 * 2 ^ k))
      × (20 * neg_part d + 2 * range ≤ 20 * pos_part d + 10 * 2 ^ k)
tenth_lem f m k range ten some_digits room coarse bounded small =
    let (d, e, near) =
      rounded_lem f m k some_digits room coarse bounded (pos (range * unit)) (10 * unit)
        (omega (arith, unit_pos)) (below_tenfold unit range (2 ^ m) unit_pos small) in
    (
      d,
      rw ten (div-pos f range (10 * unit) (omega (arith, unit_pos)) ∙ e),
      cancel_low unit (pos_part d) (neg_part d) range (2 ^ k) unit_pos near.low,
      cancel_high unit (pos_part d) (neg_part d) range (2 ^ k) unit_pos near.high,
    )
