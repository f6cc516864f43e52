-- ===== src/Float/Near.antt =====
-- Rounded numbers that are finite: what `rounded` gives, and how near it is.
use native.Mathlib.Nat.{two-pow-succ, mul_comm, mul-add, mul-le-mul_left, lt_of_mul-lt-mul_left}
use ctu_real_time_systems_pr.Base.{
  abs, ap, arith, false, neg_part, negsuc, pos, pos_part, sub_ℕ, suc, true, zero, ℕ, ℤ, ◌*◌, ◌+◌,
  ◌<◌, ◌^◌, ◌∙◌, ◌≡◌, ◌≤◌,
}
use ctu_real_time_systems_pr.Float.{Format, fin, signed_float, round, rounded}
use ctu_real_time_systems_pr.Float.Rounding.{round_error, round_exact, pow_le}

-- R is z / b up to half of 2 ^ k.
pub record IsNear (b k : ℕ) (z r : ℤ) : Type 0 where
  pub low :
      2 * (pos_part r * b) + 2 * neg_part z ≤ 2 * (neg_part r * b) + 2 * pos_part z + b * 2 ^ k
  pub high :
      2 * (neg_part r * b) + 2 * pos_part z ≤ 2 * (pos_part r * b) + 2 * neg_part z + b * 2 ^ k

signed_float_pos : (f : Format) (n : ℕ) → n < 2 ^ f.top → signed_float f false n ≡ fin (pos n)
unfolding signed_float
signed_float_pos f n h = ground arith

signed_float_neg : (f : Format) (n : ℕ) → n < 2 ^ f.top → signed_float f true n ≡ fin (sub_ℕ 0 n)
unfolding signed_float
signed_float_neg f n h = ground arith

-- Numbers below 2 ^ m, of which the format keeps digits down to 2 ^ k, and which are far below its
-- bound.
module _ (f : Format) (m k : ℕ) (some_digits : 0 < f.digits) (room : k + f.digits ≡ m)
    (coarse : f.finest ≤ k) (bounded : m + 1 ≤ f.top) where
  round_bounded : (a b : ℕ) → 0 < b → a < b * 2 ^ m → round f a b < 2 ^ f.top
  round_bounded a b h small =
      let next : m + 1 ≡ suc m = omega arith in
      let twice : 2 ^ m + 2 ^ m ≤ 2 ^ f.top =
        omega (arith, pow_le (m + 1) f.top bounded, ap (λ (t : ℕ). 2 ^ t) next, two-pow-succ m) in
      let scaled = mul-le-mul_left b twice in
      let steps = mul-le-mul_left b (pow_le k m (omega arith)) in
      lt_of_mul-lt-mul_left b (
        omega (
          arith,
          (round_error f m k some_digits room coarse a b h small).0,
          steps,
          scaled,
          mul-add b (2 ^ m) (2 ^ m),
          mul_comm (round f a b) b,
        ))

  negative-IsNear :
      (a b r : ℕ)
      → (2 * (r * b) ≤ 2 * (a + 1) + b * 2 ^ k) × (2 * (a + 1) ≤ 2 * (r * b) + b * 2 ^ k)
      → IsNear b k (negsuc a) (sub_ℕ 0 r)
  negative-IsNear a b zero h = omega arith
  negative-IsNear a b (suc r) h =
      let e : sub_ℕ 0 (suc r) ≡ negsuc r = ground arith in rw e (omega arith)

  pub rounded_lem :
      (z : ℤ) (b : ℕ)
      → 0 < b
      → abs z < b * 2 ^ m
      → (r : ℤ) × (rounded f z b ≡ fin r) × IsNear b k z r
  unfolding rounded
  rounded_lem (pos n) b h small =
      let near = round_error f m k some_digits room coarse n b h (omega arith) in
      (
        pos (round f n b),
        signed_float_pos f (round f n b) (round_bounded n b h (omega arith)),
        omega (arith, near),
      )
  rounded_lem (negsuc n) b h small =
      let near = round_error f m k some_digits room coarse (n + 1) b h (omega arith) in
      (
        sub_ℕ 0 (round f (n + 1) b),
        signed_float_neg f (round f (n + 1) b) (round_bounded (n + 1) b h (omega arith)),
        negative-IsNear n b (round f (n + 1) b) near,
      )

  -- The same for numbers that are not negative.
  pub rounded_pos_lem :
      (n b : ℕ)
      → 0 < b
      → n < b * 2 ^ m
      → (r : ℕ) × (rounded f (pos n) b ≡ fin (pos r))
        × (2 * (r * b) ≤ 2 * n + b * 2 ^ k)
        × (2 * n ≤ 2 * (r * b) + b * 2 ^ k)
  unfolding rounded
  rounded_pos_lem n b h small =
      let near = round_error f m k some_digits room coarse n b h small in
      (round f n b, signed_float_pos f (round f n b) (round_bounded n b h small), near.0, near.1)

  below_top : (n : ℕ) → n < 2 ^ m → n < 2 ^ f.top
  below_top n h = omega (arith, pow_le m f.top (omega arith))

  -- A multiple of 2 ^ k is kept.
  pub rounded_exact :
      (z : ℤ) (c : ℕ) → abs z ≡ c * 2 ^ k → c * 2 ^ k < 2 ^ m → rounded f z 1 ≡ fin z
  unfolding rounded
  rounded_exact (pos n) c e small =
      let whole : n ≡ c * 2 ^ k = omega (arith, e) in
      let kept = rw (← whole) at (round_exact f m k some_digits room coarse c small) in
      rw kept (signed_float_pos f n (below_top n (omega arith)))
  rounded_exact (negsuc n) c e small =
      let next : n + 1 ≡ c * 2 ^ k = omega (arith, e) in
      let kept = rw (← next) at (round_exact f m k some_digits room coarse c small) in
      rw kept (signed_float_neg f (n + 1) (below_top (n + 1) (omega arith)) ∙ minus n)
    where
      minus : (n : ℕ) → fin (sub_ℕ 0 (n + 1)) ≡ fin (negsuc n)
      minus n = ground arith
