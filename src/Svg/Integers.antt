-- ===== src/Svg/Integers.antt =====
-- The integers that semestral_project/src/svg_generator.c plots: as floats they and their
-- differences are exact.
use native.Mathlib.Nat.{lt_of_mul-lt-mul_right, mul-lt-mul_of_pos_right, add-mul}
use ctu_real_time_systems_pr.Base.{
  +ℤ_parts, abs, ap, arith, eq_of_parts, ltb, ltb_ℤ, neg, neg_part, negsuc, pos, pos_part, refl, ℕ,
  ℤ, ◌*ℤ◌, ◌*◌, ◌+ℤ◌, ◌+◌, ◌-ℤ◌, ◌<◌, ◌^◌, ◌∙◌, ◌≡◌, -ℤ_parts,
}
use ctu_real_time_systems_pr.Float.{single, fin, unit, rounded, of_int, lt_float, sub, add, negated}
use ctu_real_time_systems_pr.Float.Near.{rounded_exact}

pub unit_value : unit ≡ 2 ^ 1074
unfolding unit
unit_value = refl

pub scaled_parts :
    (u : ℕ) (z : ℤ)
    → (pos_part (z *ℤ pos u) ≡ pos_part z * u) × (neg_part (z *ℤ pos u) ≡ neg_part z * u)
unfolding ◌*ℤ◌
scaled_parts u (pos n) = ground arith
scaled_parts u (negsuc n) = ground arith

pub abs-scaled : (u : ℕ) (z : ℤ) → abs (z *ℤ pos u) ≡ abs z * u
abs-scaled u z = omega (arith, scaled_parts u z, add-mul (pos_part z) (neg_part z) u)

-- A multiple of 1.0 that a float has enough digits for.
pub exact_float : (z : ℤ) → abs z < 2 ^ 24 → rounded single (z *ℤ pos unit) 1 ≡ fin (z *ℤ pos unit)
exact_float z h =
    rounded_exact single 1098 1074 (omega arith) (omega arith) (omega arith) (omega arith)
      (z *ℤ pos unit) (abs z) (abs-scaled unit z ∙ ap (λ (u : ℕ). abs z * u) unit_value)
      (small (abs z) h)
  where
    small : (n : ℕ) → n < 2 ^ 24 → n * 2 ^ 1074 < 2 ^ 1098
    small n h = omega (arith, h)

pub of_int-exact : (z : ℤ) → abs z < 2 ^ 24 → of_int single z ≡ fin (z *ℤ pos unit)
unfolding of_int
of_int-exact z h = exact_float z h

scaled_difference : (u : ℕ) (a b : ℤ) → a *ℤ pos u +ℤ neg (b *ℤ pos u) ≡ (a -ℤ b) *ℤ pos u
scaled_difference u a b =
    let grown : (pos_part (a -ℤ b) + neg_part a + pos_part b) * u
        ≡ (neg_part (a -ℤ b) + pos_part a + neg_part b) * u =
      ap (λ (n : ℕ). n * u) (-ℤ_parts a b) in
    eq_of_parts _ _ (
      grind (
        arith,
        grown,
        scaled_parts u a,
        scaled_parts u b,
        scaled_parts u (a -ℤ b),
        +ℤ_parts (a *ℤ pos u) (neg (b *ℤ pos u)),
      ))

pub sub-exact :
    (a b : ℤ)
    → abs a < 2 ^ 23
    → abs b < 2 ^ 23
    → sub single (fin (a *ℤ pos unit)) (fin (b *ℤ pos unit)) ≡ fin ((a -ℤ b) *ℤ pos unit)
unfolding sub add negated
sub-exact a b h k =
    ap (λ (z : ℤ). rounded single z 1) (scaled_difference unit a b)
    ∙ exact_float (a -ℤ b) (below (a -ℤ b) (-ℤ_parts a b))
  where
    below :
        (d : ℤ)
        → pos_part d + neg_part a + pos_part b ≡ neg_part d + pos_part a + neg_part b
        → abs d < 2 ^ 24
    below (pos n) e = omega (arith, e, h, k)
    below (negsuc n) e = omega (arith, e, h, k)

unit_pos : 0 < unit
unfolding unit
unit_pos = omega arith

ltb_same : (a b c d : ℕ) → (a < b → c < d) → (c < d → a < b) → ltb a b ≡ ltb c d
ltb_same a b c d h k = ground (arith, h, k)

pub lt_float-scaled : (a b : ℤ) → lt_float (fin (a *ℤ pos unit)) (fin (b *ℤ pos unit)) ≡ ltb_ℤ a b
unfolding lt_float
lt_float-scaled a b =
    let left = add-mul (pos_part a) (neg_part b) unit in
    let right = add-mul (pos_part b) (neg_part a) unit in
    ltb_same _ _ _ _
      (λ h.
        lt_of_mul-lt-mul_right unit
          (omega (arith, h, left, right, scaled_parts unit a, scaled_parts unit b)))
      (λ h.
        let grown = mul-lt-mul_of_pos_right h unit_pos in
        omega (arith, grown, left, right, scaled_parts unit a, scaled_parts unit b))

pub scaled-pos : (n : ℕ) → pos n *ℤ pos unit ≡ pos (n * unit)
scaled-pos n =
    eq_of_parts (pos n *ℤ pos unit) (pos (n * unit)) (omega (arith, scaled_parts unit (pos n)))
