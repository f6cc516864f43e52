-- ===== src/Svg/Axis.antt =====
-- The grid lines of semestral_project/src/svg_generator.c: when their loops end.
use native.Mathlib.Nat.{suc-mul}
use ctu_real_time_systems_pr.Base.{
  Bool-cases, List, [], arith, false, inl, inr, length, ltb_ℤ, ltb→lt, neg_part, pos_part, some,
  suc, true, zero, ℕ, ℤ, ◌*◌, ◌+◌, ◌-◌, ◌<ℤ◌, ◌<◌, ◌∷◌, ◌≡◌, ◌≤ℤ◌, ◌≤◌,
}
use ctu_real_time_systems_pr.Float.{Float, fin, lt_float}
use ctu_real_time_systems_pr.Svg.{grid}

-- A step that gets ahead by more than a 32nd of the range, from a value between the ends.
abbrev pub Advances : (Float → Float) → ℤ → ℤ → ℕ → Type 0
Advances next low top range =
    (t : ℤ)
    → low ≤ℤ t
    → t <ℤ top
    → (t' : ℤ) × (next (fin t) ≡ fin t')
      × (32 * pos_part t + 32 * neg_part t' + range ≤ 32 * pos_part t' + 32 * neg_part t)

grid-round :
    (fuel : ℕ) (next : Float → Float) (t t' top : ℤ) (ts : List Float)
    → ltb_ℤ t top ≡ true
    → next (fin t) ≡ fin t'
    → grid fuel next (fin t') (fin top) ≡ some ts
    → grid (suc fuel) next (fin t) (fin top) ≡ some (fin t ∷ ts)
unfolding grid lt_float
grid-round fuel next t t' top ts before e rest = ground arith

grid-stop :
    (fuel : ℕ) (next : Float → Float) (t top : ℤ)
    → ltb_ℤ t top ≡ false
    → grid (suc fuel) next (fin t) (fin top) ≡ some []
unfolding grid lt_float
grid-stop fuel next t top past = ground arith

-- Then the loop ends: after n rounds, if n steps are enough for the distance.
pub grid-ends :
    (n fuel : ℕ) (next : Float → Float) (low top : ℤ) (range : ℕ) (t : ℤ)
    → Advances next low top range
    → low ≤ℤ t
    → 32 * pos_part top + 32 * neg_part t ≤ 32 * neg_part top + 32 * pos_part t + n * range
    → n < fuel
    → (ts : List Float) × (grid fuel next (fin t) (fin top) ≡ some ts) × (length ts ≤ n)
grid-ends n zero next low top range t step h far fuelled = absurd (omega arith)
grid-ends n (suc fuel) next low top range t step h far fuelled = elim (Bool-cases (ltb_ℤ t top)) [
  | inr past ↦ ([], grid-stop fuel next t top past, omega arith)
  | inl before ↦
      let (t', e, ahead) = step t h (ltb→lt _ _ before) in
      let rounds : n ≡ suc (n - 1) = positive n (ltb→lt _ _ before) far in
      let rest =
        grid-ends (n - 1) fuel next low top range t' step (omega arith)
          (omega (arith, rw rounds at far, suc-mul (n - 1) range)) (omega arith) in
      (fin t ∷ rest.0, grid-round fuel next t t' top rest.0 before e rest.1, omega (arith, rest.2))
]
  where
    positive :
        (n : ℕ)
        → t <ℤ top
        → 32 * pos_part top + 32 * neg_part t ≤ 32 * neg_part top + 32 * pos_part t + n * range
        → n ≡ suc (n - 1)
    positive zero p q = absurd (omega arith)
    positive (suc n) p q = omega arith
