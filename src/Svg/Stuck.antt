-- ===== src/Svg/Stuck.antt =====
-- When the loop over the horizontal lines of semestral_project/src/svg_generator.c does not end.
use native.Mathlib.Nat.{mul-le-mul_right, add-mul, div-one, mul_assoc}
use ctu_real_time_systems_pr.Base.{
  ap, arith, negsuc, none, pos, refl, suc, sym, true, zero, ℕ, ℤ, ◌*ℤ◌, ◌*◌, ◌+ℤ◌, ◌+◌, ◌-◌, ◌/◌,
  ◌<◌, ◌^◌, ◌∙◌, ◌≡◌, ◌≤◌,
}
use ctu_real_time_systems_pr.Float.{
  double, log2, round_at, of_int, div, single, fin, rounded, round, exponent, signed_float, Float,
  unit, lt_float,
}
use ctu_real_time_systems_pr.Float.Rounding.{pow_le, pow_add, exponent_eq, round_at_near}
use ctu_real_time_systems_pr.Float.Near.{IsNear, rounded_lem}
use ctu_real_time_systems_pr.Svg.Lines.{add-fin, convert-fin}
use ctu_real_time_systems_pr.Svg.{next_horizontal, first_line, grid}

-- A value that is its own successor, below the upper end.
grid-stuck :
    (fuel : ℕ) (next : Float → Float) (t top : Float)
    → next t ≡ t
    → lt_float t top ≡ true
    → grid fuel next t top ≡ none
unfolding grid
grid-stuck zero next t top same below = refl
grid-stuck (suc fuel) next t top same below = ground (arith, grid-stuck fuel next t top same below)

unit_parts : (unit ≡ 4 * 2 ^ 1072) × (unit ≡ 8 * 2 ^ 1071) × (unit ≡ 2147483648 * 2 ^ 1043)
unfolding unit
unit_parts = (refl, refl, refl)

-- The same over a step e of 2 ^ 1072, so that no large number is computed.
module _ (e n r : ℕ) (step : e ≡ 2 ^ 1072) (low : 2097152 ≤ n) (high : n < 4194304)
    (small : 2 * r < e) where
  from_below : 2 ^ 1095 ≤ n * 4 * e + r
  from_below = let grown = mul-le-mul_right e (n_le low) in omega (arith, grown, powers)
    where
      n_le : 2097152 ≤ n → 8388608 ≤ n * 4
      n_le h = omega arith

      powers : 2 ^ 1095 ≡ 8388608 * e
      powers = pow_add 23 1072 ∙ ap (λ (t : ℕ). 8388608 * t) (sym step)

  from_above : n * 4 * e + r < 2 ^ 1096
  from_above =
      let grown = mul-le-mul_right e (n_le high) in
      omega (arith, grown, powers, add-mul (n * 4) 1 e)
    where
      n_le : n < 4194304 → n * 4 + 1 ≤ 16777216
      n_le h = omega arith

      powers : 2 ^ 1096 ≡ 16777216 * e
      powers = pow_add 24 1072 ∙ ap (λ (t : ℕ). 16777216 * t) (sym step)

  kept : round single (n * 4 * e + r) 1 ≡ n * 4 * e
  unfolding round
  kept =
      let whole : (n * 4 * e + r) / 1 ≡ n * 4 * e + r = div-one (n * 4 * e + r) in
      let k : exponent single ((n * 4 * e + r) / 1) ≡ 1072 = rw whole (
        exponent_eq single (n * 4 * e + r) 1095 from_below from_above (omega arith)
          (omega arith)) in
      let near = rw (← step) at (round_at_near 1072 (n * 4) r (omega (arith, step))) in rw k near

  below_top : n * 4 * e < 2 ^ 1202
  below_top = omega (arith, from_above, pow_le 1096 1202 (omega arith))

  pub stays : rounded single (pos (n * 4 * e + r)) 1 ≡ fin (pos (n * 4 * e))
  unfolding rounded signed_float
  stays = rw kept (ground (arith, below_top))

-- A tenth of 1, in float and in double.
abbrev tenth_single : ℕ
tenth_single = 13421773 * 2 ^ 1047

abbrev tenth_double : ℕ
tenth_double = 3602879701896397 * 2 ^ 1019

tenths :
    (div single (fin (pos unit)) (of_int single (pos 10)) ≡ fin (pos tenth_single))
    × (div double (fin (pos unit)) (of_int double (pos 10)) ≡ fin (pos tenth_double))
unfolding div of_int rounded round round_at exponent log2 signed_float unit ◌*ℤ◌
tenths = (refl, refl)

unit_value : unit ≡ 2 ^ 1074
unfolding unit
unit_value = refl

quarter : ℕ
quarter = 2 ^ 1072

quarter_lem : (quarter ≡ 2 ^ 1072) × (unit ≡ 4 * quarter)
unfolding quarter unit
quarter_lem = (refl, refl)

pos-add : (a b : ℕ) → pos a +ℤ pos b ≡ pos (a + b)
unfolding ◌+ℤ◌
pos-add a b = ground arith

-- The value that double gives is above n by less than an eighth too.
double_rest :
    (e x : ℕ) (s : ℤ)
    → e ≡ 2 ^ 1072
    → IsNear 1 1043 (pos (x + tenth_double)) s
    → (r : ℕ) × (s ≡ pos (x + r)) × (2 * r < e)
double_rest e x (pos y) step near = (y - x, rest x y near, omega (arith, step, near.low, near.high))
  where
    rest : (x y : ℕ) → IsNear 1 1043 (pos (x + tenth_double)) (pos y) → pos y ≡ pos (x + (y - x))
    rest x y near = ap pos (omega (arith, near.low, near.high))
double_rest e x (negsuc y) step near = absurd (omega (arith, near.low, near.high))

-- Where the least value is n steps, from 2 ^ 21 to 2 ^ 22, and the range one step, the first line
-- stands at n, and each next one at n again.
module _ (n : ℕ) (low : 2097152 ≤ n) (high : n < 4194304) where
  fours : n * unit ≡ n * 4 * quarter
  fours = ap (λ (t : ℕ). n * t) (quarter_lem.1) ∙ sym (mul_assoc n 4 quarter)

  kept_at : (r : ℕ) → 2 * r < quarter → rounded single (pos (n * unit + r)) 1 ≡ fin (pos (n * unit))
  kept_at r h = rw fours (stays quarter n r (quarter_lem.0) low high h)

  first_same : first_line (fin (pos (n * unit))) (fin (pos unit)) ≡ fin (pos (n * unit))
  unfolding first_line
  first_same =
      let sum =
        add-fin single (pos (n * unit)) (pos tenth_single)
        ∙ ap (λ (z : ℤ). rounded single z 1) (pos-add (n * unit) tenth_single) in
      rw (tenths.0) (sum ∙ kept_at tenth_single (omega (arith, quarter_lem.0)))

  under : n * unit + unit ≤ 4194304 * unit
  under =
      let grown = λ (p : n + 1 ≤ 4194304). mul-le-mul_right unit p in
      omega (arith, grown (omega arith), add-mul n 1 unit, unit_value)

  double_sum :
      (r : ℕ) × (rounded double (pos (n * unit + tenth_double)) 1 ≡ fin (pos (n * unit + r)))
      × (2 * r < quarter)
  double_sum =
      let (s, e, near) =
        rounded_lem double 1096 1043 (omega arith) (omega arith) (omega arith) (omega arith)
          (pos (n * unit + tenth_double)) 1 (omega arith) (below (n * unit) under) in
      let (r, e', h) = double_rest quarter (n * unit) s (quarter_lem.0) near in
      (r, e ∙ ap fin e', h)
    where
      below : (x : ℕ) → x + unit ≤ 4194304 * unit → x + tenth_double + 0 < 1 * 2 ^ 1096
      below x h = omega (arith, h, unit_value)

  next_same : next_horizontal (fin (pos unit)) (fin (pos (n * unit))) ≡ fin (pos (n * unit))
  unfolding next_horizontal
  next_same =
      let (r, e, h) = double_sum in
      let sum =
        add-fin double (pos (n * unit)) (pos tenth_double)
        ∙ ap (λ (z : ℤ). rounded double z 1) (pos-add (n * unit) tenth_double) in
      rw (tenths.1) (rw (sum ∙ e) (convert-fin (pos (n * unit + r)) ∙ kept_at r h))

  -- The loop over the horizontal lines runs forever: whatever the fuel is, it runs out.
  pub never_ends :
      (fuel : ℕ)
      → grid fuel
          (next_horizontal (fin (pos unit)))
          (first_line (fin (pos (n * unit))) (fin (pos unit)))
          (fin (pos ((n + 1) * unit)))
        ≡ none
  unfolding lt_float
  never_ends fuel = rw first_same (
      grid-stuck fuel (next_horizontal (fin (pos unit))) (fin (pos (n * unit)))
        (fin (pos ((n + 1) * unit))) next_same (ahead n))
    where
      ahead : (n : ℕ) → lt_float (fin (pos (n * unit))) (fin (pos ((n + 1) * unit))) ≡ true
      ahead n = ground (arith, add-mul n 1 unit, unit_value)
