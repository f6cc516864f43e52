-- ===== src/Svg/Plottable.antt =====
-- Data for which the loops of semestral_project/src/svg_generator.c end.
use native.Mathlib.Nat.{mul-le-mul_right, add-mul}
use ctu_real_time_systems_pr.Base.{
  List, Option, [], abs, ap, arith, eq_of_parts, false, length, ltb_ℤ, neg_part, pos, pos_part,
  refl, some, suc, sym, zero, ℕ, ℤ, ◌*ℤ◌, ◌*◌, ◌+ℤ◌, ◌+◌, ◌-ℤ◌, ◌-◌, ◌<◌, ◌^◌, ◌∙◌, ◌≡◌, ◌≤◌,
  -ℤ_parts,
}
use ctu_real_time_systems_pr.Float.{
  Float, single, fin, unit, rounded, add, sub, div, of_int, lt_float, round, round_at, exponent,
  log2, signed_float,
}
use ctu_real_time_systems_pr.Float.Rounding.{pow_add}
use ctu_real_time_systems_pr.Svg.{grid, first_line, next_vertical, next_horizontal}
use ctu_real_time_systems_pr.Svg.Lines.{IsWide, add-fin}
use ctu_real_time_systems_pr.Svg.Integers.{
  unit_value, scaled_parts, abs-scaled, sub-exact, exact_float, lt_float-scaled,
}
use ctu_real_time_systems_pr.Svg.Ends.{vertical_ends, horizontal_ends}
use ctu_real_time_systems_pr.Svg.Extremes.{float_at}

-- The values of an axis are all the same, or their range is 2 ^ k at least, where they are below
-- 2 ^ (19 + k).
pub data IsPlottable (low high : ℤ) : Type 0 where
  flat : low ≡ high → IsPlottable low high
  ranged :
      (k : ℕ)
      → k ≤ 4
      → abs low < 2 ^ (19 + k)
      → abs high < 2 ^ (19 + k)
      → 2 ^ k + pos_part low + neg_part high ≤ pos_part high + neg_part low
      → IsPlottable low high

-- The range, as a number, over any unit.
pub range_parts :
    (u m : ℕ) (low high : ℤ)
    → m + pos_part low + neg_part high ≡ pos_part high + neg_part low
    → (high -ℤ low) *ℤ pos u ≡ pos (m * u)
range_parts u m low high h =
    let whole : high -ℤ low ≡ pos m = eq_of_parts _ _ (omega (arith, -ℤ_parts high low, h)) in
    ap (λ (z : ℤ). z *ℤ pos u) whole ∙ eq_of_parts _ _ (omega (arith, scaled_parts u (pos m)))

module _ (k m : ℕ) (low high : ℤ) (few : k ≤ 4) (low_end : abs low < 2 ^ (19 + k))
    (high_end : abs high < 2 ^ (19 + k))
    (range : m + pos_part low + neg_part high ≡ pos_part high + neg_part low)
    (wide : 2 ^ k ≤ m) where
  end_scaled : (z : ℤ) → abs z < 2 ^ (19 + k) → abs (z *ℤ pos unit) ≤ 2 ^ (1067 + k + 26)
  end_scaled z h =
      let grown = mul-le-mul_right (2 ^ 1074) (le (abs z) (2 ^ (19 + k)) h) in
      omega (
        arith,
        abs-scaled unit z,
        ap (λ (u : ℕ). abs z * u) unit_value,
        grown,
        pow_add (19 + k) 1074,
        ap (λ (n : ℕ). 2 ^ n) order,
      )
    where
      le : (a b : ℕ) → a < b → a ≤ b
      le a b h = omega arith

      order : 19 + k + 1074 ≡ 1067 + k + 26
      order = omega arith

  wide_scaled : 128 * 2 ^ (1067 + k) ≤ m * unit
  wide_scaled =
      let grown = mul-le-mul_right (2 ^ 1074) wide in
      omega (
        arith,
        ap (λ (u : ℕ). m * u) unit_value,
        grown,
        pow_add k 1074,
        pow_add 7 (1067 + k),
        ap (λ (n : ℕ). 2 ^ n) order,
      )
    where
      order : k + 1074 ≡ 7 + (1067 + k)
      order = omega arith

  range_scaled :
      m * unit + pos_part (low *ℤ pos unit) + neg_part (high *ℤ pos unit)
      ≡ pos_part (high *ℤ pos unit) + neg_part (low *ℤ pos unit)
  range_scaled =
      let grown = ap (λ (n : ℕ). n * unit) range in
      omega (
        arith,
        grown,
        add-mul (m + pos_part low) (neg_part high) unit,
        add-mul m (pos_part low) unit,
        add-mul (pos_part high) (neg_part low) unit,
        scaled_parts unit low,
        scaled_parts unit high,
      )

  pub ranged-IsWide : IsWide (1067 + k) (low *ℤ pos unit) (high *ℤ pos unit) (m * unit)
  ranged-IsWide = record {
    coarse = omega arith;
    bounded = omega (arith, few);
    low_end = end_scaled low low_end;
    top_end = end_scaled high high_end;
    wide = wide_scaled;
    spread = omega (arith, range_scaled);
    narrow = omega (arith, range_scaled, end_scaled low low_end, end_scaled high high_end);
  }

-- A tenth of 0, in float.
no_tenth : div single (fin (pos 0)) (of_int single (pos 10)) ≡ fin (pos 0)
unfolding div of_int rounded round round_at exponent log2 signed_float unit ◌*ℤ◌
no_tenth = refl

+ℤ-zero : (z : ℤ) → z +ℤ pos 0 ≡ z
unfolding ◌+ℤ◌
+ℤ-zero z = ground arith

first_line-flat : (z : ℤ) → abs z < 2 ^ 24 → first_line (float_at z) (fin (pos 0)) ≡ float_at z
unfolding first_line
first_line-flat z h =
    ap (λ d. add single (float_at z) d) no_tenth
    ∙ add-fin single (z *ℤ pos unit) (pos 0)
    ∙ ap (λ (t : ℤ). rounded single t 1) (+ℤ-zero (z *ℤ pos unit))
    ∙ exact_float z h

grid-none_left :
    (fuel : ℕ) (next : Float → Float) (t top : Float)
    → 33 < fuel
    → lt_float t top ≡ false
    → grid fuel next t top ≡ some []
unfolding grid
grid-none_left zero next t top f h = absurd (omega arith)
grid-none_left (suc fuel) next t top f h = rw (h, grid)

-- The lines of one of the loops, on an axis from low to high.
abbrev pub axis_lines : ℕ → (Float → Float → Float) → ℤ → ℤ → Option (List Float)
axis_lines fuel next low high =
    let range = sub single (float_at high) (float_at low) in
    grid fuel (next range) (first_line (float_at low) range) (float_at high)

pub sub-same : (z : ℤ) → abs z < 2 ^ 23 → sub single (float_at z) (float_at z) ≡ fin (pos 0)
sub-same z h =
    sub-exact z z h h
    ∙ ap fin (range_parts unit 0 z z (omega arith))
    ∙ ap (λ n. fin (pos n)) (no_multiple unit)
  where
    no_multiple : (u : ℕ) → 0 * u ≡ 0
    no_multiple u = omega arith

-- Where all values are the same no line is drawn.
axis_lines-flat :
    (fuel : ℕ) (next : Float → Float → Float) (z : ℤ)
    → 33 < fuel
    → abs z < 2 ^ 23
    → axis_lines fuel next z z ≡ some []
axis_lines-flat fuel next z enough h =
    ap (λ (r : Float). grid fuel (next r) (first_line (float_at z) r) (float_at z)) (sub-same z h)
    ∙ ap (λ (t : Float). grid fuel (next (fin (pos 0))) t (float_at z))
        (first_line-flat z (grow (abs z) h))
    ∙ grid-none_left fuel (next (fin (pos 0))) (float_at z) (float_at z) enough
        (lt_float-scaled z z ∙ not_below z)
  where
    grow : (n : ℕ) → n < 2 ^ 23 → n < 2 ^ 24
    grow n h = omega (arith, h)

    not_below : (z : ℤ) → ltb_ℤ z z ≡ false
    not_below z = ground arith

-- For each of the two loops.
module _ (next : Float → Float → Float) (fuel : ℕ) (enough : 33 < fuel)
    (wide_ends : (j : ℕ) (low top : ℤ) (range : ℕ)
      → IsWide j low top range
      → (ts : List Float) × (grid fuel
            (next (fin (pos range)))
            (first_line (fin low) (fin (pos range)))
            (fin top)
          ≡ some ts)
        × (length ts ≤ 33)) where
  axis_ends :
      (low high : ℤ)
      → abs low < 2 ^ 23
      → abs high < 2 ^ 23
      → IsPlottable low high
      → (ts : List Float) × (axis_lines fuel next low high ≡ some ts) × (length ts ≤ 33)
  axis_ends low high p q (flat e) = (
    [],
    ap (λ (h : ℤ). axis_lines fuel next low h) (sym e) ∙ axis_lines-flat fuel next low enough p,
    omega arith,
  )
  axis_ends low high p q (ranged k few low_end high_end wide) =
      let m = pos_part high + neg_part low - (pos_part low + neg_part high) in
      let range : m + pos_part low + neg_part high ≡ pos_part high + neg_part low =
        omega (arith, wide) in
      let (ts, e, short) =
        wide_ends _ _ _ _
          (ranged-IsWide k m low high few low_end high_end range (omega (arith, wide))) in
      (
        ts,
        ap (λ (r : Float). grid fuel (next r) (first_line (float_at low) r) (float_at high))
              (sub-exact high low q p ∙ ap fin (range_parts unit m low high range))
            ∙ e,
        short,
      )

pub verticals_end :
    (fuel : ℕ) (low high : ℤ)
    → 33 < fuel
    → abs low < 2 ^ 23
    → abs high < 2 ^ 23
    → IsPlottable low high
    → (ts : List Float) × (axis_lines fuel next_vertical low high ≡ some ts) × (length ts ≤ 33)
verticals_end fuel low high enough p q plottable =
    axis_ends next_vertical fuel enough
      (λ j low top range w. vertical_ends j low top range w fuel enough) low high p q plottable

pub horizontals_end :
    (fuel : ℕ) (low high : ℤ)
    → 33 < fuel
    → abs low < 2 ^ 23
    → abs high < 2 ^ 23
    → IsPlottable low high
    → (ts : List Float) × (axis_lines fuel next_horizontal low high ≡ some ts) × (length ts ≤ 33)
horizontals_end fuel low high enough p q plottable =
    axis_ends next_horizontal fuel enough
      (λ j low top range w. horizontal_ends j low top range w fuel enough) low high p q plottable
