-- ===== src/Svg/Accuracy/Points.antt =====
-- Where semestral_project/src/svg_generator.c places the points of a plot of integers.
use ctu_real_time_systems_pr.Base.{
  abs, ap, ap₂, arith, neg_part, negsuc, pos, pos_part, ℕ, ℤ, ◌*◌, ◌+◌, ◌-◌, ◌<ℤ◌, ◌<◌, ◌^◌, ◌∙◌,
  ◌≡◌, ◌≤ℤ◌, ◌≤◌,
}
use ctu_real_time_systems_pr.Float.{Float, single, fin, unit, mul, div, sub, log2}
use ctu_real_time_systems_pr.Float.Rounding.{log2_low, log2_high, pow_lt}
use ctu_real_time_systems_pr.Svg.{SvgContext, cordx, cordy}
use ctu_real_time_systems_pr.Svg.Draw.{of_ℕ, pixels_per, plot_context}
use ctu_real_time_systems_pr.Svg.Integers.{unit_value, sub-exact, of_int-exact, scaled-pos}
use ctu_real_time_systems_pr.Svg.Extremes.{float_at}
use ctu_real_time_systems_pr.Svg.Plottable.{range_parts}
use ctu_real_time_systems_pr.Svg.Accuracy.{place_lem}

-- How far z is above low, as a number.
abbrev pub above : ℤ → ℤ → ℕ
above low z = pos_part z + neg_part low - (pos_part low + neg_part z)

-- v is the place of z on an axis of w pixels from low to high, up to a part of 8192 of a pixel, and not
-- before the start of the axis.
abbrev pub IsPlaced : ℕ → ℤ → ℤ → ℤ → Float → Type 0
IsPlaced w low high z v =
    (r : ℕ) × (v ≡ fin (pos r))
    × (8192 * (r * above low high) ≤ 8192 * (w * above low z * unit) + above low high * unit)
    × (8192 * (w * above low z * unit) ≤ 8192 * (r * above low high) + above low high * unit)

-- An axis whose ends differ, with a value on it.
pub record IsOn (low high z : ℤ) : Type 0 where
  pub low_small : abs low < 2 ^ 23
  pub high_small : abs high < 2 ^ 23
  pub wide : low <ℤ high
  pub from_low : low ≤ℤ z
  pub to_high : z ≤ℤ high

difference :
    (low z : ℤ)
    → abs low < 2 ^ 23
    → abs z < 2 ^ 23
    → low ≤ℤ z
    → sub single (float_at z) (float_at low) ≡ fin (pos (above low z * unit))
difference low z h k p =
    sub-exact z low k h ∙ ap fin (range_parts unit (above low z) low z (omega (arith, p)))

finer :
    (r range w d u : ℕ)
    → u ≡ 16384 * 2 ^ 1060
    → 2 * (r * range) ≤ 2 * (w * d * u) + 3 * (range * 2 ^ 1060)
    → 8192 * (r * range) ≤ 8192 * (w * d * u) + range * u
finer r range w d u e h = omega (arith, h, ap (λ (n : ℕ). range * n) e)

finer_back :
    (r range w d u : ℕ)
    → u ≡ 16384 * 2 ^ 1060
    → 2 * (w * d * u) ≤ 2 * (r * range) + 3 * (range * 2 ^ 1060)
    → 8192 * (w * d * u) ≤ 8192 * (r * range) + range * u
finer_back r range w d u e h = omega (arith, h, ap (λ (n : ℕ). range * n) e)

placed :
    (w : ℕ) (low high z : ℤ)
    → w ≤ 1000
    → IsOn low high z
    → IsPlaced w low high z (
        mul single
          (sub single (float_at z) (float_at low))
          (pixels_per w (float_at low) (float_at high)))
placed w low high z fits on =
    let range = above low high in
    let j = log2 5 range in
    let narrow : range < 2 ^ 24 = omega (arith, on.low_small, on.high_small) in
    let some_range : 0 < range = omega (arith, on.wide) in
    let digits = log2_low 5 range some_range in
    let z_small = between low high z on in
    let (r, e, low_bound, high_bound) =
      place_lem w range j fits digits (log2_high 5 range (omega (arith, narrow)))
        (few range j digits narrow) (above low z) (omega (arith, on.from_low, on.to_high)) in
    (
      r,
      ap₂ (mul single) (difference low z on.low_small z_small on.from_low) (
            ap₂ (div single) (whole w (omega (arith, fits)))
              (difference low high on.low_small on.high_small (omega (arith, on.wide))))
          ∙ e,
      finer r range w (above low z) unit step low_bound,
      finer_back r range w (above low z) unit step high_bound,
    )
  where
    few : (range j : ℕ) → 2 ^ j ≤ range → range < 2 ^ 24 → j ≤ 23
    few range j h k = omega (arith, pow_lt j 24 (omega (arith, h, k)))

    whole : (w : ℕ) → w < 2 ^ 24 → of_ℕ w ≡ fin (pos (w * unit))
    whole w h = of_int-exact (pos w) (omega (arith, h)) ∙ ap fin (scaled-pos w)

    step : unit ≡ 16384 * 2 ^ 1060
    step = unit_value

    between : (low high z : ℤ) → IsOn low high z → abs z < 2 ^ 23
    between low high (pos n) on = omega (arith, on.to_high, on.high_small)
    between low high (negsuc n) on = omega (arith, on.from_low, on.low_small)

-- In a plot of integers below 2 ^ 23 in magnitude, whose ends differ on both axes, each point lies in
-- the pixels of the plot, 900 wide and 200 high, where its values lie in their ranges: no float on the
-- way adds more than a part of 8192 of a pixel.
pub points-IsPlaced :
    (ctx : SvgContext) (min_x max_x x min_y max_y y : ℤ)
    → IsOn min_x max_x x
    → IsOn min_y max_y y
    → let drawn =
        plot_context ctx (float_at min_x, float_at max_x) (float_at min_y, float_at max_y) in
      IsPlaced 900 min_x max_x x (cordx drawn (float_at x))
      × IsPlaced 200 min_y max_y y (cordy drawn (float_at y))
unfolding cordx cordy
points-IsPlaced ctx min_x max_x x min_y max_y y on_x on_y =
    (placed 900 min_x max_x x (omega arith) on_x, placed 200 min_y max_y y (omega arith) on_y)
