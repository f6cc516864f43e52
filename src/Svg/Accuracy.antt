-- ===== src/Svg/Accuracy.antt =====
-- How exactly semestral_project/src/svg_generator.c places the points of a plot.
pub mod Points
use native.Mathlib.Nat.{
  mul-lt-mul_of_pos_right, le_of_mul-le-mul_right, mul-le-mul_right, mul-le-mul_left, mul_comm,
}
use ctu_real_time_systems_pr.Base.{ap, arith, pos, ℕ, ◌*ℤ◌, ◌*◌, ◌+◌, ◌-◌, ◌<◌, ◌^◌, ◌∙◌, ◌≡◌, ◌≤◌}
use ctu_real_time_systems_pr.Float.{single, fin, unit, mul, div, rounded}
use ctu_real_time_systems_pr.Float.Rounding.{pow_add, pow_pos}
use ctu_real_time_systems_pr.Float.Near.{rounded_pos_lem}
use ctu_real_time_systems_pr.Svg.Tenth.{div-pos, unit_pos}
use ctu_real_time_systems_pr.Svg.Integers.{unit_value}

-- The scale, w pixels for a range, and a place in pixels, over any unit u. The range has j + 1
-- binary digits.
module _ (u w range j d : ℕ) (some_unit : 0 < u) (digits : 2 ^ j ≤ range)
    (no_more : range < 2 ^ (j + 1)) where
  -- The error of the scale, and of the place.
  scale_below :
      (q : ℕ)
      → 2 * (q * (range * u)) ≤ 2 * (w * u * u) + range * u * 2 ^ (1060 - j)
      → 2 * (q * range) ≤ 2 * (w * u) + range * 2 ^ (1060 - j)
  scale_below q h =
      le_of_mul-le-mul_right {m = 2 * (q * range)} {n = 2 * (w * u) + range * 2 ^ (1060 - j)}
        {k = u} (grind arith) some_unit

  scale_above :
      (q : ℕ)
      → 2 * (w * u * u) ≤ 2 * (q * (range * u)) + range * u * 2 ^ (1060 - j)
      → 2 * (w * u) ≤ 2 * (q * range) + range * 2 ^ (1060 - j)
  scale_above q h =
      le_of_mul-le-mul_right {m = 2 * (w * u)} {n = 2 * (q * range) + range * 2 ^ (1060 - j)}
        {k = u} (grind arith) some_unit

-- What a common factor leaves, and the sum of the two errors, e of the scale and f of the place.
module _ (u w range d q r e f : ℕ) (within : d ≤ range) (coarse : d * e ≤ 2 * f) where
  place_below :
      2 * (q * range) ≤ 2 * (w * u) + range * e
      → 2 * r ≤ 2 * (d * q) + f
      → 2 * (r * range) ≤ 2 * (w * d * u) + 3 * (range * f)
  place_below scale place =
      let a = mul-le-mul_left d scale in
      let b = mul-le-mul_right range place in
      let c = mul-le-mul_left range coarse in grind (arith, a, b, c)

  place_above :
      2 * (w * u) ≤ 2 * (q * range) + range * e
      → 2 * (d * q) ≤ 2 * r + f
      → 2 * (w * d * u) ≤ 2 * (r * range) + 3 * (range * f)
  place_above scale place =
      let a = mul-le-mul_left d scale in
      let b = mul-le-mul_right range place in
      let c = mul-le-mul_left range coarse in grind (arith, a, b, c)

mul-pos : (a b : ℕ) → mul single (fin (pos a)) (fin (pos b)) ≡ rounded single (pos (a * b)) unit
unfolding mul ◌*ℤ◌
mul-pos a b = ground arith

cancel_below :
    (u d q r f : ℕ) → 0 < u → 2 * (r * u) ≤ 2 * (d * u * q) + u * f → 2 * r ≤ 2 * (d * q) + f
cancel_below u d q r f p h =
    le_of_mul-le-mul_right {m = 2 * r} {n = 2 * (d * q) + f} {k = u} (grind arith) p

cancel_above :
    (u d q r f : ℕ) → 0 < u → 2 * (d * u * q) ≤ 2 * (r * u) + u * f → 2 * (d * q) ≤ 2 * r + f
cancel_above u d q r f p h =
    le_of_mul-le-mul_right {m = 2 * (d * q)} {n = 2 * r + f} {k = u} (grind arith) p

-- The pixels of a plot, w of them, for a range of integers.
module _ (w range j : ℕ) (fits : w ≤ 1000) (digits : 2 ^ j ≤ range) (no_more : range < 2 ^ (j + 1))
    (few : j ≤ 23) where
  pixels_small : w * unit ≤ 1000 * 2 ^ 1074
  pixels_small = let grown = mul-le-mul_right unit fits in omega (arith, grown, unit_value)

  fine_scale : range * 2 ^ (1060 - j) ≤ 2 * 2 ^ 1060
  fine_scale =
      let grown = mul-le-mul_right (2 ^ (1060 - j)) (le_suc range (2 ^ (j + 1)) no_more) in
      let whole : j + 1 + (1060 - j) ≡ 1061 = omega (arith, few) in
      omega (arith, grown, pow_add (j + 1) (1060 - j), ap (λ (n : ℕ). 2 ^ n) whole)
    where
      le_suc : (a b : ℕ) → a < b → a ≤ b
      le_suc a b h = omega arith

  scale_small : w * unit * unit < range * unit * 2 ^ (1084 - j)
  scale_small =
      let grown = mul-le-mul_right (2 ^ (1084 - j)) digits in
      let whole : j + (1084 - j) ≡ 1084 = omega (arith, few) in
      let below : w * unit < range * 2 ^ (1084 - j) =
        omega (arith, grown, pow_add j (1084 - j), ap (λ (n : ℕ). 2 ^ n) whole, pixels_small) in
      let scaled = mul-lt-mul_of_pos_right below unit_pos in
      omega (arith, scaled, order range unit (2 ^ (1084 - j)))
    where
      order : (a b c : ℕ) → a * c * b ≡ a * b * c
      order a b c = grind arith

  range_pos : 0 < range * unit
  range_pos = let grown = mul-le-mul_right unit some_range in omega (arith, grown, unit_pos)
    where
      some_range : 1 ≤ range
      some_range = omega (arith, digits, pow_pos j)

  scale_lem :
      (q : ℕ) × (div single (fin (pos (w * unit))) (fin (pos (range * unit))) ≡ fin (pos q))
      × (2 * (q * range) ≤ 2 * (w * unit) + range * 2 ^ (1060 - j))
      × (2 * (w * unit) ≤ 2 * (q * range) + range * 2 ^ (1060 - j))
  scale_lem =
      let (q, e, below, above) =
        rounded_pos_lem single (1084 - j) (1060 - j) (omega arith) (omega (arith, few))
          (omega (arith, few)) (omega (arith, few)) (w * unit * unit) (range * unit) range_pos
          scale_small in
      (
        q,
        div-pos single (w * unit) (range * unit) range_pos ∙ e,
        scale_below unit w range j 0 unit_pos digits no_more q below,
        scale_above unit w range j 0 unit_pos digits no_more q above,
      )

  place_lem :
      (d : ℕ)
      → d ≤ range
      → (r : ℕ) × (mul single
            (fin (pos (d * unit)))
            (div single (fin (pos (w * unit))) (fin (pos (range * unit))))
          ≡ fin (pos r))
        × (2 * (r * range) ≤ 2 * (w * d * unit) + 3 * (range * 2 ^ 1060))
        × (2 * (w * d * unit) ≤ 2 * (r * range) + 3 * (range * 2 ^ 1060))
  place_lem d within =
      let (q, e, below, above) = scale_lem in
      let (r, e', below', above') =
        rounded_pos_lem single 1084 1060 (omega arith) (omega arith) (omega arith) (omega arith)
          (d * unit * q) unit unit_pos (product_small q below) in
      (
        r,
        ap (mul single (fin (pos (d * unit)))) e ∙ mul-pos (d * unit) q ∙ e',
        place_below unit w range d q r (2 ^ (1060 - j)) (2 ^ 1060) within coarse below
            (cancel_below unit d q r (2 ^ 1060) unit_pos below'),
        place_above unit w range d q r (2 ^ (1060 - j)) (2 ^ 1060) within coarse above
            (cancel_above unit d q r (2 ^ 1060) unit_pos above'),
      )
    where
      coarse : d * 2 ^ (1060 - j) ≤ 2 * 2 ^ 1060
      coarse =
          let grown = mul-le-mul_right (2 ^ (1060 - j)) within in omega (arith, grown, fine_scale)

      order : (a b c : ℕ) → a * b * c ≡ a * c * b
      order a b c = grind arith

      product_small :
          (q : ℕ)
          → 2 * (q * range) ≤ 2 * (w * unit) + range * 2 ^ (1060 - j)
          → d * unit * q < unit * 2 ^ 1084
      product_small q below =
          let grown = mul-le-mul_right q within in
          let small : d * q < 2 ^ 1084 =
            omega (arith, grown, mul_comm range q, below, fine_scale, pixels_small) in
          let scaled = mul-lt-mul_of_pos_right small unit_pos in
          omega (arith, scaled, order d unit q, mul_comm unit (2 ^ 1084))
