-- ===== src/Svg/Ends.antt =====
-- The step between the horizontal grid lines, in double, and the end of both loops.
use native.Mathlib.Nat.{mul-le-mul_left}
use ctu_real_time_systems_pr.Base.{
  +ℤ_parts, List, abs, ap, arith, length, neg_part, pos, pos_part, some, ℕ, ℤ, ◌*◌, ◌+ℤ◌, ◌+◌, ◌-◌,
  ◌<◌, ◌^◌, ◌∙◌, ◌≡◌, ◌≤ℤ◌, ◌≤◌,
}
use ctu_real_time_systems_pr.Float.{single, double, fin, rounded, add, convert, of_int, div, Float}
use ctu_real_time_systems_pr.Float.Rounding.{pow_pos, pow_le, pow_add}
use ctu_real_time_systems_pr.Float.Near.{IsNear, rounded_lem}
use ctu_real_time_systems_pr.Svg.{next_vertical, next_horizontal, first_line, grid}
use ctu_real_time_systems_pr.Svg.Axis.{Advances, grid-ends}
use ctu_real_time_systems_pr.Svg.Tenth.{tenth_lem, ten_double}
use ctu_real_time_systems_pr.Svg.Lines.{
  IsWide, IsTenth, add-fin, convert-fin, pow_26, abs-add, one_part, tenth_small, sum_small,
  single_step,
}

-- A step that is finer by 3 digits or more.
finer_pow : (j i : ℕ) → i ≤ j → 3 ≤ i → 8 * 2 ^ (j - i) ≤ 2 ^ j
finer_pow j i h p =
    let split : j - i + i ≡ j = omega arith in
    let eight = mul-le-mul_left (2 ^ (j - i)) (pow_le 3 i p) in
    omega (arith, eight, pow_add (j - i) i, ap (λ (n : ℕ). 2 ^ n) split)

IsTenth-coarse :
    (j range : ℕ) (d : ℤ) → 29 ≤ j → IsTenth range (2 ^ (j - 29)) d → IsTenth range (2 ^ j) d
IsTenth-coarse j range d h tenth = omega (arith, tenth, finer_pow j 29 h (omega arith))

double_small :
    (j : ℕ) (z s : ℤ)
    → 925 ≤ j
    → abs z ≤ 2 * 2 ^ (j + 26)
    → IsNear 1 (j - 25) z s
    → abs s < 1 * 2 ^ (j + 28)
double_small j z s h small near = ground (
  arith,
  near.low,
  near.high,
  one_part s,
  one_part z,
  pow_pos j,
  pow_26 j,
  pow_add j 28,
  finer_pow j 25 (omega arith) (omega arith),
)

double_ahead :
    (j range : ℕ) (t d s t' : ℤ)
    → 925 ≤ j
    → 128 * 2 ^ j ≤ range
    → IsTenth range (2 ^ (j - 29)) d
    → IsNear 1 (j - 25) (t +ℤ d) s
    → IsNear 1 (j + 4) s t'
    → 32 * pos_part t + 32 * neg_part t' + range ≤ 32 * pos_part t' + 32 * neg_part t
double_ahead j range t d s t' h wide tenth near near' = omega (
  arith,
  tenth,
  near.low,
  near.high,
  near'.low,
  near'.high,
  +ℤ_parts t d,
  pow_add j 4,
  finer_pow j 25 (omega arith) (omega arith),
  finer_pow j 29 (omega arith) (omega arith),
)

-- The step in double.
double_step :
    (j : ℕ) (low top : ℤ) (range : ℕ) (t : ℤ)
    → IsWide j low top range
    → abs t ≤ 2 ^ (j + 26)
    → (t' : ℤ) × (next_horizontal (fin (pos range)) (fin t) ≡ fin t')
      × (32 * pos_part t + 32 * neg_part t' + range ≤ 32 * pos_part t' + 32 * neg_part t)
unfolding next_horizontal
double_step j low top range t w small =
    let (d, e, below, above) =
      tenth_lem double (j + 24) (j - 29) range ten_double (omega arith) (omega (arith, w.coarse))
        (omega arith) (omega (arith, w.bounded))
        (omega (arith, w.narrow, pow_add j 24, pow_26 j, pow_pos j)) in
    let coarse = IsTenth-coarse j range d (omega (arith, w.coarse)) (below, above) in
    let tenth = tenth_small j range d w.narrow coarse in
    let (s, e', near) =
      rounded_lem double (j + 28) (j - 25) (omega arith) (omega (arith, w.coarse)) (omega arith)
        (omega (arith, w.bounded)) (t +ℤ d) 1 (omega arith) (sum_small j range t d small tenth) in
    let still =
      double_small j (t +ℤ d) s w.coarse (omega (arith, abs-add t d, small, tenth)) near in
    let (t', e'', near') =
      rounded_lem single (j + 28) (j + 4) (omega arith) (omega arith) (omega (arith, w.coarse))
        (omega (arith, w.bounded)) s 1 (omega arith) still in
    (
      t',
      sum range t d s t' e e' e'',
      double_ahead j range t d s t' w.coarse w.wide (below, above) near near',
    )
  where
    sum :
        (range : ℕ) (t d s t' : ℤ)
        → div double (fin (pos range)) (of_int double (pos 10)) ≡ fin d
        → rounded double (t +ℤ d) 1 ≡ fin s
        → rounded single s 1 ≡ fin t'
        → convert single
            (add double (fin t) (div double (fin (pos range)) (of_int double (pos 10))))
          ≡ fin t'
    sum range t d s t' e e' e'' = rw e (rw (add-fin double t d ∙ e') (convert-fin s ∙ e''))

-- Between the ends a value is as small as they are.
between_small :
    (j : ℕ) (low top : ℤ) (range : ℕ) (t : ℤ)
    → IsWide j low top range
    → low ≤ℤ t
    → t ≤ℤ top
    → abs t ≤ 2 ^ (j + 26)
between_small j low top range t w p q = ground (arith, one_part t, w.low_end, w.top_end)

-- Up to a distance of 33 steps each loop ends.
module _ (j : ℕ) (low top : ℤ) (range : ℕ) (w : IsWide j low top range) (fuel : ℕ)
    (enough : 33 < fuel) where
  lines_end :
      (next : Float → Float)
      → Advances next low top range
      → (ts : List Float) × (grid fuel next (first_line (fin low) (fin (pos range))) (fin top)
          ≡ some ts)
        × (length ts ≤ 33)
  unfolding first_line next_vertical
  lines_end next advances =
      let (t, e, ahead) = single_step j low top range low w w.low_end in
      let (ts, e', few) =
        grid-ends 33 fuel next low top range t advances (omega arith)
          (omega (arith, ahead, w.spread, w.wide, pow_add j 4)) enough in
      (ts, rw (first_same range low t e) e', few)
    where
      first_same :
          (range : ℕ) (low t : ℤ)
          → next_vertical (fin (pos range)) (fin low) ≡ fin t
          → first_line (fin low) (fin (pos range)) ≡ fin t
      first_same range low t e = e

  pub vertical_ends :
      (ts : List Float) × (grid fuel
          (next_vertical (fin (pos range)))
          (first_line (fin low) (fin (pos range)))
          (fin top)
        ≡ some ts)
      × (length ts ≤ 33)
  vertical_ends =
      lines_end (next_vertical (fin (pos range))) (λ t p q.
        single_step j low top range t w (between_small j low top range t w p (omega arith)))

  pub horizontal_ends :
      (ts : List Float) × (grid fuel
          (next_horizontal (fin (pos range)))
          (first_line (fin low) (fin (pos range)))
          (fin top)
        ≡ some ts)
      × (length ts ≤ 33)
  horizontal_ends =
      lines_end (next_horizontal (fin (pos range))) (λ t p q.
        double_step j low top range t w (between_small j low top range t w p (omega arith)))
