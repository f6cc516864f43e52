-- ===== src/Svg/Lines.antt =====
-- The distance between the grid lines of semestral_project/src/svg_generator.c, and the end of its loops.
use ctu_real_time_systems_pr.Base.{
  +ℤ_parts, abs, arith, inl, inr, neg_part, negsuc, pos, pos_part, refl, ℕ, ℤ, ◌*◌, ◌+ℤ◌, ◌+◌, ◌<◌,
  ◌^◌, ◌∙◌, ◌≡◌, ◌≤◌, ◌⊎◌,
}
use ctu_real_time_systems_pr.Float.{single, fin, rounded, add, convert, of_int, div, Format}
use ctu_real_time_systems_pr.Float.Rounding.{pow_pos, pow_add}
use ctu_real_time_systems_pr.Float.Near.{IsNear, rounded_lem}
use ctu_real_time_systems_pr.Svg.{next_vertical}
use ctu_real_time_systems_pr.Svg.Tenth.{tenth_lem, ten_single}

pub add-fin : (f : Format) (a b : ℤ) → add f (fin a) (fin b) ≡ rounded f (a +ℤ b) 1
unfolding add
add-fin f a b = refl

pub convert-fin : (z : ℤ) → convert single (fin z) ≡ rounded single z 1
unfolding convert
convert-fin z = refl

-- A plot whose ends are below 2 ^ (j + 26), and whose range is not below 128 times 2 ^ j: there the
-- float nearest to a value is off by 8 times 2 ^ j at most.
pub record IsWide (j : ℕ) (low top : ℤ) (range : ℕ) : Type 0 where
  pub coarse : 925 ≤ j
  pub bounded : j + 29 ≤ 1202
  pub low_end : abs low ≤ 2 ^ (j + 26)
  pub top_end : abs top ≤ 2 ^ (j + 26)
  pub wide : 128 * 2 ^ j ≤ range
  pub spread :
      2 * pos_part top + 2 * neg_part low
      ≤ 2 * neg_part top + 2 * pos_part low + 2 * range + 2 ^ (j + 4)
  pub narrow : range ≤ 2 * 2 ^ (j + 26)

pub pow_26 : (j : ℕ) → 2 ^ (j + 26) ≡ 67108864 * 2 ^ j
pow_26 j = omega (arith, pow_add j 26)

pub abs-add : (a b : ℤ) → abs (a +ℤ b) ≤ abs a + abs b
unfolding ◌+ℤ◌
abs-add a b = ground arith

pub one_part : (z : ℤ) → (pos_part z ≡ 0) ⊎ (neg_part z ≡ 0)
one_part (pos n) = inr refl
one_part (negsuc n) = inl refl

-- d is a tenth of the range up to half of e.
abbrev pub IsTenth : ℕ → ℕ → ℤ → Type 0
IsTenth range e d =
    (20 * pos_part d ≤ 20 * neg_part d + (2 * range + 10 * e))
    × (20 * neg_part d + 2 * range ≤ 20 * pos_part d + 10 * e)

pub tenth_small :
    (j range : ℕ) (d : ℤ)
    → range ≤ 2 * 2 ^ (j + 26)
    → IsTenth range (2 ^ j) d
    → abs d ≤ 2 ^ (j + 26)
tenth_small j range d narrow tenth = ground (arith, one_part d, pow_26 j)

pub sum_small :
    (j range : ℕ) (t d : ℤ)
    → abs t ≤ 2 ^ (j + 26)
    → abs d ≤ 2 ^ (j + 26)
    → abs (t +ℤ d) < 1 * 2 ^ (j + 28)
sum_small j range t d p q = omega (arith, abs-add t d, pow_add j 28, pow_26 j, pow_pos j)

-- The sum, rounded twice: to a step of f, and then to a float.
single_ahead :
    (j range : ℕ) (t d t' : ℤ)
    → 128 * 2 ^ j ≤ range
    → IsTenth range (2 ^ j) d
    → IsNear 1 (j + 4) (t +ℤ d) t'
    → 32 * pos_part t + 32 * neg_part t' + range ≤ 32 * pos_part t' + 32 * neg_part t
single_ahead j range t d t' wide tenth near =
    omega (arith, tenth, near.low, near.high, +ℤ_parts t d, pow_add j 4)

-- The step in float.
pub single_step :
    (j : ℕ) (low top : ℤ) (range : ℕ) (t : ℤ)
    → IsWide j low top range
    → abs t ≤ 2 ^ (j + 26)
    → (t' : ℤ) × (next_vertical (fin (pos range)) (fin t) ≡ fin t')
      × (32 * pos_part t + 32 * neg_part t' + range ≤ 32 * pos_part t' + 32 * neg_part t)
unfolding next_vertical
single_step j low top range t w small =
    let (d, e, below, above) =
      tenth_lem single (j + 24) j range ten_single (omega arith) (omega arith) w.coarse
        (omega (arith, w.bounded)) (omega (arith, w.narrow, pow_add j 24, pow_26 j, pow_pos j)) in
    let tenth = tenth_small j range d w.narrow (below, above) in
    let (t', e', near) =
      rounded_lem single (j + 28) (j + 4) (omega arith) (omega arith) (omega (arith, w.coarse))
        (omega (arith, w.bounded)) (t +ℤ d) 1 (omega arith) (sum_small j range t d small tenth) in
    (t', single_sum range t d t' e e', single_ahead j range t d t' w.wide (below, above) near)
  where
    single_sum :
        (range : ℕ) (t d t' : ℤ)
        → div single (fin (pos range)) (of_int single (pos 10)) ≡ fin d
        → rounded single (t +ℤ d) 1 ≡ fin t'
        → add single (fin t) (div single (fin (pos range)) (of_int single (pos 10))) ≡ fin t'
    single_sum range t d t' e e' = rw e (add-fin single t d ∙ e')
