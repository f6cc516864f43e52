-- ===== src/Svg/Extremes.antt =====
-- `max_min` of semestral_project/src/svg_generator.c, on integers.
use mathlib.Core.List.{Memᴰ}
use mathlib.Core.List.Memᴰ
use ctu_real_time_systems_pr.Base.{
  List, [], abs, ap, arith, false, inl, inr, ltb_ℤ, map, neg_part, pos, pos_part, refl, true, ℕ, ℤ,
  ◌*ℤ◌, ◌<ℤ◌, ◌<◌, ◌^◌, ◌∙◌, ◌∷◌, ◌≡◌, ◌≤ℤ◌, ◌⊎◌,
}
use ctu_real_time_systems_pr.Float.{Float, single, fin, unit, of_int}
use ctu_real_time_systems_pr.Svg.{max_min, widen}
use ctu_real_time_systems_pr.Svg.Integers.{of_int-exact, lt_float-scaled}

-- The least and the greatest of a list.
pub record IsExtremes (low high : ℤ) (zs : List ℤ) : Type 0 where
  pub least : (y : ℤ) → Memᴰ y zs → low ≤ℤ y
  pub greatest : (y : ℤ) → Memᴰ y zs → y ≤ℤ high
  pub low_attained : Memᴰ low zs
  pub high_attained : Memᴰ high zs

abbrev pub float_at : ℤ → Float
float_at z = fin (z *ℤ pos unit)

abbrev pub IsSmall : List ℤ → Type 0
IsSmall zs = (y : ℤ) → Memᴰ y zs → abs y < 2 ^ 23

pub of_int-map : (zs : List ℤ) → IsSmall zs → map (of_int single) zs ≡ map float_at zs
of_int-map [] h = refl
of_int-map (z ∷ zs) h =
    rw (of_int-exact z (grow (abs z) (h z (Memᴰ.head refl))))
      (ap (λ ts. float_at z ∷ ts) (of_int-map zs (λ y m. h y (Memᴰ.tail m))))
  where
    grow : (n : ℕ) → n < 2 ^ 23 → n < 2 ^ 24
    grow n h = omega (arith, h)

-- From a and b on, the least and the greatest value are widened to low and high.
record IsWidened (a b low high : ℤ) (zs : List ℤ) : Type 0 where
  below : low ≤ℤ a
  above : b ≤ℤ high
  within : (y : ℤ) → Memᴰ y zs → (low ≤ℤ y) × (y ≤ℤ high)
  low_from : (low ≡ a) ⊎ Memᴰ low zs
  high_from : (high ≡ b) ⊎ Memᴰ high zs

from_rest : (a z low : ℤ) (zs : List ℤ) → (low ≡ a) ⊎ Memᴰ low zs → (low ≡ a) ⊎ Memᴰ low (z ∷ zs)
from_rest a z low zs (inl e) = inl e
from_rest a z low zs (inr m) = inr (Memᴰ.tail m)

from_head : (z low : ℤ) (zs : List ℤ) → (low ≡ z) ⊎ Memᴰ low zs → Memᴰ low (z ∷ zs)
from_head z low zs (inl e) = Memᴰ.head e
from_head z low zs (inr m) = Memᴰ.tail m

within_cons :
    (z low high : ℤ) (zs : List ℤ)
    → (low ≤ℤ z) × (z ≤ℤ high)
    → ((y : ℤ) → Memᴰ y zs → (low ≤ℤ y) × (y ≤ℤ high))
    → (y : ℤ) → Memᴰ y (z ∷ zs)
    → (low ≤ℤ y) × (y ≤ℤ high)
within_cons z low high zs h k y (Memᴰ.head e) =
    omega (arith, h, ap (λ (z : ℤ). pos_part z) e, ap (λ (z : ℤ). neg_part z) e)
within_cons z low high zs h k y (Memᴰ.tail m) = k y m

-- A value below the least, above the greatest, or between them.
IsWidened-low :
    (a b z low high : ℤ) (zs : List ℤ)
    → z ≤ℤ a
    → a ≤ℤ b
    → IsWidened z b low high zs
    → IsWidened a b low high (z ∷ zs)
IsWidened-low a b z low high zs p q w = record {
  below = omega (arith, w.below);
  above = w.above;
  within = within_cons z low high zs (omega (arith, w.below, w.above)) w.within;
  low_from = inr (from_head z low zs w.low_from);
  high_from = from_rest b z high zs w.high_from;
}

IsWidened-high :
    (a b z low high : ℤ) (zs : List ℤ)
    → b ≤ℤ z
    → a ≤ℤ b
    → IsWidened a z low high zs
    → IsWidened a b low high (z ∷ zs)
IsWidened-high a b z low high zs p q w = record {
  below = w.below;
  above = omega (arith, w.above);
  within = within_cons z low high zs (omega (arith, w.below, w.above)) w.within;
  low_from = from_rest a z low zs w.low_from;
  high_from = inr (from_head z high zs w.high_from);
}

IsWidened-between :
    (a b z low high : ℤ) (zs : List ℤ)
    → a ≤ℤ z
    → z ≤ℤ b
    → IsWidened a b low high zs
    → IsWidened a b low high (z ∷ zs)
IsWidened-between a b z low high zs p q w = record {
  below = w.below;
  above = w.above;
  within = within_cons z low high zs (omega (arith, w.below, w.above)) w.within;
  low_from = from_rest a z low zs w.low_from;
  high_from = from_rest b z high zs w.high_from;
}

-- The three cases of a round.
module _ (z a b : ℤ) (ys : List Float) where
  widen_below :
      ltb_ℤ z a ≡ true
      → widen (float_at z ∷ ys) (float_at a, float_at b) ≡ widen ys (float_at z, float_at b)
  unfolding widen
  widen_below h = rw (widen, lt_float-scaled z a ∙ h) refl

  widen_above :
      ltb_ℤ z a ≡ false
      → ltb_ℤ b z ≡ true
      → widen (float_at z ∷ ys) (float_at a, float_at b) ≡ widen ys (float_at a, float_at z)
  unfolding widen
  widen_above h k = rw (widen, lt_float-scaled z a ∙ h, lt_float-scaled b z ∙ k) refl

  widen_same :
      ltb_ℤ z a ≡ false
      → ltb_ℤ b z ≡ false
      → widen (float_at z ∷ ys) (float_at a, float_at b) ≡ widen ys (float_at a, float_at b)
  unfolding widen
  widen_same h k = rw (widen, lt_float-scaled z a ∙ h, lt_float-scaled b z ∙ k) refl

widen_lem :
    (zs : List ℤ) (a b : ℤ)
    → a ≤ℤ b
    → (low high : ℤ) × (widen (map float_at zs) (float_at a, float_at b)
        ≡ (float_at low, float_at high))
      × IsWidened a b low high zs
unfolding widen
widen_lem [] a b h = (
  a,
  b,
  refl,
  record {
    below = omega arith;
    above = omega arith;
    within = λ y m. absurd (Memᴰ.not-nil m);
    low_from = inl refl;
    high_from = inl refl;
  },
)
widen_lem (z ∷ zs) a b h = elim (order z a) [
  | inl (e, p) ↦
      let (low, high, same, w) = widen_lem zs z b (omega arith) in
      (
        low,
        high,
        widen_below z a b (map float_at zs) e ∙ same,
        IsWidened-low a b z low high zs (omega arith) h w,
      )
  | inr (e, p) ↦ elim (order b z) [
    | inl (e', q) ↦
        let (low, high, same, w) = widen_lem zs a z p in
        (
          low,
          high,
          widen_above z a b (map float_at zs) e e' ∙ same,
          IsWidened-high a b z low high zs (omega arith) h w,
        )
    | inr (e', q) ↦
        let (low, high, same, w) = widen_lem zs a b h in
        (
          low,
          high,
          widen_same z a b (map float_at zs) e e' ∙ same,
          IsWidened-between a b z low high zs p q w,
        )
  ]
]
  where
    order : (x y : ℤ) → ((ltb_ℤ x y ≡ true) × (x <ℤ y)) ⊎ ((ltb_ℤ x y ≡ false) × (y ≤ℤ x))
    order x y = ground arith

-- Of integers below 2 ^ 23 in magnitude, one at least, `max_min` finds the least and the greatest,
-- whatever the two variables held before.
pub max_min_lem :
    (z : ℤ) (zs : List ℤ) (bounds : Float × Float)
    → IsSmall (z ∷ zs)
    → (low high : ℤ) × (max_min (map (of_int single) (z ∷ zs)) bounds
        ≡ (float_at low, float_at high))
      × IsExtremes low high (z ∷ zs)
unfolding max_min
max_min_lem z zs bounds small =
    let (low, high, same, w) = widen_lem zs z z (omega arith) in
    (
      low,
      high,
      ap (λ ys. max_min ys bounds) (of_int-map (z ∷ zs) small) ∙ same,
      record {
        least = λ y m. (within z zs low high w y m).0;
        greatest = λ y m. (within z zs low high w y m).1;
        low_attained = from_head z low zs w.low_from;
        high_attained = from_head z high zs w.high_from;
      },
    )
  where
    within :
        (z : ℤ) (zs : List ℤ) (low high : ℤ)
        → IsWidened z z low high zs
        → (y : ℤ) → Memᴰ y (z ∷ zs)
        → (low ≤ℤ y) × (y ≤ℤ high)
    within z zs low high w = within_cons z low high zs (omega (arith, w.below, w.above)) w.within
