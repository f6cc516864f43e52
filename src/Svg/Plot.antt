-- ===== src/Svg/Plot.antt =====
-- A plot of integers, semestral_project/src/svg_generator.c: its loops end, and it is well formed.
use Prim.Native.String.{String}
use mathlib.Core.Option
use ctu_real_time_systems_pr.Base.{
  List, Option, [], abs, ap, ap₂, arith, get_or, length, map, none, pos, refl, some, true, ℕ, ℤ,
  ◌<◌, ◌^◌, ◌∙◌, ◌∷◌, ◌≡◌,
}
use ctu_real_time_systems_pr.Float.{Float, single, fin, of_int}
use ctu_real_time_systems_pr.Svg.{Piece, next_vertical, next_horizontal}
use ctu_real_time_systems_pr.Svg.Draw.{draw_between, svg_draw_to_file_xy, document, points_of}
use ctu_real_time_systems_pr.Svg.Markup.{is_plain, IsClosed}
use ctu_real_time_systems_pr.Svg.Integers.{of_int-exact}
use ctu_real_time_systems_pr.Svg.Extremes.{float_at, IsSmall, IsExtremes, max_min_lem}
use ctu_real_time_systems_pr.Svg.Plottable.{IsPlottable, axis_lines, verticals_end, horizontals_end}
use ctu_real_time_systems_pr.Svg.Document.{document-IsClosed}

-- The texts of a plot have no character of the markup.
pub record IsPlainPlot (color x_label y_label : String) : Type 0 where
  pub plain_color : is_plain color ≡ true
  pub plain_x : is_plain x_label ≡ true
  pub plain_y : is_plain y_label ≡ true

-- The values of an axis: the ends can be drawn.
pub record IsAxis (low high : ℤ) : Type 0 where
  pub low_small : abs low < 2 ^ 23
  pub high_small : abs high < 2 ^ 23
  pub plottable : IsPlottable low high

draw_between-some :
    (fuel : ℕ) (color : String) (points : List (Float × Float)) (x_label y_label : String)
    (first last low high : ℤ) (verticals horizontals : List Float)
    → axis_lines fuel next_vertical first last ≡ some verticals
    → axis_lines fuel next_horizontal low high ≡ some horizontals
    → draw_between fuel color points x_label y_label
        (float_at first, float_at last)
        (float_at low, float_at high)
      ≡ some (
          document color points x_label y_label
            (float_at first, float_at last)
            (float_at low, float_at high)
            verticals
            horizontals)
unfolding draw_between
draw_between-some fuel color points x_label y_label first last low high verticals horizontals e e' =
    let draw =
      document color points x_label y_label (float_at first, float_at last)
        (float_at low, float_at high) in
    ap
      (λ (o : Option (List Float)). elim o as (λ o. Option (List Piece)) [
        | none ↦ none
        | some vs ↦ Option.map (draw vs) (axis_lines fuel next_horizontal low high)
      ])
      e
    ∙ ap (Option.map (draw verticals)) e'

pub draw_between-IsClosed :
    (fuel : ℕ) (color : String) (points : List (Float × Float)) (x_label y_label : String)
    (first last low high : ℤ)
    → 33 < fuel
    → IsPlainPlot color x_label y_label
    → IsAxis first last
    → IsAxis low high
    → (ps : List Piece) × (draw_between fuel color points x_label y_label
          (float_at first, float_at last)
          (float_at low, float_at high)
        ≡ some ps)
      × IsClosed ps
draw_between-IsClosed fuel color points x_label y_label first last low high enough plain x y =
    let (vs, e, few) = verticals_end fuel first last enough x.low_small x.high_small x.plottable in
    let (hs, e', few') =
      horizontals_end fuel low high enough y.low_small y.high_small y.plottable in
    (
      _,
      draw_between-some fuel color points x_label y_label first last low high vs hs e e',
      document-IsClosed color x_label y_label points _ _ vs hs plain.plain_color plain.plain_x
          plain.plain_y,
    )

-- The ends of some values in their order.
abbrev pub first_of : List ℤ → ℤ
first_of [] = pos 0
first_of (x ∷ xs) = x

abbrev pub last_of : List ℤ → ℤ
last_of [] = pos 0
last_of (x ∷ []) = x
last_of (x ∷ z ∷ zs) = last_of (z ∷ zs)

last_value :
    (x : ℤ) (xs : List ℤ) (out : Float)
    → get_or (map (of_int single) (x ∷ xs)) (length (map (of_int single) xs)) out
      ≡ of_int single (last_of (x ∷ xs))
last_value x [] out = refl
last_value x (z ∷ zs) out = last_value z zs out

-- What is asked of the points: the one axis goes from the first to the last value, the other from
-- the least to the greatest.
pub record IsPlot (xs ys : List ℤ) : Type 0 where
  pub same_count : length xs ≡ length ys
  pub times : IsAxis (first_of xs) (last_of xs)
  pub values_small : IsSmall ys
  pub values : (low high : ℤ) → IsExtremes low high ys → IsPlottable low high

-- With fuel for 34 rounds a plot of integers that floats hold is drawn, and it is well formed.
pub svg_draw_to_file_xy-IsClosed :
    (fuel : ℕ) (color : String) (xs ys : List ℤ) (x_label y_label : String)
    → 33 < fuel
    → IsPlainPlot color x_label y_label
    → IsPlot xs ys
    → (ps : List Piece) × (svg_draw_to_file_xy fuel color
          (map (of_int single) xs)
          (map (of_int single) ys)
          x_label
          y_label
        ≡ some ps)
      × IsClosed ps
unfolding svg_draw_to_file_xy
svg_draw_to_file_xy-IsClosed fuel color [] ys x_label y_label enough plain plot =
    ([], refl, record { closed = λ es. refl })
svg_draw_to_file_xy-IsClosed fuel color (x ∷ xs) [] x_label y_label enough plain plot =
    absurd (omega (arith, plot.same_count))
svg_draw_to_file_xy-IsClosed fuel color (x ∷ xs) (y ∷ ys) x_label y_label enough plain plot =
    let points = points_of (map (of_int single) (x ∷ xs)) (map (of_int single) (y ∷ ys)) in
    let (low, high, found, extremes) =
      max_min_lem y ys (fin (pos 0), fin (pos 0)) plot.values_small in
    let (ps, e, closed) =
      draw_between-IsClosed fuel color points x_label y_label x (last_of (x ∷ xs)) low high enough
        plain plot.times
        (record {
          low_small = plot.values_small low extremes.low_attained;
          high_small = plot.values_small high extremes.high_attained;
          plottable = plot.values low high extremes;
        }) in
    let first = of_int-exact x (grow (abs x) plot.times.low_small) in
    let last =
      last_value x xs (of_int single x)
      ∙ of_int-exact (last_of (x ∷ xs)) (grow (abs (last_of (x ∷ xs))) plot.times.high_small) in
    (
      ps,
      ap₂ (draw_between fuel color points x_label y_label)
            (ap₂ (λ (a b : Float). (a, b)) first last) found
          ∙ e,
      closed,
    )
  where
    grow : (n : ℕ) → n < 2 ^ 23 → n < 2 ^ 24
    grow n h = omega (arith, h)
