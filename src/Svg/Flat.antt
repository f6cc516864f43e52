-- ===== src/Svg/Flat.antt =====
-- The plots of semestral_project/src/svg_generator.c where all values are the same.
use ctu_real_time_systems_pr.Base.{
  Bool, List, [], abs, ap, ap₂, false, if◌then◌else◌, map, pos, refl, ℤ, ◌*ℤ◌, ◌*◌, ◌-◌, ◌<◌, ◌^◌,
  ◌∙◌, ◌∷◌, ◌≡◌,
}
use ctu_real_time_systems_pr.Float.{
  Float, single, fin, inf, nan, of_int, unit, div, mul, rounded, round, round_at, exponent, log2,
  signed_float, infinite,
}
use ctu_real_time_systems_pr.Svg.{SvgContext, Piece, str, flt, cordx, cordy, path_points}
use ctu_real_time_systems_pr.Svg.Draw.{of_ℕ, plot_context}
use ctu_real_time_systems_pr.Svg.Extremes.{float_at}
use ctu_real_time_systems_pr.Svg.Plottable.{sub-same}

-- The pixels of the plot over a range of 0.
no_range : div single (of_ℕ (300 - 2 * 50)) (fin (pos 0)) ≡ inf
unfolding div of_int rounded round round_at exponent log2 signed_float unit ◌*ℤ◌ infinite
no_range = refl

nothing_scaled : mul single (fin (pos 0)) inf ≡ nan
unfolding mul infinite
nothing_scaled = refl

-- The context of a plot whose least and greatest value are the same.
abbrev pub flat_context : SvgContext → Float × Float → Float → SvgContext
flat_context ctx xs y = plot_context ctx xs (y, y)

cordy-flat :
    (ctx : SvgContext) (ends : Float × Float) (z : ℤ)
    → abs z < 2 ^ 23
    → cordy (flat_context ctx ends (float_at z)) (float_at z) ≡ nan
unfolding cordy
cordy-flat ctx ends z h =
    ap (λ (d : Float). mul single d (div single (of_ℕ (300 - 2 * 50)) d)) (sub-same z h)
    ∙ ap (mul single (fin (pos 0))) no_range
    ∙ nothing_scaled

-- The x of each point, and no number as its y.
abbrev pub without_y : SvgContext → Bool → List Float → List Piece
without_y ctx first [] = []
without_y ctx first (x ∷ xs) =
    str (if first then "M" else " L")
    ∷ flt (cordx ctx x)
    ∷ str ","
    ∷ flt nan
    ∷ str "\n"
    ∷ without_y ctx false xs

-- Where all values of a plot are the same integer, below 2 ^ 23 in magnitude, every point of its path
-- is printed with its x, and with nan as its y.
pub path_points-flat :
    (ctx : SvgContext) (ends : Float × Float) (first : Bool) (z : ℤ) (xs : List Float)
    → abs z < 2 ^ 23
    → path_points (flat_context ctx ends (float_at z)) first (map (λ x. (x, float_at z)) xs)
      ≡ without_y (flat_context ctx ends (float_at z)) first xs
unfolding path_points
path_points-flat ctx ends first z [] h = refl
path_points-flat ctx ends first z (x ∷ xs) h =
    ap₂
      (λ (y : Float) (rest : List Piece).
        str (if first then "M" else " L")
        ∷ flt (cordx (flat_context ctx ends (float_at z)) x)
        ∷ str ","
        ∷ flt y
        ∷ str "\n"
        ∷ rest)
      (cordy-flat ctx ends z h) (path_points-flat ctx ends false z xs h)
