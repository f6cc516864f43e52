-- ===== src/Svg/Page/Hang.antt =====
-- When the plots of semestral_project/src/svg_generator.c are never finished.
use Prim.Native.String.{String}
use mathlib.Core.List.Memᴰ
use mathlib.Core.Option
use ctu_real_time_systems_pr.Base.{
  List, Option, [], abs, ap, ap₂, arith, eq_of_parts, map, negsuc, none, pos, refl, some, ℕ, ℤ, ◌*◌,
  ◌+◌, ◌<◌, ◌^◌, ◌∙◌, ◌∷◌, ◌≡◌, ◌≤ℤ◌, ◌≤◌,
}
use ctu_real_time_systems_pr.Float.{Float, single, fin, of_int, unit, sub}
use ctu_real_time_systems_pr.History.{History, Sample}
use ctu_real_time_systems_pr.History.Window.{IsValid, shown}
use ctu_real_time_systems_pr.History.Rows.{plot_rows_lem}
use ctu_real_time_systems_pr.Svg.{Piece, grid, first_line, next_horizontal}
use ctu_real_time_systems_pr.Svg.Draw.{svg_draw_to_file_xy, draw_between}
use ctu_real_time_systems_pr.Svg.Integers.{sub-exact, scaled-pos}
use ctu_real_time_systems_pr.Svg.Extremes.{IsSmall, IsExtremes, float_at, max_min_lem}
use ctu_real_time_systems_pr.Svg.Plottable.{axis_lines, range_parts}
use ctu_real_time_systems_pr.Svg.Stuck.{never_ends}
use ctu_real_time_systems_pr.Svg.Page.{before, column, time_of, draw_rows, generate_html_file}

float_at-pos : (n : ℕ) → float_at (pos n) ≡ fin (pos (n * unit))
float_at-pos n = ap fin (scaled-pos n)

-- The least and the greatest of a list are unique.
extremes_unique :
    (low high low' high' : ℤ) (zs : List ℤ)
    → IsExtremes low high zs
    → IsExtremes low' high' zs
    → (low' ≡ low) × (high' ≡ high)
extremes_unique low high low' high' zs x y = (
  eq_of_parts _ _ (omega (arith, x.least low' y.low_attained, y.least low x.low_attained)),
  eq_of_parts _ _
      (omega (arith, x.greatest high' y.high_attained, y.greatest high x.high_attained)),
)

module _ (n : ℕ) (above : 2097152 ≤ n) (below : n < 4194304) where
  lines_hang : (fuel : ℕ) → axis_lines fuel next_horizontal (pos n) (pos (n + 1)) ≡ none
  lines_hang fuel =
      let range : sub single (float_at (pos (n + 1))) (float_at (pos n)) ≡ fin (pos unit) =
        sub-exact (pos (n + 1)) (pos n) (omega (arith, below)) (omega (arith, below))
        ∙ ap fin (range_parts unit 1 (pos n) (pos (n + 1)) (omega arith))
        ∙ ap (λ m. fin (pos m)) (one_times unit) in
      ap₂ (λ (r t : Float). grid fuel (next_horizontal r) (first_line t r) (float_at (pos (n + 1))))
        range (float_at-pos n)
      ∙ ap
          (λ (t : Float).
            grid fuel (next_horizontal (fin (pos unit)))
              (first_line (fin (pos (n * unit))) (fin (pos unit))) t)
          (float_at-pos (n + 1))
      ∙ never_ends n above below fuel
    where
      one_times : (u : ℕ) → 1 * u ≡ u
      one_times u = omega arith

  draw_between-hangs :
      (fuel : ℕ) (color : String) (points : List (Float × Float)) (x_label y_label : String)
      (xs : Float × Float)
      → draw_between fuel color points x_label y_label xs (float_at (pos n), float_at (pos (n + 1)))
        ≡ none
  unfolding draw_between
  draw_between-hangs fuel color points x_label y_label (min_x, max_x) = either _ _ (lines_hang fuel)
    where
      either :
          (o : Option (List Float)) (draw : List Float → List Float → List Piece)
          {lines : Option (List Float)}
          → lines ≡ none
          → elim o as (λ o. Option (List Piece)) [
            | none ↦ none
            | some vs ↦ Option.map (draw vs) lines
          ]
            ≡ none
      either none draw h = refl
      either (some vs) draw h = ap (Option.map (draw vs)) h

  svg_draw_to_file_xy-hangs :
      (fuel : ℕ) (color : String) (x : Float) (xs : List Float) (ys : List ℤ)
      (x_label y_label : String)
      → IsExtremes (pos n) (pos (n + 1)) ys
      → svg_draw_to_file_xy fuel color (x ∷ xs) (map (of_int single) ys) x_label y_label ≡ none
  unfolding svg_draw_to_file_xy
  svg_draw_to_file_xy-hangs fuel color x xs [] x_label y_label found =
      absurd (Memᴰ.not-nil found.low_attained)
  svg_draw_to_file_xy-hangs fuel color x xs (y ∷ ys) x_label y_label found =
      let (low, high, e, x') = max_min_lem y ys (fin (pos 0), fin (pos 0)) (small (y ∷ ys) found) in
      let (same_low, same_high) =
        extremes_unique (pos n) (pos (n + 1)) low high (y ∷ ys) found x' in
      ap (draw_between fuel color _ x_label y_label _)
        (e ∙ ap₂ (λ (a b : ℤ). (float_at a, float_at b)) same_low same_high)
      ∙ draw_between-hangs fuel color _ x_label y_label _
    where
      small : (zs : List ℤ) → IsExtremes (pos n) (pos (n + 1)) zs → IsSmall zs
      small zs x y m = between y (x.least y m) (x.greatest y m)
        where
          between : (y : ℤ) → pos n ≤ℤ y → y ≤ℤ pos (n + 1) → abs y < 2 ^ 23
          between (pos m) p q = omega (arith, below)
          between (negsuc m) p q = absurd (omega (arith, p))

  first_missing : (o o' : Option (List Piece)) → o ≡ none → before o o' ≡ none
  unfolding before
  first_missing o o' e = ap (λ o. before o o') e

  rows_hang :
      (fuel : ℕ) (rows : List Sample)
      → IsExtremes (pos n) (pos (n + 1)) (map (λ r. r.actual) rows)
      → draw_rows fuel rows ≡ none
  unfolding draw_rows
  rows_hang fuel [] found = absurd (Memᴰ.not-nil found.low_attained)
  rows_hang fuel (r ∷ rows) found = first_missing _ _ (
      svg_draw_to_file_xy-hangs fuel "#ff0000" (of_int single (time_of r)) (column time_of rows)
        (map (λ r. r.actual) (r ∷ rows)) "t" "Actual position (abs units)" found)

  -- In a valid history whose least position is n and whose greatest is n + 1, for an n from 2 ^ 21 to
  -- below 2 ^ 22, the plots are never finished: whatever the fuel is, it runs out.
  pub generate_html_file-hangs :
      (h : History)
      → IsValid h
      → IsExtremes (pos n) (pos (n + 1)) (map (λ r. r.actual) (shown h))
      → (fuel : ℕ) → generate_html_file fuel h ≡ none
  unfolding generate_html_file
  generate_html_file-hangs h valid found fuel =
      ap
        (λ o. elim o as (λ o. Option (List Piece)) [
          | none ↦ none
          | some rows ↦ draw_rows fuel rows
        ])
        ((plot_rows_lem h valid).0)
      ∙ rows_hang fuel (shown h) found
