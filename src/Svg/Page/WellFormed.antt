-- ===== src/Svg/Page/WellFormed.antt =====
-- The page of semestral_project/src/server_http.c with its plots is sent as a whole, and it is well formed.
use mathlib.Core.List.{Memᴰ}
use mathlib.Core.List.Memᴰ
use mathlib.Core.Option
use mathlib.Core.Path.{subst}
use ctu_real_time_systems_pr.Base.{
  List, Option, [], abs, ap, ap₂, arith, eq_of_parts, inl, inr, length-map, map, none, refl, some,
  sym, ℕ, ℤ, ◌++◌, ◌<ℤ◌, ◌<◌, ◌^◌, ◌∙◌, ◌∷◌, ◌≡◌, ◌≤ℤ◌, ◌⊎◌,
}
use ctu_real_time_systems_pr.History.{History, Sample}
use ctu_real_time_systems_pr.History.Window.{IsValid, shown}
use ctu_real_time_systems_pr.History.Rows.{plot_rows_lem}
use ctu_real_time_systems_pr.Svg.{Piece, str}
use ctu_real_time_systems_pr.Svg.Markup.{
  IsClosed, IsClosed-append, read_all-append, read_text, read,
}
use ctu_real_time_systems_pr.Svg.Plottable.{IsPlottable}
use ctu_real_time_systems_pr.Svg.Plot.{
  IsPlainPlot, IsPlot, IsAxis, first_of, last_of, svg_draw_to_file_xy-IsClosed,
}
use ctu_real_time_systems_pr.Svg.Page.{before, time_of, draw_rows, generate_html_file, html_page}

-- What is asked of the rows: the times are an axis, and the values are below 2 ^ 19.
pub record IsDrawable (rows : List Sample) : Type 0 where
  pub times : IsAxis (first_of (map time_of rows)) (last_of (map time_of rows))
  pub values :
      (r : Sample)
      → Memᴰ r rows
      → (abs r.actual < 2 ^ 19) × (abs r.desired < 2 ^ 19) × (abs r.pwm < 2 ^ 19)

-- What holds of each row holds of each value of a column.
of_column :
    (P : ℤ → Type 0) (f : Sample → ℤ) (rows : List Sample)
    → ((r : Sample) → Memᴰ r rows → P (f r))
    → (y : ℤ) → Memᴰ y (map f rows)
    → P y
of_column P f [] h y m = absurd (Memᴰ.not-nil m)
of_column P f (r ∷ rows) h y (Memᴰ.head e) = subst P (sym e) (h r (Memᴰ.head refl))
of_column P f (r ∷ rows) h y (Memᴰ.tail m) = of_column P f rows (λ r m. h r (Memᴰ.tail m)) y m

-- Small values can be drawn, whatever their range is.
small-IsPlottable :
    (low high : ℤ) → abs low < 2 ^ 19 → abs high < 2 ^ 19 → low ≤ℤ high → IsPlottable low high
small-IsPlottable low high p q h = elim (equal_or_less low high h) [
  | inl e ↦ IsPlottable.flat e
  | inr k ↦ IsPlottable.ranged 0 (omega arith) p q (omega (arith, k))
]
  where
    equal_or_less : (a b : ℤ) → a ≤ℤ b → (a ≡ b) ⊎ (a <ℤ b)
    equal_or_less a b h = ground (arith, eq_of_parts a b)

column-IsPlot :
    (value : Sample → ℤ) (rows : List Sample)
    → IsAxis (first_of (map time_of rows)) (last_of (map time_of rows))
    → ((r : Sample) → Memᴰ r rows → abs (value r) < 2 ^ 19)
    → IsPlot (map time_of rows) (map value rows)
column-IsPlot value rows times small =
    let each = of_column (λ y. abs y < 2 ^ 19) value rows small in
    record {
      same_count = length-map rows time_of ∙ sym (length-map rows value);
      times = times;
      values_small = λ y m. grow (abs y) (each y m);
      values = λ low high x.
          small-IsPlottable low high (each low x.low_attained) (each high x.high_attained)
            (x.least high x.high_attained);
    }
  where
    grow : (n : ℕ) → n < 2 ^ 19 → n < 2 ^ 23
    grow n h = omega (arith, h)

-- Two parts that are printed, and well formed.
before-IsClosed :
    (o o' : Option (List Piece))
    → ((ps : List Piece) × (o ≡ some ps) × IsClosed ps)
    → ((qs : List Piece) × (o' ≡ some qs) × IsClosed qs)
    → (rs : List Piece) × (before o o' ≡ some rs) × IsClosed rs
unfolding before
before-IsClosed o o' (ps, e, h) (qs, e', h') = (ps ++ qs, ap₂ before e e', IsClosed-append h h')

plain_texts :
    (IsPlainPlot "#ff0000" "t" "Actual position (abs units)")
    × IsPlainPlot "#00ff00" "t" "Desired position (abs units)"
    × IsPlainPlot "#0000ff" "t" "PWM duty cicle, +-100%"
plain_texts = (
  record { plain_color = refl; plain_x = refl; plain_y = refl },
  record { plain_color = refl; plain_x = refl; plain_y = refl },
  record { plain_color = refl; plain_x = refl; plain_y = refl },
)

pub draw_rows-IsClosed :
    (fuel : ℕ) (rows : List Sample)
    → 33 < fuel
    → IsDrawable rows
    → (ps : List Piece) × (draw_rows fuel rows ≡ some ps) × IsClosed ps
unfolding draw_rows
draw_rows-IsClosed fuel rows enough d =
    let plot = λ (value : Sample → ℤ) (small : (r : Sample) → Memᴰ r rows → abs (value r) < 2 ^ 19).
      column-IsPlot value rows d.times small in
    before-IsClosed _ _
      (svg_draw_to_file_xy-IsClosed fuel "#ff0000" _ _ "t" "Actual position (abs units)" enough
        (plain_texts.0) (plot (λ r. r.actual) (λ r m. (d.values r m).0)))
      (before-IsClosed _ _
        (svg_draw_to_file_xy-IsClosed fuel "#00ff00" _ _ "t" "Desired position (abs units)" enough
          (plain_texts.1) (plot (λ r. r.desired) (λ r m. (d.values r m).1)))
        (svg_draw_to_file_xy-IsClosed fuel "#0000ff" _ _ "t" "PWM duty cicle, +-100%" enough
          (plain_texts.2) (plot (λ r. r.pwm) (λ r m. (d.values r m).2))))

-- For a valid history the page is printed as a whole, with fuel for 34 rounds of each loop over the
-- grid lines, if its values are below 2 ^ 19 in magnitude, and its first and its last time are the same
-- and below 2 ^ 23, or both are below 2 ^ (19 + k) and the last is later by 2 ^ k at least, for a k up to
-- 4. A reader of the markup that follows the tags, the attributes and their quotes finds every element
-- closed in order.
pub html_page-IsClosed :
    (fuel : ℕ) (h : History)
    → 33 < fuel
    → IsValid h
    → IsDrawable (shown h)
    → (ps : List Piece) × (html_page fuel h ≡ some ps) × IsClosed ps
unfolding html_page generate_html_file read_text read
html_page-IsClosed fuel h enough valid d =
    let (ps, e, closed) = draw_rows-IsClosed fuel (shown h) enough d in
    (
      _,
      ap
            (λ o. Option.map page (elim o as (λ o. Option (List Piece)) [
              | none ↦ none
              | some rows ↦ draw_rows fuel rows
            ]))
            ((plot_rows_lem h valid).0)
          ∙ ap (Option.map page) e,
      record {
        closed = λ es. read_all-append ps (str "</body>\n</html>" ∷ []) _ _ (
            closed.closed
              ((b'y' ∷ b'd' ∷ b'o' ∷ b'b' ∷ []) ∷ (b'l' ∷ b'm' ∷ b't' ∷ b'h' ∷ []) ∷ es));
      },
    )
  where
    page : List Piece → List Piece
    page plots =
        str "<!DOCTYPE html>\n<html>\n"
        ∷ str "<body onload=\"setTimeout(function(){location.reload()}, 400);\">"
        ∷ (plots ++ (str "</body>\n</html>" ∷ []))
