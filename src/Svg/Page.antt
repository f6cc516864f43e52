-- ===== src/Svg/Page.antt =====
-- The page with the plots: `generate_html_file` of semestral_project/src/svg_generator.c, and what
-- `one_client_server` of semestral_project/src/server_http.c prints around it.
pub mod WellFormed
pub mod Hang
use mathlib.Core.Option
use ctu_real_time_systems_pr.Base.{List, Option, [], abs, map, none, pos, some, ℕ, ℤ, ◌++◌, ◌∷◌}
use ctu_real_time_systems_pr.Float.{Float, single, of_int}
use ctu_real_time_systems_pr.Svg.{Piece, str}
use ctu_real_time_systems_pr.Svg.Draw.{svg_draw_to_file_xy}
use ctu_real_time_systems_pr.History.{History, Sample, plot_rows}

-- What is printed before what, unless a loop ran out of fuel.
unfoldable pub before : Option (List Piece) → Option (List Piece) → Option (List Piece)
before (some ps) (some qs) = some (ps ++ qs)
before _ _ = none

-- One of the arrays of floats that are drawn.
abbrev pub column : (Sample → ℤ) → List Sample → List Float
column value rows = map (of_int single) (map value rows)

abbrev pub time_of : Sample → ℤ
time_of r = pos r.time

-- The three plots of the rows that have been copied.
unfoldable pub draw_rows : ℕ → List Sample → Option (List Piece)
draw_rows fuel rows =
    let x = column time_of rows in
    before
      (svg_draw_to_file_xy fuel "#ff0000" x (column (λ r. r.actual) rows) "t"
        "Actual position (abs units)")
      (before
        (svg_draw_to_file_xy fuel "#00ff00" x (column (λ r. r.desired) rows) "t"
          "Desired position (abs units)")
        (svg_draw_to_file_xy fuel "#0000ff" x (column (λ r. r.pwm) rows) "t"
          "PWM duty cicle, +-100%"))

-- `generate_html_file`; the fuel is for the loops over the grid lines.
unfoldable pub generate_html_file : ℕ → History → Option (List Piece)
generate_html_file fuel h = elim (plot_rows h) [ none ↦ none | some rows ↦ draw_rows fuel rows ]

-- The HTML that is sent after the header.
unfoldable pub html_page : ℕ → History → Option (List Piece)
html_page fuel h =
    Option.map
      (λ plots.
        str "<!DOCTYPE html>\n<html>\n"
        ∷ str "<body onload=\"setTimeout(function(){location.reload()}, 400);\">"
        ∷ (plots ++ (str "</body>\n</html>" ∷ [])))
      (generate_html_file fuel h)
