-- ===== src/Svg/Draw.antt =====
-- `svg_draw_to_file_xy` and `generate_html_file` of semestral_project/src/svg_generator.c.
use Prim.Native.String.{String}
use mathlib.Core.Option
use ctu_real_time_systems_pr.Base.{
  List, Option, [], false, get_or, length, negsuc, none, pos, some, sub_u32, sub_ℕ, true, ℕ, ℤ, ◌*◌,
  ◌++◌, ◌+◌, ◌-ℤ◌, ◌-◌, ◌/◌, ◌∷◌,
}
use ctu_real_time_systems_pr.Float.{
  Float, single, double, fin, add, sub, mul, div, convert, of_int, to_int,
}
use ctu_real_time_systems_pr.Svg.{
  Piece, str, int, SvgContext, svg_tag_start, svg_tag_end, svg_opt_end, svg_opt_long_beg,
  svg_opt_long_end, svg_rotate, svg_translate, svg_scale, svg_finish, svg_line, svg_arrow,
  svg_path_data, svg_rect, svg_text, svg_set_fill, svg_set_dash, svg_set_stroke, grid, first_line,
  next_vertical, next_horizontal, max_min,
}

-- A number as a float, and a half or a quarter of one as a double.
abbrev pub of_ℕ : ℕ → Float
of_ℕ n = of_int single (pos n)

abbrev pub part : ℕ → ℕ → Float
part n k = div double (of_int double (pos n)) (of_int double (pos k))

-- The context at the start, `ctx_obj`
abbrev pub context : SvgContext
context = record {
  stroke_color = "#000000";
  fill_color = "#ffffff";
  text_family = "monospace";
  dash_array = "";
  text_size = 14;
  stroke_width = 1;
  padding = 50;
  width = 1000;
  height = 300;
  mx = of_ℕ 1;
  my = of_ℕ 1;
  ofx = of_ℕ 0;
  ofy = of_ℕ 0;
}

-- MARKER_ARROW
abbrev pub marker_arrow : List Piece
marker_arrow =
    str
      "<marker id=\"markerArrow\" markerWidth=\"13\" markerHeight=\"13\" refX=\"7\" refY=\"6\" orient=\"auto\">\n"
    ∷ str "<path d=\"M2,8 L11,6 L2,4 Z\" style=\"fill: #000000;stroke: black;\" />    </marker>"
    ∷ []

-- The tag of the document with its definitions, up to the white background.
unfoldable pub head_of : SvgContext → List Piece
head_of ctx =
    str "<svg version=\"1.2\" width=\""
    ∷ int (pos ctx.width)
    ∷ str "\" height=\""
    ∷ int (pos ctx.height)
    ∷ str "\" xmlns=\"http://www.w3.org/2000/svg\">"
    ∷ str "<defs>\n"
    ∷ (marker_arrow
        ++ (str "</defs>\n" ∷ svg_rect ctx (of_ℕ 0) (of_ℕ 0) (of_ℕ ctx.width) (of_ℕ ctx.height)))

-- A group that is turned by -90 degrees and moved, with one text.
unfoldable pub turned_text : SvgContext → Piece → ℤ → ℤ → ℤ → ℤ → List Piece
turned_text ctx txt cx cy dx dy =
    svg_tag_start "g" true
    ++ (svg_opt_long_beg "transform"
        ++ (svg_rotate (negsuc 89) cx cy
            ++ (svg_translate dx dy
                ++ (svg_opt_long_end
                    ++ (svg_opt_end false
                        ++ (svg_text ctx txt (of_ℕ 0) (of_ℕ 0) ++ svg_tag_end "g"))))))

-- A round of the loop over the vertical lines.
unfoldable pub vertical_line : SvgContext → Float → Float → Float → List Piece
vertical_line ctx min_x mx t =
    let tx = add single (mul single (sub single t min_x) mx) (of_ℕ ctx.padding) in
    let bottom = ctx.height - ctx.padding in
    svg_line (svg_set_dash ctx "5,5") tx (of_ℕ bottom) tx (of_ℕ ctx.padding)
    ++ turned_text (svg_set_dash ctx "") (int (to_int t)) (to_int tx -ℤ pos 3) (pos (bottom - 10))
        (to_int tx -ℤ pos 3) (pos (bottom - 10))

-- A round of the loop over the horizontal lines.
unfoldable pub horizontal_line : SvgContext → Float → Float → Float → List Piece
horizontal_line ctx min_y my t =
    let ty =
      sub single (sub single (of_ℕ ctx.height) (mul single (sub single t min_y) my))
        (of_ℕ ctx.padding) in
    svg_line (svg_set_dash ctx "5,5") (of_ℕ ctx.padding) ty (of_ℕ (ctx.width - ctx.padding)) ty
    ++ svg_text (svg_set_dash ctx "") (int (to_int t)) (add single (of_ℕ ctx.padding) (of_ℕ 3))
        (sub single ty (of_ℕ 3))

-- What the rounds of a loop print.
unfoldable pub each_line : (Float → List Piece) → List Float → List Piece
each_line draw [] = []
each_line draw (t ∷ ts) = draw t ++ each_line draw ts

-- The group with the data.
unfoldable pub data_group : SvgContext → String → List (Float × Float) → List Piece
data_group ctx color points =
    svg_tag_start "g" true
    ++ (svg_opt_long_beg "transform"
        ++ (svg_translate (pos ctx.padding) (pos ctx.padding)
            ++ (svg_scale (of_int single (pos 1)) (of_int single (negsuc 0))
                ++ (svg_translate (pos 0) (sub_ℕ (2 * ctx.padding) ctx.height)
                    ++ (svg_opt_long_end
                        ++ (svg_opt_end false
                            ++ (svg_path_data (svg_set_dash (svg_set_stroke ctx color) "") points
                                ++ svg_tag_end "g")))))))

-- The values at the ends, after the data.
unfoldable pub end_values : SvgContext → Float → Float → List Piece
end_values ctx max_x max_y =
    svg_text ctx (int (to_int max_y)) (add single (of_ℕ ctx.padding) (of_ℕ 3)) (of_ℕ ctx.padding)
    ++ turned_text ctx (int (to_int max_x)) (pos (ctx.width - ctx.padding - ctx.text_size / 2))
        (pos (ctx.height - ctx.padding - ctx.text_size))
        (pos (ctx.width - ctx.padding - ctx.text_size))
        (pos (ctx.height - ctx.padding - ctx.text_size))

-- The Y axis, with its label and the first x; the size of its text is half of the padding.
unfoldable pub y_axis : SvgContext → String → Float → List Piece
y_axis ctx y_label first_x =
    let size = ctx.padding / 2 in
    let wide = record ctx { stroke_width = 2; text_size = size } in
    let labelled = record ctx { stroke_width = 1; text_size = size } in
    let small = record ctx { stroke_width = 1; text_size = 14 } in
    svg_arrow wide (of_ℕ ctx.padding)
      (convert single (sub double (of_int double (pos ctx.height)) (part ctx.padding 2)))
      (of_ℕ ctx.padding) (convert single (part ctx.padding 2))
    ++ (svg_text labelled (str y_label)
          (convert single (add double (of_int double (pos ctx.padding)) (part size 4)))
          (convert single (add double (part ctx.padding 2) (part size 4)))
        ++ turned_text small (int (to_int first_x)) (pos (ctx.padding - 14 / 2))
            (pos (ctx.height - ctx.padding - 14)) (pos (ctx.padding - 14))
            (pos (ctx.height - ctx.padding - 14)))

abbrev pub strlen_of : String → ℕ
strlen_of String.[] = 0
strlen_of (String.◌∷◌ c s) = strlen_of s + 1

-- The X axis, with its label and the least y.
unfoldable pub x_axis : SvgContext → String → Float → List Piece
x_axis ctx x_label min_y =
    let size = ctx.padding / 2 in
    let wide = record ctx { stroke_width = 2; text_size = size } in
    let labelled = record ctx { stroke_width = 1; text_size = size } in
    let small = record ctx { stroke_width = 1; text_size = 14 } in
    svg_arrow wide (div single (of_ℕ ctx.padding) (of_ℕ 2)) (of_ℕ (ctx.height - ctx.padding))
      (convert single (sub double (of_int double (pos ctx.width)) (part ctx.padding 2)))
      (of_ℕ (ctx.height - ctx.padding))
    ++ (svg_text labelled (str x_label) (of_ℕ (sub_u32 ctx.width (strlen_of x_label * size))) (
          convert single
            (sub double (of_int double (pos (ctx.height - ctx.padding))) (part size 2)))
        ++ svg_text small (int (to_int min_y)) (add single (of_ℕ ctx.padding) (of_ℕ 3))
            (of_ℕ (ctx.height - ctx.padding + 14)))

-- The pixels for each unit of a range.
abbrev pub pixels_per : ℕ → Float → Float → Float
pixels_per pixels low high = div single (of_ℕ pixels) (sub single high low)

-- The context in which the data is drawn.
abbrev pub plot_context : SvgContext → Float × Float → Float × Float → SvgContext
plot_context ctx (min_x, max_x) (min_y, max_y) = record ctx {
  mx = pixels_per (1000 - 2 * 50) min_x max_x;
  my = pixels_per (300 - 2 * 50) min_y max_y;
  ofx = min_x;
  ofy = min_y;
}

-- The document of `svg_draw_to_file_xy` from the lines of its two loops.
unfoldable pub document :
    String
    → List (Float × Float)
    → String
    → String
    → Float × Float
    → Float × Float
    → List Float
    → List Float
    → List Piece
document color points x_label y_label (min_x, max_x) (min_y, max_y) verticals horizontals =
    let mx = pixels_per (1000 - 2 * 50) min_x max_x in
    let my = pixels_per (300 - 2 * 50) min_y max_y in
    let gray = svg_set_stroke context "#aaaaaa" in
    let black = svg_set_stroke context "#000000" in
    let axes = svg_set_fill black "#000000" in
    head_of context
    ++ (each_line (vertical_line gray min_x mx) verticals
        ++ (each_line (horizontal_line gray min_y my) horizontals
            ++ (data_group (plot_context gray (min_x, max_x) (min_y, max_y)) color points
                ++ (end_values black max_x max_y
                    ++ (y_axis axes y_label min_x ++ (x_axis axes x_label min_y ++ svg_finish))))))

-- The points that `svg_path_data` takes from the two arrays.
abbrev pub points_of : List Float → List Float → List (Float × Float)
points_of [] ys = []
points_of (x ∷ xs) [] = []
points_of (x ∷ xs) (y ∷ ys) = (x, y) ∷ points_of xs ys

-- The drawing between the ends of the two axes; none means that a loop ran out of fuel.
unfoldable pub draw_between :
    ℕ
    → String
    → List (Float × Float)
    → String
    → String
    → Float × Float
    → Float × Float
    → Option (List Piece)
draw_between fuel color points x_label y_label (min_x, max_x) (min_y, max_y) =
    let width = sub single max_x min_x in
    let height = sub single max_y min_y in
    elim (grid fuel (next_vertical width) (first_line min_x width) max_x) [
      | none ↦ none
      | some verticals ↦
          Option.map (document color points x_label y_label (min_x, max_x) (min_y, max_y) verticals)
            (grid fuel (next_horizontal height) (first_line min_y height) max_y)
    ]

-- `svg_draw_to_file_xy`, for the points (x[i], y[i])
unfoldable pub svg_draw_to_file_xy :
    ℕ → String → List Float → List Float → String → String → Option (List Piece)
svg_draw_to_file_xy fuel color [] y x_label y_label = some []
svg_draw_to_file_xy fuel color (x ∷ xs) y x_label y_label =
    draw_between fuel color (points_of (x ∷ xs) y) x_label y_label
      (x, get_or (x ∷ xs) (length xs) x) (max_min y (fin (pos 0), fin (pos 0)))
