-- ===== src/Svg.antt =====
-- The drawing of the plots, semestral_project/src/svg_generator.c with include/svg_generator.h. What
-- fprintf prints is a list of pieces: a text, a number by %i, or a number by %f.
pub mod Axis
pub mod Tenth
pub mod Lines
pub mod Ends
pub mod Stuck
pub mod Draw
pub mod Markup
pub mod Shapes
pub mod Integers
pub mod Extremes
pub mod Plottable
pub mod Plot
pub mod Page
pub mod Flat
pub mod Accuracy
pub mod Groups
pub mod Document
mod Tests
use Prim.Native.String.{String}
use mathlib.Core.Option
use ctu_real_time_systems_pr.Base.{
  Bool, List, Option, [], false, if◌then◌else◌, map, neg, none, pos, some, suc, true, zero, ℕ, ℤ,
  ◌++◌, ◌/◌, ◌∷◌,
}
use ctu_real_time_systems_pr.Float.{
  Float, single, double, fin, add, sub, mul, div, convert, lt_float, of_int,
}

pub data Piece : Type 0 where
  str : String → Piece
  int : ℤ → Piece
  flt : Float → Piece

-- `svg_context`, without the file and the fields that are never read. The texts that are copied
-- into its arrays fit in them.
pub record SvgContext : Type 0 where
  pub stroke_color : String
  pub fill_color : String
  pub text_family : String
  pub dash_array : String
  pub text_size : ℕ
  pub stroke_width : ℕ
  pub padding : ℕ
  pub width : ℕ
  pub height : ℕ
  pub mx : Float
  pub my : Float
  pub ofx : Float
  pub ofy : Float

pub cordx : SvgContext → Float → Float
cordx ctx var = mul single (sub single var ctx.ofx) ctx.mx

pub cordy : SvgContext → Float → Float
cordy ctx var = mul single (sub single var ctx.ofy) ctx.my

abbrev pub svg_tag_start : String → Bool → List Piece
svg_tag_start name use_opt =
    str "\n<" ∷ str name ∷ str " " ∷ str (if use_opt then " " else ">") ∷ []

abbrev pub svg_finish : List Piece
svg_finish = str "</svg>" ∷ []

abbrev pub svg_opt_end : Bool → List Piece
svg_opt_end selfclose = str " " ∷ str (if selfclose then "/" else "") ∷ str ">\n" ∷ []

abbrev pub svg_optf : String → Float → List Piece
svg_optf key v = str key ∷ str "=\"" ∷ flt v ∷ str "\" " ∷ []

abbrev pub svg_opti : String → ℤ → List Piece
svg_opti key v = str key ∷ str "=\"" ∷ int v ∷ str "\" " ∷ []

abbrev pub svg_opta : String → String → List Piece
svg_opta key v = str key ∷ str "=\"" ∷ str v ∷ str "\" " ∷ []

abbrev pub svg_opt_fill : SvgContext → List Piece
svg_opt_fill ctx = str "fill=\"" ∷ str ctx.fill_color ∷ str "\" " ∷ []

abbrev pub svg_opt_fill_none : List Piece
svg_opt_fill_none = str "fill=\"none\" " ∷ []

abbrev pub svg_opt_stroke : SvgContext → List Piece
svg_opt_stroke ctx =
    str "stroke=\""
    ∷ str ctx.stroke_color
    ∷ str "\" stroke-width=\""
    ∷ int (pos ctx.stroke_width)
    ∷ str "\" stroke-dasharray=\""
    ∷ str ctx.dash_array
    ∷ str "\" "
    ∷ []

abbrev pub svg_opt_long_beg : String → List Piece
svg_opt_long_beg key = str key ∷ str "=\"" ∷ []

abbrev pub svg_opt_long_end : List Piece
svg_opt_long_end = str "\" " ∷ []

abbrev pub svg_rotate : ℤ → ℤ → ℤ → List Piece
svg_rotate angle cx cy =
    str "translate("
    ∷ int cx
    ∷ str ","
    ∷ int cy
    ∷ str ") rotate("
    ∷ int angle
    ∷ str ") translate("
    ∷ int (neg cx)
    ∷ str ","
    ∷ int (neg cy)
    ∷ str ") "
    ∷ []

abbrev pub svg_translate : ℤ → ℤ → List Piece
svg_translate dx dy = str "translate(" ∷ int dx ∷ str "," ∷ int dy ∷ str ") " ∷ []

abbrev pub svg_scale : Float → Float → List Piece
svg_scale sx sy = str "scale(" ∷ flt sx ∷ str "," ∷ flt sy ∷ str ") " ∷ []

abbrev pub svg_tag_end : String → List Piece
svg_tag_end name = str "\n</" ∷ str name ∷ str ">" ∷ []

-- The four coordinates of a line.
abbrev ends_of_line : SvgContext → Float → Float → Float → Float → List Piece
ends_of_line ctx x1 y1 x2 y2 =
    svg_optf "x1" (cordx ctx x1)
    ++ (svg_optf "y1" (cordy ctx y1)
        ++ (svg_optf "x2" (cordx ctx x2) ++ svg_optf "y2" (cordy ctx y2)))

pub svg_line : SvgContext → Float → Float → Float → Float → List Piece
svg_line ctx x1 y1 x2 y2 =
    svg_tag_start "line" true
    ++ (ends_of_line ctx x1 y1 x2 y2 ++ (svg_opt_stroke ctx ++ svg_opt_end true))

pub svg_arrow : SvgContext → Float → Float → Float → Float → List Piece
svg_arrow ctx x1 y1 x2 y2 =
    svg_tag_start "line" true
    ++ (ends_of_line ctx x1 y1 x2 y2
        ++ (svg_opta "marker-end" "url(#markerArrow)" ++ (svg_opt_stroke ctx ++ svg_opt_end true)))

-- The loop of `svg_path_data`, whose first round prints an M.
pub path_points : SvgContext → Bool → List (Float × Float) → List Piece
path_points ctx first [] = []
path_points ctx first ((x, y) ∷ points) =
    str (if first then "M" else " L")
    ∷ flt (cordx ctx x)
    ∷ str ","
    ∷ flt (cordy ctx y)
    ∷ str "\n"
    ∷ path_points ctx false points

pub svg_path_data : SvgContext → List (Float × Float) → List Piece
svg_path_data ctx points =
    svg_tag_start "path" true
    ++ (str " d=\""
        ∷ (path_points ctx true points
            ++ (str "\" " ∷ (svg_opt_fill_none ++ (svg_opt_stroke ctx ++ svg_opt_end true)))))

pub svg_rect : SvgContext → Float → Float → Float → Float → List Piece
svg_rect ctx x y w h =
    svg_tag_start "rect" true
    ++ (svg_optf "x" (cordx ctx x)
        ++ (svg_optf "y" (cordy ctx y)
            ++ (svg_optf "width" w
                ++ (svg_optf "height" h
                    ++ (svg_opt_fill ctx ++ (svg_opt_stroke ctx ++ svg_opt_end true))))))

-- `svg_text`; the text is one of the program, or a number that sprintf has printed.
pub svg_text : SvgContext → Piece → Float → Float → List Piece
svg_text ctx txt x y =
    svg_tag_start "text" true
    ++ (svg_optf "x" (cordx ctx x)
        ++ (svg_optf "y" (cordy ctx y)
            ++ (svg_opti "font-size" (pos ctx.text_size)
                ++ (svg_opta "font-family" ctx.text_family
                    ++ (svg_opt_fill ctx
                        ++ (svg_opt_stroke ctx
                            ++ (svg_opt_end false ++ (txt ∷ svg_tag_end "text"))))))))

abbrev pub svg_set_fill : SvgContext → String → SvgContext
svg_set_fill ctx color = record ctx { fill_color = color }

abbrev pub svg_set_dash : SvgContext → String → SvgContext
svg_set_dash ctx dash = record ctx { dash_array = dash }

abbrev pub svg_set_stroke : SvgContext → String → SvgContext
svg_set_stroke ctx color = record ctx { stroke_color = color }

-- The two loops over the grid lines: `t` from a first value on, as long as it is below `top`; none
-- means that the fuel ran out. What a round prints is a function of its t.
pub grid : ℕ → (Float → Float) → Float → Float → Option (List Float)
grid zero next t top = none
grid (suc fuel) next t top = elim (lt_float t top) [
  | true ↦ Option.map (λ ts. t ∷ ts) (grid fuel next (next t) top)
  | false ↦ some []
]

-- min + range / 10, in float
unfoldable pub first_line : Float → Float → Float
first_line low range = add single low (div single range (of_int single (pos 10)))

-- t + width / 10, in float
unfoldable pub next_vertical : Float → Float → Float
next_vertical width t = add single t (div single width (of_int single (pos 10)))

-- t + height / 10.0, in double, and then in float
unfoldable pub next_horizontal : Float → Float → Float
next_horizontal height t =
    convert single (add double t (div double height (of_int double (pos 10))))

-- `max_min`: the least and the greatest of the values, from the first on; the arguments are what
-- was in the two variables.
widen : List Float → Float × Float → Float × Float
widen [] bounds = bounds
widen (y ∷ ys) (low, high) =
    widen ys
      (if lt_float y low then (y, high) else (if lt_float high y then (low, y) else (low, high)))

unfoldable pub max_min : List Float → Float × Float → Float × Float
unfolding widen
max_min [] bounds = bounds
max_min (y ∷ ys) bounds = widen ys (y, y)
