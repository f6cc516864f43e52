-- ===== src/Svg/Shapes.antt =====
-- The elements that semestral_project/src/svg_generator.c draws are well formed.
use ctu_real_time_systems_pr.Base.{
  Bool, List, Option, [], ap, false, none, pos, refl, some, true, ◌++◌, ◌∙◌, ◌∷◌, ◌≡◌,
}
use ctu_real_time_systems_pr.Svg.{
  svg_path_data, svg_opt_fill_none, path_points, svg_rect, svg_arrow, cordy, svg_opt_end, cordx,
  svg_optf, svg_tag_start, int, svg_line, String, Float, svg_opta, svg_opt_fill, svg_opt_stroke,
  str, Piece, SvgContext,
}
use ctu_real_time_systems_pr.Svg.Markup.{
  IsAttributes, IsAttributes-append, content, IsClosed, State, stand, tag, value, read_all, Name,
  is_plain, read_all-append, read_text, read, plain-value,
}

-- The texts of a context have no character of the markup.
pub record IsPlain (ctx : SvgContext) : Type 0 where
  pub stroke_color : is_plain ctx.stroke_color ≡ true
  pub fill_color : is_plain ctx.fill_color ≡ true
  pub text_family : is_plain ctx.text_family ≡ true
  pub dash_array : is_plain ctx.dash_array ≡ true

-- A plain text within a value.
read_all-value :
    (t : String) (ps : List Piece) (n : Name) (es : List Name)
    → is_plain t ≡ true
    → read_all (str t ∷ ps) (record { mode = value n; open_elements = es })
      ≡ read_all ps (record { mode = value n; open_elements = es })
read_all-value t ps n es h =
    ap (λ (o : Option State). elim o [ none ↦ none | some s ↦ read_all ps s ])
      (plain-value t n es h)

pub svg_opt_stroke-IsAttributes :
    (ctx : SvgContext) → IsPlain ctx → IsAttributes (svg_opt_stroke ctx)
unfolding read_text read
svg_opt_stroke-IsAttributes ctx p =
    let last = str "\" " ∷ [] in
    let rest =
      str "\" stroke-width=\""
      ∷ int (pos ctx.stroke_width)
      ∷ str "\" stroke-dasharray=\""
      ∷ str ctx.dash_array
      ∷ last in
    record {
      kept = λ n es.
          read_all-value ctx.stroke_color rest n es p.stroke_color
          ∙ read_all-value ctx.dash_array last n es p.dash_array;
    }

-- An attribute with a plain value, after the start of its value.
plain_value :
    (t : String) (n : Name) (es : List Name)
    → is_plain t ≡ true
    → read_all (str t ∷ str "\" " ∷ []) (record { mode = value n; open_elements = es })
      ≡ stand (tag n) es
unfolding read_text read
plain_value t n es h = read_all-value t (str "\" " ∷ []) n es h

pub svg_opt_fill-IsAttributes : (ctx : SvgContext) → IsPlain ctx → IsAttributes (svg_opt_fill ctx)
unfolding read_text read
svg_opt_fill-IsAttributes ctx p = record {
  kept = λ n es. plain_value ctx.fill_color n es p.fill_color;
}

pub font_family-IsAttributes :
    (ctx : SvgContext) → IsPlain ctx → IsAttributes (svg_opta "font-family" ctx.text_family)
unfolding read_text read
font_family-IsAttributes ctx p = record {
  kept = λ n es. plain_value ctx.text_family n es p.text_family;
}

-- An element between its start and its end.
pub element :
    {attributes : List Piece} (name : String) (letters : Name) (rest : List Piece)
    → ((es : List Name)
        → read_all (svg_tag_start name true) (record { mode = content; open_elements = es })
          ≡ stand (tag letters) es)
    → IsAttributes attributes
    → ((es : List Name)
        → read_all rest (record { mode = tag letters; open_elements = es }) ≡ stand content es)
    → IsClosed (svg_tag_start name true ++ (attributes ++ rest))
element {attributes} name letters rest start h end = record {
  closed = λ es.
      read_all-append (svg_tag_start name true) (attributes ++ rest) _ _ (start es)
      ∙ read_all-append attributes rest _ _ (h.kept letters es)
      ∙ end es;
}

-- The four coordinates of a line.
ends_of_line-IsAttributes :
    (x1 y1 x2 y2 : Float)
    → IsAttributes
        (svg_optf "x1" x1 ++ (svg_optf "y1" y1 ++ (svg_optf "x2" x2 ++ svg_optf "y2" y2)))
unfolding read_text read
ends_of_line-IsAttributes x1 y1 x2 y2 = record { kept = λ n es. refl }

marker-IsAttributes : IsAttributes (svg_opta "marker-end" "url(#markerArrow)")
unfolding read_text read
marker-IsAttributes = record { kept = λ n es. refl }

line_element :
    {attributes : List Piece}
    → IsAttributes attributes
    → IsClosed (svg_tag_start "line" true ++ (attributes ++ svg_opt_end true))
unfolding read_text read
line_element h =
    element "line" (b'e' ∷ b'n' ∷ b'i' ∷ b'l' ∷ []) (svg_opt_end true) (λ es. refl) h (λ es. refl)

pub svg_line-IsClosed :
    (ctx : SvgContext) (x1 y1 x2 y2 : Float) → IsPlain ctx → IsClosed (svg_line ctx x1 y1 x2 y2)
unfolding svg_line
svg_line-IsClosed ctx x1 y1 x2 y2 p = line_element (
    IsAttributes-append
      (ends_of_line-IsAttributes (cordx ctx x1) (cordy ctx y1) (cordx ctx x2) (cordy ctx y2))
      (svg_opt_stroke-IsAttributes ctx p))

pub svg_arrow-IsClosed :
    (ctx : SvgContext) (x1 y1 x2 y2 : Float) → IsPlain ctx → IsClosed (svg_arrow ctx x1 y1 x2 y2)
unfolding svg_arrow
svg_arrow-IsClosed ctx x1 y1 x2 y2 p = line_element (
    IsAttributes-append
      (ends_of_line-IsAttributes (cordx ctx x1) (cordy ctx y1) (cordx ctx x2) (cordy ctx y2))
      (IsAttributes-append marker-IsAttributes (svg_opt_stroke-IsAttributes ctx p)))

sides-IsAttributes :
    (x y w h : Float)
    → IsAttributes
        (svg_optf "x" x ++ (svg_optf "y" y ++ (svg_optf "width" w ++ svg_optf "height" h)))
unfolding read_text read
sides-IsAttributes x y w h = record { kept = λ n es. refl }

rect_element :
    {attributes : List Piece}
    → IsAttributes attributes
    → IsClosed (svg_tag_start "rect" true ++ (attributes ++ svg_opt_end true))
unfolding read_text read
rect_element h =
    element "rect" (b't' ∷ b'c' ∷ b'e' ∷ b'r' ∷ []) (svg_opt_end true) (λ es. refl) h (λ es. refl)

pub svg_rect-IsClosed :
    (ctx : SvgContext) (x y w h : Float) → IsPlain ctx → IsClosed (svg_rect ctx x y w h)
unfolding svg_rect
svg_rect-IsClosed ctx x y w h p = rect_element (
    IsAttributes-append (sides-IsAttributes (cordx ctx x) (cordy ctx y) w h)
      (IsAttributes-append (svg_opt_fill-IsAttributes ctx p) (svg_opt_stroke-IsAttributes ctx p)))

-- The points of a path stand in a value.
path_points-value :
    (ctx : SvgContext) (first : Bool) (points : List (Float × Float)) (n : Name) (es : List Name)
    → read_all (path_points ctx first points) (record { mode = value n; open_elements = es })
      ≡ stand (value n) es
unfolding path_points read_text read
path_points-value ctx first [] n es = refl
path_points-value ctx true ((x, y) ∷ points) n es = path_points-value ctx false points n es
path_points-value ctx false ((x, y) ∷ points) n es = path_points-value ctx false points n es

abbrev path_letters : Name
path_letters = b'h' ∷ b't' ∷ b'a' ∷ b'p' ∷ []

pub svg_path_data-IsClosed :
    (ctx : SvgContext) (points : List (Float × Float))
    → IsPlain ctx
    → IsClosed (svg_path_data ctx points)
unfolding svg_path_data read_text read
svg_path_data-IsClosed ctx points p =
    element {attributes = []} "path" path_letters
      (str " d=\"" ∷ (path_points ctx true points ++ after)) (λ es. refl)
      (record { kept = λ n es. refl })
      (λ es.
        read_all-append (path_points ctx true points) after
          (record { mode = value path_letters; open_elements = es }) _
          (path_points-value ctx true points path_letters es)
        ∙ read_all-append (svg_opt_stroke ctx) (svg_opt_end true)
            (record { mode = tag path_letters; open_elements = es }) _
            ((svg_opt_stroke-IsAttributes ctx p).kept path_letters es))
  where
    after : List Piece
    after = str "\" " ∷ (svg_opt_fill_none ++ (svg_opt_stroke ctx ++ svg_opt_end true))
