-- ===== src/Svg/Document.antt =====
-- The document of a plot, semestral_project/src/svg_generator.c, is well formed.
use Prim.Native.String.{String}
use ctu_real_time_systems_pr.Base.{List, [], refl, true, ℕ, ◌++◌, ◌∙◌, ◌∷◌, ◌≡◌}
use ctu_real_time_systems_pr.Float.{Float}
use ctu_real_time_systems_pr.Svg.{svg_finish, SvgContext, Piece, svg_set_dash, svg_set_stroke}
use ctu_real_time_systems_pr.Svg.Draw.{
  document, of_ℕ, context, head_of, vertical_line, horizontal_line, each_line, data_group,
  end_values, y_axis, x_axis,
}
use ctu_real_time_systems_pr.Svg.Markup.{
  read_all-append, stand, content, read_all, Name, read, read_text, is_plain, IsClosed,
  IsClosed-append,
}
use ctu_real_time_systems_pr.Svg.Shapes.{
  svg_rect-IsClosed, IsPlain, svg_line-IsClosed, svg_arrow-IsClosed, svg_path_data-IsClosed,
}
use ctu_real_time_systems_pr.Svg.Groups.{
  int-IsText, str-IsText, svg_text-IsClosed, turned_text-IsClosed, group_element, flip-IsAttributes,
}

pub each_line-IsClosed :
    (draw : Float → List Piece) (ts : List Float)
    → ((t : Float) → IsClosed (draw t))
    → IsClosed (each_line draw ts)
unfolding each_line
each_line-IsClosed draw [] h = record { closed = λ es. refl }
each_line-IsClosed draw (t ∷ ts) h = IsClosed-append (h t) (each_line-IsClosed draw ts h)

-- Only the dashes of a context change.
with_dash :
    (ctx : SvgContext) (dash : String)
    → IsPlain ctx
    → is_plain dash ≡ true
    → IsPlain (svg_set_dash ctx dash)
with_dash ctx dash p h = record {
  stroke_color = p.stroke_color;
  fill_color = p.fill_color;
  text_family = p.text_family;
  dash_array = h;
}

vertical_line-IsClosed :
    (ctx : SvgContext) (min_x mx t : Float) → IsPlain ctx → IsClosed (vertical_line ctx min_x mx t)
unfolding vertical_line
vertical_line-IsClosed ctx min_x mx t p =
    IsClosed-append
      (svg_line-IsClosed (svg_set_dash ctx "5,5") _ _ _ _ (with_dash ctx "5,5" p refl))
      (turned_text-IsClosed (svg_set_dash ctx "") _ _ _ _ _ (with_dash ctx "" p refl)
        (int-IsText _))

horizontal_line-IsClosed :
    (ctx : SvgContext) (min_y my t : Float)
    → IsPlain ctx
    → IsClosed (horizontal_line ctx min_y my t)
unfolding horizontal_line
horizontal_line-IsClosed ctx min_y my t p =
    IsClosed-append
      (svg_line-IsClosed (svg_set_dash ctx "5,5") _ _ _ _ (with_dash ctx "5,5" p refl))
      (svg_text-IsClosed (svg_set_dash ctx "") _ _ _ (with_dash ctx "" p refl) (int-IsText _))

-- A group with data in a plain colour, from a plain context.
data_group-IsClosed :
    (ctx : SvgContext) (color : String) (points : List (Float × Float))
    → IsPlain ctx
    → is_plain color ≡ true
    → IsClosed (data_group ctx color points)
unfolding data_group
data_group-IsClosed ctx color points p h = group_element (flip-IsAttributes _ _ _ _ _ _) (
    svg_path_data-IsClosed (svg_set_dash (svg_set_stroke ctx color) "") points (record {
      stroke_color = h;
      fill_color = p.fill_color;
      text_family = p.text_family;
      dash_array = refl;
    }))

end_values-IsClosed :
    (ctx : SvgContext) (max_x max_y : Float) → IsPlain ctx → IsClosed (end_values ctx max_x max_y)
unfolding end_values
end_values-IsClosed ctx max_x max_y p =
    IsClosed-append (svg_text-IsClosed ctx _ _ _ p (int-IsText _))
      (turned_text-IsClosed ctx _ _ _ _ _ p (int-IsText _))

-- The size of the text and the width of the lines do not matter.
with_sizes :
    (ctx : SvgContext) (w s : ℕ)
    → IsPlain ctx
    → IsPlain (record ctx { stroke_width = w; text_size = s })
with_sizes ctx w s p = record {
  stroke_color = p.stroke_color;
  fill_color = p.fill_color;
  text_family = p.text_family;
  dash_array = p.dash_array;
}

with_scale :
    (ctx : SvgContext) (mx my ofx ofy : Float)
    → IsPlain ctx
    → IsPlain (record ctx { mx = mx; my = my; ofx = ofx; ofy = ofy })
with_scale ctx mx my ofx ofy p = record {
  stroke_color = p.stroke_color;
  fill_color = p.fill_color;
  text_family = p.text_family;
  dash_array = p.dash_array;
}

y_axis-IsClosed :
    (ctx : SvgContext) (label : String) (first_x : Float)
    → IsPlain ctx
    → is_plain label ≡ true
    → IsClosed (y_axis ctx label first_x)
unfolding y_axis
y_axis-IsClosed ctx label first_x p h =
    IsClosed-append (svg_arrow-IsClosed _ _ _ _ _ (with_sizes ctx _ _ p)) (
      IsClosed-append (svg_text-IsClosed _ _ _ _ (with_sizes ctx _ _ p) (str-IsText label h))
        (turned_text-IsClosed _ _ _ _ _ _ (with_sizes ctx _ _ p) (int-IsText _)))

x_axis-IsClosed :
    (ctx : SvgContext) (label : String) (min_y : Float)
    → IsPlain ctx
    → is_plain label ≡ true
    → IsClosed (x_axis ctx label min_y)
unfolding x_axis
x_axis-IsClosed ctx label min_y p h =
    IsClosed-append (svg_arrow-IsClosed _ _ _ _ _ (with_sizes ctx _ _ p)) (
      IsClosed-append (svg_text-IsClosed _ _ _ _ (with_sizes ctx _ _ p) (str-IsText label h))
        (svg_text-IsClosed _ _ _ _ (with_sizes ctx _ _ p) (int-IsText _)))

context-IsPlain :
    (stroke fill : String)
    → is_plain stroke ≡ true
    → is_plain fill ≡ true
    → IsPlain (record context { stroke_color = stroke; fill_color = fill })
context-IsPlain stroke fill h k = record {
  stroke_color = h;
  fill_color = k;
  text_family = refl;
  dash_array = refl;
}

-- The start of the document opens its element.
head_of-opens :
    (es : List Name)
    → read_all (head_of context) (record { mode = content; open_elements = es })
      ≡ stand content ((b'g' ∷ b'v' ∷ b's' ∷ []) ∷ es)
unfolding head_of read_text read
head_of-opens es =
    (svg_rect-IsClosed context (of_ℕ 0) (of_ℕ 0) (of_ℕ 1000) (of_ℕ 300)
        (context-IsPlain "#000000" "#ffffff" refl refl)).closed
      ((b'g' ∷ b'v' ∷ b's' ∷ []) ∷ es)

-- The rest of a document, whose end closes the element of the document.
record IsRest (ps : List Piece) : Type 0 where
  ended :
      (es : List Name)
      → read_all ps (record { mode = content; open_elements = (b'g' ∷ b'v' ∷ b's' ∷ []) ∷ es })
        ≡ stand content es

svg_finish-IsRest : IsRest svg_finish
unfolding read_text read
svg_finish-IsRest = record { ended = λ es. refl }

IsRest-append : {ps qs : List Piece} → IsClosed ps → IsRest qs → IsRest (ps ++ qs)
IsRest-append {ps} {qs} h k = record {
  ended = λ es. read_all-append ps qs _ _ (h.closed _) ∙ k.ended es;
}

-- Whatever the data and the lines are, the document of a plot is well formed, if its colour and its
-- labels are plain.
pub document-IsClosed :
    (color x_label y_label : String) (points : List (Float × Float)) (xs ys : Float × Float)
    (verticals horizontals : List Float)
    → is_plain color ≡ true
    → is_plain x_label ≡ true
    → is_plain y_label ≡ true
    → IsClosed (document color points x_label y_label xs ys verticals horizontals)
unfolding document
document-IsClosed color x_label y_label points (min_x, max_x) (min_y, max_y) verticals horizontals h
      hx hy =
    let gray = context-IsPlain "#aaaaaa" "#ffffff" refl refl in
    let black = context-IsPlain "#000000" "#ffffff" refl refl in
    let axes = context-IsPlain "#000000" "#000000" refl refl in
    let rest =
      IsRest-append (each_line-IsClosed _ verticals (λ t. vertical_line-IsClosed _ min_x _ t gray))
        (IsRest-append
          (each_line-IsClosed _ horizontals (λ t. horizontal_line-IsClosed _ min_y _ t gray))
          (IsRest-append (data_group-IsClosed _ color points (with_scale _ _ _ _ _ gray) h) (
            IsRest-append (end_values-IsClosed _ max_x max_y black) (
              IsRest-append (y_axis-IsClosed _ y_label min_x axes hy)
                (IsRest-append (x_axis-IsClosed _ x_label min_y axes hx) svg_finish-IsRest))))) in
    record {
      closed = λ es. read_all-append (head_of context) _ _ _ (head_of-opens es) ∙ rest.ended es;
    }
