-- ===== src/Svg/Groups.antt =====
-- The texts and the groups of semestral_project/src/svg_generator.c are well formed.
use Prim.Native.String.{String}
use ctu_real_time_systems_pr.Base.{
  List, Option, [], ap, false, negsuc, none, pos, refl, some, true, ℤ, ◌++◌, ◌∷◌, ◌≡◌,
}
use ctu_real_time_systems_pr.Float.{Float}
use ctu_real_time_systems_pr.Svg.{
  cordx, cordy, svg_tag_start, svg_opt_end, svg_optf, svg_opti, svg_tag_end, svg_opt_long_beg,
  svg_opt_long_end, svg_rotate, svg_translate, svg_scale, str, int, Piece, SvgContext, svg_text,
}
use ctu_real_time_systems_pr.Svg.Draw.{turned_text}
use ctu_real_time_systems_pr.Svg.Markup.{
  State, stand, content, read_all, read_piece, Name, is_plain, IsClosed, IsAttributes,
  IsAttributes-append, read_all-append, read_text, read, plain-content,
}
use ctu_real_time_systems_pr.Svg.Shapes.{
  IsPlain, element, svg_opt_stroke-IsAttributes, svg_opt_fill-IsAttributes,
  font_family-IsAttributes,
}

-- A piece that may stand as a text.
pub record IsText (p : Piece) : Type 0 where
  pub as_content :
      (es : List Name)
      → read_piece p (record { mode = content; open_elements = es }) ≡ stand content es

pub int-IsText : (z : ℤ) → IsText (int z)
int-IsText z = record { as_content = λ es. refl }

pub str-IsText : (t : String) → is_plain t ≡ true → IsText (str t)
str-IsText t h = record { as_content = λ es. plain-content t es h }

place-IsAttributes :
    (x y : Float) (size : ℤ)
    → IsAttributes (svg_optf "x" x ++ (svg_optf "y" y ++ svg_opti "font-size" size))
unfolding read_text read
place-IsAttributes x y size = record { kept = λ n es. refl }

text_element :
    {attributes : List Piece} (txt : Piece)
    → IsAttributes attributes
    → IsText txt
    → IsClosed (
        svg_tag_start "text" true
        ++ (attributes ++ (svg_opt_end false ++ (txt ∷ svg_tag_end "text"))))
unfolding read_text read
text_element txt h text =
    element "text" (b't' ∷ b'x' ∷ b'e' ∷ b't' ∷ [])
      (svg_opt_end false ++ (txt ∷ svg_tag_end "text")) (λ es. refl) h
      (λ es.
        ap (λ (o : Option State). elim o [ none ↦ none | some s ↦ read_all (svg_tag_end "text") s ])
          (text.as_content ((b't' ∷ b'x' ∷ b'e' ∷ b't' ∷ []) ∷ es)))

pub svg_text-IsClosed :
    (ctx : SvgContext) (txt : Piece) (x y : Float)
    → IsPlain ctx
    → IsText txt
    → IsClosed (svg_text ctx txt x y)
unfolding svg_text
svg_text-IsClosed ctx txt x y p text =
    text_element txt
      (IsAttributes-append (place-IsAttributes (cordx ctx x) (cordy ctx y) (pos ctx.text_size)) (
        IsAttributes-append (font_family-IsAttributes ctx p) (
          IsAttributes-append (svg_opt_fill-IsAttributes ctx p)
            (svg_opt_stroke-IsAttributes ctx p))))
      text

pub group_element :
    {attributes inner : List Piece}
    → IsAttributes attributes
    → IsClosed inner
    → IsClosed (
        svg_tag_start "g" true ++ (attributes ++ (svg_opt_end false ++ (inner ++ svg_tag_end "g"))))
unfolding read_text read
group_element {attributes} {inner} h k =
    element "g" (b'g' ∷ []) (svg_opt_end false ++ (inner ++ svg_tag_end "g")) (λ es. refl) h
      (λ es. read_all-append inner (svg_tag_end "g") _ _ (k.closed ((b'g' ∷ []) ∷ es)))

turn-IsAttributes :
    (cx cy dx dy : ℤ)
    → IsAttributes (
        svg_opt_long_beg "transform"
        ++ (svg_rotate (negsuc 89) cx cy ++ (svg_translate dx dy ++ svg_opt_long_end)))
unfolding read_text read
turn-IsAttributes cx cy dx dy = record { kept = λ n es. refl }

pub flip-IsAttributes :
    (cx cy : ℤ) (sx sy : Float) (dx dy : ℤ)
    → IsAttributes (
        svg_opt_long_beg "transform"
        ++ (svg_translate cx cy ++ (svg_scale sx sy ++ (svg_translate dx dy ++ svg_opt_long_end))))
unfolding read_text read
flip-IsAttributes cx cy sx sy dx dy = record { kept = λ n es. refl }

pub turned_text-IsClosed :
    (ctx : SvgContext) (txt : Piece) (cx cy dx dy : ℤ)
    → IsPlain ctx
    → IsText txt
    → IsClosed (turned_text ctx txt cx cy dx dy)
unfolding turned_text
turned_text-IsClosed ctx txt cx cy dx dy p text =
    group_element (turn-IsAttributes cx cy dx dy) (svg_text-IsClosed ctx txt _ _ p text)
