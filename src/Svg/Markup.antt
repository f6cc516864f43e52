-- ===== src/Svg/Markup.antt =====
-- A reader of the markup that semestral_project/src/svg_generator.c prints: it follows the tags and
-- their attributes, keeps the open elements, and fails where the text is not well formed.
use Prim.Native.Char.{code}
use Prim.Native.String.{String}
use ctu_real_time_systems_pr.Base.{
  Bool, List, Option, [], arith, false, if◌then◌else◌, leb, none, not, refl, some, true, ℕ, ◌&&◌,
  ◌++◌, ◌==◌, ◌||◌, ◌∙◌, ◌∷◌, ◌≡◌,
}
use ctu_real_time_systems_pr.Svg.{Piece, str, int, flt}

abbrev pub Name : Type 0
Name = List ℕ

-- Where the reader stands, with the letters of a name from the last one on.
pub data Mode : Type 0 where
  content opened doctype : Mode
  naming closing slash tag : Name → Mode
  attribute equals value : Name → Mode

-- The place, and the open elements, the innermost first.
pub record State : Type 0 where
  pub mode : Mode
  pub open_elements : List Name

abbrev pub same_name : Name → Name → Bool
same_name [] [] = true
same_name (a ∷ as') (b ∷ bs) = (a == b) && same_name as' bs
same_name _ _ = false

abbrev pub is_letter : ℕ → Bool
is_letter c =
    leb b'a' c && leb c b'z' || leb b'A' c && leb c b'Z' || leb b'0' c && leb c b'9' || (c == b'-')

abbrev pub is_space : ℕ → Bool
is_space c = (c == b' ') || (c == b'\n')

abbrev pub close_element : Name → List Name → Option State
close_element n [] = none
close_element n (m ∷ es) =
    if same_name n m then some (record { mode = content; open_elements = es }) else none

abbrev pub stand : Mode → List Name → Option State
stand m es = some (record { mode = m; open_elements = es })

-- One character.
unfoldable pub read : ℕ → Mode → List Name → Option State
read c content es =
    if c == b'<' then stand opened es else (if c == b'&' then none else stand content es)
read c opened es =
    if c == b'/'
    then stand (closing []) es
    else (if c == b'!'
        then stand doctype es
        else (if is_letter c then stand (naming (c ∷ [])) es else none))
read c doctype es =
    if c == b'>' then stand content es else (if c == b'<' then none else stand doctype es)
read c (naming n) es =
    if is_letter c
    then stand (naming (c ∷ n)) es
    else (if is_space c
        then stand (tag n) es
        else (if c == b'>'
            then stand content (n ∷ es)
            else (if c == b'/' then stand (slash n) es else none)))
read c (slash n) es = if c == b'>' then stand content es else none
read c (closing n) es =
    if is_letter c
    then stand (closing (c ∷ n)) es
    else (if c == b'>' then close_element n es else none)
read c (tag n) es =
    if is_space c
    then stand (tag n) es
    else (if c == b'>'
        then stand content (n ∷ es)
        else (if c == b'/'
            then stand (slash n) es
            else (if is_letter c then stand (attribute n) es else none)))
read c (attribute n) es =
    if is_letter c
    then stand (attribute n) es
    else (if c == b'=' then stand (equals n) es else none)
read c (equals n) es = if c == b'"' then stand (value n) es else none
read c (value n) es =
    if c == b'"'
    then stand (tag n) es
    else (if (c == b'<') || (c == b'&') then none else stand (value n) es)

unfoldable pub read_text : String → State → Option State
read_text String.[] s = some s
read_text (String.◌∷◌ c cs) s = elim (read (code c) s.mode s.open_elements) [
  | none ↦ none
  | some s' ↦ read_text cs s'
]

-- A printed number has no character of the markup, and stands in a text or in a value.
abbrev pub read_number : State → Option State
read_number s = elim s.mode [ content ↦ some s | value n ↦ some s | _ ↦ none ]

abbrev pub read_piece : Piece → State → Option State
read_piece (str t) s = read_text t s
read_piece (int z) s = read_number s
read_piece (flt x) s = read_number s

abbrev pub read_all : List Piece → State → Option State
read_all [] s = some s
read_all (p ∷ ps) s = elim (read_piece p s) [ none ↦ none | some s' ↦ read_all ps s' ]

-- A text without characters of the markup, which may stand in a text or in a value.
abbrev pub is_plain : String → Bool
is_plain String.[] = true
is_plain (String.◌∷◌ c cs) =
    not ((code c == b'<') || (code c == b'&') || (code c == b'"')) && is_plain cs

pub plain-content :
    (t : String) (es : List Name)
    → is_plain t ≡ true
    → read_text t (record { mode = content; open_elements = es }) ≡ stand content es
unfolding read_text read
plain-content String.[] es h = refl
plain-content (String.◌∷◌ c cs) es h = ground (arith, plain-content cs es)

pub plain-value :
    (t : String) (n : Name) (es : List Name)
    → is_plain t ≡ true
    → read_text t (record { mode = value n; open_elements = es }) ≡ stand (value n) es
unfolding read_text read
plain-value String.[] n es h = refl
plain-value (String.◌∷◌ c cs) n es h = ground (arith, plain-value cs n es)

pub read_all-append :
    (ps qs : List Piece) (s t : State)
    → read_all ps s ≡ some t
    → read_all (ps ++ qs) s ≡ read_all qs t
read_all-append [] qs s t h = ground (arith, h)
read_all-append (p ∷ ps) qs s t h = step (read_piece p s) (λ s'. read_all-append ps qs s' t) h
  where
    step :
        (o : Option State)
        → ((s' : State) → read_all ps s' ≡ some t → read_all (ps ++ qs) s' ≡ read_all qs t)
        → elim o as (λ o. Option State) [ none ↦ none | some s' ↦ read_all ps s' ] ≡ some t
        → elim o as (λ o. Option State) [ none ↦ none | some s' ↦ read_all (ps ++ qs) s' ]
          ≡ read_all qs t
    step none ih h = cc
    step (some s') ih h = ih s' h

-- A part of a document that leaves the reader in the text of the element in which it found it.
pub record IsClosed (ps : List Piece) : Type 0 where
  pub closed :
      (es : List Name)
      → read_all ps (record { mode = content; open_elements = es }) ≡ stand content es

pub IsClosed-append : {ps qs : List Piece} → IsClosed ps → IsClosed qs → IsClosed (ps ++ qs)
IsClosed-append {ps} {qs} h k = record {
  closed = λ es. read_all-append ps qs _ _ (h.closed es) ∙ k.closed es;
}

-- Attributes: they leave the reader in the tag in which they found it.
pub record IsAttributes (ps : List Piece) : Type 0 where
  pub kept :
      (n : Name) (es : List Name)
      → read_all ps (record { mode = tag n; open_elements = es }) ≡ stand (tag n) es

pub IsAttributes-append :
    {ps qs : List Piece} → IsAttributes ps → IsAttributes qs → IsAttributes (ps ++ qs)
IsAttributes-append {ps} {qs} h k = record {
  kept = λ n es. read_all-append ps qs _ _ (h.kept n es) ∙ k.kept n es;
}
