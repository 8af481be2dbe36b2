-- ===== src/Web/Pages/Templates/Segments.antt =====
-- What interpolation makes of a template, read as text and holes.
use lovely_rs.Base.{
  ℕ, suc, ◌+◌, ◌≡◌, refl, ap, sym, ◌∙◌, Option, none, some, Bool, true, false, not, List, [], ◌∷◌,
  ◌++◌, all, ◌==◌, length, length-append, Text, utf8, bytes, trim, arith,
}
use mathlib.Core.List.{append_assoc}
use lovely_rs.Tree.Build.Rows.{Json}
use lovely_rs.Web.Pages.Templates.{
  close, token, expand, expand_at, fill_record, interpolate, fill_named, interpolate_named, get,
  filled,
}

pub data Segment : Type 0 where
  literal : Text → Segment
  hole : Text → Segment

-- The text of a template.
abbrev pub print : List Segment → Text
print [] = []
print (literal s ∷ segments) = s ++ print segments
print (hole k ∷ segments) = b'{' ∷ b'{' ∷ (k ++ (b'}' ∷ b'}' ∷ print segments))

abbrev has_no : ℕ → Text → Bool
has_no c s = all (λ d. not (d == c)) s

-- Text without opening braces, and holes without closing ones.
abbrev pub IsTemplate : List Segment → Type 0
IsTemplate [] = Unit {0}
IsTemplate (literal s ∷ segments) = (has_no b'{' s ≡ true) × IsTemplate segments
IsTemplate (hole k ∷ segments) = (has_no b'}' k ≡ true) × IsTemplate segments

-- The text between the holes byte by byte, and in the place of a hole what fills it.
abbrev pub fill_in : (fill : Text → Text) → List Segment → Text
unfolding bytes
fill_in fill [] = []
fill_in fill (literal s ∷ segments) = bytes s ++ fill_in fill segments
fill_in fill (hole k ∷ segments) = fill k ++ fill_in fill segments

close-append : (k rest : Text) → has_no b'}' k ≡ true → close (k ++ (b'}' ∷ b'}' ∷ rest)) ≡ some k
unfolding close
close-append [] rest h = refl
close-append (c ∷ []) rest h = ground (arith, close-append [] rest refl)
close-append (c ∷ d ∷ k) rest h = ground (arith, close-append (d ∷ k) rest (ground arith))

module _ (fill : Text → Text) where
  expand_skip : (p rest : Text) → expand fill (length p) (p ++ rest) ≡ expand fill 0 rest
  unfolding expand
  expand_skip [] rest = refl
  expand_skip (c ∷ p) rest = expand_skip p rest

  token_plain : (c : ℕ) (s : Text) → (c == b'{') ≡ false → token (c ∷ s) ≡ none
  unfolding token
  token_plain c [] h = refl
  token_plain c (d ∷ s) h = rw h refl

  expand-literal :
      (s rest : Text)
      → has_no b'{' s ≡ true
      → expand fill 0 (s ++ rest) ≡ bytes s ++ expand fill 0 rest
  unfolding expand expand_at bytes
  expand-literal [] rest h = refl
  expand-literal (c ∷ s) rest h = rw (token_plain c (s ++ rest) (ground arith)) (
      ap (λ t. utf8 c ++ t) (expand-literal s rest (ground arith))
      ∙ sym (append_assoc (utf8 c) (bytes s) (expand fill 0 rest)))

  skipped : (k : Text) → length k + 3 ≡ suc (length (k ++ (b'}' ∷ b'}' ∷ [])))
  skipped k = omega (arith, length-append k (b'}' ∷ b'}' ∷ []))

  expand-hole :
      (k rest : Text)
      → has_no b'}' k ≡ true
      → expand fill 0 (b'{' ∷ b'{' ∷ (k ++ (b'}' ∷ b'}' ∷ rest))) ≡ fill k ++ expand fill 0 rest
  unfolding expand expand_at token
  expand-hole k rest h = rw (close-append k rest h) (
      ap (λ t. fill k ++ t)
        (ap (λ n. expand fill n (b'{' ∷ (k ++ (b'}' ∷ b'}' ∷ rest)))) (skipped k)
          ∙ ap (expand fill (length (k ++ (b'}' ∷ b'}' ∷ []))))
              (sym (append_assoc k (b'}' ∷ b'}' ∷ []) rest))
          ∙ expand_skip (k ++ (b'}' ∷ b'}' ∷ [])) rest))

  expand-print :
      (segments : List Segment)
      → IsTemplate segments
      → expand fill 0 (print segments) ≡ fill_in fill segments
  unfolding fill_in expand
  expand-print [] h = refl
  expand-print (literal s ∷ segments) (p, h) =
      expand-literal s (print segments) p ∙ ap (λ t. bytes s ++ t) (expand-print segments h)
  expand-print (hole k ∷ segments) (p, h) =
      expand-hole k (print segments) p ∙ ap (λ t. fill k ++ t) (expand-print segments h)

-- A template of text and holes, the text without opening braces and the holes without closing ones,
-- is interpolated hole by hole. For a record, a hole becomes the value of its field, or nothing
-- where there is none; for the collections of an app it becomes what its reference resolves to, or
-- itself. The values are not interpolated again. The text between the holes comes out as its bytes,
-- each one a character.
pub interpolate-print :
    (json_text : Json → Text) (segments : List Segment) (data_json : Json)
    (cache : Text → Option Json)
    → IsTemplate segments
    → (interpolate json_text (print segments) data_json
        ≡ fill_in (λ k. filled json_text [] (get data_json (trim k))) segments)
      × (interpolate_named json_text (print segments) cache
          ≡ fill_in (fill_named json_text cache) segments)
unfolding interpolate interpolate_named fill_record
interpolate-print json_text segments data_json cache h = (
  expand-print (fill_record json_text data_json) segments h,
  expand-print (fill_named json_text cache) segments h,
)
