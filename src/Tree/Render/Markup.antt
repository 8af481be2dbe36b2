-- ===== src/Tree/Render/Markup.antt =====
-- The angle brackets of the rendered page are those of its tags.
use lovely_rs.Base.{
  ℕ, ◌+◌, ◌≡◌, refl, ◌∙◌, true, false, Option, none, some, [], ◌∷◌, ◌++◌, ◌==◌, arith,
  if◌then◌else◌, all, any, Text, codes,
}
use lovely_rs.Tree.Tags.{ElementTag, name, is_text, is_body}
use lovely_rs.Tree.Attrs.{AttrList}
use lovely_rs.Tree.Attrs.Grammar.{is_markup}
use lovely_rs.Tree.Arena.Monad.{Node}
use lovely_rs.Tree.Forest.{Forest, nil, tree}
use lovely_rs.Tree.Render.{is_void, escape, escape_opt, attr_text, open_tag, close_tag}
use lovely_rs.Tree.Render.Escape.{is_inert, escape-is_inert}
use lovely_rs.Tree.Render.Html.{element, html}

-- How many tags a text opens or closes, as far as `<` tells.
abbrev pub count : ℕ → Text → ℕ
count c [] = 0
count c (d ∷ s) = (if d == c then 1 else 0) + count c s

pub count-append : (c : ℕ) (s t : Text) → count c (s ++ t) ≡ count c s + count c t
count-append c [] t = omega arith
count-append c (d ∷ s) t = omega (arith, count-append c s t)

-- Every attribute name passed one of the validators.
abbrev pub HasNames : AttrList → Type 0
HasNames [] = Unit {0}
HasNames ((n, v) ∷ attrs) = (any is_markup n.text ≡ false) × HasNames attrs

abbrev pub AllHaveNames : Forest → Type 0
AllHaveNames nil = Unit {0}
AllHaveNames (tree id n kids sibs) = HasNames n.attrs × AllHaveNames kids × AllHaveNames sibs

-- The tags that a forest is written with.
unfoldable pub tag_count : Forest → ℕ
tag_count nil = 0
tag_count (tree id n kids sibs) =
    (if is_text n.tag
      then 0
      else if is_body n.tag
      then tag_count kids
      else if is_void n.tag
      then 1
      else tag_count kids + 2)
    + tag_count sibs

count-inert : (s : Text) → all is_inert s ≡ true → count b'<' s ≡ 0
count-inert [] h = refl
count-inert (c ∷ s) h = ground (arith, count-inert s)

count-name_char : (s : Text) → any is_markup s ≡ false → count b'<' s ≡ 0
count-name_char [] h = refl
count-name_char (c ∷ s) h = ground (arith, count-name_char s)

count-name : (tag : ElementTag) → count b'<' (name tag) ≡ 0
unfolding name
count-name ElementTag.text = refl
count-name _ = refl

count-attr_text : (attrs : AttrList) → HasNames attrs → count b'<' (attr_text attrs) ≡ 0
unfolding attr_text
count-attr_text [] h = refl
count-attr_text ((n, v) ∷ attrs) (h, k) = simp (
  count-append,
  count-name_char n.text h,
  count-inert (escape v) (escape-is_inert v),
  count-attr_text attrs k,
)

count-escape_opt : (o : Option Text) → count b'<' (escape_opt o) ≡ 0
unfolding escape_opt
count-escape_opt none = refl
count-escape_opt (some t) = count-inert (escape t) (escape-is_inert t)

count-element :
    (n : Node) (inner : Text)
    → HasNames n.attrs
    → count b'<' (element n inner) ≡ (
        if is_text n.tag
        then 0
        else if is_body n.tag
        then count b'<' inner
        else if is_void n.tag
        then 1
        else count b'<' inner + 2)
unfolding element open_tag close_tag
count-element n inner h = ground (
  arith,
  count-escape_opt n.text,
  count-append b'<' (open_tag n) (codes " />"),
  count-append b'<' (open_tag n ++ codes ">" ++ inner) (close_tag (name n.tag)),
  count-append b'<' (open_tag n ++ codes ">") inner,
  count-append b'<' (open_tag n) (codes ">"),
  count-append b'<' (name n.tag) (codes ">"),
  count-append b'<' (name n.tag) (attr_text n.attrs),
  count-name n.tag,
  count-attr_text n.attrs h,
)

-- When every attribute name passed a validator, the page holds one `<` for each tag of its
-- elements: no text and no attribute value, whatever it holds, opens a further one.
pub count-html : (f : Forest) → AllHaveNames f → count b'<' (html f) ≡ tag_count f
unfolding html tag_count
count-html nil h = refl
count-html (tree id n kids sibs) (h, hk, hs) =
    count-append b'<' (element n (html kids)) (html sibs)
    ∙ ground (arith, count-element n (html kids) h, count-html kids hk, count-html sibs hs)
