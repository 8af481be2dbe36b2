-- ===== src/Tree/Tags/Laws.antt =====
-- What the names of tags guarantee.
use lovely_rs.Base.{
  ◌≡◌, refl, ◌↔◌, ap, ◌∙◌, inl, inr, some, List, [], ◌∷◌, arith, All, Text, text_eq, text_eq_iff,
  Bool-cases,
}
use lovely_rs.Tree.Tags.{
  ElementTag, name, arms, select_arm, from_name, is_text, is_body, is_text_tag, is_body_tag,
}

-- Every arm pairs a tag with its name.
arms-name : All (λ (r : Text × ElementTag). r.0 ≡ name r.1) arms
unfolding arms name
arms-name = ground arith

select_arm_sound :
    (rows : List (Text × ElementTag)) (s : Text) {tag : ElementTag}
    → All (λ r. r.0 ≡ name r.1) rows
    → select_arm rows s ≡ some tag
    → s ≡ name tag
unfolding select_arm
select_arm_sound [] s h e = cc
select_arm_sound ((n, t) ∷ rows) s (p, h) e = elim (Bool-cases (text_eq s n)) [
  | inl hit ↦
      let same : some t ≡ some _ = rw hit at e in
      let eq : t ≡ _ = cc in (text_eq_iff s n).0 hit ∙ p ∙ ap name eq
  | inr miss ↦ select_arm_sound rows s h (rw miss at e)
]

from_name-name : (tag : ElementTag) → from_name (name tag) ≡ some tag
unfolding from_name name
from_name-name ElementTag.text = refl
from_name-name _ = refl

-- A text parses to a tag exactly when it is the name of that tag.
pub from_name_iff : (s : Text) (tag : ElementTag) → (from_name s ≡ some tag) ↔ (s ≡ name tag)
unfolding from_name
from_name_iff s tag = (select_arm_sound arms s arms-name, λ e. ap from_name e ∙ from_name-name tag)

-- The tests on the text of a tag agree with the tests on the tag.
pub is_text_tag-name :
    (tag : ElementTag)
    → (is_text_tag (name tag) ≡ is_text tag) × (is_body_tag (name tag) ≡ is_body tag)
unfolding is_text_tag is_body_tag is_text is_body name
is_text_tag-name ElementTag.text = (refl, refl)
is_text_tag-name _ = (refl, refl)
