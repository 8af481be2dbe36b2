-- ===== src/Web/Pages/Forms/Tests.antt =====
-- A run of the wiring of a form.
use lovely_rs.Base.{◌≡◌, refl, Option, none, some, false, List, [], ◌∷◌, ◌++◌, Text, codes, arith}
use mathlib.Core.Path.{subst}
use lovely_rs.Tree.Errors.{Uuid}
use lovely_rs.Tree.Build.Rows as Rows
use lovely_rs.Tree.Build.Rows.{ElementRow, string, object}
use lovely_rs.Tree.Build.Siblings.{order_siblings}
use lovely_rs.Tree.Build.Salvage.{SameRows, HasDistinctIds}
use lovely_rs.Tree.Build.ChainOrder.{ids}
use lovely_rs.Web.Pages.Forms.{csrf_input, is_followed}
use lovely_rs.Web.Pages.Forms.Last.{IsChildren, csrf_input-last}

abbrev row : (id : Uuid) → (parent prev : Option Uuid) → (tag : Text) → ElementRow
row id parent prev tag = record {
  id = id;
  parent_id = parent;
  prev_sibling = prev;
  tag = tag;
  attrs_json =
      object (Rows.field (codes "data-lovely-collection") (string (codes "people")) Rows.end);
  text = none;
}

abbrev children : List ElementRow
children = row 1 (some 9) none (codes "input") ∷ row 2 (some 9) (some 1) (codes "button") ∷ []

abbrev rows : List ElementRow
rows = row 9 none none (codes "form") ∷ children

abbrev input : ElementRow
unfolding csrf_input
input = csrf_input (λ f. 20) (codes "t") rows 9

abbrev swapped : List ElementRow
unfolding input
swapped =
    input ∷ row 2 (some 9) (some 1) (codes "button") ∷ row 1 (some 9) none (codes "input") ∷ []

children-IsChildren : IsChildren rows 9 children
children-IsChildren = record {
  linked = (refl, (refl, tt));
  below = (refl, (refl, tt));
  among = (refl, (refl, tt));
  all_children = (λ h. h, (λ h. refl, (λ h. refl, tt)));
  open_end = λ z e. let same : 2 ≡ z = cc in subst (λ i. is_followed rows i ≡ false) same refl;
}

abbrev as_is : List ElementRow → List ElementRow
as_is l = l

swapped-SameRows : SameRows swapped (children ++ input ∷ [])
unfolding input
swapped-SameRows = λ q. omega arith

distinct-children : HasDistinctIds (children ++ input ∷ [])
unfolding input csrf_input
distinct-children = λ u. ground arith

last_example :
    (ordered : List ElementRow) × (order_siblings as_is swapped ≡ some ordered)
    × (ids ordered ≡ 1 ∷ 2 ∷ 20 ∷ [])
unfolding csrf_input input
last_example =
    csrf_input-last rows 9 (λ f. 20) (codes "t") children children-IsChildren as_is swapped
      (λ l q. refl) swapped-SameRows distinct-children
