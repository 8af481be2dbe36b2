-- ===== src/Web/Pages/Repeaters/Tests.antt =====
-- A run of a repeater.
use lovely_rs.Base.{◌↔◌, ℕ, ◌+◌, ◌≡◌, refl, none, some, List, [], ◌∷◌, map, Text, codes}
use lovely_rs.Tree.Build.Rows as Rows
use lovely_rs.Tree.Build.Rows.{Json, string, object, null, ElementRow}
use lovely_rs.Db.Collections.{Collection, Record, Store}
use lovely_rs.Web.Pages.Repeaters.{expand_repeaters, collect_subtree}
use lovely_rs.Web.Pages.Repeaters.Subtree.{IsBelow, collect_subtree_iff}
use mathlib.Core.List.{Memᴰ}

abbrev no_text : Json → Text
no_text v = []

abbrev object_of : (key value : Text) → Json
object_of key value = object (Rows.field key (string value) Rows.end)

abbrev text_row : ElementRow
text_row = record {
  id = 2;
  parent_id = some 1;
  prev_sibling = none;
  tag = codes "text";
  attrs_json = null;
  text = some (codes "Hi {{name}}");
}

abbrev rows : List ElementRow
rows =
    record {
      id = 1;
      parent_id = none;
      prev_sibling = none;
      tag = codes "div";
      attrs_json = object_of (codes "data-lovely-repeat") (codes "people");
      text = none;
    }
    ∷ text_row
    ∷ []

abbrev person : (id : ℕ) → (name : Text) → Record
person id name = record {
  id = id;
  collection_id = 3;
  data_json = object_of (codes "name") name;
  created_at = id;
  updated_at = id;
}

abbrev people : Collection
people = record {
  id = 3;
  app_id = 1;
  name = codes "people";
  fields_json = null;
  created_at = 0;
  updated_at = 0;
}

abbrev store : Store
store = record {
  collections = people ∷ [];
  records = person 7 (codes "Ann") ∷ person 8 (codes "Bob") ∷ [];
}

repeated_texts :
    map (λ r. r.text) (expand_repeaters no_text (λ n. 100 + n) 1 store rows)
    ≡ none ∷ some (codes "Hi Ann") ∷ some (codes "Hi Bob") ∷ []
unfolding expand_repeaters
repeated_texts = refl

-- The copies are siblings in the order of the records.
repeated_chain :
    map (λ r. r.prev_sibling) (expand_repeaters no_text (λ n. 100 + n) 1 store rows)
    ≡ none ∷ none ∷ some 100 ∷ []
unfolding expand_repeaters
repeated_chain = refl

subtree_example : Memᴰ text_row (collect_subtree rows 1) ↔ (Memᴰ text_row rows × IsBelow rows 1 2)
subtree_example = collect_subtree_iff rows 1 text_row
