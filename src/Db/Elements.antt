-- ===== src/Db/Elements.antt =====
-- crates/lovely-db/src/elements.rs: the rows of the `elements` table. The identifier and the time
-- that the database gives are parameters.
pub mod Cascade
pub mod Undo
use lovely_rs.Base.{
  ℕ, zero, suc, ◌+◌, Option, none, some, Bool, true, false, not, ◌&&◌, List, [], ◌∷◌, ◌++◌, map,
  ◌==◌, eq_opt, if◌then◌else◌, any, length, Text, codes, text_eq,
}
use lovely_rs.Tree.Errors.{Uuid}
use lovely_rs.Db.Errors.{DbResult, ok, err, sqlx}
use lovely_rs.Tree.Tags.{is_text_tag}
use lovely_rs.Tree.Build.Rows.{
  Json, null, boolean, number, string, array, object, Fields, end, field, ElementRow,
}

-- `ElementDbRow`; a time is a number.
pub record ElementDbRow : Type 0 where
  pub id : Uuid
  pub page_id : Uuid
  pub parent_id : Option Uuid
  pub prev_sibling : Option Uuid
  pub tag : Text
  pub attrs : Json
  pub payload : Json
  pub created_at : ℕ
  pub updated_at : ℕ

-- `Value::get` on an object: the entry with a key, of which there is one at most.
unfoldable pub get_field : Fields → Text → Option Json
get_field end key = none
get_field (field k v fields) key = if text_eq k key then some v else get_field fields key

abbrev as_str : Option Json → Option Text
as_str (some (string s)) = some s
as_str _ = none

-- `extract_text`.
unfoldable pub extract_text : Json → Option Text
unfolding get_field
extract_text (object fields) = as_str (get_field fields (codes "text"))
extract_text _ = none

-- `into_tree_row`.
unfoldable pub into_tree_row : ElementDbRow → ElementRow
unfolding is_text_tag extract_text
into_tree_row r = record {
  id = r.id;
  parent_id = r.parent_id;
  prev_sibling = r.prev_sibling;
  tag = r.tag;
  attrs_json = r.attrs;
  text = if is_text_tag r.tag then extract_text r.payload else none;
}

-- `load_elements_for_page`, in the order of the table.
unfoldable pub load_elements_for_page : Uuid → List ElementDbRow → List ElementRow
unfolding into_tree_row
load_elements_for_page page [] = []
load_elements_for_page page (r ∷ rows) =
    let rest = load_elements_for_page page rows in
    if r.page_id == page then into_tree_row r ∷ rest else rest

pub record InsertElement : Type 0 where
  pub page_id : Uuid
  pub parent_id : Option Uuid
  pub prev_sibling : Option Uuid
  pub tag : Text
  pub attrs : Json
  pub payload : Json

abbrev pub inserted_row : (new_id now : ℕ) → InsertElement → ElementDbRow
inserted_row new_id now insert = record {
  id = new_id;
  page_id = insert.page_id;
  parent_id = insert.parent_id;
  prev_sibling = insert.prev_sibling;
  tag = insert.tag;
  attrs = insert.attrs;
  payload = insert.payload;
  created_at = now;
  updated_at = now;
}

-- The UPDATE of both transactions: the rows of a page with a parent and a previous sibling, but for
-- one, get another previous sibling. `IS NOT DISTINCT FROM` is equality of optional values.
unfoldable pub relink :
    (now : ℕ)
    → (page : Uuid) → (parent old new : Option Uuid) → (but : Option Uuid) → ElementDbRow
    → ElementDbRow
relink now page parent old new but r =
    if (r.page_id == page)
      && eq_opt r.parent_id parent
      && eq_opt r.prev_sibling old
      && not (eq_opt (some r.id) but)
    then record r { prev_sibling = new; updated_at = now }
    else r

-- A foreign key into the table with some rows.
unfoldable pub refers : Option Uuid → List ElementDbRow → Bool
refers none rows = true
refers (some id) rows = any (λ r. r.id == id) rows

-- `insert_element`: the row is inserted, then the sibling that stood behind its previous sibling is
-- patched. The INSERT fails where a key refuses it: another row has the identifier, or the page, the
-- parent or the previous sibling is missing. `has_page` tells which pages there are.
unfoldable pub insert_element :
    (new_id now : ℕ)
    → (has_page : Uuid → Bool) → InsertElement
    → List ElementDbRow
    → DbResult (ElementDbRow × List ElementDbRow)
unfolding relink refers
insert_element new_id now has_page insert rows =
    let row = inserted_row new_id now insert in
    let extended = rows ++ row ∷ [] in
    if has_page insert.page_id
      && not (refers (some new_id) rows)
      && refers insert.parent_id extended
      && refers insert.prev_sibling extended
    then ok (
      row,
      map
          (relink now insert.page_id insert.parent_id insert.prev_sibling (some new_id)
            (some new_id))
          extended,
    )
    else err sqlx

unfoldable pub find_row : Uuid → List ElementDbRow → Option ElementDbRow
find_row id [] = none
find_row id (r ∷ rows) = if r.id == id then some r else find_row id rows

-- A statement DELETE with the foreign keys of the table
-- (migrations/20260505000005_elements.up.sql): the rows below a deleted row go too (`ON DELETE
-- CASCADE` of `parent_id`), and a row that stood behind one loses its previous sibling (`ON DELETE
-- SET NULL` of `prev_sibling`). One round drops the rows of some identifiers, and the next one
-- those below them.
abbrev pub one_of : List Uuid → Option Uuid → Bool
one_of ids none = false
one_of ids (some id) = any (λ i. i == id) ids

unfoldable pub drop_rows : List Uuid → List ElementDbRow → List ElementDbRow
drop_rows ids [] = []
drop_rows ids (r ∷ rows) =
    let rest = drop_rows ids rows in if one_of ids (some r.id) then rest else r ∷ rest

unfoldable pub child_ids : List Uuid → List ElementDbRow → List Uuid
child_ids ids [] = []
child_ids ids (r ∷ rows) =
    let rest = child_ids ids rows in if one_of ids r.parent_id then r.id ∷ rest else rest

unfoldable pub unlink_prev : List Uuid → ElementDbRow → ElementDbRow
unlink_prev ids r = if one_of ids r.prev_sibling then record r { prev_sibling = none } else r

unfoldable pub cascade : (rounds : ℕ) → List Uuid → List ElementDbRow → List ElementDbRow
unfolding drop_rows child_ids unlink_prev
cascade zero ids rows = rows
cascade (suc rounds) ids rows =
    let kept = drop_rows ids rows in
    map (unlink_prev ids) (cascade rounds (child_ids ids kept) kept)

-- A round that goes on drops a row, so there are no more rounds than rows.
unfoldable pub delete_ids : List Uuid → List ElementDbRow → List ElementDbRow
unfolding cascade
delete_ids ids rows = cascade (suc (length rows)) ids rows

-- The transaction of `delete_element` on the row that it found; `id` is a primary key, so the
-- statement itself affects one row.
unfoldable pub delete_found :
    (id now : ℕ) → Option ElementDbRow → List ElementDbRow → ℕ × List ElementDbRow
unfolding delete_ids relink
delete_found id now none rows = (0, rows)
delete_found id now (some target) rows = (
  1,
  delete_ids (id ∷ [])
      (map (relink now target.page_id target.parent_id (some id) target.prev_sibling none) rows),
)

-- `delete_element`.
unfoldable pub delete_element : (id now : ℕ) → List ElementDbRow → ℕ × List ElementDbRow
unfolding find_row delete_found
delete_element id now rows = delete_found id now (find_row id rows) rows

pub record ElementPatch : Type 0 where
  pub tag : Option Text
  pub attrs : Option Json
  pub payload : Option Json

-- `COALESCE`.
abbrev coalesce : {A : Type 0} → Option A → A → A
coalesce none old = old
coalesce (some new) old = new

-- `update_element`; none where no row has the identifier, an error of `fetch_one`.
unfoldable pub update_row : (now : ℕ) → ElementPatch → ElementDbRow → ElementDbRow
update_row now patch r = record r {
  tag = coalesce patch.tag r.tag;
  attrs = coalesce patch.attrs r.attrs;
  payload = coalesce patch.payload r.payload;
  updated_at = now;
}

abbrev under_row :
    ElementDbRow
    → Option (ElementDbRow × List ElementDbRow)
    → Option (ElementDbRow × List ElementDbRow)
under_row r none = none
under_row r (some (found, rows)) = some (found, r ∷ rows)

unfoldable pub update_element :
    (id now : ℕ) → ElementPatch → List ElementDbRow → Option (ElementDbRow × List ElementDbRow)
unfolding update_row
update_element id now patch [] = none
update_element id now patch (r ∷ rows) =
    let rest = update_element id now patch rows in
    if r.id == id
    then some (update_row now patch r, update_row now patch r ∷ rows)
    else under_row r rest
