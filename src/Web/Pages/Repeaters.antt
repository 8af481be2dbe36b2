-- ===== src/Web/Pages/Repeaters.antt =====
-- `expand_repeaters` and `collect_subtree`: the first child of an element with
-- `data-lovely-repeat` is copied for each record of a collection. The identifiers of new rows are a
-- parameter: `fresh n` is the n-th that is drawn.
mod Rounds
mod Subtree
mod Tests
use lovely_rs.Base.{
  ℕ, zero, suc, ◌+◌, ◌*◌, Option, none, some, Bool, true, false, not, ◌&&◌, ◌||◌, List, [], ◌∷◌,
  ◌++◌, map, any, length, ◌==◌, eq_opt, if◌then◌else◌, Text, codes, text_eq,
}
use lovely_rs.Tree.Errors.{Uuid}
use lovely_rs.Tree.Build.Rows.{Json, ElementRow}
use lovely_rs.Db.Collections.{Record, Store, find_collection_by_name, list_records}
use lovely_rs.Web.Pages.Templates.{get, interpolate, interpolate_attrs}
use lovely_rs.Web.Pages.Bindings.{interpolate_collection_refs, resolve_bindings}
use lovely_rs.Web.Pages.Forms.{given_text, auto_wire_forms}

abbrev pub is_in : List Uuid → Uuid → Bool
is_in ids id = any (λ i. i == id) ids

abbrev is_in_opt : List Uuid → Option Uuid → Bool
is_in_opt ids none = false
is_in_opt ids (some id) = is_in ids id

-- A set as the list of its elements, the new ones in front.
abbrev insert_id : Uuid → List Uuid → List Uuid
insert_id id ids = if is_in ids id then ids else id ∷ ids

-- A round over the rows, in which the set grows.
unfoldable pub include_pass : List Uuid → List ElementRow → List Uuid
include_pass included [] = included
include_pass included (r ∷ rows) =
    include_pass (if is_in_opt included r.parent_id then insert_id r.id included else included) rows

-- The rounds until the set is stable; a round that goes on adds the identifier of a row.
unfoldable pub include_all : (rounds : ℕ) → List Uuid → List ElementRow → List Uuid
unfolding include_pass
include_all zero included rows = included
include_all (suc rounds) included rows =
    let grown = include_pass included rows in
    elim (length grown == length included) [ true ↦ grown | false ↦ include_all rounds grown rows ]

abbrev pub rows_in : (inside : Bool) → List Uuid → List ElementRow → List ElementRow
rows_in inside ids [] = []
rows_in inside ids (r ∷ rows) =
    let rest = rows_in inside ids rows in
    if (if is_in ids r.id then inside else not inside) then r ∷ rest else rest

-- `collect_subtree`.
unfoldable pub collect_subtree : List ElementRow → Uuid → List ElementRow
unfolding include_all
collect_subtree rows root = rows_in true (include_all (suc (length rows)) (root ∷ []) rows) rows

-- The elements with a collection to repeat.
abbrev with_repeater : Uuid → Option Text → List (Uuid × Text) → List (Uuid × Text)
with_repeater id none repeaters = repeaters
with_repeater id (some coll) repeaters = (id, coll) ∷ repeaters

unfoldable pub repeaters_of : List ElementRow → List (Uuid × Text)
repeaters_of [] = []
repeaters_of (r ∷ rows) =
    with_repeater r.id (given_text (get r.attrs_json (codes "data-lovely-repeat")))
      (repeaters_of rows)

-- The first of `ordered_children`, which is all that is read of them. Its loop ends, since
-- identifiers are unique.
unfoldable pub first_child : Uuid → List ElementRow → Option Uuid
first_child parent [] = none
first_child parent (r ∷ rows) =
    if eq_opt r.parent_id (some parent) && eq_opt r.prev_sibling none
    then some r.id
    else first_child parent rows

-- The data of the records of a collection, none of them where it is not there.
unfoldable pub records_of : Uuid → Store → Text → List Json
unfolding find_collection_by_name list_records
records_of app s name = elim (find_collection_by_name app name s.collections) [
  | none ↦ []
  | some c ↦ map (λ r. r.data_json) (list_records c.id s.records)
]

module _ (json_text : Json → Text) (fresh : ℕ → Uuid) where
  -- `id_map`: a new identifier for each row of the template.
  unfoldable pub id_map : (drawn : ℕ) → List ElementRow → Uuid → Uuid
  id_map drawn [] id = id
  id_map drawn (r ∷ template) id =
      if r.id == id then fresh drawn else id_map (suc drawn) template id

  abbrev map_opt : (Uuid → Uuid) → Option Uuid → Option Uuid
  map_opt f none = none
  map_opt f (some id) = some (f id)

  abbrev text_for : Json → Option Text → Option Text
  unfolding interpolate
  text_for data_json none = none
  text_for data_json (some s) = some (interpolate json_text s data_json)

  -- A copy of a row for a record.
  unfoldable pub clone_row :
      (new_ids : Uuid → Uuid)
      → (parent template : Uuid) → (prev_root : Option Uuid) → Json
      → ElementRow
      → ElementRow
  unfolding text_for interpolate_attrs
  clone_row new_ids parent template prev_root data_json orig = record {
    id = new_ids orig.id;
    parent_id = if orig.id == template then some parent else map_opt new_ids orig.parent_id;
    prev_sibling = if orig.id == template then prev_root else map_opt new_ids orig.prev_sibling;
    tag = orig.tag;
    attrs_json = interpolate_attrs json_text orig.attrs_json data_json;
    text = text_for data_json orig.text;
  }

  -- The copies for the records, each behind the one before it.
  unfoldable pub clone_records :
      (drawn : ℕ)
      → (parent template : Uuid) → (prev_root : Option Uuid) → List ElementRow
      → List Json
      → List ElementRow
  unfolding id_map clone_row
  clone_records drawn parent template prev_root rows [] = []
  clone_records drawn parent template prev_root rows (d ∷ records) =
      let new_ids = id_map drawn rows in
      map (clone_row new_ids parent template prev_root d) rows
      ++ clone_records (drawn + length rows) parent template (some (new_ids template)) rows records

  abbrev repeated :
      (parent : Uuid) → List Json → ℕ × List ElementRow → Option Uuid → ℕ × List ElementRow
  unfolding collect_subtree clone_records
  repeated parent records (drawn, rows) none = (drawn, rows)
  repeated parent records (drawn, rows) (some template) =
      let template_rows = collect_subtree rows template in
      (
        drawn + length template_rows * length records,
        rows_in false (map (λ r. r.id) template_rows) rows
            ++ clone_records drawn parent template none template_rows records,
      )

  unfoldable pub expand_each :
      Uuid → Store → List (Uuid × Text) → ℕ × List ElementRow → List ElementRow
  unfolding repeated first_child records_of
  expand_each app s [] (drawn, rows) = rows
  expand_each app s ((parent, coll) ∷ repeaters) (drawn, rows) =
      expand_each app s repeaters
        (repeated parent (records_of app s coll) (drawn, rows) (first_child parent rows))

  -- `expand_repeaters`.
  unfoldable pub expand_repeaters : Uuid → Store → List ElementRow → List ElementRow
  unfolding expand_each repeaters_of
  expand_repeaters app s rows = expand_each app s (repeaters_of rows) (0, rows)

  -- The rows of a public page as `render_public` gives them to the loader of the tree.
  unfoldable pub content_rows :
      (order : List (Uuid × Text) → List (Uuid × Text))
      → (new_id : Uuid → Uuid) → Uuid
      → Store
      → (username slug csrf_token : Text) → List ElementRow
      → Option (List ElementRow)
  unfolding expand_repeaters resolve_bindings interpolate_collection_refs auto_wire_forms
  content_rows order new_id app s username slug csrf_token rows =
      auto_wire_forms order new_id
        (interpolate_collection_refs json_text app s
          (resolve_bindings app s (expand_repeaters app s rows)))
        username slug csrf_token
