-- ===== src/Web/Pages/Forms.antt =====
-- `auto_wire_forms`: the forms of a page that create records. The order in which the hash map of the
-- forms gives them and the identifiers of the new rows are parameters.
pub mod Last
mod Tests
use lovely_rs.Base.{
  ℕ, zero, suc, Option, none, some, Bool, true, false, not, ◌&&◌, List, [], ◌∷◌, ◌++◌, map, any,
  length, ◌==◌, eq_opt, if◌then◌else◌, Text, codes, text_eq,
}
use lovely_rs.Tree.Errors.{Uuid}
use lovely_rs.Tree.Build.Rows as Rows
use lovely_rs.Tree.Build.Rows.{Json, string, object, ElementRow}
use lovely_rs.Db.Collections.{set_key}
use lovely_rs.Web.Pages.Slugs.{is_empty, slug_path_segment}
use lovely_rs.Web.Pages.Templates.{get}

-- `and_then(|v| v.as_str()).filter(|s| !s.is_empty())`.
abbrev pub given_text : Option Json → Option Text
given_text (some (string s)) = if is_empty s then none else some s
given_text _ = none

-- The forms with a collection: `form_collections`.
abbrev pub collection_of : ElementRow → Option Text
collection_of r =
    if text_eq r.tag (codes "form")
    then given_text (get r.attrs_json (codes "data-lovely-collection"))
    else none

abbrev with_form : Uuid → Option Text → List (Uuid × Text) → List (Uuid × Text)
with_form id none forms = forms
with_form id (some coll) forms = (id, coll) ∷ forms

unfoldable pub form_collections : List ElementRow → List (Uuid × Text)
form_collections [] = []
form_collections (r ∷ rows) = with_form r.id (collection_of r) (form_collections rows)

abbrev pub is_form : List (Uuid × Text) → Uuid → Bool
is_form forms id = any (λ f. f.0 == id) forms

-- `parent_of`; identifiers are unique.
unfoldable pub parent_of : List ElementRow → Uuid → Option Uuid
parent_of [] id = none
parent_of (r ∷ rows) id = if r.id == id then r.parent_id else parent_of rows id

-- The search for a form above a row; none where it does not end within the fuel.
abbrev next_up : Bool → (Option Uuid → Option Bool) → Option Uuid → Option Bool
next_up true rest parent = some true
next_up false rest parent = rest parent

unfoldable pub in_form :
    (fuel : ℕ) → List ElementRow → List (Uuid × Text) → Option Uuid → Option Bool
unfolding parent_of
in_form fuel rows forms none = some false
in_form zero rows forms (some c) = none
in_form (suc fuel) rows forms (some c) =
    next_up (is_form forms c) (in_form fuel rows forms) (parent_of rows c)

abbrev set_attr : (key value : Text) → Json → Json
unfolding set_key
set_attr key value (object m) = object (set_key key (string value) m)
set_attr key value v = v

abbrev renamed_row : Option Bool → Text → ElementRow → Option ElementRow
unfolding set_attr
renamed_row none field_name r = none
renamed_row (some true) field_name r =
    some (record r { attrs_json = set_attr (codes "name") field_name r.attrs_json })
renamed_row (some false) field_name r = some r

-- An input with a field gets the name of the field, where a form with a collection is above it.
unfoldable pub rename_field_row :
    List ElementRow → List (Uuid × Text) → ElementRow → Option ElementRow
unfolding in_form renamed_row
rename_field_row rows forms r = elim (given_text (get r.attrs_json (codes "data-lovely-field"))) [
  | none ↦ some r
  | some field_name ↦ renamed_row (in_form (suc (length rows)) rows forms r.parent_id) field_name r
]

abbrev pub cons_opt : Option ElementRow → Option (List ElementRow) → Option (List ElementRow)
cons_opt none rows = none
cons_opt (some r) none = none
cons_opt (some r) (some rows) = some (r ∷ rows)

unfoldable pub rename_rows :
    List ElementRow → List (Uuid × Text) → List ElementRow → Option (List ElementRow)
unfolding rename_field_row
rename_rows rows forms [] = some []
rename_rows rows forms (r ∷ rest) =
    cons_opt (rename_field_row rows forms r) (rename_rows rows forms rest)

-- The path that a form submits to.
unfoldable pub submit_path : (username page_slug coll : Text) → Text
unfolding slug_path_segment
submit_path username page_slug coll =
    codes "/p/"
    ++ (username ++ (codes "/" ++ (slug_path_segment page_slug ++ (codes "/_submit/" ++ coll))))

abbrev form_attrs : (action : Text) → Json → Json
unfolding set_attr
form_attrs action attrs = set_attr (codes "hx-swap") (codes "outerHTML") (
    set_attr (codes "hx-post") action
      (set_attr (codes "method") (codes "post") (set_attr (codes "action") action attrs)))

unfoldable pub wire_form : (username page_slug : Text) → ElementRow → ElementRow
unfolding submit_path form_attrs
wire_form username page_slug r = elim (collection_of r) [
  | none ↦ r
  | some coll ↦ record r {
    attrs_json = form_attrs (submit_path username page_slug coll) r.attrs_json;
  }
]

-- The last child of a form: the first row below it that no row stands behind.
abbrev pub is_followed : List ElementRow → Uuid → Bool
is_followed rows id = any (λ other. eq_opt other.prev_sibling (some id)) rows

unfoldable pub tail_of : (all_rows : List ElementRow) → Uuid → List ElementRow → Option Uuid
tail_of all_rows form [] = none
tail_of all_rows form (r ∷ rows) =
    if eq_opt r.parent_id (some form) && not (is_followed all_rows r.id)
    then some r.id
    else tail_of all_rows form rows

unfoldable pub csrf_input :
    (new_id : Uuid → Uuid) → (csrf_token : Text) → List ElementRow → Uuid → ElementRow
unfolding tail_of
csrf_input new_id csrf_token rows form = record {
  id = new_id form;
  parent_id = some form;
  prev_sibling = tail_of rows form rows;
  tag = codes "input";
  attrs_json = object (
      Rows.field (codes "name") (string (codes "_csrf")) (
        Rows.field (codes "type") (string (codes "hidden"))
          (Rows.field (codes "value") (string csrf_token) Rows.end)));
  text = none;
}

-- `auto_wire_forms`.
module _ (order : List (Uuid × Text) → List (Uuid × Text)) (new_id : Uuid → Uuid) where
  unfoldable pub wired :
      (username page_slug csrf_token : Text)
      → List (Uuid × Text)
      → List ElementRow
      → List ElementRow
  unfolding wire_form csrf_input
  wired username page_slug csrf_token forms rows =
      let wired_rows = map (wire_form username page_slug) rows in
      wired_rows ++ map (λ f. csrf_input new_id csrf_token wired_rows f.0) (order forms)

  abbrev wired_opt :
      (username page_slug csrf_token : Text)
      → List (Uuid × Text)
      → Option (List ElementRow)
      → Option (List ElementRow)
  unfolding wired
  wired_opt username page_slug csrf_token forms none = none
  wired_opt username page_slug csrf_token forms (some rows) =
      some (wired username page_slug csrf_token forms rows)

  unfoldable pub auto_wire_forms :
      List ElementRow → (username page_slug csrf_token : Text) → Option (List ElementRow)
  unfolding form_collections rename_rows wired_opt
  auto_wire_forms rows username page_slug csrf_token =
      let forms = form_collections rows in
      wired_opt username page_slug csrf_token forms (rename_rows rows forms rows)
