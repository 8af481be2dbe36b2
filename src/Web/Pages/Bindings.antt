-- ===== src/Web/Pages/Bindings.antt =====
-- The values of the first records of collections in the rows of a page: `interpolate_collection_refs`
-- and `resolve_bindings`.
use lovely_rs.Base.{
  Option, none, some, Bool, true, false, List, [], ◌∷◌, ◌++◌, map, any, if◌then◌else◌, Text, codes,
  text_eq,
}
use lovely_rs.Tree.Errors.{Uuid}
use lovely_rs.Tree.Build.Rows as Rows
use lovely_rs.Tree.Build.Rows.{Json, string, object, ElementRow}
use lovely_rs.Db.Collections.{Record, Store, find_collection_by_name, list_records, set_key}
use lovely_rs.Web.Pages.Slugs.{is_empty}
use lovely_rs.Web.Pages.Templates.{split_once, get, collect_refs, interpolate_named, map_strings}

abbrev first_of : List Record → Option Json
first_of [] = none
first_of (r ∷ records) = some r.data_json

-- The data of the first record of a collection.
unfoldable pub first_record : Uuid → Store → Text → Option Json
unfolding find_collection_by_name list_records
first_record app s name = elim (find_collection_by_name app name s.collections) [
  | none ↦ none
  | some c ↦ first_of (list_records c.id s.records)
]

-- The collections that the texts and the attributes of the rows refer to.
unfoldable pub string_refs : Rows.Fields → List Text
unfolding collect_refs
string_refs Rows.end = []
string_refs (Rows.field k (string s) fields) = collect_refs 0 s ++ string_refs fields
string_refs (Rows.field k v fields) = string_refs fields

abbrev text_refs : Option Text → List Text
unfolding collect_refs
text_refs none = []
text_refs (some s) = collect_refs 0 s

abbrev attr_refs : Json → List Text
unfolding string_refs
attr_refs (object m) = string_refs m
attr_refs v = []

unfoldable pub seen_refs : List ElementRow → List Text
unfolding text_refs attr_refs
seen_refs [] = []
seen_refs (r ∷ rows) = text_refs r.text ++ (attr_refs r.attrs_json ++ seen_refs rows)

abbrev is_there : Option Json → Bool
is_there none = false
is_there (some v) = true

module _ (json_text : Json → Text) where
  abbrev named_attrs : (Text → Option Json) → Json → Json
  unfolding map_strings interpolate_named
  named_attrs cache (object m) = object (map_strings (λ s. interpolate_named json_text s cache) m)
  named_attrs cache v = v

  abbrev named_text : (Text → Option Json) → Option Text → Option Text
  unfolding interpolate_named
  named_text cache none = none
  named_text cache (some s) = some (interpolate_named json_text s cache)

  abbrev named_row : (Text → Option Json) → ElementRow → ElementRow
  unfolding named_attrs named_text
  named_row cache r = record r {
    text = named_text cache r.text;
    attrs_json = named_attrs cache r.attrs_json;
  }

  -- `interpolate_collection_refs`: the cache has the collections that are referred to.
  unfoldable pub interpolate_collection_refs : Uuid → Store → List ElementRow → List ElementRow
  unfolding first_record seen_refs named_row
  interpolate_collection_refs app s rows =
      let seen = seen_refs rows in
      let cache =
        λ (name : Text). if any (λ t. text_eq t name) seen then first_record app s name else none in
      if any (λ t. is_there (cache t)) seen then map (named_row cache) rows else rows

-- The reference of a row: a collection and a field that is not empty.
abbrev bound_field : Option (Text × Text) → Option (Text × Text)
bound_field none = none
bound_field (some (coll, key)) = if is_empty key then none else some (coll, key)

abbrev binding_of : Option Json → Option (Text × Text)
unfolding split_once
binding_of (some (string bind)) = bound_field (split_once bind)
binding_of _ = none

abbrev put_value : Text → Json → Json
unfolding set_key
put_value s (object m) = object (set_key (codes "value") (string s) m)
put_value s v = object (Rows.field (codes "value") (string s) Rows.end)

-- The value in a row: the attribute of an input, nothing for a select, and the text of the rest.
unfoldable pub bind_row : Text → ElementRow → ElementRow
unfolding put_value
bind_row s r =
    if text_eq r.tag (codes "input")
    then record r { attrs_json = put_value s r.attrs_json }
    else if text_eq r.tag (codes "select")
    then r
    else record r { text = some s }

abbrev bound_row : Option Json → ElementRow → ElementRow
unfolding bind_row
bound_row (some (string s)) r = bind_row s r
bound_row _ r = r

abbrev value_of : Option Json → Text → Option Json
value_of none key = none
value_of (some v) key = get v key

abbrev resolved_row : Uuid → Store → ElementRow → Option (Text × Text) → ElementRow
unfolding first_record bound_row
resolved_row app s r none = r
resolved_row app s r (some (coll, key)) = bound_row (value_of (first_record app s coll) key) r

-- `resolve_bindings`.
unfoldable pub resolve_bindings : Uuid → Store → List ElementRow → List ElementRow
unfolding binding_of resolved_row
resolve_bindings app s rows =
    map (λ r. resolved_row app s r (binding_of (get r.attrs_json (codes "data-lovely-bind")))) rows
