-- ===== src/Db/Revisions/Saved.antt =====
-- The JSON form of the rows in a snapshot: what `row_to_json` of Postgres writes and what
-- `revisions::step` reads.
use lovely_rs.Base.{ℕ, ◌≡◌, refl, Option, none, some, List, [], ◌∷◌, Text, codes}
use lovely_rs.Tree.Errors.{Uuid}
use lovely_rs.Tree.Build.Rows.{Json, Items, nil, cons, null, string, object, end, field}
use lovely_rs.Db.Elements.{ElementDbRow, get_field}

-- What `step` reads of a row.
pub record SavedRow : Type 0 where
  pub id : Uuid
  pub parent_id : Option Uuid
  pub prev_sibling : Option Uuid
  pub tag : Text
  pub attrs : Json
  pub payload : Json

abbrev pub saved : ElementDbRow → SavedRow
saved r = record {
  id = r.id;
  parent_id = r.parent_id;
  prev_sibling = r.prev_sibling;
  tag = r.tag;
  attrs = r.attrs;
  payload = r.payload;
}

-- The texts of identifiers and of times.
module _ (uuid_text time_text : ℕ → Text) where
  abbrev uuid_json : Option Uuid → Json
  uuid_json none = null
  uuid_json (some id) = string (uuid_text id)

  -- `row_to_json(e)`, its entries in the order of a `serde_json::Map`.
  unfoldable pub row_to_json : ElementDbRow → Json
  row_to_json r = object (
      field (codes "attrs") r.attrs (
        field (codes "created_at") (string (time_text r.created_at)) (
          field (codes "id") (string (uuid_text r.id)) (
            field (codes "page_id") (string (uuid_text r.page_id)) (
              field (codes "parent_id") (uuid_json r.parent_id) (
                field (codes "payload") r.payload (
                  field (codes "prev_sibling") (uuid_json r.prev_sibling) (
                    field (codes "tag") (string r.tag)
                      (field (codes "updated_at") (string (time_text r.updated_at)) end)))))))))

  -- `jsonb_agg`.
  unfoldable pub agg_rows : List ElementDbRow → Items
  unfolding row_to_json
  agg_rows [] = nil
  agg_rows (r ∷ rows) = cons (row_to_json r) (agg_rows rows)

-- `Value::get`, on any value.
unfoldable pub get : Json → Text → Option Json
unfolding get_field
get (object fields) key = get_field fields key
get _ key = none

-- `unwrap_or_default`, `unwrap_or_else`.
abbrev unwrap_or : Option Json → Json → Json
unwrap_or none v = v
unwrap_or (some v) _ = v

abbrev tag_or_div : Option Json → Text
tag_or_div (some (string s)) = s
tag_or_div _ = codes "div"

-- The parser of identifiers.
module _ (parse_uuid : Text → Option Uuid) where
  -- `serde_json::from_value::<Uuid>`.
  abbrev uuid_of : Json → Option Uuid
  uuid_of (string s) = parse_uuid s
  uuid_of _ = none

  abbrev given : Option Uuid → Option (Option Uuid)
  given none = none
  given (some id) = some (some id)

  -- `serde_json::from_value::<Option<Uuid>>`.
  abbrev opt_uuid_of : Json → Option (Option Uuid)
  opt_uuid_of null = some none
  opt_uuid_of v = given (uuid_of v)

  -- The rows of the loop, none where an identifier is not one.
  unfoldable pub decode_row : Json → Option SavedRow
  unfolding get
  decode_row row = elim (uuid_of (unwrap_or (get row (codes "id")) null)) [
    | none ↦ none
    | some id ↦ elim (opt_uuid_of (unwrap_or (get row (codes "parent_id")) null)) [
      | none ↦ none
      | some parent_id ↦ elim (opt_uuid_of (unwrap_or (get row (codes "prev_sibling")) null)) [
        | none ↦ none
        | some prev_sibling ↦ some (record {
          id = id;
          parent_id = parent_id;
          prev_sibling = prev_sibling;
          tag = tag_or_div (get row (codes "tag"));
          attrs = unwrap_or (get row (codes "attrs")) (object end);
          payload = unwrap_or (get row (codes "payload")) (object end);
        })
      ]
    ]
  ]

module _ (uuid_text time_text : ℕ → Text) (parse_uuid : Text → Option Uuid)
    (parse-uuid_text : (id : Uuid) → parse_uuid (uuid_text id) ≡ some id) where
  opt_uuid-uuid_json :
      (o : Option Uuid) → opt_uuid_of parse_uuid (uuid_json uuid_text time_text o) ≡ some o
  opt_uuid-uuid_json none = refl
  opt_uuid-uuid_json (some id) = rw (parse-uuid_text id) refl

  -- What Postgres writes is read back.
  pub decode-row_to_json :
      (r : ElementDbRow)
      → decode_row parse_uuid (row_to_json uuid_text time_text r) ≡ some (saved r)
  unfolding decode_row row_to_json get get_field
  decode-row_to_json r =
      rw (parse-uuid_text r.id, opt_uuid-uuid_json r.parent_id, opt_uuid-uuid_json r.prev_sibling)
        refl
