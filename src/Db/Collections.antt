-- ===== src/Db/Collections.antt =====
-- crates/lovely-db/src/collections.rs: the collections of an app, their fields and their records.
-- The identifiers and the times that Postgres gives are arguments.
pub mod Fields
pub mod Keys
pub mod Updates
pub mod Rename
mod Tests
use lovely_rs.Base.{
  ℕ, Option, none, some, Bool, true, false, not, ◌&&◌, ◌||◌, List, [], ◌∷◌, ◌++◌, map, leb, ◌==◌,
  any, if◌then◌else◌, Text, codes, text_eq,
}
use lovely_rs.Tree.Errors.{Uuid}
use lovely_rs.Tree.Build.Rows as Rows
use lovely_rs.Tree.Build.Rows.{Json, object, array, string, Items, nil, cons}
use lovely_rs.Db.Errors.{DbResult, ok, err, sqlx, conflict}
use lovely_rs.Db.Elements.{get_field}
use lovely_rs.Db.Collections.Fields.{Field, FieldType, decode_fields, encode_fields}

pub record Collection : Type 0 where
  pub id : Uuid
  pub app_id : Uuid
  pub name : Text
  pub fields_json : Json
  pub created_at : ℕ
  pub updated_at : ℕ

pub record Record : Type 0 where
  pub id : Uuid
  pub collection_id : Uuid
  pub data_json : Json
  pub created_at : ℕ
  pub updated_at : ℕ

pub record Store : Type 0 where
  pub collections : List Collection
  pub records : List Record

unfoldable pub find_collection_by_name : Uuid → Text → List Collection → Option Collection
find_collection_by_name app name [] = none
find_collection_by_name app name (c ∷ collections) =
    if (c.app_id == app) && text_eq c.name name
    then some c
    else find_collection_by_name app name collections

unfoldable pub find_collection : Uuid → List Collection → Option Collection
find_collection id [] = none
find_collection id (c ∷ collections) = if c.id == id then some c else find_collection id collections

-- An UPDATE of the collection with an identifier, which is a primary key.
unfoldable pub update_where : Uuid → (Collection → Collection) → List Collection → List Collection
update_where id f [] = []
update_where id f (c ∷ collections) =
    let rest = update_where id f collections in if c.id == id then f c ∷ rest else c ∷ rest

-- `create_collection`, with the keys of the table: another collection of the app with the name is a
-- conflict, and the INSERT fails where the app is not there. `has_app` tells which apps there are.
unfoldable pub create_collection :
    (new_id now : ℕ)
    → (has_app : Uuid → Bool) → Uuid
    → Text
    → List Field
    → Store
    → DbResult (Collection × Store)
unfolding encode_fields
create_collection new_id now has_app app name fields s =
    let c : Collection = record {
      id = new_id;
      app_id = app;
      name = name;
      fields_json = encode_fields fields;
      created_at = now;
      updated_at = now;
    } in
    if any (λ (x : Collection). (x.app_id == app) && text_eq x.name name) s.collections
    then err conflict
    else if not (has_app app)
    then err sqlx
    else ok (c, record s { collections = s.collections ++ c ∷ [] })

abbrev renamed : (now : ℕ) → Text → Store → Option Collection → DbResult (Collection × Store)
unfolding update_where
renamed now name s none = err sqlx
renamed now name s (some c) =
    let new : Collection = record c { name = name; updated_at = now } in
    if any (λ (x : Collection). (x.app_id == c.app_id) && text_eq x.name name && not (x.id == c.id))
      s.collections
    then err conflict
    else ok (new, record s { collections = update_where c.id (λ x. new) s.collections })

-- `rename_collection`; `fetch_one` fails where the collection is not there.
unfoldable pub rename_collection : (now : ℕ) → Uuid → Text → Store → DbResult (Collection × Store)
unfolding find_collection renamed
rename_collection now id name s = renamed now name s (find_collection id s.collections)

unfoldable pub set_collection_fields : (now : ℕ) → Uuid → List Field → Store → Store
unfolding update_where encode_fields
set_collection_fields now id fields s = record s {
  collections =
      update_where id (λ c. record c { fields_json = encode_fields fields; updated_at = now })
        s.collections;
}

-- `load_fields`.
unfoldable pub fields_of : Option Collection → Option (List Field)
unfolding decode_fields
fields_of none = none
fields_of (some c) = some (decode_fields c.fields_json)

unfoldable pub load_fields : Uuid → Store → Option (List Field)
unfolding find_collection fields_of
load_fields id s = fields_of (find_collection id s.collections)

-- The entries of an object: `data - key`, and `jsonb_set` at one key.
unfoldable pub remove_key : Text → Rows.Fields → Rows.Fields
remove_key key Rows.end = Rows.end
remove_key key (Rows.field k v fields) =
    let rest = remove_key key fields in if text_eq k key then rest else Rows.field k v rest

unfoldable pub set_key : Text → Json → Rows.Fields → Rows.Fields
set_key key new Rows.end = Rows.field key new Rows.end
set_key key new (Rows.field k v fields) =
    let rest = set_key key new fields in
    if text_eq k key then Rows.field k new fields else Rows.field k v rest

unfoldable pub moved_value : (old new : Text) → Rows.Fields → Option Json → Rows.Fields
unfolding remove_key set_key
moved_value old new fields none = fields
moved_value old new fields (some v) = set_key new v (remove_key old fields)

-- The operator `?` of Postgres: a key of an object, a text in an array, or the text itself.
abbrev pub is_some : Option Json → Bool
is_some none = false
is_some (some v) = true

abbrev pub is_text : Text → Json → Bool
is_text name (string s) = text_eq s name
is_text name v = false

unfoldable pub has_item : Text → Items → Bool
has_item name nil = false
has_item name (cons v items) = is_text name v || has_item name items

unfoldable pub has_key : Text → Json → Bool
unfolding get_field has_item
has_key name (object fields) = is_some (get_field fields name)
has_key name (array items) = has_item name items
has_key name v = is_text name v

-- What the UPDATE of `rename_field` makes of data that has the key; none where the statement fails.
-- For an array, `->` gives NULL, which the column refuses, and a text has nothing to take out.
unfoldable pub rename_key : (old new : Text) → Json → Option Json
unfolding get_field moved_value
rename_key old new (object fields) =
    some (object (moved_value old new fields (get_field fields old)))
rename_key old new v = none

unfoldable pub remove_item : Text → Items → Items
remove_item name nil = nil
remove_item name (cons v items) =
    let rest = remove_item name items in if is_text name v then rest else cons v rest

-- The UPDATE of `delete_field`.
unfoldable pub delete_key : Text → Json → Option Json
unfolding remove_key remove_item
delete_key name (object fields) = some (object (remove_key name fields))
delete_key name (array items) = some (array (remove_item name items))
delete_key name v = none

abbrev pub kept : Record → Option (List Record) → Option (List Record)
kept r none = none
kept r (some records) = some (r ∷ records)

abbrev pub replaced : (now : ℕ) → Record → Option Json → Option (List Record) → Option (List Record)
replaced now r none rest = none
replaced now r (some v) rest = kept (record r { data_json = v; updated_at = now }) rest

-- An UPDATE of the records of a collection with a key; it fails where it fails for one of them.
unfoldable pub update_records :
    (now : ℕ) → Uuid → Text → (Json → Option Json) → List Record → Option (List Record)
unfolding has_key
update_records now id key f [] = some []
update_records now id key f (r ∷ records) =
    let rest = update_records now id key f records in
    if (r.collection_id == id) && has_key key r.data_json
    then replaced now r (f r.data_json) rest
    else kept r rest

abbrev pub with_records : Store → Option (List Record) → DbResult Store
with_records s none = err sqlx
with_records s (some records) = ok (record s { records = records })

abbrev pub rename_in : (old new : Text) → List Field → List Field
rename_in old new [] = []
rename_in old new (f ∷ fields) =
    let rest = rename_in old new fields in
    if text_eq f.name old then record f { name = new } ∷ rest else f ∷ rest

abbrev pub without : Text → List Field → List Field
without name [] = []
without name (f ∷ fields) =
    let rest = without name fields in if not (text_eq f.name name) then f ∷ rest else rest

-- The transactions, from the fields that were loaded.
unfoldable pub rename_loaded :
    (now : ℕ) → Uuid → (old new : Text) → Store → Option (List Field) → DbResult Store
unfolding set_collection_fields update_records rename_key
rename_loaded now id old new s none = err sqlx
rename_loaded now id old new s (some fields) =
    let t = set_collection_fields now id (rename_in old new fields) s in
    with_records t (update_records now id old (rename_key old new) t.records)

unfoldable pub delete_loaded :
    (now : ℕ) → Uuid → Text → Store → Option (List Field) → DbResult Store
unfolding set_collection_fields update_records delete_key
delete_loaded now id name s none = err sqlx
delete_loaded now id name s (some fields) =
    let t = set_collection_fields now id (without name fields) s in
    with_records t (update_records now id name (delete_key name) t.records)

-- `rename_field` and `delete_field`; `fetch_one` fails where the collection is not there.
unfoldable pub rename_field : (now : ℕ) → Uuid → (old new : Text) → Store → DbResult Store
unfolding load_fields rename_loaded
rename_field now id old new s = rename_loaded now id old new s (load_fields id s)

unfoldable pub delete_field : (now : ℕ) → Uuid → Text → Store → DbResult Store
unfolding load_fields delete_loaded
delete_field now id name s = delete_loaded now id name s (load_fields id s)

-- `delete_collection`: its records go with it (`ON DELETE CASCADE`).
unfoldable pub drop_collection : Uuid → List Collection → List Collection
drop_collection id [] = []
drop_collection id (c ∷ collections) =
    let rest = drop_collection id collections in if c.id == id then rest else c ∷ rest

unfoldable pub drop_records : Uuid → List Record → List Record
drop_records id [] = []
drop_records id (r ∷ records) =
    let rest = drop_records id records in if r.collection_id == id then rest else r ∷ rest

unfoldable pub delete_collection : Uuid → Store → Store
unfolding drop_collection drop_records
delete_collection id s = record {
  collections = drop_collection id s.collections;
  records = drop_records id s.records;
}

-- `insert_record`; the INSERT fails where the collection is not there.
unfoldable pub insert_record : (new_id now : ℕ) → Uuid → Json → Store → DbResult (Record × Store)
insert_record new_id now id data_json s =
    let r : Record = record {
      id = new_id;
      collection_id = id;
      data_json = data_json;
      created_at = now;
      updated_at = now;
    } in
    if any (λ (c : Collection). c.id == id) s.collections
    then ok (r, record s { records = s.records ++ r ∷ [] })
    else err sqlx

unfoldable pub insert_created : Record → List Record → List Record
insert_created r [] = r ∷ []
insert_created r (q ∷ records) =
    let rest = insert_created r records in
    if leb r.created_at q.created_at then r ∷ q ∷ records else q ∷ rest

-- `list_records`, `ORDER BY created_at ASC`; records of one time in the order of the table.
unfoldable pub list_records : Uuid → List Record → List Record
unfolding insert_created
list_records id [] = []
list_records id (r ∷ records) =
    let rest = list_records id records in
    if r.collection_id == id then insert_created r rest else rest

unfoldable pub delete_record : Uuid → List Record → List Record
delete_record id [] = []
delete_record id (r ∷ records) =
    let rest = delete_record id records in if r.id == id then rest else r ∷ rest
