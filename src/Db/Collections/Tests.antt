-- ===== src/Db/Collections/Tests.antt =====
-- Runs of the changes of fields.
use lovely_rs.Base.{false, ◌≡◌, refl, List, [], ◌∷◌, codes}
use lovely_rs.Tree.Build.Rows as Rows
use lovely_rs.Tree.Build.Rows.{string, object}
use lovely_rs.Db.Errors.{err, sqlx}
use lovely_rs.Db.Collections.{Collection, Record, Store, rename_field, has_key, insert_record}
use lovely_rs.Db.Collections.Fields.{Field, FieldType, encode_fields}
use lovely_rs.Db.Collections.Updates.{is_stuck}
use lovely_rs.Db.Collections.Rename.{not_object}

abbrev fields : List Field
fields =
    record { name = codes "name"; field_type = FieldType.text }
    ∷ record { name = codes "age"; field_type = FieldType.number }
    ∷ []

abbrev people : Collection
people = record {
  id = 3;
  app_id = 1;
  name = codes "people";
  fields_json = encode_fields fields;
  created_at = 0;
  updated_at = 0;
}

abbrev ada : Record
ada = record {
  id = 8;
  collection_id = 3;
  data_json = object (Rows.field (codes "name") (string (codes "Ada")) Rows.end);
  created_at = 1;
  updated_at = 1;
}

abbrev store : Store
store = record { collections = people ∷ []; records = ada ∷ [] }

not_stuck : is_stuck 3 (codes "name") not_object store.records ≡ false
unfolding has_key
not_stuck = refl

-- Nothing is renamed where a record is a text that equals the name.
abbrev odd : Record
odd = record ada { id = 9; data_json = string (codes "name") }

odd_fails :
    rename_field 5 3 (codes "name") (codes "title") (record store { records = ada ∷ odd ∷ [] })
    ≡ err sqlx
unfolding rename_field
odd_fails = refl

-- A record of a missing collection is refused.
no_collection : insert_record 9 5 4 (string []) store ≡ err sqlx
unfolding insert_record
no_collection = refl
