-- ===== src/Db/Collections/Rename.antt =====
-- What a renaming or a deletion of a field does to the records.
use lovely_rs.Base.{
  ◌⊎◌, Bool, ℕ, ◌≡◌, refl, ap, sym, ◌∙◌, Option, none, some, true, false, List, [], ◌∷◌, ◌==◌, Text,
  text_eq, text_eq_iff, Bool-cases, Option-cases, inl, inr, arith,
}
use mathlib.Core.Path.{subst}
use lovely_rs.Tree.Errors.{Uuid}
use lovely_rs.Tree.Build.Rows as Rows
use lovely_rs.Tree.Build.Rows.{Json, object, array}
use lovely_rs.Db.Errors.{DbResult, ok, err, sqlx}
use lovely_rs.Db.Elements.{get_field}
use lovely_rs.Db.Collections.{
  Collection, Record, Store, delete_key, remove_key, remove_item, with_records, has_key, is_some,
  update_where, find_collection, set_collection_fields, load_fields, fields_of, delete_loaded,
  delete_field, without,
}
use lovely_rs.Db.Collections.Fields.{Field, decode_fields, encode_fields, decode-encode_fields}
use lovely_rs.Db.Collections.Keys.{lookup, get-remove_key}
use lovely_rs.Db.Collections.Updates.{after_delete, IsUpdated, is_stuck, Updated, update-Result}

-- The data that the statements fail on, where it has the key.
abbrev pub not_object : Json → Bool
not_object (object fields) = false
not_object v = true

abbrev pub not_container : Json → Bool
not_container (object fields) = false
not_container (array items) = false
not_container v = true

missing :
    (fields : Rows.Fields) (name : Text)
    → has_key name (object fields) ≡ false
    → get_field fields name ≡ none
unfolding has_key
missing fields name h = elim (Option-cases (get_field fields name)) [
  | inl e ↦ e
  | inr (v, e) ↦ let no : true ≡ false = subst (λ o. is_some o ≡ false) e h in cc
]

delete-with_key :
    (name : Text) (v : Json)
    → has_key name v ≡ true
    → not_container v ≡ false
    → (w : Json) × (delete_key name v ≡ some w)
      × ((key : Text) → lookup w key ≡ after_delete name (lookup v) key)
unfolding delete_key lookup
delete-with_key name (object fields) h o =
    (object (remove_key name fields), refl, λ key. get-remove_key name key fields)
delete-with_key name (array items) h o = (array (remove_item name items), refl, λ key. ground arith)
delete-with_key name v h o = absurd (ground (arith, o))

delete-failing :
    (name : Text) (v : Json)
    → has_key name v ≡ true
    → not_container v ≡ true
    → delete_key name v ≡ none
unfolding delete_key
delete-failing name (object fields) h o = absurd (ground (arith, o))
delete-failing name (array items) h o = absurd (ground (arith, o))
delete-failing name v h o = refl

delete-no_key :
    (name : Text) (v : Json) (key : Text)
    → has_key name v ≡ false
    → lookup v key ≡ after_delete name (lookup v) key
unfolding lookup
delete-no_key name (object fields) key h = elim (Bool-cases (text_eq key name)) [
  | inl e ↦
      let same : key ≡ name = (text_eq_iff key name).0 e in
      rw e (ap (get_field fields) same ∙ missing fields name h)
  | inr e ↦ rw e refl
]
delete-no_key name v key h = ground arith

find-update_where :
    (id : Uuid) (f : Collection → Collection) (c : Collection) (collections : List Collection)
    → ((x : Collection) → (f x).id ≡ x.id)
    → find_collection id collections ≡ some c
    → find_collection id (update_where id f collections) ≡ some (f c)
unfolding find_collection update_where
find-update_where id f c [] same e = cc
find-update_where id f c (x ∷ collections) same e = elim (Bool-cases (x.id == id)) [
  | inl h ↦ ground (arith, h, e, same x)
  | inr h ↦ ground (arith, h, e, find-update_where id f c collections same)
]

-- The schema of a collection and its records after a change of a field.
abbrev pub IsMigrated :
    Uuid
    → Collection
    → List Field
    → ((Text → Option Json) → Text → Option Json)
    → Store
    → Store
    → Type 0
IsMigrated id c fields spec s t =
    ((d : Collection) × (find_collection id t.collections ≡ some d)
      × (decode_fields d.fields_json ≡ fields))
    × IsUpdated id spec s.records t.records

module _ (now : ℕ) (id : Uuid) (s : Store) (c : Collection)
    (e : find_collection id s.collections ≡ some c) where
  fields_set :
      (fields : List Field)
      → (d : Collection) × (find_collection id (set_collection_fields now id fields s).collections
          ≡ some d)
        × (decode_fields d.fields_json ≡ fields)
  unfolding set_collection_fields
  fields_set fields = (
    record c { fields_json = encode_fields fields; updated_at = now },
    find-update_where id (λ x. record x { fields_json = encode_fields fields; updated_at = now }) c
        s.collections (λ x. refl) e,
    decode-encode_fields fields,
  )

  -- A transaction that succeeds and migrates, or one that fails on a record.
  abbrev Outcome :
      Bool → List Field → ((Text → Option Json) → Text → Option Json) → DbResult Store → Type 0
  Outcome stuck fields spec r =
      ((stuck ≡ false) × (t : Store) × (r ≡ ok t) × IsMigrated id c fields spec s t)
      ⊎ ((stuck ≡ true) × (r ≡ err sqlx))

  updated-Outcome :
      (stuck : Bool) (fields : List Field) (spec : (Text → Option Json) → Text → Option Json)
      → (o : Option (List Record)) → Updated stuck (IsUpdated id spec s.records) o
      → Outcome stuck fields spec (with_records (set_collection_fields now id fields s) o)
  unfolding set_collection_fields
  updated-Outcome stuck fields spec o (inl (moving, after, e, h)) =
      let u = set_collection_fields now id fields s in
      inl (moving, record u { records = after }, rw e refl, (fields_set fields, h))
  updated-Outcome stuck fields spec o (inr (e, f)) = inr (e, rw f refl)

  -- For a collection that is there, a deletion of a field succeeds exactly where each of its records
  -- with the key is an object or an array, and else fails. Where it succeeds, the schema has no field
  -- of the name, each record of the collection has no value under it and keeps the others, and the
  -- records of other collections are as they were.
  pub delete_field-IsMigrated :
      (name : Text)
      → ((is_stuck id name not_container s.records ≡ false)
          × (t : Store) × (delete_field now id name s ≡ ok t)
          × IsMigrated id c (without name (decode_fields c.fields_json)) (after_delete name) s t)
        ⊎ ((is_stuck id name not_container s.records ≡ true)
            × (delete_field now id name s ≡ err sqlx))
  unfolding delete_field delete_loaded load_fields
  delete_field-IsMigrated name =
      let fields = without name (decode_fields c.fields_json) in
      let run = ap (λ o. delete_loaded now id name s (fields_of o)) e in
      subst (Outcome (is_stuck id name not_container s.records) fields (after_delete name))
        (sym run)
        (updated-Outcome (is_stuck id name not_container s.records) fields (after_delete name) _ (
          update-Result now id name (delete_key name) not_container (after_delete name)
            (delete-with_key name) (delete-failing name) (delete-no_key name) s.records))
