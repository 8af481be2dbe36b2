-- ===== src/Db/Collections/Keys.antt =====
-- The values of an object after a change of its keys.
use lovely_rs.Base.{
  ◌≡◌, refl, ap, ◌∙◌, Option, none, some, if◌then◌else◌, Text, text_eq, text_eq_sym, text_eq_trans,
  Bool-cases, inl, inr, arith,
}
use lovely_rs.Tree.Build.Rows as Rows
use lovely_rs.Tree.Build.Rows.{Json, object}
use lovely_rs.Db.Elements.{get_field}
use lovely_rs.Db.Collections.{remove_key, set_key, moved_value}

-- The value of a record under a key.
unfoldable pub lookup : Json → Text → Option Json
unfolding get_field
lookup (object fields) key = get_field fields key
lookup v key = none

pub get-remove_key :
    (key k : Text) (fields : Rows.Fields)
    → get_field (remove_key key fields) k ≡ (if text_eq k key then none else get_field fields k)
unfolding get_field remove_key
get-remove_key key k Rows.end = ground arith
get-remove_key key k (Rows.field j v fields) = elim (Bool-cases (text_eq j k)) [
  | inl f ↦
      let same : text_eq j key ≡ text_eq k key = text_eq_trans j k key f in
      ground (arith, get-remove_key key k fields, f, same)
  | inr f ↦ ground (arith, get-remove_key key k fields, f)
]

pub get-set_key :
    (key k : Text) (new : Json) (fields : Rows.Fields)
    → get_field (set_key key new fields) k
      ≡ (if text_eq k key then some new else get_field fields k)
unfolding get_field set_key
get-set_key key k new Rows.end = rw (text_eq_sym key k) refl
get-set_key key k new (Rows.field j v fields) = elim (Bool-cases (text_eq j k)) [
  | inl f ↦
      let same : text_eq j key ≡ text_eq k key = text_eq_trans j k key f in
      ground (arith, get-set_key key k new fields, f, same)
  | inr f ↦ elim (Bool-cases (text_eq j key)) [
    | inl e ↦
        let same : text_eq j k ≡ text_eq key k = text_eq_trans j key k e in
        ground (arith, e, f, same, text_eq_sym key k)
    | inr e ↦ ground (arith, get-set_key key k new fields, f, e)
  ]
]

abbrev pub value_after : (old new key : Text) → (former moved : Option Json) → Option Json
value_after old new key former none = former
value_after old new key former (some v) =
    if text_eq key new then some v else if text_eq key old then none else former

-- What stands under a key after a renaming: the value of the old key under the new one, nothing
-- under the old one, and the other values as they were; all as it was where the old key has no
-- value.
abbrev pub after_rename : (old new : Text) → (Text → Option Json) → Text → Option Json
after_rename old new look key = value_after old new key (look key) (look old)

pub moved-lookup :
    (old new : Text) (fields : Rows.Fields) (o : Option Json) (key : Text)
    → get_field (moved_value old new fields o) key
      ≡ value_after old new key (get_field fields key) o
unfolding moved_value
moved-lookup old new fields none key = refl
moved-lookup old new fields (some v) key =
    get-set_key new key v (remove_key old fields)
    ∙ ap (λ x. if text_eq key new then some v else x) (get-remove_key old key fields)
