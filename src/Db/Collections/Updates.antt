-- ===== src/Db/Collections/Updates.antt =====
-- An UPDATE of the records of a collection: what it leaves, and where it fails.
use lovely_rs.Base.{
  ◌⊎◌, Bool, ◌||◌, ℕ, ◌≡◌, refl, ap, sym, Option, none, some, true, false, ◌&&◌, List, [], ◌∷◌,
  ◌==◌, if◌then◌else◌, Text, text_eq, Bool-cases, inl, inr, arith,
}
use mathlib.Core.Path.{subst}
use lovely_rs.Tree.Errors.{Uuid}
use lovely_rs.Tree.Build.Rows.{Json}
use lovely_rs.Db.Collections.{Record, kept, replaced, has_key, update_records}
use lovely_rs.Db.Collections.Keys.{lookup}

-- What stands under a key after a deletion.
abbrev pub after_delete : Text → (Text → Option Json) → Text → Option Json
after_delete name look key = if text_eq key name then none else look key

-- Records one by one: those of other collections are as they were, and those of the collection have
-- other values under their keys.
abbrev pub IsUpdated :
    Uuid → ((Text → Option Json) → Text → Option Json) → List Record → List Record → Type 0
IsUpdated id spec [] [] = Unit {0}
IsUpdated id spec [] (q ∷ after) = ⊥
IsUpdated id spec (r ∷ records) [] = ⊥
IsUpdated id spec (r ∷ records) (q ∷ after) =
    (q.id ≡ r.id)
    × (q.collection_id ≡ r.collection_id)
    × ((r.collection_id == id) ≡ false → q ≡ r)
    × ((r.collection_id == id) ≡ true
        → (key : Text) → lookup q.data_json key ≡ spec (lookup r.data_json) key)
    × IsUpdated id spec records after

-- Some record of a collection has the key in data of which an UPDATE fails.
abbrev pub is_stuck : Uuid → Text → (Json → Bool) → List Record → Bool
is_stuck id name refused [] = false
is_stuck id name refused (r ∷ records) =
    ((r.collection_id == id) && has_key name r.data_json && refused r.data_json)
    || is_stuck id name refused records

-- An UPDATE that succeeds and changes the records, or one that fails.
abbrev pub Updated : Bool → (List Record → Type 0) → Option (List Record) → Type 0
Updated stuck P o =
    ((stuck ≡ false) × (after : List Record) × (o ≡ some after) × P after)
    ⊎ ((stuck ≡ true) × (o ≡ none))

module _ (now : ℕ) (id : Uuid) (name : Text) (f : Json → Option Json) (refused : Json → Bool)
    (spec : (Text → Option Json) → Text → Option Json)
    (with_key : (v : Json)
      → has_key name v ≡ true
      → refused v ≡ false
      → (w : Json) × (f v ≡ some w) × ((key : Text) → lookup w key ≡ spec (lookup v) key))
    (failing : (v : Json) → has_key name v ≡ true → refused v ≡ true → f v ≡ none)
    (no_key : (v : Json) (key : Text)
      → has_key name v ≡ false
      → lookup v key ≡ spec (lookup v) key) where
  abbrev Result : List Record → Option (List Record) → Type 0
  Result records o = Updated (is_stuck id name refused records) (IsUpdated id spec records) o

  update_hit :
      (r : Record) (records : List Record)
      → ((r.collection_id == id) && has_key name r.data_json) ≡ true
      → update_records now id name f (r ∷ records)
        ≡ replaced now r (f r.data_json) (update_records now id name f records)
  unfolding update_records
  update_hit r records e = rw e refl

  update_miss :
      (r : Record) (records : List Record)
      → ((r.collection_id == id) && has_key name r.data_json) ≡ false
      → update_records now id name f (r ∷ records) ≡ kept r (update_records now id name f records)
  unfolding update_records
  update_miss r records e = rw e refl

  -- One more record, whose own data does not stop the UPDATE.
  kept-Result :
      (r q : Record) (records : List Record) (o : Option (List Record))
      → ((r.collection_id == id) && has_key name r.data_json && refused r.data_json) ≡ false
      → ((after : List Record)
          → IsUpdated id spec records after
          → IsUpdated id spec (r ∷ records) (q ∷ after))
      → Result records o
      → Result (r ∷ records) (kept q o)
  kept-Result r q records o free step (inl (moving, after, e, h)) =
      inl (ground (arith, free, moving), q ∷ after, rw e refl, step after h)
  kept-Result r q records o free step (inr (stuck, e)) =
      inr (ground (arith, free, stuck), rw e refl)

  pub update-Result :
      (records : List Record) → Result records (update_records now id name f records)
  unfolding update_records
  update-Result [] = inl (refl, [], refl, tt)
  update-Result (r ∷ records) =
      elim (Bool-cases ((r.collection_id == id) && has_key name r.data_json)) [
        | inr e ↦ subst (Result (r ∷ records)) (sym (update_miss r records e)) (
            kept-Result r r records _ (ground (arith, e))
              (λ after h.
                (refl, refl, λ c. refl, λ c key. no_key r.data_json key (ground (arith, e, c)), h))
              (update-Result records))
        | inl e ↦
            subst (Result (r ∷ records)) (sym (update_hit r records e))
              (elim (Bool-cases (refused r.data_json)) [
                | inl no_way ↦ inr (
                  ground (arith, e, no_way),
                  ap (λ o. replaced now r o (update_records now id name f records))
                      (failing r.data_json (ground (arith, e)) no_way),
                )
                | inr free ↦
                    let (w, run, same) = with_key r.data_json (ground (arith, e)) free in
                    subst
                      (λ o.
                        Result (r ∷ records)
                          (replaced now r o (update_records now id name f records)))
                      (sym run)
                      (kept-Result r (record r { data_json = w; updated_at = now }) records _
                        (ground (arith, e, free))
                        (λ after h. (refl, refl, λ c. ground (arith, e, c), λ c key. same key, h))
                        (update-Result records))
              ])
      ]
