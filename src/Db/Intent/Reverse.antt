-- ===== src/Db/Intent/Reverse.antt =====
-- The reverse of a change.
use lovely_rs.Base.{◌≡◌, refl, Option, none, some, Text, [], ◌∷◌}
use lovely_rs.Db.Errors.{ok, err, schema_conflict}
use lovely_rs.Db.Intent.{
  Intent, create_table, drop_table, add_column, drop_column, rename_column, add_index, drop_index,
  RenderedDdl, render_sqlite,
}

-- The change that takes a change back, where one does.
unfoldable pub inverse : Intent → Option Intent
inverse (create_table name columns) = some (drop_table name)
inverse (drop_table name) = none
inverse (add_column table column) = some (drop_column table column.name)
inverse (drop_column table column) = none
inverse (rename_column table from_name to_name) = some (rename_column table to_name from_name)
inverse (add_index table name columns unique) = some (drop_index name)
inverse (drop_index name) = none

-- A rendered reverse: none where the change has no inverse, or the SQL of the inverse.
abbrev IsReverse : Option Intent → Option Text → Type 0
IsReverse none r = r ≡ none
IsReverse (some j) r = (d : RenderedDdl) × (render_sqlite j ≡ ok d) × (r ≡ some d.forward)

abbrev HasColumns : Intent → Type 0
HasColumns (create_table name []) = ⊥
HasColumns (add_index table name [] unique) = ⊥
HasColumns _ = Unit

-- A change renders, unless it is a table or an index without columns, which is a schema conflict.
-- Its reverse SQL is the forward SQL of its inverse, and none for a drop.
pub render_sqlite-IsReverse :
    (i : Intent)
    → (HasColumns i
        → (d : RenderedDdl) × (render_sqlite i ≡ ok d) × IsReverse (inverse i) d.reverse)
      × (¬ HasColumns i → (m : Text) × (render_sqlite i ≡ err (schema_conflict m)))
unfolding render_sqlite inverse
render_sqlite-IsReverse (create_table name []) = (λ h. absurd h, λ _. (_, refl))
render_sqlite-IsReverse (create_table name (c ∷ columns)) =
    (λ _. (_, refl, (_, refl, refl)), λ h. absurd (h tt))
render_sqlite-IsReverse (drop_table name) = (λ _. (_, refl, refl), λ h. absurd (h tt))
render_sqlite-IsReverse (add_column table column) =
    (λ _. (_, refl, (_, refl, refl)), λ h. absurd (h tt))
render_sqlite-IsReverse (drop_column table column) = (λ _. (_, refl, refl), λ h. absurd (h tt))
render_sqlite-IsReverse (rename_column table from_name to_name) =
    (λ _. (_, refl, (_, refl, refl)), λ h. absurd (h tt))
render_sqlite-IsReverse (add_index table name [] unique) = (λ h. absurd h, λ _. (_, refl))
render_sqlite-IsReverse (add_index table name (c ∷ columns) unique) =
    (λ _. (_, refl, (_, refl, refl)), λ h. absurd (h tt))
render_sqlite-IsReverse (drop_index name) = (λ _. (_, refl, refl), λ h. absurd (h tt))
