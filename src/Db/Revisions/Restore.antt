-- ===== src/Db/Revisions/Restore.antt =====
-- When a snapshot can be restored, and what a restoration leaves.
use lovely_rs.Base.{
  ℕ, ◌≡◌, refl, ap, sym, Option, none, some, Bool, true, false, not, ◌&&◌, List, [], ◌∷◌, ◌++◌,
  ◌||◌, map, ◌==◌, any, if◌then◌else◌, Text, arith,
}
use mathlib.Core.List.{append_assoc, append-nil}
use mathlib.Core.Path.{subst}
use lovely_rs.Tree.Errors.{Uuid}
use lovely_rs.Db.Errors.{ok, err, sqlx}
use lovely_rs.Db.Elements.{ElementDbRow}
use lovely_rs.Db.Revisions.{restored_row, insert_saved, restore_rows}
use lovely_rs.Db.Elements.{refers}
use lovely_rs.Db.Revisions.Saved.{saved, agg_rows, decode-row_to_json}

abbrev pub ids_of : List ElementDbRow → List Uuid
ids_of rows = map (λ r. r.id) rows

abbrev pub known : Option Uuid → List Uuid → Bool
known none ids = true
known (some id) ids = any (λ i. i == id) ids

-- Rows that can be inserted one by one into a table with some identifiers: each has a new
-- identifier, and its parent and its previous sibling are there before it, or are the row itself.
abbrev pub placeable : List Uuid → List ElementDbRow → Bool
placeable ids [] = true
placeable ids (r ∷ rows) =
    not (known (some r.id) ids)
    && known r.parent_id (ids ++ r.id ∷ [])
    && known r.prev_sibling (ids ++ r.id ∷ [])
    && placeable (ids ++ r.id ∷ []) rows

-- A row whose previous sibling is not there in its turn.
pub placeable_not :
    (ids : List Uuid) (front back : List ElementDbRow) (r : ElementDbRow)
    → known r.prev_sibling ((ids ++ ids_of front) ++ r.id ∷ []) ≡ false
    → placeable ids (front ++ r ∷ back) ≡ false
placeable_not ids [] back r e =
    let here = subst (λ l. known r.prev_sibling (l ++ r.id ∷ []) ≡ false) (append-nil ids) e in
    ground (arith, here)
placeable_not ids (q ∷ front) back r e =
    let there =
      subst (λ l. known r.prev_sibling (l ++ r.id ∷ []) ≡ false)
        (sym (append_assoc ids (q.id ∷ []) (ids_of front))) e in
    ground (arith, placeable_not (ids ++ q.id ∷ []) front back r there)

any-ids :
    (id : Uuid) (rows : List ElementDbRow)
    → any (λ r. r.id == id) rows ≡ any (λ i. i == id) (ids_of rows)
any-ids id [] = refl
any-ids id (r ∷ rows) = ap (λ b. (r.id == id) || b) (any-ids id rows)

refers-known : (o : Option Uuid) (rows : List ElementDbRow) → refers o rows ≡ known o (ids_of rows)
unfolding refers
refers-known none rows = refl
refers-known (some id) rows = any-ids id rows

ids-append :
    (rows : List ElementDbRow) (r : ElementDbRow)
    → ids_of (rows ++ r ∷ []) ≡ ids_of rows ++ r.id ∷ []
ids-append [] r = refl
ids-append (q ∷ rows) r = ap (λ l. q.id ∷ l) (ids-append rows r)

abbrev pub copy_of : (page now : ℕ) → ElementDbRow → ElementDbRow
copy_of page now r = restored_row page now (saved r)

module _ (uuid_text time_text : ℕ → Text) (parse_uuid : Text → Option Uuid)
    (parse-uuid_text : (id : Uuid) → parse_uuid (uuid_text id) ≡ some id) (page now : ℕ) where
  abbrev fits : List Uuid → ElementDbRow → Bool
  fits ids r =
      not (known (some r.id) ids)
      && known r.parent_id (ids ++ r.id ∷ [])
      && known r.prev_sibling (ids ++ r.id ∷ [])

  insert-fits :
      (r : ElementDbRow) (rows : List ElementDbRow)
      → insert_saved page now (saved r) rows
        ≡ (if fits (ids_of rows) r then some (rows ++ copy_of page now r ∷ []) else none)
  unfolding insert_saved
  insert-fits r rows =
      rw
        (
          refers-known (some r.id) rows,
          refers-known r.parent_id (rows ++ copy_of page now r ∷ []),
          refers-known r.prev_sibling (rows ++ copy_of page now r ∷ []),
          ids-append rows (copy_of page now r),
        )
        (ground arith)

  -- A restoration of a snapshot of some rows into a table that holds other rows puts copies of
  -- them, in their order, behind the others, where they can be inserted one by one in this order;
  -- otherwise Postgres refuses a row, and the step fails.
  pub restore_rows-placeable :
      (l : List ElementDbRow) (rows : List ElementDbRow)
      → restore_rows parse_uuid page now (agg_rows uuid_text time_text l) rows
        ≡ (if placeable (ids_of rows) l then ok (rows ++ map (copy_of page now) l) else err sqlx)
  unfolding restore_rows agg_rows
  restore_rows-placeable [] rows = ap ok (sym (append-nil rows))
  restore_rows-placeable (r ∷ l) rows =
      rw (decode-row_to_json uuid_text time_text parse_uuid parse-uuid_text r, insert-fits r rows)
        (ground (
          arith,
          restore_rows-placeable l (rows ++ copy_of page now r ∷ []),
          ids-append rows (copy_of page now r),
          append_assoc rows (copy_of page now r ∷ []) (map (copy_of page now) l),
        ))
