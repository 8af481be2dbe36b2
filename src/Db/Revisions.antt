-- ===== src/Db/Revisions.antt =====
-- crates/lovely-db/src/revisions.rs: undo and redo over snapshots of the rows of a page.
pub mod Saved
pub mod History
pub mod Moves
pub mod Steps
pub mod Restore
pub mod Undo
pub mod Roundtrip
mod Tests
use lovely_rs.Base.{
  ℕ, zero, suc, ◌+◌, Option, none, some, Bool, true, false, not, ◌&&◌, List, [], ◌∷◌, ◌++◌, map,
  ◌==◌, eq_opt, ltb, leb, if◌then◌else◌, any, Text, codes,
}
use lovely_rs.Tree.Errors.{Uuid}
use lovely_rs.Tree.Build.Rows.{Json, Items, nil, cons, Fields, end, array, null, object, string}
use lovely_rs.Db.Errors.{sqlx, snapshot_decode, DbResult, ok, err}
use lovely_rs.Db.Elements.{refers, ElementDbRow, delete_ids}
use lovely_rs.Db.Revisions.Saved.{SavedRow, decode_row, agg_rows}

-- A row of `element_revisions`.
pub record Revision : Type 0 where
  pub page_id : Uuid
  pub seq : ℕ
  pub snapshot_json : Json

-- What the module reads and writes of a row of `pages`.
pub record PageRow : Type 0 where
  pub root_element : Option Uuid
  pub revision_cursor : Option ℕ

-- The tables. `last_seq` is the sequence behind the column `seq`, which all pages share.
pub record Store : Type 0 where
  pub elements : List ElementDbRow
  pub pages : Uuid → Option PageRow
  pub revisions : List Revision
  pub last_seq : ℕ

abbrev pub with_cursor : ℕ → Option PageRow → Option PageRow
with_cursor seq none = none
with_cursor seq (some p) = some (record p { revision_cursor = some seq })

-- `UPDATE pages SET revision_cursor`.
unfoldable pub set_cursor : Uuid → ℕ → Store → Store
set_cursor page seq s = record s {
  pages = λ p. if p == page then with_cursor seq (s.pages p) else s.pages p;
}

-- The rows of a page.
unfoldable pub page_rows : Uuid → List ElementDbRow → List ElementDbRow
page_rows page [] = []
page_rows page (r ∷ rows) =
    let rest = page_rows page rows in if r.page_id == page then r ∷ rest else rest

-- `ORDER BY created_at`. The order of rows of one time is Postgres's to choose; here it is that of
-- the table.
unfoldable pub insert_created : ElementDbRow → List ElementDbRow → List ElementDbRow
insert_created r [] = r ∷ []
insert_created r (q ∷ rows) =
    let rest = insert_created r rows in
    if leb r.created_at q.created_at then r ∷ q ∷ rows else q ∷ rest

unfoldable pub order_created : List ElementDbRow → List ElementDbRow
unfolding insert_created
order_created [] = []
order_created (r ∷ rows) = insert_created r (order_created rows)

-- `DELETE FROM element_revisions WHERE page_id = $1 AND seq > $2`.
unfoldable pub drop_redo : Uuid → ℕ → List Revision → List Revision
drop_redo page c [] = []
drop_redo page c (v ∷ revisions) =
    let rest = drop_redo page c revisions in
    if (v.page_id == page) && ltb c v.seq then rest else v ∷ rest

unfoldable pub truncate_redo : Uuid → Option ℕ → List Revision → List Revision
unfolding drop_redo
truncate_redo page none revisions = revisions
truncate_redo page (some c) revisions = drop_redo page c revisions

-- The texts of identifiers and times in JSON.
module _ (uuid_text time_text : ℕ → Text) where
  -- The snapshot of a page.
  unfoldable pub capture : Uuid → Store → Json
  unfolding page_rows order_created agg_rows
  capture page s = array (agg_rows uuid_text time_text (order_created (page_rows page s.elements)))

  unfoldable pub append_revision : Uuid → Option ℕ → Store → ℕ × Store
  unfolding truncate_redo capture set_cursor
  append_revision page cursor s =
      let seq = suc s.last_seq in
      let revision : Revision = record {
        page_id = page;
        seq = seq;
        snapshot_json = capture page s;
      } in
      (
        seq,
        set_cursor page seq (record s {
          revisions = truncate_redo page cursor s.revisions ++ revision ∷ [];
          last_seq = seq;
        }),
      )

  unfoldable pub snapshot_found : Uuid → Option PageRow → Store → DbResult (ℕ × Store)
  unfolding append_revision
  snapshot_found page none s = err sqlx
  snapshot_found page (some row) s = ok (append_revision page row.revision_cursor s)

  -- `snapshot_page`; `fetch_one` fails where the page is not there.
  unfoldable pub snapshot_page : Uuid → Store → DbResult (ℕ × Store)
  unfolding snapshot_found
  snapshot_page page s = snapshot_found page (s.pages page) s

pub data Direction : Type 0 where
  undo : Direction
  redo : Direction

-- `WHERE page_id = $1 AND seq < $2 ORDER BY seq DESC LIMIT 1`.
abbrev later : Option ℕ → ℕ → ℕ
later none seq = seq
later (some t) seq = if ltb t seq then seq else t

abbrev sooner : Option ℕ → ℕ → ℕ
sooner none seq = seq
sooner (some t) seq = if ltb t seq then t else seq

unfoldable pub last_below : Uuid → ℕ → List Revision → Option ℕ
last_below page c [] = none
last_below page c (v ∷ revisions) =
    let rest = last_below page c revisions in
    if (v.page_id == page) && ltb v.seq c then some (later rest v.seq) else rest

-- `WHERE page_id = $1 AND seq > $2 ORDER BY seq ASC LIMIT 1`.
unfoldable pub first_above : Uuid → ℕ → List Revision → Option ℕ
first_above page c [] = none
first_above page c (v ∷ revisions) =
    let rest = first_above page c revisions in
    if (v.page_id == page) && ltb c v.seq then some (sooner rest v.seq) else rest

unfoldable pub target_seq : Direction → Uuid → Option ℕ → List Revision → Option ℕ
unfolding last_below first_above
target_seq dir page none revisions = none
target_seq undo page (some c) revisions = last_below page c revisions
target_seq redo page (some c) revisions = first_above page c revisions

-- `SELECT snapshot_json`.
unfoldable pub find_snapshot : Uuid → ℕ → List Revision → Option Json
find_snapshot page t [] = none
find_snapshot page t (v ∷ revisions) =
    let rest = find_snapshot page t revisions in
    if (v.page_id == page) && (v.seq == t) then some v.snapshot_json else rest

unfoldable pub null_root : List ElementDbRow → Option PageRow → Option PageRow
unfolding refers
null_root rows none = none
null_root rows (some p) =
    some (if refers p.root_element rows then p else record p { root_element = none })

-- `DELETE FROM elements WHERE page_id = $1`, with the foreign keys of the tables: a page whose
-- root is deleted loses it (migrations/20260505000005_elements.up.sql).
unfoldable pub delete_page_rows : Uuid → Store → Store
unfolding page_rows delete_ids null_root
delete_page_rows page s =
    let left = delete_ids (map (λ r. r.id) (page_rows page s.elements)) s.elements in
    record s { elements = left; pages = λ p. null_root left (s.pages p) }

abbrev pub restored_row : Uuid → ℕ → SavedRow → ElementDbRow
restored_row page now r = record {
  id = r.id;
  page_id = page;
  parent_id = r.parent_id;
  prev_sibling = r.prev_sibling;
  tag = r.tag;
  attrs = r.attrs;
  payload = r.payload;
  created_at = now;
  updated_at = now;
}

-- The INSERT, none where a key of the table refuses it: Postgres checks the foreign keys at the end
-- of the statement, so that a row may name itself.
unfoldable pub insert_saved : Uuid → ℕ → SavedRow → List ElementDbRow → Option (List ElementDbRow)
unfolding refers
insert_saved page now r rows =
    let row = restored_row page now r in
    let extended = rows ++ row ∷ [] in
    if not (refers (some r.id) rows)
      && refers r.parent_id extended
      && refers r.prev_sibling extended
    then some extended
    else none

unfoldable pub landed :
    Uuid → ℕ → Store → DbResult (List ElementDbRow) → DbResult (Option ℕ × Store)
unfolding set_cursor
landed page t s (err e) = err e
landed page t s (ok rows) = ok (some t, set_cursor page t (record s { elements = rows }))

module _ (parse_uuid : Text → Option Uuid) where
  -- The loop over the rows of the snapshot. An error rolls the transaction back.
  unfoldable pub restore_rows : Uuid → ℕ → Items → List ElementDbRow → DbResult (List ElementDbRow)
  unfolding decode_row insert_saved
  restore_rows page now nil rows = ok rows
  restore_rows page now (cons row items) rows = elim (decode_row parse_uuid row) [
    | none ↦ err snapshot_decode
    | some r ↦ elim (insert_saved page now r rows) [
      | none ↦ err sqlx
      | some extended ↦ restore_rows page now items extended
    ]
  ]

  unfoldable pub restore : Uuid → ℕ → Json → List ElementDbRow → DbResult (List ElementDbRow)
  unfolding restore_rows
  restore page now (array items) rows = restore_rows page now items rows
  restore page now _ rows = ok rows

  unfoldable pub restore_found : Uuid → ℕ → ℕ → Option Json → Store → DbResult (Option ℕ × Store)
  unfolding delete_page_rows restore landed
  restore_found page now t none s = err sqlx
  restore_found page now t (some snapshot) s =
      let cleared = delete_page_rows page s in
      landed page t cleared (restore page now snapshot cleared.elements)

  -- The transaction on the target.
  unfoldable pub step_to : Uuid → ℕ → Option ℕ → Store → DbResult (Option ℕ × Store)
  unfolding find_snapshot restore_found
  step_to page now none s = ok (none, s)
  step_to page now (some t) s = restore_found page now t (find_snapshot page t s.revisions) s

  unfoldable pub step_found :
      Uuid → ℕ → Direction → Option PageRow → Store → DbResult (Option ℕ × Store)
  unfolding target_seq step_to
  step_found page now dir none s = err sqlx
  step_found page now dir (some row) s =
      step_to page now (target_seq dir page row.revision_cursor s.revisions) s

  -- `step`. The time of the transaction is an argument.
  unfoldable pub step : Uuid → ℕ → Direction → Store → DbResult (Option ℕ × Store)
  unfolding step_found
  step page now dir s = step_found page now dir (s.pages page) s
