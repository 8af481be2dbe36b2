-- ===== src/Db/Revisions/Roundtrip.antt =====
-- Snapshots and steps together: what undo and redo bring back, when they fail, and what they lose.
use lovely_rs.Base.{
  ℕ, ◌≡◌, refl, ap, ◌∙◌, Option, none, some, true, false, List, [], ◌∷◌, ◌++◌, map, if◌then◌else◌,
  Text, arith,
}
use mathlib.Core.Path.{subst}
use lovely_rs.Tree.Errors.{Uuid}
use lovely_rs.Db.Errors.{ok, err, sqlx}
use lovely_rs.Db.Elements.{ElementDbRow}
use lovely_rs.Db.Revisions.{
  Store, PageRow, Direction, page_rows, order_created, capture, null_root, set_cursor,
  delete_page_rows, restore, landed, step,
}
use lovely_rs.Db.Elements.{refers}
use lovely_rs.Db.Revisions.Saved.{saved}
use lovely_rs.Db.Revisions.History
use lovely_rs.Db.Revisions.Moves.{IsShown, IsMoved, moved}
use lovely_rs.Db.Revisions.Steps.{step-landed, step-IsMoved}
use lovely_rs.Db.Revisions.Restore.{
  placeable_not, ids_of, known, placeable, copy_of, restore_rows-placeable,
}
use lovely_rs.Db.Revisions.Undo.{page_rows-restored, root-gone}

set_cursor-pages :
    (page : Uuid) (n : ℕ) (s : Store) (row : PageRow)
    → s.pages page ≡ some row
    → (set_cursor page n s).pages page ≡ some (record row { revision_cursor = some n })
unfolding set_cursor
set_cursor-pages page n s row e = ground (arith, e)

cleared-pages :
    (page : Uuid) (s : Store) (row : PageRow) (root : Uuid)
    → s.pages page ≡ some row
    → row.root_element ≡ some root
    → refers (some root) (delete_page_rows page s).elements ≡ false
    → (delete_page_rows page s).pages page ≡ some (record row { root_element = none })
unfolding delete_page_rows null_root
cleared-pages page s row root e f gone = rw (e, f, gone) refl

module _ (uuid_text time_text : ℕ → Text) (parse_uuid : Text → Option Uuid)
    (parse-uuid_text : (id : Uuid) → parse_uuid (uuid_text id) ≡ some id) (page now : ℕ)
    (dir : Direction) (h g : History.History) (s earlier : Store) (shown : IsShown page (some h) s)
    (to : moved dir (some h) ≡ some g)
    (taken : g.current.snapshot_json ≡ capture uuid_text time_text page earlier) where
  abbrev pub former : List ElementDbRow
  former = order_created (page_rows page earlier.elements)

  abbrev pub others : List ElementDbRow
  others = (delete_page_rows page s).elements

  step_eq :
      step parse_uuid page now dir s
      ≡ landed page g.current.seq (delete_page_rows page s) (
          if placeable (ids_of others) former
          then ok (others ++ map (copy_of page now) former)
          else err sqlx)
  unfolding capture restore
  step_eq =
      step-landed page parse_uuid now dir h g s shown to
      ∙ ap
          (λ j.
            landed page g.current.seq (delete_page_rows page s)
              (restore parse_uuid page now j others))
          taken
      ∙ ap (landed page g.current.seq (delete_page_rows page s)) (
          restore_rows-placeable uuid_text time_text parse_uuid parse-uuid_text page now former
            others)

  -- A step to the snapshot that was taken of an earlier store succeeds where the rows of the
  -- snapshot can be inserted in the order of their times. It answers with the number of the
  -- snapshot, the revisions show the history that was moved to, and the page has the rows of the
  -- earlier store again, with their links, in this order.
  pub step-restores :
      placeable (ids_of others) former ≡ true
      → (t : Store) × (step parse_uuid page now dir s ≡ ok (some g.current.seq, t))
        × (map saved (page_rows page t.elements) ≡ map saved former)
        × IsShown page (some g) t
  unfolding landed
  step-restores fit =
      let cleared = delete_page_rows page s in
      let t : Store =
        set_cursor page g.current.seq
          (record cleared { elements = others ++ map (copy_of page now) former }) in
      let done : step parse_uuid page now dir s ≡ ok (some g.current.seq, t) =
        step_eq
        ∙ ap
            (λ b.
              landed page g.current.seq cleared
                (if b then ok (others ++ map (copy_of page now) former) else err sqlx))
            fit in
      (
        t,
        done,
        kept,
        (subst (λ m. IsMoved page s m (some g.current.seq, t)) to
            (step-IsMoved page parse_uuid now dir (some h) s (some g.current.seq) t shown done)).1,
      )
    where
      kept :
          map saved (
            page_rows page
              (set_cursor page g.current.seq (record (delete_page_rows page s) {
                elements = others ++ map (copy_of page now) former;
              })).elements)
          ≡ map saved former
      kept = page_rows-restored page now s former

  -- A step to a snapshot in which a row stands behind a sibling that is not among the rows before
  -- it, in the order of their times, and not among the rows that the deletion leaves, fails with
  -- an error of the database.
  pub step_refused :
      (front back : List ElementDbRow) (r : ElementDbRow)
      → former ≡ front ++ r ∷ back
      → known r.prev_sibling ((ids_of others ++ ids_of front) ++ r.id ∷ []) ≡ false
      → step parse_uuid page now dir s ≡ err sqlx
  unfolding landed
  step_refused front back r e missing =
      let unfit : placeable (ids_of others) former ≡ false =
        ap (placeable (ids_of others)) e ∙ placeable_not (ids_of others) front back r missing in
      step_eq
      ∙ ap
          (λ b.
            landed page g.current.seq (delete_page_rows page s)
              (if b then ok (others ++ map (copy_of page now) former) else err sqlx))
          unfit

  -- A step that restores a snapshot leaves the page without a root element where its root stood
  -- among its rows, also where the snapshot holds this very row.
  pub step-loses_root :
      (row : PageRow) (root : Uuid)
      → placeable (ids_of others) former ≡ true
      → s.pages page ≡ some row
      → row.root_element ≡ some root
      → known (some root) (ids_of (page_rows page s.elements)) ≡ true
      → (t : Store) × (step parse_uuid page now dir s ≡ ok (some g.current.seq, t))
        × (t.pages page
            ≡ some (record { root_element = none; revision_cursor = some g.current.seq }))
  unfolding landed
  step-loses_root row root fit e f on_page =
      let cleared = delete_page_rows page s in
      let t : Store =
        set_cursor page g.current.seq
          (record cleared { elements = others ++ map (copy_of page now) former }) in
      (
        t,
        step_eq
            ∙ ap
                (λ b.
                  landed page g.current.seq cleared
                    (if b then ok (others ++ map (copy_of page now) former) else err sqlx))
                fit,
        set_cursor-pages page g.current.seq
            (record cleared { elements = others ++ map (copy_of page now) former })
            (record row { root_element = none })
            (cleared-pages page s row root e f (root-gone page root s on_page)),
      )
