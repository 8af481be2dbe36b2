-- ===== src/Db/Revisions/Tests.antt =====
-- Runs of undo and redo.
use lovely_rs.Base.{
  ℕ, ◌≡◌, refl, Option, none, some, List, [], ◌∷◌, ◌++◌, map, if◌then◌else◌, ◌==◌, Text, codes,
  arith,
}
use lovely_rs.Tree.Errors.{Uuid}
use lovely_rs.Tree.Build.Rows.{Json}
use lovely_rs.Db.Errors.{ok, err, sqlx}
use lovely_rs.Db.Elements.{ElementDbRow}
use lovely_rs.Db.Revisions.{
  Store, Revision, undo, redo, capture, snapshot_page, step, page_rows, order_created, set_cursor,
  delete_page_rows,
}
use lovely_rs.Db.Revisions.Saved.{saved}
use lovely_rs.Db.Revisions.History
use lovely_rs.Db.Revisions.Moves.{
  IsShown, IsMoved, moved, recorded, new_revision, snapshot_page-recorded,
}
use lovely_rs.Db.Revisions.Steps.{step-IsMoved}
use lovely_rs.Db.Revisions.Restore.{copy_of}
use lovely_rs.Db.Revisions.Roundtrip.{step-restores, step_refused, step-loses_root}

abbrev one_char : ℕ → Text
one_char n = n ∷ []

abbrev read_char : Text → Option Uuid
read_char (n ∷ []) = some n
read_char _ = none

abbrev element : (id : Uuid) → (prev : Option Uuid) → (time : ℕ) → ElementDbRow
element id prev time = record {
  id = id;
  page_id = 1;
  parent_id = none;
  prev_sibling = prev;
  tag = codes "p";
  attrs = Json.null;
  payload = Json.null;
  created_at = time;
  updated_at = time;
}

abbrev page_at :
    (elements : List ElementDbRow)
    → (root : Option Uuid) → (cursor : Option ℕ) → (revisions : List Revision) → Store
page_at elements root cursor revisions = record {
  elements = elements;
  pages =
      λ p. if p == 1 then some (record { root_element = root; revision_cursor = cursor }) else none;
  revisions = revisions;
  last_seq = 2;
}

-- A page with one element, and with another one before it.
abbrev first : Store
first = page_at (element 5 none 0 ∷ []) (some 5) none []

abbrev turned : Store
turned = page_at (element 5 (some 9) 0 ∷ element 9 none 1 ∷ []) (some 5) none []

abbrev revision_of : ℕ → Store → Revision
revision_of n s = record { page_id = 1; seq = n; snapshot_json = capture one_char one_char 1 s }

abbrev edited : Store
edited =
    page_at (element 6 none 4 ∷ []) (some 6) (some 2)
      (revision_of 1 first ∷ revision_of 2 turned ∷ [])

abbrev history : History.History
history = record { past = revision_of 1 first ∷ []; current = revision_of 2 turned; future = [] }

abbrev undone_history : History.History
undone_history = record {
  past = [];
  current = revision_of 1 first;
  future = revision_of 2 turned ∷ [];
}

edited-IsShown : IsShown 1 (some history) edited
unfolding History.log
edited-IsShown = (
  refl,
  (record { root_element = some 6; revision_cursor = some 2 }, refl, refl),
  refl,
  (refl, omega arith, tt),
  tt,
  (omega arith, tt),
)

first-IsShown : IsShown 1 none first
unfolding History.log
first-IsShown = (refl, (record { root_element = some 5; revision_cursor = none }, refl, refl))

snapshot_example :
    (t : Store) × (snapshot_page one_char one_char 1 first ≡ ok (3, t))
    × (t.elements ≡ first.elements)
    × IsShown 1 (some (recorded (new_revision 1 one_char one_char first) none)) t
snapshot_example = snapshot_page-recorded 1 one_char one_char first none first-IsShown

restores_example :
    (t : Store) × (step read_char 1 9 undo edited ≡ ok (some 1, t))
    × (map saved (page_rows 1 t.elements) ≡ map saved (order_created (page_rows 1 first.elements)))
    × IsShown 1 (some undone_history) t
unfolding delete_page_rows page_rows order_created
restores_example =
    step-restores one_char one_char read_char (λ id. refl) 1 9 undo history undone_history edited
      first edited-IsShown refl refl refl

loses_example :
    (t : Store) × (step read_char 1 9 undo edited ≡ ok (some 1, t))
    × (t.pages 1 ≡ some (record { root_element = none; revision_cursor = some 1 }))
unfolding delete_page_rows page_rows order_created
loses_example =
    step-loses_root one_char one_char read_char (λ id. refl) 1 9 undo history undone_history edited
      first edited-IsShown refl refl (record { root_element = some 6; revision_cursor = some 2 }) 6
      refl refl refl refl

-- The edited page after an undo.
abbrev undone_page : Store
unfolding set_cursor delete_page_rows
undone_page = set_cursor 1 1 (record (delete_page_rows 1 edited) {
  elements = (delete_page_rows 1 edited).elements ++ copy_of 1 9 (element 5 none 0) ∷ [];
})

undone_page-step : step read_char 1 9 undo edited ≡ ok (some 1, undone_page)
unfolding step capture undone_page
undone_page-step = refl

moved_example : IsMoved 1 edited (moved undo (some history)) (some 1, undone_page)
moved_example =
    step-IsMoved 1 read_char 9 undo (some history) edited (some 1) undone_page edited-IsShown
      undone_page-step

-- The same page, back at the first entry.
abbrev back_page : Store
back_page =
    page_at (element 5 none 9 ∷ []) none (some 1) (revision_of 1 first ∷ revision_of 2 turned ∷ [])

back_page-IsShown : IsShown 1 (some undone_history) back_page
unfolding History.log
back_page-IsShown = (
  refl,
  (record { root_element = none; revision_cursor = some 1 }, refl, refl),
  refl,
  tt,
  (refl, omega arith, tt),
  (omega arith, (omega arith, tt)),
)

-- The second snapshot has its older element behind the newer one.
refused_example : step read_char 1 9 redo back_page ≡ err sqlx
unfolding delete_page_rows page_rows order_created
refused_example =
    step_refused one_char one_char read_char (λ id. refl) 1 9 redo undone_history history back_page
      turned back_page-IsShown refl refl [] (element 9 none 1 ∷ []) (element 5 (some 9) 0) refl refl
