-- ===== src/Db/Revisions/Moves.antt =====
-- The module as a zipper: snapshots push, and steps move.
use lovely_rs.Base.{
  ℕ, suc, ◌≤◌, ◌≡◌, refl, ap, sym, ◌∙◌, Option, none, some, List, [], ◌∷◌, ◌++◌, Text, arith,
  Bool-cases, inl, inr,
}
use lovely_rs.Tree.Errors.{Uuid}
use lovely_rs.Db.Errors.{ok}
use lovely_rs.Db.Elements.{ElementDbRow}
use lovely_rs.Db.Revisions.{
  Revision, PageRow, Store, Direction, undo, redo, set_cursor, drop_redo, truncate_redo, capture,
  append_revision, snapshot_found, snapshot_page, null_root,
}
use lovely_rs.Db.Elements.{refers}
use lovely_rs.Db.Revisions.History

abbrev pub IsWithin : ℕ → List Revision → Type 0
IsWithin n [] = Unit {0}
IsWithin n (v ∷ l) = (v.seq ≤ n) × IsWithin n l

abbrev pub HasCursor : Uuid → Option ℕ → Store → Type 0
HasCursor page c s = (row : PageRow) × (s.pages page ≡ some row) × (row.revision_cursor ≡ c)

-- The revisions of a page and its cursor show a history; none for a page without revisions.
abbrev pub IsShown : Uuid → Option History.History → Store → Type 0
IsShown page none s = (History.log page s.revisions ≡ []) × HasCursor page none s
IsShown page (some h) s =
    (History.log page s.revisions ≡ History.entries h)
    × HasCursor page (some h.current.seq) s
    × (h.current.page_id ≡ page)
    × History.IsFalling page h.current.seq h.past
    × History.IsRising page h.current.seq h.future
    × IsWithin s.last_seq (h.current ∷ h.future)

-- A new entry drops the future.
abbrev pub recorded : Revision → Option History.History → History.History
recorded v none = record { past = []; current = v; future = [] }
recorded v (some h) = record { past = h.current ∷ h.past; current = v; future = [] }

abbrev pub undone : List Revision → History.History → Option History.History
undone [] h = none
undone (v ∷ past) h = some (record { past = past; current = v; future = h.current ∷ h.future })

abbrev pub redone : List Revision → History.History → Option History.History
redone [] h = none
redone (v ∷ future) h = some (record { past = h.current ∷ h.past; current = v; future = future })

-- A step to the next entry, none at the end.
abbrev pub moved : Direction → Option History.History → Option History.History
moved dir none = none
moved undo (some h) = undone h.past h
moved redo (some h) = redone h.future h

-- What a step that succeeded gives.
abbrev pub IsMoved : Uuid → Store → Option History.History → Option ℕ × Store → Type 0
IsMoved page s none (answer, t) = (answer ≡ none) × (t ≡ s)
IsMoved page s (some h) (answer, t) = (answer ≡ some h.current.seq) × IsShown page (some h) t

pub set_cursor-HasCursor :
    (page : Uuid) (n : ℕ) (s : Store) (row : PageRow)
    → s.pages page ≡ some row
    → HasCursor page (some n) (set_cursor page n s)
unfolding set_cursor
set_cursor-HasCursor page n s row e =
    (record row { revision_cursor = some n }, ground (arith, e), refl)

pub null_root-cursor :
    (rows : List ElementDbRow) (row : PageRow)
    → (q : PageRow) × (null_root rows (some row) ≡ some q)
      × (q.revision_cursor ≡ row.revision_cursor)
unfolding null_root
null_root-cursor rows row = elim (Bool-cases (refers row.root_element rows)) [
  | inl e ↦ (row, rw e refl, refl)
  | inr e ↦ (record row { root_element = none }, rw e refl, refl)
]

module _ (page : Uuid) where
  pub one_cursor : (c d : Option ℕ) (s : Store) → HasCursor page c s → HasCursor page d s → d ≡ c
  one_cursor c d s (q, e, f) (row, g, h) = let same : q ≡ row = cc in cc

  pub row_of :
      (o : Option History.History) (s : Store)
      → IsShown page o s
      → (row : PageRow) × (s.pages page ≡ some row)
  row_of none s (_, (row, e, _)) = (row, e)
  row_of (some h) s (_, (row, e, _), _, _, _, _) = (row, e)

  log-own : (v : Revision) → v.page_id ≡ page → History.log page (v ∷ []) ≡ v ∷ []
  unfolding History.log
  log-own v e = ground (arith, e)

  log-truncate :
      (h : History.History) (l : List Revision)
      → History.log page l ≡ History.entries h
      → h.current.page_id ≡ page
      → History.IsFalling page h.current.seq h.past
      → History.IsRising page h.current.seq h.future
      → History.log page (drop_redo page h.current.seq l) ≡ History.onto h.past (h.current ∷ [])
  unfolding drop_redo
  log-truncate h l e own falling rising =
      let cut : drop_redo page h.current.seq (h.current ∷ h.future) ≡ h.current ∷ [] = ground (
        arith,
        own,
        History.drop_redo-rising page h.current.seq h.current.seq h.future rising (omega arith),
      ) in
      History.log-drop_redo page h.current.seq l
      ∙ ap (drop_redo page h.current.seq) e
      ∙ History.drop_redo-older page h.current.seq h.current.seq h.past (h.current ∷ h.future)
          falling (omega arith)
      ∙ ap (History.onto h.past) cut

  module _ (uuid_text time_text : ℕ → Text) (s : Store) where
    abbrev pub new_revision : Revision
    new_revision = record {
      page_id = page;
      seq = suc s.last_seq;
      snapshot_json = capture uuid_text time_text page s;
    }

    append-log :
        (c : Option ℕ) (past : List Revision)
        → History.log page (truncate_redo page c s.revisions) ≡ past
        → History.log page (append_revision uuid_text time_text page c s).1.revisions
          ≡ past ++ new_revision ∷ []
    unfolding append_revision set_cursor
    append-log c past e =
        History.log-append page (truncate_redo page c s.revisions) (new_revision ∷ [])
        ∙ ap (λ l. l ++ History.log page (new_revision ∷ [])) e
        ∙ ap (λ l. past ++ l) (log-own new_revision refl)

    append-cursor :
        (c : Option ℕ) (row : PageRow)
        → s.pages page ≡ some row
        → HasCursor page (some (suc s.last_seq)) (append_revision uuid_text time_text page c s).1
    unfolding append_revision set_cursor
    append-cursor c row e =
        (record row { revision_cursor = some (suc s.last_seq) }, ground (arith, e), refl)

    append-seq : (c : Option ℕ) → (append_revision uuid_text time_text page c s).0 ≡ suc s.last_seq
    unfolding append_revision
    append-seq c = refl

    append-rest :
        (c : Option ℕ)
        → ((append_revision uuid_text time_text page c s).1.elements ≡ s.elements)
          × ((append_revision uuid_text time_text page c s).1.last_seq ≡ suc s.last_seq)
    unfolding append_revision set_cursor
    append-rest c = (refl, refl)

    append-IsShown :
        (o : Option History.History) (c : Option ℕ)
        → IsShown page o s
        → HasCursor page c s
        → IsShown page
            (some (recorded new_revision o))
            (append_revision uuid_text time_text page c s).1
    unfolding truncate_redo
    append-IsShown none c (empty, at_none) (row, e, f) =
        let same : row.revision_cursor ≡ none =
          one_cursor none row.revision_cursor s at_none (row, e, refl) in
        let blank : History.log page (truncate_redo page c s.revisions) ≡ [] =
          rw (sym f, same) empty in
        (
          append-log c [] blank,
          append-cursor c row e,
          refl,
          tt,
          tt,
          (omega (arith, (append-rest c).1), tt),
        )
    append-IsShown (some h) c (shown, cur, own, falling, rising, within) (row, e, f) =
        let same : row.revision_cursor ≡ some h.current.seq =
          one_cursor (some h.current.seq) row.revision_cursor s cur (row, e, refl) in
        let kept : History.log page (truncate_redo page c s.revisions)
            ≡ History.onto h.past (h.current ∷ []) =
          rw (sym f, same) (log-truncate h s.revisions shown own falling rising) in
        (
          append-log c (History.onto h.past (h.current ∷ [])) kept
              ∙ History.onto-append h.past (h.current ∷ []) (new_revision ∷ []),
          append-cursor c row e,
          refl,
          (own, omega (arith, within.0), falling),
          tt,
          (omega (arith, (append-rest c).1), tt),
        )

    -- A snapshot of a page whose revisions show a history, or none so far, succeeds with the next
    -- number and leaves the elements as they are. The revisions then show the history with the
    -- rows of the page as its current entry, the former current entry as the newest of the past,
    -- and no future.
    pub snapshot_page-recorded :
        (o : Option History.History)
        → IsShown page o s
        → (t : Store) × (snapshot_page uuid_text time_text page s ≡ ok (suc s.last_seq, t))
          × (t.elements ≡ s.elements)
          × IsShown page (some (recorded new_revision o)) t
    unfolding snapshot_page snapshot_found
    snapshot_page-recorded o shown =
        let (row, e) = row_of o s shown in
        let r = append_revision uuid_text time_text page row.revision_cursor s in
        (
          r.1,
          rw e (ap (λ n. ok (n, r.1)) (append-seq row.revision_cursor)),
          (append-rest row.revision_cursor).0,
          append-IsShown o row.revision_cursor shown (row, e, refl),
        )
