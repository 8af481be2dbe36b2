-- ===== src/Db/Revisions/Steps.antt =====
-- A step of the module is a move of the history.
use lovely_rs.Base.{ℕ, ◌≡◌, refl, ap, sym, ◌∙◌, Option, none, some, List, [], ◌∷◌, map, Text, arith}
use mathlib.Core.Path.{subst}
use lovely_rs.Tree.Errors.{Uuid}
use lovely_rs.Db.Errors.{DbResult, ok, err}
use lovely_rs.Db.Elements.{ElementDbRow, delete_ids}
use lovely_rs.Tree.Build.Rows.{Json}
use lovely_rs.Db.Revisions.{
  Revision, PageRow, Store, Direction, undo, redo, set_cursor, target_seq, last_below, first_above,
  find_snapshot, page_rows, null_root, delete_page_rows, restore, landed, restore_found, step_to,
  step_found, step,
}
use lovely_rs.Db.Revisions.History
use lovely_rs.Db.Revisions.Moves.{
  IsWithin, IsShown, undone, redone, moved, IsMoved, set_cursor-HasCursor, null_root-cursor,
  one_cursor, row_of,
}

-- The order of the entries of a history.
abbrev IsOrdered : Uuid → ℕ → History.History → Type 0
IsOrdered page n h =
    (h.current.page_id ≡ page)
    × History.IsFalling page h.current.seq h.past
    × History.IsRising page h.current.seq h.future
    × IsWithin n (h.current ∷ h.future)

abbrev seq_of : Option History.History → Option ℕ
seq_of none = none
seq_of (some h) = some h.current.seq

-- A history that a move gives has the same entries, in order.
abbrev IsSame : Uuid → ℕ → History.History → Option History.History → Type 0
IsSame page n h none = Unit {0}
IsSame page n h (some g) = (History.entries g ≡ History.entries h) × IsOrdered page n g

module _ (page : Uuid) where
  undone-IsSame :
      (n : ℕ) (past : List Revision) (h : History.History)
      → h.past ≡ past
      → IsOrdered page n h
      → IsSame page n h (undone past h)
  undone-IsSame n [] h e o = tt
  undone-IsSame n (v ∷ past) h e (own, falling, rising, within) =
      let (mine, under, fall) = subst (History.IsFalling page h.current.seq) e falling in
      (
        ap (λ p. History.onto p (h.current ∷ h.future)) (sym e),
        (mine, fall, (own, under, rising), (omega (arith, within.0, under), within)),
      )

  redone-IsSame :
      (n : ℕ) (future : List Revision) (h : History.History)
      → h.future ≡ future
      → IsOrdered page n h
      → IsSame page n h (redone future h)
  redone-IsSame n [] h e o = tt
  redone-IsSame n (v ∷ future) h e (own, falling, rising, within) =
      let (mine, over, rise) = subst (History.IsRising page h.current.seq) e rising in
      (
        ap (λ l. History.onto h.past (h.current ∷ l)) (sym e),
        (mine, (own, over, falling), rise, subst (IsWithin n) e within.1),
      )

  moved-IsSame :
      (dir : Direction) (n : ℕ) (h : History.History)
      → IsOrdered page n h
      → IsSame page n h (moved dir (some h))
  moved-IsSame undo n h o = undone-IsSame n h.past h refl o
  moved-IsSame redo n h o = redone-IsSame n h.future h refl o

  -- The number that the query finds.
  undone_seq :
      (n : ℕ) (past : List Revision) (h : History.History)
      → h.past ≡ past
      → IsOrdered page n h
      → last_below page h.current.seq (History.entries h) ≡ seq_of (undone past h)
  undone_seq n [] h e (own, falling, rising, within) =
      ap (λ p. last_below page h.current.seq (History.onto p (h.current ∷ h.future))) e
      ∙ History.last_below-current page h.current h.future own rising
  undone_seq n (v ∷ past) h e (own, falling, rising, within) =
      ap (λ p. last_below page h.current.seq (History.onto p (h.current ∷ h.future))) e
      ∙ History.last_below-prev page h.current.seq h.current.seq v past h.future
          (subst (History.IsFalling page h.current.seq) e falling) rising (omega arith) h.current
          (own, refl)

  redone_seq :
      (n : ℕ) (future : List Revision) (h : History.History)
      → h.future ≡ future
      → IsOrdered page n h
      → first_above page h.current.seq (h.current ∷ future) ≡ seq_of (redone future h)
  unfolding first_above
  redone_seq n [] h e (own, falling, rising, within) = ground arith
  redone_seq n (v ∷ future) h e (own, falling, rising, within) = ground (
    arith,
    History.first_above-next page h.current.seq v future
        (subst (History.IsRising page h.current.seq) e rising),
  )

  target_none : (dir : Direction) (l : List Revision) → target_seq dir page none l ≡ none
  unfolding target_seq
  target_none undo l = refl
  target_none redo l = refl

  moved_seq :
      (dir : Direction) (n : ℕ) (h : History.History) (revisions : List Revision)
      → History.log page revisions ≡ History.entries h
      → IsOrdered page n h
      → target_seq dir page (some h.current.seq) revisions ≡ seq_of (moved dir (some h))
  unfolding target_seq
  moved_seq undo n h revisions e o =
      History.last_below-log page h.current.seq revisions
      ∙ ap (last_below page h.current.seq) e
      ∙ undone_seq n h.past h refl o
  moved_seq redo n h revisions e (own, falling, rising, within) =
      History.first_above-log page h.current.seq revisions
      ∙ ap (first_above page h.current.seq) e
      ∙ History.first_above-older page h.current.seq h.current.seq h.past (h.current ∷ h.future)
          falling (omega arith)
      ∙ redone_seq n h.future h refl (own, falling, rising, within)

  -- The snapshot of the current entry.
  find-current :
      (n : ℕ) (h : History.History) (revisions : List Revision)
      → History.log page revisions ≡ History.entries h
      → IsOrdered page n h
      → find_snapshot page h.current.seq revisions ≡ some h.current.snapshot_json
  find-current n h revisions e (own, falling, rising, within) =
      History.find_snapshot-log page h.current.seq revisions
      ∙ ap (find_snapshot page h.current.seq) e
      ∙ History.find-older page h.current.seq h.current.seq h.past (h.current ∷ h.future) falling
          (omega arith)
      ∙ History.find-here page h.current h.future own

  module _ (h : History.History) (s : Store)
      (shown : History.log page s.revisions ≡ History.entries h)
      (o : IsOrdered page s.last_seq h) where
    arrived :
        (rows : List ElementDbRow) (row : PageRow)
        → s.pages page ≡ some row
        → IsShown page (some h) (set_cursor page h.current.seq (record s { elements = rows }))
    unfolding set_cursor
    arrived rows row e =
        let (own, falling, rising, within) = o in
        (
          shown,
          set_cursor-HasCursor page h.current.seq (record s { elements = rows }) row e,
          own,
          falling,
          rising,
          within,
        )

    landed-IsShown :
        (row : PageRow) (r : DbResult (List ElementDbRow)) (answer : Option ℕ) (t : Store)
        → s.pages page ≡ some row
        → landed page h.current.seq s r ≡ ok (answer, t)
        → (answer ≡ some h.current.seq) × IsShown page (some h) t
    unfolding landed
    landed-IsShown row (err x) answer t e done = cc
    landed-IsShown row (ok rows) answer t e done =
        let same : set_cursor page h.current.seq (record s { elements = rows }) ≡ t = cc in
        (cc, subst (IsShown page (some h)) same (arrived rows row e))

  module _ (parse_uuid : Text → Option Uuid) (now : ℕ) (s : Store) (row : PageRow)
      (e : s.pages page ≡ some row) where
    cleared_row : (q : PageRow) × ((delete_page_rows page s).pages page ≡ some q)
    unfolding delete_page_rows
    cleared_row =
        let left = delete_ids (map (λ r. r.id) (page_rows page s.elements)) s.elements in
        let (q, f, _) = null_root-cursor left row in (q, ap (null_root left) e ∙ f)

    found-IsShown :
        (g : History.History) (j : Option Json) (answer : Option ℕ) (t : Store)
        → History.log page s.revisions ≡ History.entries g
        → IsOrdered page s.last_seq g
        → restore_found parse_uuid page now g.current.seq j s ≡ ok (answer, t)
        → (answer ≡ some g.current.seq) × IsShown page (some g) t
    unfolding restore_found delete_page_rows
    found-IsShown g none answer t shown o done = cc
    found-IsShown g (some j) answer t shown o done =
        let (q, f) = cleared_row in
        landed-IsShown g (delete_page_rows page s) shown o q _ answer t f done

    stays :
        (answer : Option ℕ) (t : Store)
        → step_to parse_uuid page now none s ≡ ok (answer, t)
        → (answer ≡ none) × (t ≡ s)
    unfolding step_to
    stays answer t done = (cc, cc)

    step_to-IsMoved :
        (m : Option History.History) (h : History.History) (answer : Option ℕ) (t : Store)
        → History.log page s.revisions ≡ History.entries h
        → IsSame page s.last_seq h m
        → step_to parse_uuid page now (seq_of m) s ≡ ok (answer, t)
        → IsMoved page s m (answer, t)
    unfolding step_to
    step_to-IsMoved none h answer t shown same done = stays answer t done
    step_to-IsMoved (some g) h answer t shown (same, o) done =
        found-IsShown g (find_snapshot page g.current.seq s.revisions) answer t (shown ∙ sym same) o
          done

    step_found-IsMoved :
        (dir : Direction) (o : Option History.History) (answer : Option ℕ) (t : Store)
        → IsShown page o s
        → step_to parse_uuid page now (target_seq dir page row.revision_cursor s.revisions) s
          ≡ ok (answer, t)
        → IsMoved page s (moved dir o) (answer, t)
    unfolding target_seq
    step_found-IsMoved dir none answer t (empty, cursor) done =
        let c = one_cursor page none row.revision_cursor s cursor (row, e, refl) in
        stays answer t (
          ap (λ x. step_to parse_uuid page now x s)
            (sym (ap (λ x. target_seq dir page x s.revisions) c ∙ target_none dir s.revisions))
          ∙ done)
    step_found-IsMoved dir (some h) answer t (shown, cursor, own, falling, rising, within) done =
        let o : IsOrdered page s.last_seq h = (own, falling, rising, within) in
        let c = one_cursor page (some h.current.seq) row.revision_cursor s cursor (row, e, refl) in
        step_to-IsMoved (moved dir (some h)) h answer t shown (moved-IsSame dir s.last_seq h o) (
          ap (λ x. step_to parse_uuid page now x s)
            (sym (
              ap (λ x. target_seq dir page x s.revisions) c
              ∙ moved_seq dir s.last_seq h s.revisions shown o))
          ∙ done)

  -- A step of a page whose revisions show a history either fails or moves as the history does: it
  -- answers with the number of the entry before, or after, the current one, which is then the
  -- current one, and the revisions show the same entries; where there is no such entry, it
  -- answers that there was nothing to do and leaves the store as it is.
  pub step-IsMoved :
      (parse_uuid : Text → Option Uuid) (now : ℕ) (dir : Direction) (o : Option History.History)
      (s : Store) (answer : Option ℕ) (t : Store)
      → IsShown page o s
      → step parse_uuid page now dir s ≡ ok (answer, t)
      → IsMoved page s (moved dir o) (answer, t)
  unfolding step step_found
  step-IsMoved parse_uuid now dir o s answer t shown done =
      let (row, e) = row_of page o s shown in
      step_found-IsMoved parse_uuid now s row e dir o answer t shown
        (ap (λ x. step_found parse_uuid page now dir x s) (sym e) ∙ done)

  -- What a step does on the entry that it moves to.
  pub step-landed :
      (parse_uuid : Text → Option Uuid) (now : ℕ) (dir : Direction) (h g : History.History)
      (s : Store)
      → IsShown page (some h) s
      → moved dir (some h) ≡ some g
      → step parse_uuid page now dir s
        ≡ landed page g.current.seq
            (delete_page_rows page s)
            (restore parse_uuid page now g.current.snapshot_json (delete_page_rows page s).elements)
  unfolding step step_found step_to restore_found
  step-landed parse_uuid now dir h g s (shown, (row, e, f), own, falling, rising, within) to =
      let o : IsOrdered page s.last_seq h = (own, falling, rising, within) in
      let (same, p) = subst (IsSame page s.last_seq h) to (moved-IsSame dir s.last_seq h o) in
      let target : target_seq dir page row.revision_cursor s.revisions ≡ some g.current.seq =
        ap (λ x. target_seq dir page x s.revisions) f
        ∙ moved_seq dir s.last_seq h s.revisions shown o
        ∙ ap seq_of to in
      ap (λ x. step_found parse_uuid page now dir x s) e
      ∙ ap (λ x. step_to parse_uuid page now x s) target
      ∙ ap (λ x. restore_found parse_uuid page now g.current.seq x s)
          (find-current s.last_seq g s.revisions (shown ∙ sym same) p)
