-- ===== src/Db/Revisions/Undo.antt =====
-- What a step gives back.
use lovely_rs.Base.{
  ℕ, ◌≡◌, refl, ap, sym, ◌∙◌, some, true, false, List, [], ◌∷◌, ◌++◌, map, ◌==◌, ==_refl, All,
  Bool-cases, inl, inr, arith,
}
use mathlib.Core.Path.{subst}
use lovely_rs.Tree.Errors.{Uuid}
use lovely_rs.Db.Elements.{ElementDbRow, one_of, drop_rows, delete_ids}
use lovely_rs.Db.Elements.Cascade.{delete_ids-All}
use lovely_rs.Db.Revisions.{Store, page_rows, delete_page_rows}
use lovely_rs.Db.Elements.{refers}
use lovely_rs.Db.Revisions.Saved.{saved}
use lovely_rs.Db.Revisions.Restore.{ids_of, known, copy_of}

-- A row that is not of a page.
abbrev IsElsewhere : Uuid → ElementDbRow → Type 0
IsElsewhere page r = (r.page_id == page) ≡ false

-- A row of the page has one of some identifiers.
abbrev pub IsListed : Uuid → List Uuid → ElementDbRow → Type 0
IsListed page ids r = (r.page_id == page) ≡ true → one_of ids (some r.id) ≡ true

module _ (page : Uuid) where
  IsListed-more :
      (id : Uuid) (ids : List Uuid) (rows : List ElementDbRow)
      → All (IsListed page ids) rows
      → All (IsListed page (id ∷ ids)) rows
  IsListed-more id ids [] h = tt
  IsListed-more id ids (r ∷ rows) (p, h) = (λ e. ground (arith, p e), IsListed-more id ids rows h)

  page_rows_hit :
      (r : ElementDbRow) (rows : List ElementDbRow)
      → (r.page_id == page) ≡ true
      → page_rows page (r ∷ rows) ≡ r ∷ page_rows page rows
  unfolding page_rows
  page_rows_hit r rows e = rw e refl

  page_rows_miss :
      (r : ElementDbRow) (rows : List ElementDbRow)
      → (r.page_id == page) ≡ false
      → page_rows page (r ∷ rows) ≡ page_rows page rows
  unfolding page_rows
  page_rows_miss r rows e = rw e refl

  pub page_rows-IsListed :
      (rows : List ElementDbRow) → All (IsListed page (ids_of (page_rows page rows))) rows
  page_rows-IsListed [] = tt
  page_rows-IsListed (r ∷ rows) = elim (Bool-cases (r.page_id == page)) [
    | inl e ↦
        subst (λ l. All (IsListed page (ids_of l)) (r ∷ rows)) (sym (page_rows_hit r rows e))
          (
            λ p. ground (arith, ==_refl r.id),
            IsListed-more r.id (ids_of (page_rows page rows)) rows (page_rows-IsListed rows),
          )
    | inr e ↦
        subst (λ l. All (IsListed page (ids_of l)) (r ∷ rows)) (sym (page_rows_miss r rows e))
          (λ p. cc, page_rows-IsListed rows)
  ]

  drop_rows-IsElsewhere :
      (ids : List Uuid) (rows : List ElementDbRow)
      → All (IsListed page ids) rows
      → All (IsElsewhere page) (drop_rows ids rows)
  unfolding drop_rows
  drop_rows-IsElsewhere ids [] h = tt
  drop_rows-IsElsewhere ids (r ∷ rows) (p, h) = elim (Bool-cases (one_of ids (some r.id))) [
    | inl e ↦ rw e (drop_rows-IsElsewhere ids rows h)
    | inr e ↦ rw e (
      elim (Bool-cases (r.page_id == page)) [ inl q ↦ let no = p q in cc | inr q ↦ q ],
      drop_rows-IsElsewhere ids rows h,
    )
  ]

  page_rows-IsElsewhere :
      (rows : List ElementDbRow) → All (IsElsewhere page) rows → page_rows page rows ≡ []
  unfolding page_rows
  page_rows-IsElsewhere [] h = refl
  page_rows-IsElsewhere (r ∷ rows) (p, h) = rw (p, page_rows-IsElsewhere rows h) refl

  -- No row of the page is left.
  pub page_rows-delete : (s : Store) → page_rows page (delete_page_rows page s).elements ≡ []
  unfolding delete_page_rows
  page_rows-delete s =
      let ids = ids_of (page_rows page s.elements) in
      page_rows-IsElsewhere (delete_ids ids s.elements) (
        delete_ids-All (IsElsewhere page) (λ r p. p) ids s.elements
          (drop_rows-IsElsewhere ids s.elements (page_rows-IsListed s.elements)))

  page_rows-append :
      (l m : List ElementDbRow) → page_rows page (l ++ m) ≡ page_rows page l ++ page_rows page m
  unfolding page_rows
  page_rows-append [] m = refl
  page_rows-append (r ∷ l) m = ground (arith, page_rows-append l m)

  -- The rows that a restoration puts.
  page_rows-copies :
      (now : ℕ) (rows : List ElementDbRow)
      → page_rows page (map (copy_of page now) rows) ≡ map (copy_of page now) rows
  unfolding page_rows
  page_rows-copies now [] = refl
  page_rows-copies now (r ∷ rows) = rw (==_refl page, page_rows-copies now rows) refl

  saved-copies :
      (now : ℕ) (rows : List ElementDbRow)
      → map saved (map (copy_of page now) rows) ≡ map saved rows
  saved-copies now [] = refl
  saved-copies now (r ∷ rows) = ap (λ l. saved r ∷ l) (saved-copies now rows)

  pub page_rows-restored :
      (now : ℕ) (s : Store) (rows : List ElementDbRow)
      → map saved
          (page_rows page ((delete_page_rows page s).elements ++ map (copy_of page now) rows))
        ≡ map saved rows
  page_rows-restored now s rows =
      ap (map saved) (
        page_rows-append (delete_page_rows page s).elements (map (copy_of page now) rows)
        ∙ ap (λ l. l ++ page_rows page (map (copy_of page now) rows)) (page_rows-delete s)
        ∙ page_rows-copies now rows)
      ∙ saved-copies now rows

-- The rows that a deletion drops are not there any more.
drop_rows-gone :
    (i : Uuid) (ids : List Uuid) (rows : List ElementDbRow)
    → one_of ids (some i) ≡ true
    → All (λ r. (r.id == i) ≡ false) (drop_rows ids rows)
unfolding drop_rows
drop_rows-gone i ids [] e = tt
drop_rows-gone i ids (r ∷ rows) e = elim (Bool-cases (one_of ids (some r.id))) [
  | inl f ↦ rw f (drop_rows-gone i ids rows e)
  | inr f ↦ rw f (
    elim (Bool-cases (r.id == i)) [
      | inl q ↦
          let same : r.id ≡ i = ground arith in
          let no : one_of ids (some r.id) ≡ true =
            subst (λ x. one_of ids (some x) ≡ true) (sym same) e in
          cc
      | inr q ↦ q
    ],
    drop_rows-gone i ids rows e,
  )
]

refers-gone :
    (i : Uuid) (rows : List ElementDbRow)
    → All (λ r. (r.id == i) ≡ false) rows
    → refers (some i) rows ≡ false
unfolding refers
refers-gone i [] h = refl
refers-gone i (r ∷ rows) (p, h) = rw p (refers-gone i rows h)

-- A root among the rows of the page refers to no row after their deletion.
pub root-gone :
    (page : Uuid) (i : Uuid) (s : Store)
    → known (some i) (ids_of (page_rows page s.elements)) ≡ true
    → refers (some i) (delete_page_rows page s).elements ≡ false
unfolding delete_page_rows
root-gone page i s e =
    let ids = ids_of (page_rows page s.elements) in
    refers-gone i (delete_ids ids s.elements) (
      delete_ids-All (λ r. (r.id == i) ≡ false) (λ r p. p) ids s.elements
        (drop_rows-gone i ids s.elements e))
