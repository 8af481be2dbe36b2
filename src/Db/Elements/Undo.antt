-- ===== src/Db/Elements/Undo.antt =====
-- A deletion takes an insertion back.
use lovely_rs.Base.{
  ◌&&◌, not, Bool-cases, ◌⊎◌, inl, inr, ℕ, ◌≡◌, refl, ap, sym, ◌∙◌, Option, none, some, Bool, true,
  false, List, [], ◌∷◌, ◌++◌, map, ◌==◌, eq_opt, eq_opt_iff, All, arith,
}
use mathlib.Core.Path.{subst}
use lovely_rs.Tree.Errors.{Uuid}
use lovely_rs.Db.Elements.Cascade.{IsApart, delete_ids-apart}
use lovely_rs.Db.Errors.{ok}
use lovely_rs.Db.Elements.{
  refers, ElementDbRow, InsertElement, inserted_row, relink, insert_element, find_row, drop_rows,
  delete_ids, delete_found, delete_element, one_of,
}

-- A row but for the time of its last change.
abbrev pub untimed : ElementDbRow → ElementDbRow
untimed r = record r { updated_at = 0 }

-- A row that is not the new one, does not stand behind it and not below it.
abbrev pub IsOther : Uuid → ElementDbRow → Type 0
IsOther new_id r =
    ((r.id == new_id) ≡ false)
    × (eq_opt r.prev_sibling (some new_id) ≡ false)
    × (eq_opt r.parent_id (some new_id) ≡ false)

abbrev concerns : (page : Uuid) → (parent old but : Option Uuid) → ElementDbRow → Bool
concerns page parent old but r =
    (r.page_id == page)
    && eq_opt r.parent_id parent
    && eq_opt r.prev_sibling old
    && not (eq_opt (some r.id) but)

module _ (now : ℕ) (page : Uuid) (parent old new but : Option Uuid) (r : ElementDbRow) where
  relink_hit :
      concerns page parent old but r ≡ true
      → relink now page parent old new but r ≡ record r { prev_sibling = new; updated_at = now }
  unfolding relink
  relink_hit h = rw h refl

  relink_miss : concerns page parent old but r ≡ false → relink now page parent old new but r ≡ r
  unfolding relink
  relink_miss h = rw h refl

  relink-id : (relink now page parent old new but r).id ≡ r.id
  relink-id = elim (Bool-cases (concerns page parent old but r)) [
    | inl hit ↦ ap (λ x. x.id) (relink_hit hit)
    | inr miss ↦ ap (λ x. x.id) (relink_miss miss)
  ]

module _ (new_id now later : ℕ) (insert : InsertElement) where
  abbrev forth : ElementDbRow → ElementDbRow
  forth = relink now insert.page_id insert.parent_id insert.prev_sibling (some new_id) (some new_id)

  abbrev back : ElementDbRow → ElementDbRow
  back = relink later insert.page_id insert.parent_id (some new_id) insert.prev_sibling none

  abbrev new_row : ElementDbRow
  new_row = inserted_row new_id now insert

  back-forth_hit :
      (r : ElementDbRow)
      → concerns insert.page_id insert.parent_id insert.prev_sibling (some new_id) r ≡ true
      → back (record r { prev_sibling = some new_id; updated_at = now })
        ≡ record r { prev_sibling = insert.prev_sibling; updated_at = later }
  back-forth_hit r h =
      relink_hit later insert.page_id insert.parent_id (some new_id) insert.prev_sibling none
        (record r { prev_sibling = some new_id; updated_at = now }) (ground arith)

  same_prev :
      (r : ElementDbRow)
      → concerns insert.page_id insert.parent_id insert.prev_sibling (some new_id) r ≡ true
      → r.prev_sibling ≡ insert.prev_sibling
  same_prev r h = (eq_opt_iff r.prev_sibling insert.prev_sibling).0 (ground arith)

  back-miss : (r : ElementDbRow) → eq_opt r.prev_sibling (some new_id) ≡ false → back r ≡ r
  back-miss r h =
      relink_miss later insert.page_id insert.parent_id (some new_id) insert.prev_sibling none r
        (ground arith)

  relink-back : (r : ElementDbRow) → IsOther new_id r → untimed (back (forth r)) ≡ untimed r
  relink-back r (own, apart, _) =
      elim (Bool-cases
        (concerns insert.page_id insert.parent_id insert.prev_sibling (some new_id) r)) [
          | inl hit ↦
              ap (λ x. untimed (back x))
                (relink_hit now insert.page_id insert.parent_id insert.prev_sibling (some new_id)
                  (some new_id) r hit)
              ∙ ap untimed (back-forth_hit r hit)
              ∙ ap (λ p. record r { prev_sibling = p; updated_at = 0 }) (sym (same_prev r hit))
          | inr miss ↦
              ap (λ x. untimed (back x))
                (relink_miss now insert.page_id insert.parent_id insert.prev_sibling (some new_id)
                  (some new_id) r miss)
              ∙ ap untimed (back-miss r apart)
        ]

  forth-new : forth new_row ≡ new_row
  forth-new =
      relink_miss now insert.page_id insert.parent_id insert.prev_sibling (some new_id)
        (some new_id) new_row (ground arith)

  forth-id : (r : ElementDbRow) → (forth r).id ≡ r.id
  forth-id r =
      relink-id now insert.page_id insert.parent_id insert.prev_sibling (some new_id) (some new_id)
        r

  back-id : (r : ElementDbRow) → (back r).id ≡ r.id
  back-id r =
      relink-id later insert.page_id insert.parent_id (some new_id) insert.prev_sibling none r

  find_cons :
      (r : ElementDbRow) (rows : List ElementDbRow)
      → (r.id == new_id) ≡ false
      → find_row new_id (r ∷ rows) ≡ find_row new_id rows
  unfolding find_row
  find_cons r rows h = rw h refl

  find_here :
      (r : ElementDbRow) (rows : List ElementDbRow)
      → r.id ≡ new_id
      → find_row new_id (r ∷ rows) ≡ some r
  unfolding find_row
  find_here r rows h = ground arith

  -- A row that was moved behind the new one and back.
  abbrev settled : ElementDbRow → ElementDbRow
  settled r = back (forth r)

  settled_eq :
      (r : ElementDbRow)
      → IsOther new_id r
      → (settled r ≡ r)
        ⊎ (settled r ≡ record r { prev_sibling = insert.prev_sibling; updated_at = later })
          × (r.prev_sibling ≡ insert.prev_sibling)
  settled_eq r (own, apart, _) =
      elim (Bool-cases
        (concerns insert.page_id insert.parent_id insert.prev_sibling (some new_id) r)) [
          | inl hit ↦ inr (
            ap back (
                  relink_hit now insert.page_id insert.parent_id insert.prev_sibling (some new_id)
                    (some new_id) r hit)
                ∙ back-forth_hit r hit,
            same_prev r hit,
          )
          | inr miss ↦ inl (
              ap back (
                relink_miss now insert.page_id insert.parent_id insert.prev_sibling (some new_id)
                  (some new_id) r miss)
              ∙ back-miss r apart)
        ]

  one_of_one : (o : Option Uuid) → eq_opt o (some new_id) ≡ false → one_of (new_id ∷ []) o ≡ false
  one_of_one none h = refl
  one_of_one (some id) h = ground arith

  settled-IsApart : (r : ElementDbRow) → IsOther new_id r → IsApart (new_id ∷ []) (settled r)
  settled-IsApart r (own, apart, above) = elim (settled_eq r (own, apart, above)) [
    | inl e ↦ rw e (one_of_one r.parent_id above, one_of_one r.prev_sibling apart)
    | inr (e, p) ↦ rw e (
      one_of_one r.parent_id above,
      one_of_one insert.prev_sibling (subst (λ q. eq_opt q (some new_id) ≡ false) p apart),
    )
  ]

  settled_rows-IsApart :
      (rows : List ElementDbRow)
      → All (IsOther new_id) rows
      → All (IsApart (new_id ∷ [])) (map settled rows)
  settled_rows-IsApart [] h = tt
  settled_rows-IsApart (r ∷ rows) (other, h) =
      (settled-IsApart r other, settled_rows-IsApart rows h)

  settled_rows :
      (rows : List ElementDbRow)
      → All (IsOther new_id) rows
      → map untimed (map settled rows) ≡ map untimed rows
  settled_rows [] h = refl
  settled_rows (r ∷ rows) (other, h) =
      ap (λ x. x ∷ map untimed (map settled rows)) (relink-back r other)
      ∙ ap (λ x. untimed r ∷ x) (settled_rows rows h)

  drop_cons :
      (r : ElementDbRow) (rows : List ElementDbRow)
      → (r.id == new_id) ≡ false
      → drop_rows (new_id ∷ []) (r ∷ rows) ≡ r ∷ drop_rows (new_id ∷ []) rows
  unfolding drop_rows
  drop_cons r rows h = ground arith

  drop_last : (r : ElementDbRow) → r.id ≡ new_id → drop_rows (new_id ∷ []) (r ∷ []) ≡ []
  unfolding drop_rows
  drop_last r h = ground arith

  find-new :
      (rows : List ElementDbRow)
      → All (IsOther new_id) rows
      → find_row new_id (map forth (rows ++ new_row ∷ [])) ≡ some new_row
  find-new [] h = find_here (forth new_row) [] (forth-id new_row) ∙ ap some forth-new
  find-new (r ∷ rows) ((own, _, _), h) =
      find_cons (forth r) (map forth (rows ++ new_row ∷ []))
        (ap (λ i. i == new_id) (forth-id r) ∙ own)
      ∙ find-new rows h

  drop-new :
      (rows : List ElementDbRow)
      → All (IsOther new_id) rows
      → drop_rows (new_id ∷ []) (map back (map forth (rows ++ new_row ∷ []))) ≡ map settled rows
  drop-new [] h = drop_last (back (forth new_row)) (back-id (forth new_row) ∙ forth-id new_row)
  drop-new (r ∷ rows) (other, h) =
      drop_cons (settled r) (map back (map forth (rows ++ new_row ∷ [])))
        (ap (λ i. i == new_id) (back-id (forth r) ∙ forth-id r) ∙ other.0)
      ∙ ap (λ x. settled r ∷ x) (drop-new rows h)

  delete-new :
      (rows : List ElementDbRow)
      → All (IsOther new_id) rows
      → map untimed (delete_ids (new_id ∷ []) (map back (map forth (rows ++ new_row ∷ []))))
        ≡ map untimed rows
  delete-new rows h =
      let kept = drop-new rows h in
      ap (map untimed) (
        delete_ids-apart (new_id ∷ []) (map back (map forth (rows ++ new_row ∷ [])))
          (subst (All (IsApart (new_id ∷ []))) (sym kept) (settled_rows-IsApart rows h))
        ∙ kept)
      ∙ settled_rows rows h

  found_new :
      (rows : List ElementDbRow) (o : Option ElementDbRow)
      → All (IsOther new_id) rows
      → o ≡ some new_row
      → (let left = delete_found new_id later o (map forth (rows ++ new_row ∷ [])) in
          (left.0 ≡ 1) × (map untimed left.1 ≡ map untimed rows))
  unfolding delete_found
  found_new rows o h e = rw e (refl, delete-new rows h)

  -- What the keys of the table ask of an insertion.
  extended-refers :
      (o : Option Uuid) (rows : List ElementDbRow)
      → refers o rows ≡ true
      → refers o (rows ++ new_row ∷ []) ≡ true
  unfolding refers
  extended-refers none rows h = refl
  extended-refers (some id) [] h = ground (arith, h)
  extended-refers (some id) (r ∷ rows) h = elim (Bool-cases (r.id == id)) [
    | inl e ↦ rw e refl
    | inr e ↦ rw e (extended-refers (some id) rows (rw e at h))
  ]

  refers-new :
      (rows : List ElementDbRow) → All (IsOther new_id) rows → refers (some new_id) rows ≡ false
  unfolding refers
  refers-new [] h = refl
  refers-new (r ∷ rows) ((own, _, _), h) = rw own (refers-new rows h)

  -- Where the page, the parent and the previous sibling of a new row are there, and no row of the
  -- table has the new identifier or names it as its previous sibling or its parent, the insertion
  -- succeeds with the row; a deletion of it right after affects one row, and leaves the table as it
  -- was before the insertion, links and all, but for the times of the last changes.
  pub delete_element-insert_element :
      (has_page : Uuid → Bool) (rows : List ElementDbRow)
      → All (IsOther new_id) rows
      → has_page insert.page_id ≡ true
      → refers insert.parent_id rows ≡ true
      → refers insert.prev_sibling rows ≡ true
      → (after : List ElementDbRow) × (insert_element new_id now has_page insert rows
          ≡ ok (new_row, after))
        × (let left = delete_element new_id later after in
            (left.0 ≡ 1) × (map untimed left.1 ≡ map untimed rows))
  unfolding delete_element insert_element
  delete_element-insert_element has_page rows h page parent prev = (
    map forth (rows ++ new_row ∷ []),
    rw
        (
          page,
          refers-new rows h,
          extended-refers insert.parent_id rows parent,
          extended-refers insert.prev_sibling rows prev,
        )
        refl,
    found_new rows _ h (find-new rows h),
  )
