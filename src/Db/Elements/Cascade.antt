-- ===== src/Db/Elements/Cascade.antt =====
-- What a deletion leaves where no row is left that refers to a deleted one.
use lovely_rs.Base.{
  ℕ, zero, suc, ◌≡◌, refl, ap, Option, none, some, false, List, [], ◌∷◌, map, All, length,
  Bool-cases, inl, inr,
}
use lovely_rs.Tree.Errors.{Uuid}
use lovely_rs.Db.Elements.{
  ElementDbRow, one_of, drop_rows, child_ids, unlink_prev, cascade, delete_ids,
}

-- A row that refers to no row of some identifiers.
abbrev pub IsApart : List Uuid → ElementDbRow → Type 0
IsApart ids r = (one_of ids r.parent_id ≡ false) × (one_of ids r.prev_sibling ≡ false)

pub one_of_none : (o : Option Uuid) → one_of [] o ≡ false
one_of_none none = refl
one_of_none (some id) = refl

drop_none : (rows : List ElementDbRow) → drop_rows [] rows ≡ rows
unfolding drop_rows
drop_none [] = refl
drop_none (r ∷ rows) = ap (λ x. r ∷ x) (drop_none rows)

child_none : (rows : List ElementDbRow) → child_ids [] rows ≡ []
unfolding child_ids
child_none [] = refl
child_none (r ∷ rows) = rw (one_of_none r.parent_id, child_none rows) refl

unlink_none : (rows : List ElementDbRow) → map (unlink_prev []) rows ≡ rows
unfolding unlink_prev
unlink_none [] = refl
unlink_none (r ∷ rows) = rw (one_of_none r.prev_sibling, unlink_none rows) refl

pub cascade_none : (rounds : ℕ) (rows : List ElementDbRow) → cascade rounds [] rows ≡ rows
unfolding cascade
cascade_none zero rows = refl
cascade_none (suc rounds) rows =
    rw (drop_none rows, child_none rows, cascade_none rounds rows) (unlink_none rows)

child-apart :
    (ids : List Uuid) (rows : List ElementDbRow) → All (IsApart ids) rows → child_ids ids rows ≡ []
unfolding child_ids
child-apart ids [] h = refl
child-apart ids (r ∷ rows) ((p, _), h) = rw (p, child-apart ids rows h) refl

unlink-apart :
    (ids : List Uuid) (rows : List ElementDbRow)
    → All (IsApart ids) rows
    → map (unlink_prev ids) rows ≡ rows
unfolding unlink_prev
unlink-apart ids [] h = refl
unlink-apart ids (r ∷ rows) ((_, p), h) = rw (p, unlink-apart ids rows h) refl

pub delete_ids-apart :
    (ids : List Uuid) (rows : List ElementDbRow)
    → All (IsApart ids) (drop_rows ids rows)
    → delete_ids ids rows ≡ drop_rows ids rows
unfolding delete_ids cascade
delete_ids-apart ids rows h =
    rw (child-apart ids (drop_rows ids rows) h, cascade_none _ (drop_rows ids rows))
      (unlink-apart ids (drop_rows ids rows) h)

-- A predicate that does not read the previous sibling holds of what a deletion leaves.
module _ (P : ElementDbRow → Type 0)
    (unlinked : (r : ElementDbRow) → P r → P (record r { prev_sibling = none })) where
  drop_rows-All :
      (ids : List Uuid) (rows : List ElementDbRow) → All P rows → All P (drop_rows ids rows)
  unfolding drop_rows
  drop_rows-All ids [] h = tt
  drop_rows-All ids (r ∷ rows) (p, h) = elim (Bool-cases (one_of ids (some r.id))) [
    | inl e ↦ rw e (drop_rows-All ids rows h)
    | inr e ↦ rw e (p, drop_rows-All ids rows h)
  ]

  unlink-All :
      (ids : List Uuid) (rows : List ElementDbRow) → All P rows → All P (map (unlink_prev ids) rows)
  unfolding unlink_prev
  unlink-All ids [] h = tt
  unlink-All ids (r ∷ rows) (p, h) = elim (Bool-cases (one_of ids r.prev_sibling)) [
    | inl e ↦ rw e (unlinked r p, unlink-All ids rows h)
    | inr e ↦ rw e (p, unlink-All ids rows h)
  ]

  cascade-All :
      (rounds : ℕ) (ids : List Uuid) (rows : List ElementDbRow)
      → All P rows
      → All P (cascade rounds ids rows)
  unfolding cascade
  cascade-All zero ids rows h = h
  cascade-All (suc rounds) ids rows h = unlink-All ids _ (
      cascade-All rounds (child_ids ids (drop_rows ids rows)) (drop_rows ids rows)
        (drop_rows-All ids rows h))

  pub delete_ids-All :
      (ids : List Uuid) (rows : List ElementDbRow)
      → All P (drop_rows ids rows)
      → All P (delete_ids ids rows)
  unfolding delete_ids cascade
  delete_ids-All ids rows h =
      unlink-All ids _
        (cascade-All (length rows) (child_ids ids (drop_rows ids rows)) (drop_rows ids rows) h)
