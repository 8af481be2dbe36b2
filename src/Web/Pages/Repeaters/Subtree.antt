-- ===== src/Web/Pages/Repeaters/Subtree.antt =====
-- `collect_subtree` against the rows below an element.
use lovely_rs.Base.{
  ℕ, zero, suc, ◌<◌, ◌≡◌, refl, sym, ap, some, true, List, [], ◌∷◌, length, ◌==◌, ==_refl, ==_iff,
  Bool-cases, Option-cases, inl, inr, arith, ◌↔◌,
}
use mathlib.Core.List.{Memᴰ}
use mathlib.Core.List.Memᴰ
use lovely_rs.Tree.Errors.{Uuid}
use lovely_rs.Tree.Build.Rows.{ElementRow}
use lovely_rs.Web.Pages.Repeaters.{
  is_in, is_in_opt, include_pass, include_all, rows_in, collect_subtree,
}
use lovely_rs.Web.Pages.Repeaters.Rounds.{
  grow, missing, missing-length, IsClosed, include_all-IsClosed,
}

-- The identifiers of an element and of the rows below it.
pub data IsBelow (rows : List ElementRow) (root : Uuid) : Uuid → Type 0 where
  top : IsBelow rows root root
  under :
      (r : ElementRow) (p : Uuid)
      → Memᴰ r rows
      → r.parent_id ≡ some p
      → IsBelow rows root p
      → IsBelow rows root r.id

-- What is in the set is below the root.
IsSound : List ElementRow → Uuid → List Uuid → Type 0
IsSound rows root ids = (id : Uuid) → is_in ids id ≡ true → IsBelow rows root id

below_parent :
    (rows : List ElementRow) (root : Uuid) (ids : List Uuid) (r : ElementRow)
    → Memᴰ r rows
    → IsSound rows root ids
    → is_in_opt ids r.parent_id ≡ true
    → IsBelow rows root r.id
unfolding IsSound
below_parent rows root ids r m h f = elim (Option-cases r.parent_id) [
  | inl e ↦ ground (arith, e, f)
  | inr (p, e) ↦ IsBelow.under r p m e (h p (rw e at f))
]

grow-IsSound :
    (rows : List ElementRow) (root : Uuid) (ids : List Uuid) (r : ElementRow)
    → Memᴰ r rows
    → IsSound rows root ids
    → IsSound rows root (grow ids r)
unfolding IsSound
grow-IsSound rows root ids r m h id e = elim (Bool-cases (is_in_opt ids r.parent_id)) [
  | inr f ↦ h id (rw f at e)
  | inl f ↦ elim (Bool-cases (is_in ids r.id)) [
    | inl g ↦ h id (rw (f, g) at e)
    | inr g ↦ elim (Bool-cases (r.id == id)) [
      | inl q ↦ rw (sym ((==_iff r.id id).0 q)) (below_parent rows root ids r m h f)
      | inr q ↦ h id (rw (f, g, q) at e)
    ]
  ]
]

pass-IsSound :
    (all_rows : List ElementRow) (root : Uuid) (ids : List Uuid) (rows : List ElementRow)
    → ((r : ElementRow) → Memᴰ r rows → Memᴰ r all_rows)
    → IsSound all_rows root ids
    → IsSound all_rows root (include_pass ids rows)
unfolding include_pass
pass-IsSound all_rows root ids [] m h = h
pass-IsSound all_rows root ids (r ∷ rows) m h =
    pass-IsSound all_rows root (grow ids r) rows (λ x n. m x (Memᴰ.tail n))
      (grow-IsSound all_rows root ids r (m r (Memᴰ.head refl)) h)

include_all-IsSound :
    (rounds : ℕ) (rows : List ElementRow) (root : Uuid) (ids : List Uuid)
    → IsSound rows root ids
    → IsSound rows root (include_all rounds ids rows)
unfolding include_all
include_all-IsSound zero rows root ids h = h
include_all-IsSound (suc rounds) rows root ids h =
    let next : IsSound rows root (include_pass ids rows) =
      pass-IsSound rows root ids rows (λ r m. m) h in
    elim (Bool-cases (length (include_pass ids rows) == length ids)) [
      | inl e ↦ rw (include_all, e) next
      | inr e ↦
          rw (include_all, e) (include_all-IsSound rounds rows root (include_pass ids rows) next)
    ]

-- A closed set with the root in it holds all that is below the root.
below-IsIn :
    (rows : List ElementRow) (root : Uuid) (ids : List Uuid)
    → IsClosed ids rows
    → is_in ids root ≡ true
    → (id : Uuid) → IsBelow rows root id
    → is_in ids id ≡ true
unfolding IsClosed
below-IsIn rows root ids closed has id IsBelow.top = has
below-IsIn rows root ids closed has id (IsBelow.under r p m e b) =
    closed r m (rw e (below-IsIn rows root ids closed has p b))

grow-keeps :
    (ids : List Uuid) (r : ElementRow) (id : Uuid)
    → is_in ids id ≡ true
    → is_in (grow ids r) id ≡ true
grow-keeps ids r id h = ground arith

pass-keeps :
    (ids : List Uuid) (rows : List ElementRow) (id : Uuid)
    → is_in ids id ≡ true
    → is_in (include_pass ids rows) id ≡ true
unfolding include_pass
pass-keeps ids [] id h = h
pass-keeps ids (r ∷ rows) id h = pass-keeps (grow ids r) rows id (grow-keeps ids r id h)

include_all-keeps :
    (rounds : ℕ) (ids : List Uuid) (rows : List ElementRow) (id : Uuid)
    → is_in ids id ≡ true
    → is_in (include_all rounds ids rows) id ≡ true
unfolding include_all
include_all-keeps zero ids rows id h = h
include_all-keeps (suc rounds) ids rows id h =
    elim (Bool-cases (length (include_pass ids rows) == length ids)) [
      | inl e ↦ rw (include_all, e) (pass-keeps ids rows id h)
      | inr e ↦
          rw (include_all, e)
            (include_all-keeps rounds (include_pass ids rows) rows id (pass-keeps ids rows id h))
    ]

rows_in-keeps :
    (ids : List Uuid) (rows : List ElementRow) (r : ElementRow)
    → Memᴰ r rows
    → is_in ids r.id ≡ true
    → Memᴰ r (rows_in true ids rows)
rows_in-keeps ids [] r m e = elim m [ ]
rows_in-keeps ids (x ∷ rows) r (Memᴰ.head q) e =
    let k : is_in ids x.id ≡ true = rw (ap (λ y. y.id) q) at e in rw k (Memᴰ.head q)
rows_in-keeps ids (x ∷ rows) r (Memᴰ.tail m) e = elim (Bool-cases (is_in ids x.id)) [
  | inl f ↦ rw f (Memᴰ.tail (rows_in-keeps ids rows r m e))
  | inr f ↦ rw f (rows_in-keeps ids rows r m e)
]

rows_in-Mem :
    (ids : List Uuid) (rows : List ElementRow) (r : ElementRow)
    → Memᴰ r (rows_in true ids rows)
    → Memᴰ r rows × (is_in ids r.id ≡ true)
rows_in-Mem ids [] r m = elim m [ ]
rows_in-Mem ids (x ∷ rows) r m = elim (Bool-cases (is_in ids x.id)) [
  | inr f ↦ let (n, e) = rows_in-Mem ids rows r (rw f at m) in (Memᴰ.tail n, e)
  | inl f ↦ elim (Memᴰ.cases_cons (rw f at m)) [
    | inl q ↦ (Memᴰ.head q, rw (ap (λ y. y.id) q) f)
    | inr n ↦ let (k, e) = rows_in-Mem ids rows r n in (Memᴰ.tail k, e)
  ]
]

-- The rows that `collect_subtree` returns are the rows whose identifier is the root's or is below it by
-- parents, whatever the rows are; the rounds that it is given end in a stable set.
pub collect_subtree_iff :
    (rows : List ElementRow) (root : Uuid) (r : ElementRow)
    → Memᴰ r (collect_subtree rows root) ↔ (Memᴰ r rows × IsBelow rows root r.id)
unfolding collect_subtree IsSound
collect_subtree_iff rows root r =
    let found : List Uuid = include_all (suc (length rows)) (root ∷ []) rows in
    let start : missing (root ∷ []) rows < suc (length rows) =
      omega (arith, missing-length (root ∷ []) rows) in
    let has : is_in (root ∷ []) root ≡ true = rw (==_refl root) refl in
    let only : IsSound rows root (root ∷ []) = λ id e. elim (Bool-cases (root == id)) [
      | inl q ↦ rw (sym ((==_iff root id).0 q)) IsBelow.top
      | inr q ↦ ground (arith, q, e)
    ] in
    (
      λ m.
          let (n, e) = rows_in-Mem found rows r m in
          (n, include_all-IsSound (suc (length rows)) rows root (root ∷ []) only r.id e),
      λ (m, b). rows_in-keeps found rows r m (
          below-IsIn rows root found
            (include_all-IsClosed (suc (length rows)) (root ∷ []) rows start)
            (include_all-keeps (suc (length rows)) (root ∷ []) rows root has) r.id b),
    )
