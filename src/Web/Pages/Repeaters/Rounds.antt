-- ===== src/Web/Pages/Repeaters/Rounds.antt =====
-- The rounds of `collect_subtree`: what they add, and that they end in a stable set.
use lovely_rs.Base.{
  ℕ, zero, suc, ◌+◌, ◌≤◌, ◌<◌, ◌≡◌, refl, sym, ap, true, false, List, [], ◌∷◌, length,
  if◌then◌else◌, ◌==◌, ==_refl, ==_iff, Bool-cases, inl, inr, arith,
}
use mathlib.Core.List.{Memᴰ}
use mathlib.Core.List.Memᴰ
use lovely_rs.Tree.Errors.{Uuid}
use lovely_rs.Tree.Build.Rows.{ElementRow}
use lovely_rs.Web.Pages.Repeaters.{is_in, is_in_opt, insert_id, include_pass, include_all}

-- One row of a round.
abbrev pub grow : List Uuid → ElementRow → List Uuid
grow ids r = if is_in_opt ids r.parent_id then insert_id r.id ids else ids

-- The number of rows that are not in a set.
pub missing : List Uuid → List ElementRow → ℕ
missing ids [] = 0
missing ids (r ∷ rows) = (if is_in ids r.id then 0 else 1) + missing ids rows

pub missing-length : (ids : List Uuid) (rows : List ElementRow) → missing ids rows ≤ length rows
unfolding missing
missing-length ids [] = omega arith
missing-length ids (r ∷ rows) = ground (arith, missing-length ids rows)

missing-cons :
    (id : Uuid) (ids : List Uuid) (rows : List ElementRow)
    → missing (id ∷ ids) rows ≤ missing ids rows
unfolding missing
missing-cons id ids [] = omega arith
missing-cons id ids (r ∷ rows) = ground (arith, missing-cons id ids rows)

missing-new :
    (r : ElementRow) (ids : List Uuid) (rows : List ElementRow)
    → Memᴰ r rows
    → is_in ids r.id ≡ false
    → missing (r.id ∷ ids) rows < missing ids rows
unfolding missing
missing-new r ids [] m e = elim m [ ]
missing-new r ids (x ∷ rows) (Memᴰ.head q) e =
    rw (sym (ap (λ y. y.id) q), e, ==_refl r.id) (omega (arith, missing-cons r.id ids rows))
missing-new r ids (x ∷ rows) (Memᴰ.tail m) e = ground (arith, missing-new r ids rows m e)

-- What a row adds to a set, it takes from the missing ones.
grow-missing :
    (rows : List ElementRow) (ids : List Uuid) (r : ElementRow)
    → Memᴰ r rows
    → length (grow ids r) + missing (grow ids r) rows ≤ length ids + missing ids rows
grow-missing rows ids r m = elim (Bool-cases (is_in_opt ids r.parent_id)) [
  | inr e ↦ rw e (omega arith)
  | inl e ↦ elim (Bool-cases (is_in ids r.id)) [
    | inl f ↦ rw (e, f) (omega arith)
    | inr f ↦ rw (e, f) (omega (arith, missing-new r ids rows m f))
  ]
]

pass-missing :
    (all_rows : List ElementRow) (ids : List Uuid) (rows : List ElementRow)
    → ((r : ElementRow) → Memᴰ r rows → Memᴰ r all_rows)
    → length (include_pass ids rows) + missing (include_pass ids rows) all_rows
      ≤ length ids + missing ids all_rows
unfolding include_pass
pass-missing all_rows ids [] h = omega arith
pass-missing all_rows ids (r ∷ rows) h = omega (
  arith,
  grow-missing all_rows ids r (h r (Memᴰ.head refl)),
  pass-missing all_rows (grow ids r) rows (λ x m. h x (Memᴰ.tail m)),
)

grow-length : (ids : List Uuid) (r : ElementRow) → length ids ≤ length (grow ids r)
grow-length ids r = ground arith

pass-length :
    (ids : List Uuid) (rows : List ElementRow) → length ids ≤ length (include_pass ids rows)
unfolding include_pass
pass-length ids [] = omega arith
pass-length ids (r ∷ rows) = omega (arith, grow-length ids r, pass-length (grow ids r) rows)

-- A round that adds nothing leaves the set, which then holds the row of every parent in it.
unfoldable pub IsClosed : List Uuid → List ElementRow → Type 0
IsClosed ids rows =
    (r : ElementRow) → Memᴰ r rows → is_in_opt ids r.parent_id ≡ true → is_in ids r.id ≡ true

grow-stable :
    (ids : List Uuid) (r : ElementRow)
    → length (grow ids r) ≡ length ids
    → (grow ids r ≡ ids) × (is_in_opt ids r.parent_id ≡ true → is_in ids r.id ≡ true)
grow-stable ids r e = ground arith

pass-stable :
    (ids : List Uuid) (rows : List ElementRow)
    → length (include_pass ids rows) ≡ length ids
    → (include_pass ids rows ≡ ids) × IsClosed ids rows
unfolding include_pass IsClosed
pass-stable ids [] e = (refl, λ r m. absurd (Memᴰ.not-nil m))
pass-stable ids (x ∷ rows) e =
    let same : length (grow ids x) ≡ length ids =
      omega (arith, grow-length ids x, pass-length (grow ids x) rows) in
    let (kept, ok) = grow-stable ids x same in
    let (rest, closed) = pass-stable ids rows (rw kept at e) in
    (
      rw (kept, rest) refl,
      λ r m h. elim (Memᴰ.cases_cons m) [
        | inl q ↦ rw (ap (λ y. y.id) q) (ok (rw (ap (λ y. y.parent_id) q) at h))
        | inr n ↦ closed r n h
      ],
    )

pub include_all-IsClosed :
    (rounds : ℕ) (ids : List Uuid) (rows : List ElementRow)
    → missing ids rows < rounds
    → IsClosed (include_all rounds ids rows) rows
unfolding include_all
include_all-IsClosed zero ids rows f = absurd (omega arith)
include_all-IsClosed (suc rounds) ids rows f =
    elim (Bool-cases (length (include_pass ids rows) == length ids)) [
      | inl e ↦
          let (same, closed) = pass-stable ids rows ((==_iff _ _).0 e) in
          rw (include_all, e, same) closed
      | inr e ↦
          rw (include_all, e)
            (include_all-IsClosed rounds (include_pass ids rows) rows
              (ground (arith, pass-missing rows ids rows (λ r m. m), pass-length ids rows, e)))
    ]
