-- ===== src/Tree/Build/Salvage.antt =====
-- `order_siblings` loses no row and repeats none, whatever the links are.
use lovely_rs.Base.{
  ℕ, zero, suc, ◌+◌, ◌<◌, ◌≤◌, ◌≡◌, refl, ap, Option, none, some, List, [], ◌∷◌, ◌++◌, Bool, true,
  false, inl, inr, ◌==◌, eq_opt, if◌then◌else◌, length, arith, Bool-cases,
}
use lovely_rs.Tree.Errors.{Uuid}
use lovely_rs.Tree.Build.Rows.{ElementRow}
use lovely_rs.Tree.Build.Siblings.{
  Split, split_rows, under, take_next, contains, Walk, walk_step, walk, insert_row, sort_rows,
  unvisited, finish, order_siblings, finish,
}

abbrev pub Test : Type 0
Test = ElementRow → Bool

-- How many rows pass a test.
abbrev pub count_if : Test → List ElementRow → ℕ
count_if q [] = 0
count_if q (r ∷ rows) = (if q r then 1 else 0) + count_if q rows

abbrev pub has_id : Uuid → Test
has_id u r = r.id == u

-- No two rows share a UUID.
abbrev pub HasDistinctIds : List ElementRow → Type 0
HasDistinctIds rows = (u : Uuid) → count_if (has_id u) rows ≤ 1

-- Two lists hold the same rows, each as often.
abbrev pub SameRows : List ElementRow → List ElementRow → Type 0
SameRows xs ys = (q : Test) → count_if q xs ≡ count_if q ys

pub count_if-append :
    (q : Test) (xs ys : List ElementRow) → count_if q (xs ++ ys) ≡ count_if q xs + count_if q ys
count_if-append q [] ys = omega arith
count_if-append q (x ∷ xs) ys = omega (arith, count_if-append q xs ys)

count_if-split_rows :
    (q : Test) (rows next_of overflow : List ElementRow)
    → count_if q (split_rows rows next_of overflow).next_of
        + count_if q (split_rows rows next_of overflow).overflow
      ≡ count_if q rows + count_if q next_of + count_if q overflow
unfolding split_rows
count_if-split_rows q [] next_of overflow = omega arith
count_if-split_rows q (row ∷ rows) next_of overflow = ground (
  arith,
  count_if-split_rows q rows (next_of ++ row ∷ []) overflow,
  count_if-split_rows q rows next_of (overflow ++ row ∷ []),
  count_if-append q next_of (row ∷ []),
  count_if-append q overflow (row ∷ []),
)

abbrev pub has_prev : Option Uuid → Test
has_prev cursor r = eq_opt r.prev_sibling cursor

-- A row taken out: the first that names the cursor, and the others.
pub record IsTaken (cursor : Option Uuid) (rows : List ElementRow) (r : ElementRow)
    (rest : List ElementRow) : Type 0 where
  pub hit : has_prev cursor r ≡ true
  pub counts : (q : Test) → count_if q rows ≡ (if q r then 1 else 0) + count_if q rest
  pub shorter : length rows ≡ suc (length rest)

pub data Taken (cursor : Option Uuid) (rows : List ElementRow)
    : Option (ElementRow × List ElementRow) → Type 0 where
  missing : count_if (has_prev cursor) rows ≡ 0 → Taken cursor rows none
  taken :
      {r : ElementRow} {rest : List ElementRow}
      → IsTaken cursor rows r rest
      → Taken cursor rows (some (r, rest))

Taken-under :
    (cursor : Option Uuid) (s : ElementRow) (rows : List ElementRow)
    {o : Option (ElementRow × List ElementRow)}
    → has_prev cursor s ≡ false
    → Taken cursor rows o
    → Taken cursor (s ∷ rows) (under s o)
Taken-under cursor s rows miss (missing h) = missing (ground arith)
Taken-under cursor s rows miss (taken t) = taken (record {
  hit = t.hit;
  counts = λ q. omega (arith, t.counts q);
  shorter = omega (arith, t.shorter);
})

pub take_next-Taken :
    (cursor : Option Uuid) (rows : List ElementRow) → Taken cursor rows (take_next cursor rows)
unfolding take_next
take_next-Taken cursor [] = missing refl
take_next-Taken cursor (s ∷ rows) = elim (Bool-cases (has_prev cursor s)) [
  | inl hit ↦ rw hit (taken (record { hit = hit; counts = λ q. refl; shorter = refl }))
  | inr miss ↦ rw miss (Taken-under cursor s rows miss (take_next-Taken cursor rows))
]

count_if-insert_row :
    (q : Test) (r : ElementRow) (rows : List ElementRow)
    → count_if q (insert_row r rows) ≡ (if q r then 1 else 0) + count_if q rows
unfolding insert_row
count_if-insert_row q r [] = refl
count_if-insert_row q r (s ∷ rows) = ground (arith, count_if-insert_row q r rows)

count_if-sort_rows :
    (q : Test) (rows : List ElementRow) → count_if q (sort_rows rows) ≡ count_if q rows
unfolding sort_rows
count_if-sort_rows q [] = refl
count_if-sort_rows q (r ∷ rows) =
    omega (arith, count_if-insert_row q r (sort_rows rows), count_if-sort_rows q rows)

-- Rows none of which is visited all stay.
count_if-unvisited :
    (q : Test) (visited : List Uuid) (rows : List ElementRow)
    → ((u : Uuid) → contains visited u ≡ true → count_if (has_id u) rows ≡ 0)
    → count_if q (unvisited visited rows) ≡ count_if q rows
unfolding unvisited
count_if-unvisited q visited [] h = refl
count_if-unvisited q visited (r ∷ rows) h =
    ground (arith, h r.id, count_if-unvisited q visited rows (λ u e. ground (arith, h u)))

-- The walk keeps the rows and marks the ordered ones as visited.
record IsWalked (ordered next_of : List ElementRow) (w : Walk) : Type 0 where
  same :
      (q : Test)
      → count_if q w.ordered + count_if q w.left ≡ count_if q ordered + count_if q next_of
  marked : (u : Uuid) → contains w.visited u ≡ true → 0 < count_if (has_id u) w.ordered

abbrev Walked : (ordered next_of : List ElementRow) → Option Walk → Type 0
Walked ordered next_of o = (w : Walk) × (o ≡ some w) × IsWalked ordered next_of w

-- No row is visited twice when the UUIDs are distinct, so the walk ends at a missing link.
abbrev Rounds :
    ℕ → (Option Uuid → List ElementRow → List Uuid → List ElementRow → Option Walk) → Type 0
Rounds k go =
    (cursor : Option Uuid) (next_of : List ElementRow) (visited : List Uuid)
    (ordered : List ElementRow)
    → length next_of < k
    → ((u : Uuid) → contains visited u ≡ true → 0 < count_if (has_id u) ordered)
    → ((u : Uuid) → count_if (has_id u) ordered + count_if (has_id u) next_of ≤ 1)
    → Walked ordered next_of (go cursor next_of visited ordered)

walk_step-Walked :
    (k : ℕ) (go : Option Uuid → List ElementRow → List Uuid → List ElementRow → Option Walk)
    → Rounds k go
    → (cursor : Option Uuid) (next_of : List ElementRow) (visited : List Uuid)
      (ordered : List ElementRow)
    → length next_of < suc k
    → ((u : Uuid) → contains visited u ≡ true → 0 < count_if (has_id u) ordered)
    → ((u : Uuid) → count_if (has_id u) ordered + count_if (has_id u) next_of ≤ 1)
    → {o : Option (ElementRow × List ElementRow)} → Taken cursor next_of o
    → Walked ordered next_of (walk_step go next_of visited ordered o)
unfolding walk_step
walk_step-Walked k go ih cursor next_of visited ordered f marked distinct (missing h) =
    (_, refl, record { same = λ q. refl; marked = marked })
walk_step-Walked k go ih cursor next_of visited ordered f marked distinct (taken {r} {rest} t) =
    let fresh : contains visited r.id ≡ false =
      ground (arith, marked r.id, distinct r.id, t.counts (has_id r.id)) in
    let (w, ran, walked) =
      ih (some r.id) rest (r.id ∷ visited) (ordered ++ r ∷ []) (omega (arith, t.shorter))
        (λ u e. ground (arith, marked u, count_if-append (has_id u) ordered (r ∷ [])))
        (λ u.
          ground (
            arith,
            distinct u,
            t.counts (has_id u),
            count_if-append (has_id u) ordered (r ∷ []),
          )) in
    (
      w,
      rw fresh ran,
      record {
        same = λ q. omega (arith, walked.same q, t.counts q, count_if-append q ordered (r ∷ []));
        marked = walked.marked;
      },
    )

walk-Walked : (fuel : ℕ) → Rounds fuel (walk fuel)
unfolding walk
walk-Walked zero cursor next_of visited ordered f marked distinct = absurd (omega arith)
walk-Walked (suc k) cursor next_of visited ordered f marked distinct =
    walk_step-Walked k (walk k) (walk-Walked k) cursor next_of visited ordered f marked distinct
      (take_next-Taken cursor next_of)

-- For sibling rows with distinct UUIDs the ordering ends and gives the same rows, each as often as
-- before, however broken the links are, and in whatever order the hash map gives its values.
pub order_siblings-SameRows :
    (into_values : List ElementRow → List ElementRow) (rows : List ElementRow)
    → ((l : List ElementRow) → SameRows (into_values l) l)
    → HasDistinctIds rows
    → (ordered : List ElementRow) × (order_siblings into_values rows ≡ some ordered)
      × SameRows ordered rows
unfolding order_siblings
order_siblings-SameRows into_values rows keeps distinct =
    let s : Split = split_rows rows [] [] in
    let parts : (q : Test) → count_if q s.next_of + count_if q s.overflow ≡ count_if q rows =
      λ q. omega (arith, count_if-split_rows q rows [] []) in
    let (w, ran, walked) : Walked [] s.next_of
        (walk (suc (length s.next_of)) none s.next_of [] []) =
      walk-Walked (suc (length s.next_of)) none s.next_of [] [] (omega arith) (λ u e. cc)
        (λ u. omega (arith, parts (has_id u), distinct u)) in
    let rest : List ElementRow = into_values w.left ++ s.overflow in
    let rest_counts : (q : Test) → count_if q rest ≡ count_if q w.left + count_if q s.overflow =
      λ q. omega (arith, count_if-append q (into_values w.left) s.overflow, keeps w.left q) in
    let out : (u : Uuid) → contains w.visited u ≡ true → count_if (has_id u) rest ≡ 0 = λ u e.
      omega (
        arith,
        walked.marked u e,
        walked.same (has_id u),
        parts (has_id u),
        distinct u,
        rest_counts (has_id u),
      ) in
    (
      w.ordered ++ sort_rows (unvisited w.visited rest),
      ap (finish into_values s.overflow) ran,
      λ q. omega (
        arith,
        count_if-append q w.ordered (sort_rows (unvisited w.visited rest)),
        count_if-sort_rows q (unvisited w.visited rest),
        count_if-unvisited q w.visited rest out,
        rest_counts q,
        walked.same q,
        parts q,
      ),
    )
