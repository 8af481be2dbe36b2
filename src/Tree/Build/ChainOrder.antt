-- ===== src/Tree/Build/ChainOrder.antt =====
-- `order_siblings` restores the order of a consistent chain from rows in any order.
use mathlib.Core.List.{append-nil, append_assoc, map-append}
use lovely_rs.Base.{
  ℕ, zero, suc, ◌+◌, ◌<◌, ◌≤◌, ◌≡◌, refl, sym, ap, ◌∙◌, ◌≢◌, Option, none, some, List, [], ◌∷◌,
  ◌++◌, Bool, true, false, not, ◌&&◌, inl, inr, ◌==◌, eq_opt, eq_opt_iff, length, arith, Bool-cases,
  map,
}
use lovely_rs.Tree.Errors.{Uuid}
use lovely_rs.Tree.Build.Rows.{ElementRow}
use lovely_rs.Tree.Build.Siblings.{
  occupied, split_rows, contains, Walk, walk_step, walk, sort_rows, unvisited, finish,
  order_siblings,
}
use lovely_rs.Tree.Build.Salvage.{
  Test, count_if, has_id, has_prev, HasDistinctIds, SameRows, count_if-append, IsTaken, Taken,
  missing, taken, take_next-Taken,
}

-- Each row names the one before it.
abbrev pub IsChainFrom : Option Uuid → List ElementRow → Type 0
IsChainFrom prev [] = Unit {0}
IsChainFrom prev (c ∷ cs) = (c.prev_sibling ≡ prev) × IsChainFrom (some c.id) cs

abbrev pub ids : List ElementRow → List Uuid
ids rows = map (λ r. r.id) rows

-- No row of the list has the UUID that `p` names.
abbrev IsApart : Option Uuid → List ElementRow → Type 0
IsApart p cs = (u : Uuid) → p ≡ some u → count_if (has_id u) cs ≡ 0

no_prev :
    (p prev : Option Uuid) (cs : List ElementRow)
    → IsChainFrom prev cs
    → p ≢ prev
    → IsApart p cs
    → count_if (has_prev p) cs ≡ 0
no_prev p prev [] chain ne apart = refl
no_prev p prev (c ∷ cs) (e, chain) ne apart =
    let miss : has_prev p c ≡ false = ground (arith, eq_opt_iff c.prev_sibling p) in
    let rest =
      no_prev p (some c.id) cs chain (λ k. ground (arith, apart c.id))
        (λ u k. ground (arith, apart u k)) in
    ground arith

distinct_prevs :
    (p prev : Option Uuid) (cs : List ElementRow)
    → IsChainFrom prev cs
    → HasDistinctIds cs
    → IsApart prev cs
    → count_if (has_prev p) cs ≤ 1
distinct_prevs p prev [] chain distinct apart = omega arith
distinct_prevs p prev (c ∷ cs) (e, chain) distinct apart = elim (Bool-cases (has_prev p c)) [
  | inl hit ↦
      let same : c.prev_sibling ≡ p = (eq_opt_iff c.prev_sibling p).0 hit in
      let rest : count_if (has_prev p) cs ≡ 0 =
        no_prev p (some c.id) cs chain (λ k. ground (arith, apart c.id))
          (λ u k. ground (arith, apart u)) in
      ground arith
  | inr miss ↦
      let rest =
        distinct_prevs p (some c.id) cs chain (λ u. ground (arith, distinct u))
          (λ u k. ground (arith, distinct u)) in
      ground arith
]

occupied-none :
    (p : Option Uuid) (rows : List ElementRow)
    → count_if (has_prev p) rows ≡ 0
    → occupied p rows ≡ false
occupied-none p [] h = refl
occupied-none p (r ∷ rows) h = ground (arith, occupied-none p rows)

-- Rows with distinct links are all kept in the map.
split_rows_distinct :
    (rows acc : List ElementRow)
    → ((p : Option Uuid) → count_if (has_prev p) acc + count_if (has_prev p) rows ≤ 1)
    → split_rows rows acc [] ≡ record { next_of = acc ++ rows; overflow = [] }
unfolding split_rows
split_rows_distinct [] acc h = rw append-nil
split_rows_distinct (row ∷ rows) acc h =
    let hit : has_prev row.prev_sibling row ≡ true =
      (eq_opt_iff row.prev_sibling row.prev_sibling).1 refl in
    let out : occupied row.prev_sibling acc ≡ false =
      occupied-none row.prev_sibling acc (ground (arith, h row.prev_sibling)) in
    rw out (
      split_rows_distinct rows (acc ++ row ∷ [])
        (λ p. ground (arith, h p, count_if-append (has_prev p) acc (row ∷ [])))
      ∙ rw append_assoc)

-- The tests on the two fields that the ordering reads.
abbrev by_key : (Uuid → Option Uuid → Bool) → Test
by_key k r = k r.id r.prev_sibling

abbrev SameKeys : List ElementRow → List ElementRow → Type 0
SameKeys xs ys = (k : Uuid → Option Uuid → Bool) → count_if (by_key k) xs ≡ count_if (by_key k) ys

eq-nil : (xs : List ElementRow) → count_if (λ r. true) xs ≡ 0 → xs ≡ []
eq-nil [] h = refl
eq-nil (x ∷ xs) h = absurd (omega arith)

-- A test with a further condition passes no more rows.
count_if-and :
    (q : Test) (c : ElementRow → Bool) (xs : List ElementRow)
    → count_if (λ r. q r && c r) xs ≤ count_if q xs
count_if-and q c [] = omega arith
count_if-and q c (x ∷ xs) = ground (arith, count_if-and q c xs)

-- The row taken at the cursor is the head of the chain.
taken-id :
    (cursor : Option Uuid) (next_of : List ElementRow) (c : ElementRow) (cs : List ElementRow)
    {r : ElementRow} {rest : List ElementRow}
    → SameKeys next_of (c ∷ cs)
    → c.prev_sibling ≡ cursor
    → count_if (has_prev cursor) cs ≡ 0
    → IsTaken cursor next_of r rest
    → r.id ≡ c.id
taken-id cursor next_of c cs {r} same e others t =
    let other : Test = by_key (λ i p. eq_opt p cursor && not (i == c.id)) in
    let none_left : count_if other cs ≡ 0 =
      omega (arith, count_if-and (has_prev cursor) (λ r. not (r.id == c.id)) cs) in
    ground
      (arith, same (λ i p. eq_opt p cursor && not (i == c.id)), t.counts other, t.hit, none_left)

record IsOrdered (ordered cs : List ElementRow) (w : Walk) : Type 0 where
  in_order : ids w.ordered ≡ ids ordered ++ ids cs
  none_left : w.left ≡ []

abbrev Orders : List ElementRow → List ElementRow → Option Walk → Type 0
Orders ordered cs o = (w : Walk) × (o ≡ some w) × IsOrdered ordered cs w

abbrev IsFresh : List Uuid → List ElementRow → List ElementRow → Type 0
IsFresh visited ordered cs =
    (u : Uuid)
    → (contains visited u ≡ true → 0 < count_if (has_id u) ordered)
      × (count_if (has_id u) ordered + count_if (has_id u) cs ≤ 1)

abbrev Rounds :
    List ElementRow
    → (Option Uuid → List ElementRow → List Uuid → List ElementRow → Option Walk)
    → Type 0
Rounds cs go =
    (cursor : Option Uuid) (next_of : List ElementRow) (visited : List Uuid)
    (ordered : List ElementRow)
    → SameKeys next_of cs
    → IsChainFrom cursor cs
    → IsFresh visited ordered cs
    → IsApart cursor cs
    → Orders ordered cs (go cursor next_of visited ordered)

module _ (go : Option Uuid → List ElementRow → List Uuid → List ElementRow → Option Walk)
    (cursor : Option Uuid) (next_of : List ElementRow) (visited : List Uuid)
    (ordered : List ElementRow) where
  walk_step-nil :
      SameKeys next_of []
      → {o : Option (ElementRow × List ElementRow)} → Taken cursor next_of o
      → Orders ordered [] (walk_step go next_of visited ordered o)
  unfolding walk_step
  walk_step-nil same (missing h) = (
    _,
    refl,
    record { in_order = sym (append-nil _); none_left = eq-nil next_of (same (λ i p. true)) },
  )
  walk_step-nil same (taken t) = absurd (ground (arith, same (λ i p. true), t.counts (λ r. true)))

  walk_step-cons :
      (c : ElementRow) (cs : List ElementRow)
      → Rounds cs go
      → SameKeys next_of (c ∷ cs)
      → IsChainFrom cursor (c ∷ cs)
      → IsFresh visited ordered (c ∷ cs)
      → IsApart cursor (c ∷ cs)
      → {o : Option (ElementRow × List ElementRow)} → Taken cursor next_of o
      → Orders ordered (c ∷ cs) (walk_step go next_of visited ordered o)
  unfolding walk_step
  walk_step-cons c cs ih same (e, chain) fresh apart (missing h) =
      absurd (ground (arith, same (λ i p. eq_opt p cursor), eq_opt_iff c.prev_sibling cursor))
  walk_step-cons c cs ih same (e, chain) fresh apart (taken {r} {rest} t) =
      let others : count_if (has_prev cursor) cs ≡ 0 =
        no_prev cursor (some c.id) cs chain (λ k. ground (arith, apart c.id))
          (λ u k. ground (arith, apart u)) in
      let eq : r.id ≡ c.id = taken-id cursor next_of c cs same e others t in
      let eq' : r.prev_sibling ≡ c.prev_sibling =
        (eq_opt_iff r.prev_sibling cursor).0 t.hit ∙ sym e in
      let unseen : contains visited r.id ≡ false = ground (arith, fresh r.id) in
      let (w, ran, order) =
        ih (some r.id) rest (r.id ∷ visited) (ordered ++ r ∷ [])
          (λ k. ground (arith, same k, t.counts (by_key k))) (rw eq chain)
          (λ u. (
            λ h. ground (arith, fresh u, count_if-append (has_id u) ordered (r ∷ [])),
            ground (arith, fresh u, count_if-append (has_id u) ordered (r ∷ [])),
          ))
          (λ u h. ground (arith, fresh u)) in
      (
        w,
        rw unseen ran,
        record {
          in_order =
              order.in_order
              ∙ rw (map-append, append_assoc) (ap (λ i. ids ordered ++ i ∷ ids cs) eq);
          none_left = order.none_left;
        },
      )

walk-Orders : (cs : List ElementRow) (fuel : ℕ) → length cs < fuel → Rounds cs (walk fuel)
unfolding walk
walk-Orders cs zero f cursor next_of visited ordered same chain fresh apart = absurd (omega arith)
walk-Orders [] (suc k) f cursor next_of visited ordered same chain fresh apart =
    walk_step-nil (walk k) cursor next_of visited ordered same (take_next-Taken cursor next_of)
walk-Orders (c ∷ cs) (suc k) f cursor next_of visited ordered same chain fresh apart =
    walk_step-cons (walk k) cursor next_of visited ordered c cs (walk-Orders cs k (omega arith))
      same chain fresh apart (take_next-Taken cursor next_of)

count_if-length : (xs : List ElementRow) → count_if (λ r. true) xs ≡ length xs
count_if-length [] = refl
count_if-length (x ∷ xs) = omega (arith, count_if-length xs)

-- When the rows are those of a chain with distinct UUIDs, in whatever order they come, the ordering
-- gives the UUIDs in the order of the chain.
pub order_siblings-chain :
    (into_values : List ElementRow → List ElementRow) (rows cs : List ElementRow)
    → ((l : List ElementRow) → SameRows (into_values l) l)
    → SameRows rows cs
    → IsChainFrom none cs
    → HasDistinctIds cs
    → (ordered : List ElementRow) × (order_siblings into_values rows ≡ some ordered)
      × (ids ordered ≡ ids cs)
unfolding order_siblings sort_rows unvisited
order_siblings-chain into_values rows cs keeps same chain distinct =
    let parts : split_rows rows [] [] ≡ record { next_of = rows; overflow = [] } =
      split_rows_distinct rows [] (λ p.
        omega (arith, same (has_prev p), distinct_prevs p none cs chain distinct (λ u h. cc))) in
    let enough : length cs < suc (length rows) =
      omega (arith, count_if-length rows, count_if-length cs, same (λ r. true)) in
    let (w, ran, order) =
      walk-Orders cs (suc (length rows)) enough none rows [] [] (λ k. same (by_key k)) chain
        (λ u. (λ h. cc, omega (arith, distinct u))) (λ u h. cc) in
    let empty : into_values w.left ≡ [] =
      eq-nil (into_values w.left) (keeps w.left (λ r. true) ∙ rw order.none_left) in
    (
      w.ordered,
      rw parts (ap (finish into_values []) ran ∙ rw empty (rw append-nil)),
      order.in_order,
    )
