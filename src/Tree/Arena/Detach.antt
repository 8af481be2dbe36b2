-- ===== src/Tree/Arena/Detach.antt =====
-- Taking a node out of its place, and the moves that fail after it.
use mathlib.Core.Path.{fun_ext}
use lovely_rs.Base.{
  ◌≡◌, refl, ap, sym, ◌∙◌, ◌≢◌, ◌&&◌, Bool, true, false, inl, inr, Option, none, some, ◌==◌, eq_opt,
  eq_opt_iff, if◌then◌else◌, arith, Bool-cases, Option-cases,
}
use lovely_rs.Tree.Errors.{NodeId}
use lovely_rs.Tree.Arena.Monad.{
  Node, Nodes, Tree, write, ◌>>◌, set_parent, set_prev_sibling, set_next_sibling, Run, Cmd,
  and_then, done, modify,
}
use lovely_rs.Tree.Arena.Ops.{fix_first, fix_last, detach_parent, detach_prev, detach_next, detach}
use lovely_rs.Tree.Arena.Links.{is_some, IsLinked, map_node}
use lovely_rs.Tree.Arena.Insert.{live_node}

-- What taking out the node `n`, at `id`, does to the node at `x`.
abbrev pub unlink : (id : NodeId) → Node → (x : NodeId) → Node → Node
unlink id n x m = record m {
  next_sibling = if eq_opt n.prev_sibling (some x) then n.next_sibling else m.next_sibling;
  prev_sibling = if eq_opt n.next_sibling (some x) then n.prev_sibling else m.prev_sibling;
  first_child =
      if eq_opt n.parent (some x) && eq_opt m.first_child (some id)
      then n.next_sibling
      else m.first_child;
  last_child =
      if eq_opt n.parent (some x) && eq_opt m.last_child (some id)
      then n.prev_sibling
      else m.last_child;
}

abbrev pub loose : Node → Node
loose n = record n { parent = none; prev_sibling = none; next_sibling = none }

unfoldable pub unsplice : Nodes → (id : NodeId) → Node → Nodes
unsplice nodes id n x = if x == id then some (loose n) else map_node (unlink id n x) (nodes x)

abbrev with_nodes : Tree → Nodes → Run (Unit {0})
with_nodes t f = done tt (record t { nodes = f })

with_nodes-eq :
    (t : Tree) (f g : Nodes) → ((x : NodeId) → f x ≡ g x) → with_nodes t f ≡ with_nodes t g
with_nodes-eq t f g h = ap (with_nodes t) (fun_ext h)

-- The parent with the marks for its first and last child moved on.
abbrev unmark : NodeId → Node → Node → Node
unmark id n m = record m {
  first_child = if eq_opt m.first_child (some id) then n.next_sibling else m.first_child;
  last_child = if eq_opt m.last_child (some id) then n.prev_sibling else m.last_child;
}

modify-done :
    (t : Tree) (id : NodeId) (f : Node → Node) (n : Node)
    → t.nodes id ≡ some n
    → modify id f t ≡ with_nodes t (write t.nodes id (some (f n)))
unfolding modify
modify-done t id f n e = ground arith

write_same : (f : Nodes) (k : NodeId) (v : Option Node) → f k ≡ v → write f k v ≡ f
write_same f k v e = fun_ext λ x. ground arith

fix_first-done :
    (t : Tree) (p id : NodeId) (n m : Node)
    → t.nodes p ≡ some m
    → fix_first p id n t
      ≡ with_nodes t (
          write t.nodes p (
            some (record m {
              first_child =
                  if eq_opt m.first_child (some id) then n.next_sibling else m.first_child;
            })))
unfolding fix_first
fix_first-done t p id n m e = elim (Bool-cases (eq_opt m.first_child (some id))) [
  | inl hit ↦ ground arith
  | inr miss ↦
      let stays : fix_first p id n t ≡ done tt t = ground arith in
      stays ∙ rw miss (sym (ap (with_nodes t) (write_same t.nodes p (some m) e)))
]

fix_last-done :
    (t : Tree) (p id : NodeId) (n m : Node)
    → t.nodes p ≡ some m
    → fix_last p id n t
      ≡ with_nodes t (
          write t.nodes p (
            some (record m {
              last_child = if eq_opt m.last_child (some id) then n.prev_sibling else m.last_child;
            })))
unfolding fix_last
fix_last-done t p id n m e = elim (Bool-cases (eq_opt m.last_child (some id))) [
  | inl hit ↦ ground arith
  | inr miss ↦
      let stays : fix_last p id n t ≡ done tt t = ground arith in
      stays ∙ rw miss (sym (ap (with_nodes t) (write_same t.nodes p (some m) e)))
]

write-write : (f : Nodes) (k : NodeId) (v w : Option Node) → write (write f k v) k w ≡ write f k w
write-write f k v w = fun_ext λ x. ground arith

detach_parent-done :
    (t : Tree) (p id : NodeId) (n m : Node)
    → t.nodes p ≡ some m
    → detach_parent (some p) id n t ≡ with_nodes t (write t.nodes p (some (unmark id n m)))
unfolding detach_parent
detach_parent-done t p id n m e =
    let first : Node = record m {
      first_child = if eq_opt m.first_child (some id) then n.next_sibling else m.first_child;
    } in
    let between : Tree = record t { nodes = write t.nodes p (some first) } in
    ap (λ r. and_then r (λ _. fix_last p id n)) (fix_first-done t p id n m e)
    ∙ fix_last-done between p id n first (ground arith)
    ∙ ap (with_nodes t) (write-write t.nodes p (some first) (some (unmark id n m)))

abbrev with_next : Option NodeId → Option NodeId → Nodes → Nodes
with_next prev next nodes x =
    if eq_opt prev (some x)
    then map_node (λ m. record m { next_sibling = next }) (nodes x)
    else nodes x

abbrev with_prev : Option NodeId → Option NodeId → Nodes → Nodes
with_prev next prev nodes x =
    if eq_opt next (some x)
    then map_node (λ m. record m { prev_sibling = prev }) (nodes x)
    else nodes x

detach_prev-done :
    (t : Tree) (n : Node) (prev : Option NodeId)
    → ((q : NodeId) → prev ≡ some q → is_some (t.nodes q) ≡ true)
    → detach_prev prev n t ≡ with_nodes t (with_next prev n.next_sibling t.nodes)
unfolding detach_prev
detach_prev-done t n none live = refl
detach_prev-done t n (some q) live =
    let (m, e) = live_node (t.nodes q) (live q refl) in
    modify-done t q (λ m. record m { next_sibling = n.next_sibling }) m e
    ∙ with_nodes-eq t _ _ (λ x. ground arith)

detach_next-done :
    (t : Tree) (n : Node) (next : Option NodeId)
    → ((q : NodeId) → next ≡ some q → is_some (t.nodes q) ≡ true)
    → detach_next next n t ≡ with_nodes t (with_prev next n.prev_sibling t.nodes)
unfolding detach_next
detach_next-done t n none live = refl
detach_next-done t n (some q) live =
    let (m, e) = live_node (t.nodes q) (live q refl) in
    modify-done t q (λ m. record m { prev_sibling = n.prev_sibling }) m e
    ∙ with_nodes-eq t _ _ (λ x. ground arith)

-- The last three writes of a detachment.
clear_links : NodeId → Cmd (Unit {0})
clear_links id = do set_parent id none; set_prev_sibling id none; set_next_sibling id none

clear_links-done :
    (t : Tree) (id : NodeId) (n : Node)
    → t.nodes id ≡ some n
    → clear_links id t ≡ with_nodes t (write t.nodes id (some (loose n)))
unfolding clear_links modify
clear_links-done t id n e =
    let written : Nodes =
      write
        (write (write t.nodes id (some (record n { parent = none }))) id
          (some (record n { parent = none; prev_sibling = none })))
        id (some (loose n)) in
    let run : clear_links id t ≡ with_nodes t written = ground arith in
    run ∙ with_nodes-eq t written _ (λ x. ground arith)

-- The nodes when all the writes are made.
abbrev relinked : Nodes → (p id : NodeId) → (n m : Node) → Nodes
relinked nodes p id n m =
    with_prev n.next_sibling n.prev_sibling
      (with_next n.prev_sibling n.next_sibling (write nodes p (some (unmark id n m))))

-- The writes to the two neighbours, made together.
stages :
    (a b : Bool) (next prev : Option NodeId) (o : Option Node)
    → (if b
        then map_node
            (λ m. record m { prev_sibling = prev })
            (if a then map_node (λ m. record m { next_sibling = next }) o else o)
        else (if a then map_node (λ m. record m { next_sibling = next }) o else o))
      ≡ map_node
          (λ m. record m {
            next_sibling = if a then next else m.next_sibling;
            prev_sibling = if b then prev else m.prev_sibling;
          })
          o
stages a b next prev none = ground arith
stages true true next prev (some m) = refl
stages true false next prev (some m) = refl
stages false true next prev (some m) = refl
stages false false next prev (some m) = refl

module _ (nodes : Nodes) (p id : NodeId) (n m : Node) (at : nodes id ≡ some n)
    (up : n.parent ≡ some p) (at_p : nodes p ≡ some m) (ne : p ≢ id) where
  relinked-id :
      n.prev_sibling ≢ some id → n.next_sibling ≢ some id → relinked nodes p id n m id ≡ some n
  relinked-id h k =
      let miss : eq_opt n.prev_sibling (some id) ≡ false =
        ground (arith, eq_opt_iff n.prev_sibling (some id)) in
      let miss' : eq_opt n.next_sibling (some id) ≡ false =
        ground (arith, eq_opt_iff n.next_sibling (some id)) in
      rw (miss, miss') (ground arith)

  relinked-unsplice :
      (x : NodeId) → write (relinked nodes p id n m) id (some (loose n)) x ≡ unsplice nodes id n x
  unfolding unsplice
  relinked-unsplice x = elim (Bool-cases (x == id)) [
    | inl same ↦ rw same
    | inr other ↦ rw other (
        stages (eq_opt n.prev_sibling (some x)) (eq_opt n.next_sibling (some x)) n.next_sibling
          n.prev_sibling _
        ∙ elim (Bool-cases (x == p)) [
          | inl hit ↦
              let found : nodes x ≡ some m = ground arith in
              let par : eq_opt n.parent (some x) ≡ true = ground arith in simp (hit, found, par)
          | inr miss ↦
              let par : eq_opt n.parent (some x) ≡ false = ground arith in
              simp miss (elim (Option-cases (nodes x)) [
                | inl dead ↦ simp dead
                | inr (k, live) ↦ simp (live, par)
              ])
        ])
  ]

-- The steps of `detach`, one after the other.
detach-steps :
    (t t1 t2 t3 t4 : Tree) (id : NodeId) (n : Node)
    → t.nodes id ≡ some n
    → detach_parent n.parent id n t ≡ done tt t1
    → detach_prev n.prev_sibling n t1 ≡ done tt t2
    → detach_next n.next_sibling n t2 ≡ done tt t3
    → clear_links id t3 ≡ done tt t4
    → detach id t ≡ done tt t4
unfolding detach clear_links
detach-steps t t1 t2 t3 t4 id n at e1 e2 e3 e4 = rw (at, e1, e2, e3) e4

module _ (t : Tree) (linked : IsLinked t.nodes) (id p : NodeId) (n : Node)
    (at : t.nodes id ≡ some n) (up : n.parent ≡ some p) where
  abbrev t1 : Node → Tree
  t1 m = record t { nodes = write t.nodes p (some (unmark id n m)) }

  prev-live :
      (m : Node)
      → t.nodes p ≡ some m
      → (q : NodeId) → n.prev_sibling ≡ some q
      → is_some ((t1 m).nodes q) ≡ true
  prev-live m at_p q e = ground (arith, linked.prev_next id q)

  next-live :
      (m : Node)
      → t.nodes p ≡ some m
      → (q : NodeId) → n.next_sibling ≡ some q
      → is_some (with_next n.prev_sibling n.next_sibling (t1 m).nodes q) ≡ true
  next-live m at_p q e = ground (arith, linked.next_prev id q)

  -- Where the links agree, taking out a node with a parent succeeds, joins what stood before it to
  -- what stood behind it, leaves the node with no parent and no siblings, and changes nothing else.
  pub detach-unsplice : detach id t ≡ with_nodes t (unsplice t.nodes id n)
  detach-unsplice =
      let (m, at_p) = live_node (t.nodes p) (linked.parent_live id p (ground arith)) in
      let ne : p ≢ id = ground (arith, linked.not_own id) in
      let t2 : Tree = record t { nodes = with_next n.prev_sibling n.next_sibling (t1 m).nodes } in
      let t3 : Tree = record t { nodes = relinked t.nodes p id n m } in
      let t4 : Tree = record t { nodes = write (relinked t.nodes p id n m) id (some (loose n)) } in
      let own_prev : n.prev_sibling ≢ some id =
        ground (arith, linked.prev_next id id, linked.not_next id) in
      let own_next : n.next_sibling ≢ some id = ground (arith, linked.not_next id) in
      detach-steps t (t1 m) t2 t3 t4 id n at (simp up (detach_parent-done t p id n m at_p))
        (detach_prev-done (t1 m) n n.prev_sibling (prev-live m at_p))
        (detach_next-done t2 n n.next_sibling (next-live m at_p))
        (clear_links-done t3 id n (relinked-id t.nodes p id n m at up at_p ne own_prev own_next))
      ∙ with_nodes-eq t _ _ (relinked-unsplice t.nodes p id n m at up at_p ne)
