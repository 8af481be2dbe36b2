-- ===== src/Tree/Arena/Order.antt =====
-- The insertions, read as insertions into the parent's list of children.
use mathlib.Core.List.{append_assoc, append-nil}
use lovely_rs.Base.{
  ◌≡◌, refl, ◌≢◌, true, false, inl, inr, Option, none, some, List, [], ◌∷◌, ◌++◌, ◌==◌, arith,
  Option-cases,
}
use lovely_rs.Tree.Errors.{NodeId}
use lovely_rs.Tree.Arena.Monad.{Node, Nodes, Tree}
use lovely_rs.Tree.Arena.Ops.{NewNode, node_of, append_child, insert_before, insert_after}
use lovely_rs.Tree.Arena.Links.{is_some, is_none, parent_of, first_of, IsPlace, splice}
use lovely_rs.Tree.Arena.Insert.{
  live_node, IsWellFormed, inserted, append_child-inserted, insert_before-inserted,
  insert_after-inserted,
}
use lovely_rs.Tree.Arena.Keep.{Returns, returns, last-IsPlace, IsPlace-before, IsPlace-after}
use lovely_rs.Tree.Arena.Children.{
  mem, mem_opt, Distinct, head_opt, last_or, HasChildren, mem-append, Chain-around, Chain-last,
  Chain-mem, start, Chain-apart, Chain-splice,
}

last_or-some : (x : NodeId) (xs : List NodeId) → is_none (last_or (some x) xs) ≡ false
last_or-some x [] = refl
last_or-some x (y ∷ xs) = last_or-some y xs

last_or-concat :
    (d : Option NodeId) (xs : List NodeId) (x : NodeId) → last_or d (xs ++ x ∷ []) ≡ some x
last_or-concat d [] x = refl
last_or-concat d (y ∷ xs) x = last_or-concat (some y) xs x

Distinct-insert :
    (id : NodeId) (xs ys : List NodeId)
    → Distinct (xs ++ ys)
    → mem id (xs ++ ys) ≡ false
    → Distinct (xs ++ id ∷ ys)
Distinct-insert id [] ys d out = (out, d)
Distinct-insert id (x ∷ xs) ys (apart, d) out = (
  ground (arith, mem-append x xs ys, mem-append x xs (id ∷ ys)),
  Distinct-insert id xs ys d (ground arith),
)

module _ (nodes : Nodes) (parent id : NodeId) (n : Node) (unlinked : parent_of (nodes id) ≡ none)
    (live : is_some (nodes parent) ≡ true) (ne : (id == parent) ≡ false) where
  splice-first :
      (xs ys : List NodeId)
      → first_of (splice nodes id n parent (last_or none xs) (head_opt ys) parent)
        ≡ start id xs (first_of (nodes parent))
  unfolding splice
  splice-first [] ys = ground arith
  splice-first (x ∷ xs) ys = ground (arith, last_or-some x xs)

  pub splice-HasChildren :
      (xs ys : List NodeId)
      → HasChildren nodes parent (xs ++ ys)
      → HasChildren
          (splice nodes id n parent (last_or none xs) (head_opt ys))
          parent
          (xs ++ id ∷ ys)
  splice-HasChildren xs ys has = record {
    chain = rw (splice-first xs ys) (
        Chain-splice nodes parent (last_or none xs) (head_opt ys) id n unlinked none _ xs ys
          has.chain refl refl has.distinct refl live ne);
    distinct =
        Distinct-insert id xs ys has.distinct
          (Chain-mem nodes parent id none _ (xs ++ ys) has.chain (ground arith));
  }

  pub splice-HasChildren_ne :
      (prev next : Option NodeId)
      → IsPlace nodes parent prev next
      → (q : NodeId) (cs : List NodeId) → q ≢ parent
      → q ≢ id
      → HasChildren nodes q cs
      → HasChildren (splice nodes id n parent prev next) q cs
  unfolding splice
  splice-HasChildren_ne prev next place q cs other other' has =
      let begins : first_of (splice nodes id n parent prev next q) ≡ first_of (nodes q) =
        ground arith in
      let none_prev : mem_opt prev cs ≡ false = elim (Option-cases prev) [
        | inl nil ↦ rw nil
        | inr (p, found) ↦
            rw found (Chain-mem nodes q p none _ cs has.chain (ground (arith, place.behind p)))
      ] in
      let none_next : mem_opt next cs ≡ false = elim (Option-cases next) [
        | inl nil ↦ rw nil
        | inr (p, found) ↦
            rw found (Chain-mem nodes q p none _ cs has.chain (ground (arith, place.ahead p)))
      ] in
      record {
        chain = rw begins (
            Chain-apart nodes parent prev next id n unlinked q none _ cs has.chain none_prev
              none_next (ground arith));
        distinct = has.distinct;
      }

-- The new node stands at one place among the children of one parent; it has no children, and every
-- other list of children is as before.
pub record IsInserted (old new : Nodes) (fresh parent : NodeId) (cs : List NodeId) : Type 0 where
  pub here : HasChildren new parent cs
  pub leaf : HasChildren new fresh []
  pub elsewhere :
      (q : NodeId) (ds : List NodeId)
      → q ≢ parent
      → q ≢ fresh
      → HasChildren old q ds
      → HasChildren new q ds

module _ (t : Tree) (fresh : NodeId) (n : NewNode) (well : IsWellFormed t)
    (unused : t.nodes fresh ≡ none) (new_uuid : t.by_uuid n.uuid ≡ none) where
  open well use {linked}

  inserted-IsInserted :
      (parent : NodeId) (xs ys : List NodeId)
      → HasChildren t.nodes parent (xs ++ ys)
      → IsPlace t.nodes parent (last_or none xs) (head_opt ys)
      → IsInserted t.nodes
          (inserted t fresh n parent (last_or none xs) (head_opt ys)).nodes
          fresh
          parent
          (xs ++ fresh ∷ ys)
  unfolding splice
  inserted-IsInserted parent xs ys has place =
      let unlinked : parent_of (t.nodes fresh) ≡ none = ground arith in
      let ne : (fresh == parent) ≡ false = ground (arith, place.live) in
      let made : Node = node_of n (some parent) (last_or none xs) (head_opt ys) in
      record {
        here = splice-HasChildren t.nodes parent fresh made unlinked place.live ne xs ys has;
        leaf = record { chain = (ground arith, ground arith); distinct = tt };
        elsewhere = λ q ds.
            splice-HasChildren_ne t.nodes parent fresh made unlinked place.live ne _ _ place q ds;
      }

  -- On a well-formed tree, with a key and a UUID that are not in use, `append_child` succeeds for a
  -- live parent with a list of children, puts the new node behind them, gives it no children, and
  -- keeps the list of children of every other node.
  pub append_child-IsInserted :
      (parent : NodeId) (cs : List NodeId)
      → is_some (t.nodes parent) ≡ true
      → HasChildren t.nodes parent cs
      → Returns
          (λ id t'. (id ≡ fresh) × IsInserted t.nodes t'.nodes fresh parent (cs ++ fresh ∷ []))
          (append_child fresh parent n t)
  append_child-IsInserted parent cs live has =
      let (at, e) = live_node (t.nodes parent) live in
      let ends : at.last_child ≡ last_or none cs =
        rw e at (Chain-last t.nodes parent none _ cs has.chain) in
      let place : IsPlace t.nodes parent (last_or none cs) none =
        rw (Chain-last t.nodes parent none _ cs has.chain) at
          (last-IsPlace {nodes = t.nodes} linked parent live) in
      rw (append_child-inserted t fresh n unused new_uuid well parent at e, ends)
        (returns (refl, inserted-IsInserted parent cs [] (rw append-nil has) place))

  -- On a well-formed tree, with a key and a UUID that are not in use, `insert_before` succeeds for a
  -- sibling in a list of children, puts the new node directly before it, gives it no children, and
  -- keeps the list of children of every other node.
  pub insert_before-IsInserted :
      (sibling parent : NodeId) (xs ys : List NodeId)
      → HasChildren t.nodes parent (xs ++ sibling ∷ ys)
      → Returns
          (λ id t'.
            (id ≡ fresh) × IsInserted t.nodes t'.nodes fresh parent (xs ++ fresh ∷ sibling ∷ ys))
          (insert_before fresh sibling n t)
  insert_before-IsInserted sibling parent xs ys has =
      let (up, back, _) = Chain-around t.nodes parent sibling none _ xs ys has.chain in
      let (at, e) = live_node (t.nodes sibling) (ground arith) in
      let begins : at.prev_sibling ≡ last_or none xs = rw e at back in
      let place : IsPlace t.nodes parent (last_or none xs) (some sibling) =
        rw back at (IsPlace-before {nodes = t.nodes} linked sibling parent up) in
      rw
        (
          insert_before-inserted t fresh n unused new_uuid well sibling parent at e (ground arith),
          begins,
        )
        (returns (refl, inserted-IsInserted parent xs (sibling ∷ ys) has place))

  -- On a well-formed tree, with a key and a UUID that are not in use, `insert_after` succeeds for a
  -- sibling in a list of children, puts the new node directly behind it, gives it no children, and
  -- keeps the list of children of every other node.
  pub insert_after-IsInserted :
      (sibling parent : NodeId) (xs ys : List NodeId)
      → HasChildren t.nodes parent (xs ++ sibling ∷ ys)
      → Returns
          (λ id t'.
            (id ≡ fresh) × IsInserted t.nodes t'.nodes fresh parent (xs ++ sibling ∷ fresh ∷ ys))
          (insert_after fresh sibling n t)
  insert_after-IsInserted sibling parent xs ys has =
      let (up, _, ahead) = Chain-around t.nodes parent sibling none _ xs ys has.chain in
      let (at, e) = live_node (t.nodes sibling) (ground arith) in
      let ends : at.next_sibling ≡ head_opt ys = rw e at ahead in
      let regroup : (zs : List NodeId) → (xs ++ sibling ∷ []) ++ zs ≡ xs ++ sibling ∷ zs =
        λ zs. append_assoc xs (sibling ∷ []) zs in
      let place : IsPlace t.nodes parent (last_or none (xs ++ sibling ∷ [])) (head_opt ys) =
        rw (last_or-concat none xs sibling)
          (rw ahead at (IsPlace-after {nodes = t.nodes} linked sibling parent up)) in
      let result = inserted-IsInserted parent (xs ++ sibling ∷ []) ys (rw (regroup ys) has) place in
      rw
        (
          insert_after-inserted t fresh n unused new_uuid well sibling parent at e (ground arith),
          ends,
        )
        (returns
          (refl, rw (← regroup (fresh ∷ ys)) (rw (last_or-concat none xs sibling) at result)))
