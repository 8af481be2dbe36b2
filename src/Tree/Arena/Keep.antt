-- ===== src/Tree/Arena/Keep.antt =====
-- The insertions keep a tree well formed; what they return where a test fails.
use lovely_rs.Base.{◌≡◌, refl, true, inl, inr, Option, none, some, arith, Option-cases}
use lovely_rs.Tree.Errors.{Uuid, NodeId, not_found, duplicate_uuid, cannot_move_root}
use lovely_rs.Tree.Arena.Monad.{Node, Nodes, Tree, Run, done, fail}
use lovely_rs.Tree.Arena.Ops.{NewNode, node_of, append_child, insert_before, insert_after}
use lovely_rs.Tree.Arena.Links.{
  is_some, parent_of, first_of, last_of, prev_of, next_of, uuid_of, IsLinked, IsPlace, splice,
}
use lovely_rs.Tree.Arena.Splice.{splice-IsLinked}
use lovely_rs.Tree.Arena.Insert.{
  live_node, IsWellFormed, inserted, append_child-inserted, insert_before-inserted,
  insert_after-inserted,
}

-- A run that succeeds with a result and a tree of which `P` holds.
pub data Returns {A : Type 0} (P : A → Tree → Type 0) : Run A → Type 0 where
  returns : {a : A} {t : Tree} → P a t → Returns P (done a t)

module _ {nodes : Nodes} (linked : IsLinked nodes) where
  pub last-IsPlace :
      (parent : NodeId)
      → is_some (nodes parent) ≡ true
      → IsPlace nodes parent (last_of (nodes parent)) none
  last-IsPlace parent live = record {
    live = live;
    at_first = λ e. elim (Option-cases (first_of (nodes parent))) [
      | inl nil ↦ nil
      | inr (c, first) ↦ absurd (linked.has_last c parent (linked.first_parent parent c first).0 e)
    ];
    at_last = λ _. refl;
    behind = λ p e. ground (arith, linked.last_parent parent p);
    ahead = λ n e. cc;
  }

  pub IsPlace-before :
      (sibling parent : NodeId)
      → parent_of (nodes sibling) ≡ some parent
      → IsPlace nodes parent (prev_of (nodes sibling)) (some sibling)
  IsPlace-before sibling parent up = record {
    live = linked.parent_live sibling parent up;
    at_first = linked.parent_first sibling parent up;
    at_last = λ e. cc;
    behind = λ p e. ground (arith, linked.prev_next sibling p);
    ahead = λ n e. ground arith;
  }

  pub IsPlace-after :
      (sibling parent : NodeId)
      → parent_of (nodes sibling) ≡ some parent
      → IsPlace nodes parent (some sibling) (next_of (nodes sibling))
  IsPlace-after sibling parent up = record {
    live = linked.parent_live sibling parent up;
    at_first = λ e. cc;
    at_last = linked.parent_last sibling parent up;
    behind = λ p e. ground arith;
    ahead = λ n e. ground (arith, linked.next_prev sibling n);
  }

module _ (t : Tree) (fresh : NodeId) (n : NewNode) (well : IsWellFormed t)
    (unused : t.nodes fresh ≡ none) (new_uuid : t.by_uuid n.uuid ≡ none) where
  open well use {linked, indexed, named, root_live, root_top, rooted}

  module _ (parent : NodeId) (prev next : Option NodeId)
      (place : IsPlace t.nodes parent prev next) where
    abbrev t' : Tree
    t' = inserted t fresh n parent prev next

    inserted-indexed :
        (u : Uuid) (a : NodeId) → t'.by_uuid u ≡ some a → uuid_of (t'.nodes a) ≡ some u
    unfolding splice
    inserted-indexed u a h = ground (arith, indexed u a)

    inserted-named : (a : NodeId) (u : Uuid) → uuid_of (t'.nodes a) ≡ some u → t'.by_uuid u ≡ some a
    unfolding splice
    inserted-named a u h = ground (arith, named a u)

    inserted-root : (is_some (t'.nodes t.root) ≡ true) × (parent_of (t'.nodes t.root) ≡ none)
    unfolding splice
    inserted-root = ground (arith, root_live, root_top)

    inserted-rooted :
        (a : NodeId) → is_some (t'.nodes a) ≡ true → parent_of (t'.nodes a) ≡ none → a ≡ t.root
    unfolding splice
    inserted-rooted a h k = ground (arith, rooted a)

    pub inserted-IsWellFormed : IsWellFormed (inserted t fresh n parent prev next)
    inserted-IsWellFormed = record {
      linked =
          splice-IsLinked fresh (node_of n (some parent) prev next) linked place (ground arith)
            (ground arith) (ground arith) (ground (arith, place.live));
      indexed = inserted-indexed;
      named = inserted-named;
      root_live = inserted-root.0;
      root_top = inserted-root.1;
      rooted = inserted-rooted;
    }

  -- On a well-formed tree, with a key and a UUID that are not in use, appending a new node to a live
  -- parent succeeds, gives the key, and keeps the tree well formed.
  pub append_child-IsWellFormed :
      (parent : NodeId)
      → is_some (t.nodes parent) ≡ true
      → Returns (λ id t'. (id ≡ fresh) × IsWellFormed t') (append_child fresh parent n t)
  append_child-IsWellFormed parent live =
      let (at, e) = live_node (t.nodes parent) live in
      let place : IsPlace t.nodes parent at.last_child none =
        rw e at (last-IsPlace {nodes = t.nodes} linked parent live) in
      rw (append_child-inserted t fresh n unused new_uuid well parent at e)
        (returns (refl, inserted-IsWellFormed parent at.last_child none place))

  -- On a well-formed tree, with a key and a UUID that are not in use, inserting a new node before a
  -- node that has a parent succeeds, gives the key, and keeps the tree well formed.
  pub insert_before-IsWellFormed :
      (sibling parent : NodeId)
      → parent_of (t.nodes sibling) ≡ some parent
      → Returns (λ id t'. (id ≡ fresh) × IsWellFormed t') (insert_before fresh sibling n t)
  insert_before-IsWellFormed sibling parent up =
      let (at, e) = live_node (t.nodes sibling) (ground arith) in
      let place : IsPlace t.nodes parent at.prev_sibling (some sibling) =
        rw e at (IsPlace-before {nodes = t.nodes} linked sibling parent up) in
      rw (insert_before-inserted t fresh n unused new_uuid well sibling parent at e (ground arith))
        (returns (refl, inserted-IsWellFormed parent at.prev_sibling (some sibling) place))

  -- On a well-formed tree, with a key and a UUID that are not in use, inserting a new node after a
  -- node that has a parent succeeds, gives the key, and keeps the tree well formed.
  pub insert_after-IsWellFormed :
      (sibling parent : NodeId)
      → parent_of (t.nodes sibling) ≡ some parent
      → Returns (λ id t'. (id ≡ fresh) × IsWellFormed t') (insert_after fresh sibling n t)
  insert_after-IsWellFormed sibling parent up =
      let (at, e) = live_node (t.nodes sibling) (ground arith) in
      let place : IsPlace t.nodes parent (some sibling) at.next_sibling =
        rw e at (IsPlace-after {nodes = t.nodes} linked sibling parent up) in
      rw (insert_after-inserted t fresh n unused new_uuid well sibling parent at e (ground arith))
        (returns (refl, inserted-IsWellFormed parent (some sibling) at.next_sibling place))

-- The insertions fail with the tree as it was: with `NotFound` where the target is no node, with
-- `CannotMoveRoot` where a sibling has no parent, and else with `DuplicateUuid` where the UUID is
-- taken.
pub insert_errors :
    (t : Tree) (fresh target : NodeId) (n : NewNode)
    → (t.nodes target ≡ none
        → (append_child fresh target n t ≡ fail (not_found target) t)
          × (insert_before fresh target n t ≡ fail (not_found target) t)
          × (insert_after fresh target n t ≡ fail (not_found target) t))
      × ((at : Node)
          → t.nodes target ≡ some at
          → at.parent ≡ none
          → (insert_before fresh target n t ≡ fail cannot_move_root t)
            × (insert_after fresh target n t ≡ fail cannot_move_root t))
      × ((at : Node) (p a : NodeId)
          → t.nodes target ≡ some at
          → t.by_uuid n.uuid ≡ some a
          → (append_child fresh target n t ≡ fail (duplicate_uuid n.uuid) t)
            × (at.parent ≡ some p
                → (insert_before fresh target n t ≡ fail (duplicate_uuid n.uuid) t)
                  × (insert_after fresh target n t ≡ fail (duplicate_uuid n.uuid) t)))
unfolding append_child insert_before insert_after
insert_errors t fresh target n = (
  λ e. (ground arith, ground arith, ground arith),
  λ at e k. (ground arith, ground arith),
  λ at p a e k. (ground arith, λ u. (ground arith, ground arith)),
)
