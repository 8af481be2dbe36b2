-- ===== src/Tree/Iter.antt =====
-- crates/lovely-tree/src/iter.rs: the iterators over the tree, each run to its end on fuel.
pub mod Walks
pub mod Preorder
use lovely_rs.Base.{ℕ, zero, suc, ◌≡◌, refl, Option, none, some, List, [], ◌∷◌, ◌++◌, Bool}
use lovely_rs.Tree.Errors.{NodeId}
use lovely_rs.Tree.Arena.Monad.{Node, Nodes}
use lovely_rs.Tree.Arena.Links.{parent_of, first_of, next_of}

-- What a step of an iterator yields, put before what the later steps yield. `none` is exhausted
-- fuel.
abbrev pub yield_id : NodeId → Option (List NodeId) → Option (List NodeId)
yield_id id none = none
yield_id id (some ids) = some (id ∷ ids)

-- `ChildrenIter::next` until it gives `None`: its state is the handle of the next child.
unfoldable pub children_from : (fuel : ℕ) → Nodes → Option NodeId → Option (List NodeId)
children_from zero nodes next = none
children_from (suc k) nodes none = some []
children_from (suc k) nodes (some id) = elim (nodes id) [
  | none ↦ some []
  | some node ↦ yield_id id (children_from k nodes node.next_sibling)
]

-- `Tree::children`.
unfoldable pub children : (fuel : ℕ) → Nodes → NodeId → Option (List NodeId)
unfolding children_from
children fuel nodes parent = children_from fuel nodes (first_of (nodes parent))

-- `AncestorsIter`.
unfoldable pub ancestors_from : (fuel : ℕ) → Nodes → Option NodeId → Option (List NodeId)
ancestors_from zero nodes next = none
ancestors_from (suc k) nodes none = some []
ancestors_from (suc k) nodes (some id) = elim (nodes id) [
  | none ↦ some []
  | some node ↦ yield_id id (ancestors_from k nodes node.parent)
]

unfoldable pub ancestors : (fuel : ℕ) → Nodes → NodeId → Option (List NodeId)
unfolding ancestors_from
ancestors fuel nodes of = ancestors_from fuel nodes (parent_of (nodes of))

-- The loop that collects the children of a node, shared with the renderer: unlike `ChildrenIter`
-- it yields a handle before it looks the node up.
unfoldable pub collect_children : (fuel : ℕ) → Nodes → Option NodeId → Option (List NodeId)
collect_children zero nodes c = none
collect_children (suc k) nodes none = some []
collect_children (suc k) nodes (some cid) =
    yield_id cid (collect_children k nodes (next_of (nodes cid)))

-- `DescendantsIter`: the children of a node go onto the stack with the leftmost at the top, which
-- is the head. `descend` makes the steps from a stack.
abbrev push_all :
    Option (List NodeId) → List NodeId → (List NodeId → Option (List NodeId)) → Option (List NodeId)
push_all none stack k = none
push_all (some kids) stack k = k (kids ++ stack)

unfoldable pub descend : (fuel : ℕ) → Nodes → List NodeId → Option (List NodeId)
unfolding collect_children
descend zero nodes stack = none
descend (suc k) nodes [] = some []
descend (suc k) nodes (id ∷ stack) = elim (nodes id) [
  | none ↦ some []
  | some node ↦
      yield_id id (push_all (collect_children k nodes node.first_child) stack (descend k nodes))
]

unfoldable pub descendants : (fuel : ℕ) → Nodes → NodeId → Option (List NodeId)
unfolding descend
descendants fuel nodes root = elim (nodes root) [
  | none ↦ descend fuel nodes []
  | some node ↦ push_all (collect_children fuel nodes node.first_child) [] (descend fuel nodes)
]
