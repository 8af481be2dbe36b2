-- ===== src/Tree/Arena/Splice.antt =====
-- Splicing an unlinked node into a place keeps the links consistent.
use lovely_rs.Base.{Option-cases, inl, inr, none, ◌≢◌, ◌≡◌, true, false, Option, some, ◌==◌, arith}
use lovely_rs.Tree.Errors.{NodeId}
use lovely_rs.Tree.Arena.Monad.{Node, Nodes}
use lovely_rs.Tree.Arena.Links.{
  is_some, parent_of, first_of, last_of, prev_of, next_of, IsLinked, IsPlace, splice,
}

module _ {nodes : Nodes} {parent : NodeId} {prev next : Option NodeId} (id : NodeId) (n : Node)
    (linked : IsLinked nodes) (place : IsPlace nodes parent prev next)
    (unlinked : parent_of (nodes id) ≡ none) (keeps_first : first_of (nodes id) ≡ n.first_child)
    (keeps_last : last_of (nodes id) ≡ n.last_child) (apart : (id == parent) ≡ false) where
  abbrev after : Nodes
  after = splice nodes id n parent prev next

  splice-parent_live : (a b : NodeId) → parent_of (after a) ≡ some b → is_some (after b) ≡ true
  unfolding splice
  splice-parent_live a b h = grind (arith, linked.parent_live a b, place.live)

  splice-prev_next :
      (a b : NodeId)
      → prev_of (after a) ≡ some b
      → (next_of (after b) ≡ some a) × (parent_of (after b) ≡ parent_of (after a))
  unfolding splice
  splice-prev_next a b h = ground (
    arith,
    linked.prev_next a b,
    place.behind b,
    place.ahead a,
    linked.orphan id,
    linked.next_prev b id,
    linked.next_prev b a,
  )

  splice-next_prev :
      (a b : NodeId)
      → next_of (after a) ≡ some b
      → (prev_of (after b) ≡ some a) × (parent_of (after b) ≡ parent_of (after a))
  unfolding splice
  splice-next_prev a b h = ground (
    arith,
    linked.next_prev a b,
    place.behind a,
    place.ahead b,
    linked.orphan id,
    linked.prev_next b id,
    linked.prev_next b a,
  )

  splice-first_parent :
      (a b : NodeId)
      → first_of (after a) ≡ some b
      → (parent_of (after b) ≡ some a) × (prev_of (after b) ≡ none)
  unfolding splice
  splice-first_parent a b h =
      ground (arith, linked.first_parent a b, place.ahead b, place.at_first, place.live)

  splice-last_parent :
      (a b : NodeId)
      → last_of (after a) ≡ some b
      → (parent_of (after b) ≡ some a) × (next_of (after b) ≡ none)
  unfolding splice
  splice-last_parent a b h =
      ground (arith, linked.last_parent a b, place.behind b, place.at_last, place.live)

  splice-parent_first :
      (a b : NodeId)
      → parent_of (after a) ≡ some b
      → prev_of (after a) ≡ none
      → first_of (after b) ≡ some a
  unfolding splice
  splice-parent_first a b h k =
      ground (arith, linked.parent_first a b, place.ahead a, place.at_first, place.live)

  splice-parent_last :
      (a b : NodeId)
      → parent_of (after a) ≡ some b
      → next_of (after a) ≡ none
      → last_of (after b) ≡ some a
  unfolding splice
  splice-parent_last a b h k =
      ground (arith, linked.parent_last a b, place.behind a, place.at_last, place.live)

  splice-orphan :
      (a : NodeId)
      → parent_of (after a) ≡ none
      → (prev_of (after a) ≡ none) × (next_of (after a) ≡ none)
  unfolding splice
  splice-orphan a h = ground (arith, linked.orphan a, place.behind a, place.ahead a)

  splice-not_own : (a : NodeId) → parent_of (after a) ≢ some a
  unfolding splice
  splice-not_own a h = ground (arith, linked.not_own a)

  splice-not_next : (a : NodeId) → next_of (after a) ≢ some a
  unfolding splice
  splice-not_next a h = ground (arith, linked.not_next a, place.ahead a, linked.orphan id)

  splice-has_first : (a b : NodeId) → parent_of (after a) ≡ some b → first_of (after b) ≢ none
  unfolding splice
  splice-has_first a b h k = elim (Option-cases prev) [
    | inl nil ↦ ground (arith, linked.has_first a b, place.live)
    | inr (p, found) ↦
        ground
          (arith, linked.has_first a b, place.live, place.behind p found, linked.has_first p parent)
  ]

  splice-has_last : (a b : NodeId) → parent_of (after a) ≡ some b → last_of (after b) ≢ none
  unfolding splice
  splice-has_last a b h k = elim (Option-cases next) [
    | inl nil ↦ ground (arith, linked.has_last a b, place.live)
    | inr (p, found) ↦
        ground
          (arith, linked.has_last a b, place.live, place.ahead p found, linked.has_last p parent)
  ]

  pub splice-IsLinked : IsLinked (splice nodes id n parent prev next)
  splice-IsLinked = record {
    parent_live = splice-parent_live;
    prev_next = splice-prev_next;
    next_prev = splice-next_prev;
    first_parent = splice-first_parent;
    last_parent = splice-last_parent;
    parent_first = splice-parent_first;
    parent_last = splice-parent_last;
    not_next = splice-not_next;
    has_first = splice-has_first;
    has_last = splice-has_last;
    not_own = splice-not_own;
    orphan = splice-orphan;
  }
