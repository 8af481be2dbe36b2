-- ===== src/Tree/Arena/Links.antt =====
-- The links of a node, the invariant of `check_invariants`, and the splicing of a node into a list
-- of siblings.
use lovely_rs.Base.{
  ◌≢◌, ◌≡◌, Bool, true, false, ◌&&◌, Option, none, some, ◌==◌, eq_opt, if◌then◌else◌,
}
use lovely_rs.Tree.Errors.{Uuid, NodeId}
use lovely_rs.Tree.Arena.Monad.{Node, Nodes}

abbrev pub is_some {ℓ} : {A : Type ℓ} → Option A → Bool
is_some none = false
is_some (some a) = true

abbrev pub is_none {ℓ} : {A : Type ℓ} → Option A → Bool
is_none none = true
is_none (some a) = false

abbrev pub parent_of : Option Node → Option NodeId
parent_of none = none
parent_of (some n) = n.parent

abbrev pub first_of : Option Node → Option NodeId
first_of none = none
first_of (some n) = n.first_child

abbrev pub last_of : Option Node → Option NodeId
last_of none = none
last_of (some n) = n.last_child

abbrev pub prev_of : Option Node → Option NodeId
prev_of none = none
prev_of (some n) = n.prev_sibling

abbrev pub next_of : Option Node → Option NodeId
next_of none = none
next_of (some n) = n.next_sibling

abbrev pub uuid_of : Option Node → Option Uuid
uuid_of none = none
uuid_of (some n) = some n.uuid

-- The links are reciprocal, and the ends of each list of children are marked in the parent.
pub record IsLinked (nodes : Nodes) : Type 0 where
  pub parent_live : (a b : NodeId) → parent_of (nodes a) ≡ some b → is_some (nodes b) ≡ true
  pub prev_next :
      (a b : NodeId)
      → prev_of (nodes a) ≡ some b
      → (next_of (nodes b) ≡ some a) × (parent_of (nodes b) ≡ parent_of (nodes a))
  pub next_prev :
      (a b : NodeId)
      → next_of (nodes a) ≡ some b
      → (prev_of (nodes b) ≡ some a) × (parent_of (nodes b) ≡ parent_of (nodes a))
  pub first_parent :
      (a b : NodeId)
      → first_of (nodes a) ≡ some b
      → (parent_of (nodes b) ≡ some a) × (prev_of (nodes b) ≡ none)
  pub last_parent :
      (a b : NodeId)
      → last_of (nodes a) ≡ some b
      → (parent_of (nodes b) ≡ some a) × (next_of (nodes b) ≡ none)
  pub parent_first :
      (a b : NodeId)
      → parent_of (nodes a) ≡ some b
      → prev_of (nodes a) ≡ none
      → first_of (nodes b) ≡ some a
  pub parent_last :
      (a b : NodeId)
      → parent_of (nodes a) ≡ some b
      → next_of (nodes a) ≡ none
      → last_of (nodes b) ≡ some a
  pub has_first : (a b : NodeId) → parent_of (nodes a) ≡ some b → first_of (nodes b) ≢ none
  pub has_last : (a b : NodeId) → parent_of (nodes a) ≡ some b → last_of (nodes b) ≢ none
  pub not_next : (a : NodeId) → next_of (nodes a) ≢ some a
  pub not_own : (a : NodeId) → parent_of (nodes a) ≢ some a
  pub orphan :
      (a : NodeId)
      → parent_of (nodes a) ≡ none
      → (prev_of (nodes a) ≡ none) × (next_of (nodes a) ≡ none)

-- A place among the children of `parent`: between the neighbours `prev` and `next`, of which either
-- may be missing.
pub record IsPlace (nodes : Nodes) (parent : NodeId) (prev next : Option NodeId) : Type 0 where
  pub live : is_some (nodes parent) ≡ true
  pub at_first : prev ≡ none → first_of (nodes parent) ≡ next
  pub at_last : next ≡ none → last_of (nodes parent) ≡ prev
  pub behind :
      (p : NodeId)
      → prev ≡ some p
      → (parent_of (nodes p) ≡ some parent) × (next_of (nodes p) ≡ next)
  pub ahead :
      (n : NodeId)
      → next ≡ some n
      → (parent_of (nodes n) ≡ some parent) × (prev_of (nodes n) ≡ prev)

-- What the insertion of `id` between `prev` and `next` does to the node at `x`.
abbrev pub relink : (parent : NodeId) → (prev next : Option NodeId) → (id x : NodeId) → Node → Node
relink parent prev next id x m = record m {
  next_sibling = if eq_opt prev (some x) then some id else m.next_sibling;
  prev_sibling = if eq_opt next (some x) then some id else m.prev_sibling;
  first_child = if x == parent && is_none prev then some id else m.first_child;
  last_child = if x == parent && is_none next then some id else m.last_child;
}

abbrev pub map_node : (Node → Node) → Option Node → Option Node
map_node f none = none
map_node f (some n) = some (f n)

-- The node with the place written into it.
abbrev pub placed : (parent : NodeId) → (prev next : Option NodeId) → Node → Node
placed parent prev next n = record n {
  parent = some parent;
  prev_sibling = prev;
  next_sibling = next;
}

unfoldable pub splice :
    Nodes → (id : NodeId) → Node → (parent : NodeId) → (prev next : Option NodeId) → Nodes
splice nodes id n parent prev next x =
    if x == id
    then some (placed parent prev next n)
    else map_node (relink parent prev next id x) (nodes x)
