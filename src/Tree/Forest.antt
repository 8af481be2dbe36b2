-- ===== src/Tree/Forest.antt =====
-- The elements below a link, as a forest.
use lovely_rs.Base.{ℕ, zero, suc, ◌<◌, ◌≡◌, Option, none, some, List, [], ◌∷◌, arith, length}
use lovely_rs.Tree.Errors.{NodeId}
use lovely_rs.Tree.Arena.Monad.{Node, Nodes}
use lovely_rs.Tree.Iter.{collect_children}

-- A node with its children, then its later siblings.
pub data Forest : Type 0 where
  nil : Forest
  tree : NodeId → Node → (children siblings : Forest) → Forest

-- The links from `here` on stand for the forest.
abbrev pub Stands : Nodes → Option NodeId → Forest → Type 0
Stands nodes here nil = here ≡ none
Stands nodes here (tree id n kids sibs) =
    (here ≡ some id)
    × (nodes id ≡ some n)
    × Stands nodes n.first_child kids
    × Stands nodes n.next_sibling sibs

abbrev pub roots : Forest → List NodeId
roots nil = []
roots (tree id n kids sibs) = id ∷ roots sibs

-- The loop that collects children finds the roots.
pub collect-roots :
    (fuel : ℕ) (nodes : Nodes) (here : Option NodeId) (f : Forest)
    → Stands nodes here f
    → length (roots f) < fuel
    → collect_children fuel nodes here ≡ some (roots f)
unfolding collect_children
collect-roots zero nodes here f h l = absurd (omega arith)
collect-roots (suc k) nodes here nil h l = rw h
collect-roots (suc k) nodes here (tree id n kids sibs) (e, at, down, along) l =
    ground (arith, collect-roots k nodes n.next_sibling sibs along (omega arith))
