-- ===== src/Tree/Iter/Walks.antt =====
-- The iterators against the lists that the links stand for.
use lovely_rs.Base.{ℕ, zero, suc, ◌<◌, ◌≡◌, Option, none, some, List, [], ◌∷◌, arith, length}
use lovely_rs.Tree.Errors.{NodeId}
use lovely_rs.Tree.Arena.Monad.{Nodes}
use lovely_rs.Tree.Arena.Links.{first_of, next_of}
use lovely_rs.Tree.Arena.Children.{Chain, HasChildren}
use lovely_rs.Tree.Iter.{children_from, children, collect_children}

children_from-Chain :
    (fuel : ℕ) (nodes : Nodes) (p : NodeId) (prev here : Option NodeId) (cs : List NodeId)
    → Chain nodes p prev here cs
    → length cs < fuel
    → children_from fuel nodes here ≡ some cs
unfolding children_from
children_from-Chain zero nodes p prev here cs h f = absurd (omega arith)
children_from-Chain (suc k) nodes p prev here [] (e, _) f = rw e
children_from-Chain (suc k) nodes p prev here (c ∷ cs) (e, up, back, rest) f =
    ground (arith, children_from-Chain k nodes p (some c) (next_of (nodes c)) cs rest (omega arith))

collect_children-Chain :
    (fuel : ℕ) (nodes : Nodes) (p : NodeId) (prev here : Option NodeId) (cs : List NodeId)
    → Chain nodes p prev here cs
    → length cs < fuel
    → collect_children fuel nodes here ≡ some cs
unfolding collect_children
collect_children-Chain zero nodes p prev here cs h f = absurd (omega arith)
collect_children-Chain (suc k) nodes p prev here [] (e, _) f = rw e
collect_children-Chain (suc k) nodes p prev here (c ∷ cs) (e, up, back, rest) f =
    ground
      (arith, collect_children-Chain k nodes p (some c) (next_of (nodes c)) cs rest (omega arith))

-- With more fuel than children, the iterator ends and yields the children of a node in order; so
-- does the loop of the renderer and of `DescendantsIter`.
pub children-HasChildren :
    (fuel : ℕ) (nodes : Nodes) (p : NodeId) (cs : List NodeId)
    → HasChildren nodes p cs
    → length cs < fuel
    → (children fuel nodes p ≡ some cs)
      × (collect_children fuel nodes (first_of (nodes p)) ≡ some cs)
unfolding children
children-HasChildren fuel nodes p cs has f = (
  children_from-Chain fuel nodes p none _ cs has.chain f,
  collect_children-Chain fuel nodes p none _ cs has.chain f,
)
