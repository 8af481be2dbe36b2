-- ===== src/Tree/Iter/Preorder.antt =====
-- The descendants iterator against the preorder of the forest below a node.
use Prim.Native.Nat.add
use mathlib.Core.List.{append_assoc, append-nil}
use lovely_rs.Base.{
  ℕ, suc, ◌+◌, ◌-◌, ◌<◌, ◌≤◌, ◌≡◌, refl, ap, ◌∙◌, Option, none, some, List, [], ◌∷◌, ◌++◌, arith,
  length,
}
use lovely_rs.Tree.Errors.{NodeId}
use lovely_rs.Tree.Arena.Monad.{Node, Nodes}
use lovely_rs.Tree.Forest.{Forest, nil, tree, Stands, roots, collect-roots}
use lovely_rs.Tree.Iter.{yield_id, push_all, collect_children, descend, descendants}

-- Each element before its children, and these before its siblings.
unfoldable pub preorder : Forest → List NodeId
preorder nil = []
preorder (tree id n kids sibs) = id ∷ preorder kids ++ preorder sibs

abbrev pub size : Forest → ℕ
size nil = 0
size (tree id n kids sibs) = suc (size kids + size sibs)

length-roots : (f : Forest) → length (roots f) ≤ size f
length-roots nil = omega arith
length-roots (tree id n kids sibs) = omega (arith, length-roots sibs)

-- A list in front of what the later steps yield.
abbrev prepend : List NodeId → Option (List NodeId) → Option (List NodeId)
prepend xs none = none
prepend xs (some ys) = some (xs ++ ys)

prepend-append :
    (xs ys : List NodeId) (o : Option (List NodeId))
    → prepend xs (prepend ys o) ≡ prepend (xs ++ ys) o
prepend-append xs ys none = refl
prepend-append xs ys (some zs) = simp append_assoc

yield-prepend :
    (id : NodeId) (xs : List NodeId) (o : Option (List NodeId))
    → yield_id id (prepend xs o) ≡ prepend (id ∷ xs) o
yield-prepend id xs none = refl
yield-prepend id xs (some ys) = refl

prepend-nil : (o : Option (List NodeId)) → prepend [] o ≡ o
prepend-nil none = refl
prepend-nil (some ys) = refl

module _ (nodes : Nodes) where
  descend_round :
      (m : ℕ) (id : NodeId) (n : Node) (stack : List NodeId)
      → nodes id ≡ some n
      → descend (suc m) nodes (id ∷ stack)
        ≡ yield_id id (push_all (collect_children m nodes n.first_child) stack (descend m nodes))
  unfolding descend
  descend_round m id n stack at = rw (at, descend)

  descend-preorder :
      (f : Forest) (here : Option NodeId)
      → Stands nodes here f
      → (k : ℕ) (stack : List NodeId)
      → descend (size f + suc k) nodes (roots f ++ stack)
        ≡ prepend (preorder f) (descend (suc k) nodes stack)
  unfolding preorder
  descend-preorder nil here h k stack = rw (add.zero, prepend-nil)
  descend-preorder (tree id n kids sibs) here (e, at, down, along) k stack =
      rw (regroup (size kids) (size sibs)) (
        descend_round (size kids + suc (size sibs + k)) id n (roots sibs ++ stack) at
        ∙ rw
            (collect-roots (size kids + suc (size sibs + k)) nodes n.first_child kids down
              (omega (arith, length-roots kids)))
            (rw (descend-preorder kids n.first_child down (size sibs + k) (roots sibs ++ stack)) (
              rw (shift (size sibs)) (
                rw (descend-preorder sibs n.next_sibling along k stack)
                  (rw (yield-prepend, prepend-append))))))
    where
      regroup : (a b : ℕ) → suc (a + b) + suc k ≡ suc (a + suc (b + k))
      regroup a b = omega arith

      shift : (b : ℕ) → suc (b + k) ≡ b + suc k
      shift b = omega arith

-- With more fuel than there are elements below `root`, the iterator ends, and yields them in
-- preorder, without `root`.
pub descendants-preorder :
    (fuel : ℕ) (nodes : Nodes) (root : NodeId) (n : Node) (kids : Forest)
    → nodes root ≡ some n
    → Stands nodes n.first_child kids
    → size kids < fuel
    → descendants fuel nodes root ≡ some (preorder kids)
unfolding descendants
descendants-preorder fuel nodes root n kids at down enough =
    rw (at, descendants)
      (rw (collect-roots fuel nodes n.first_child kids down (omega (arith, length-roots kids))) (
        rw (split fuel (size kids) enough) (
          descend-preorder nodes kids n.first_child down (fuel - suc (size kids)) []
          ∙ ap some (append-nil (preorder kids)))))
  where
    split : (f r : ℕ) → r < f → f ≡ r + suc (f - suc r)
    split f r h = omega arith
