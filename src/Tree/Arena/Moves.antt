-- ===== src/Tree/Arena/Moves.antt =====
-- `move_to`: its test for cycles, its errors, and a move that fails with the node taken out.
use lovely_rs.Base.{
  ◌<◌, length, [], sym, Bool-cases, ℕ, zero, suc, ◌≡◌, refl, ◌≢◌, ◌⊎◌, true, false, inl, inr,
  Option, none, some, List, ◌∷◌, ◌==◌, ◌↔◌, ==_iff, if◌then◌else◌, arith, Option-cases,
}
use lovely_rs.Tree.Errors.{NodeId, TreeError, not_found, cannot_move_root, would_cycle}
use lovely_rs.Tree.Arena.Monad.{Node, Nodes, Tree, Run, done, fail}
use lovely_rs.Tree.Arena.Ops.{Position, before, after, attach, check_cycle, move_to}
use lovely_rs.Tree.Arena.Links.{is_some, parent_of}
use lovely_rs.Tree.Arena.Insert.{IsWellFormed, live_node}
use lovely_rs.Tree.Arena.Children.{mem}
use lovely_rs.Tree.Arena.Detach.{unsplice, detach-unsplice}
use lovely_rs.Tree.Iter.{ancestors_from}

-- The node is the given one or stands below it.
pub data IsUnder (nodes : Nodes) (id : NodeId) : NodeId → Type 0 where
  here : IsUnder nodes id id
  below : (x p : NodeId) → parent_of (nodes x) ≡ some p → IsUnder nodes id p → IsUnder nodes id x

-- A list holds a node, its parent, and so on up to a node with no parent.
abbrev pub IsLineage : Nodes → Option NodeId → List NodeId → Type 0
IsLineage nodes a [] = a ≡ none
IsLineage nodes a (c ∷ chain) =
    (a ≡ some c) × (is_some (nodes c) ≡ true) × IsLineage nodes (parent_of (nodes c)) chain

ancestors_from-IsLineage :
    (fuel : ℕ) (nodes : Nodes) (a : Option NodeId) (chain : List NodeId)
    → IsLineage nodes a chain
    → length chain < fuel
    → ancestors_from fuel nodes a ≡ some chain
unfolding ancestors_from
ancestors_from-IsLineage zero nodes a chain h f = absurd (omega arith)
ancestors_from-IsLineage (suc k) nodes a [] h f = rw h refl
ancestors_from-IsLineage (suc k) nodes a (c ∷ chain) (e, live, up) f =
    let (n, at) = live_node (nodes c) live in
    let ih : ancestors_from k nodes n.parent ≡ some chain =
      ancestors_from-IsLineage k nodes n.parent chain (rw at at up) (omega arith) in
    rw e (ground (arith, at, ih))

check_cycle-IsLineage :
    (fuel : ℕ) (t : Tree) (id new_parent : NodeId) (a : Option NodeId) (chain : List NodeId)
    → IsLineage t.nodes a chain
    → length chain < fuel
    → check_cycle fuel id new_parent a t
      ≡ (if mem id chain then fail (would_cycle id new_parent) t else done tt t)
unfolding check_cycle
check_cycle-IsLineage zero t id np a chain h f = absurd (omega arith)
check_cycle-IsLineage (suc k) t id np a [] h f = rw h refl
check_cycle-IsLineage (suc k) t id np a (c ∷ chain) (e, live, up) f =
    let (n, at) = live_node (t.nodes c) live in
    let ih = check_cycle-IsLineage k t id np n.parent chain (rw at at up) (omega arith) in
    rw e (ground (arith, at, ih))

mem_top :
    (nodes : Nodes) (id : NodeId) (chain : List NodeId)
    → IsLineage nodes none chain
    → mem id chain ≢ true
mem_top nodes id [] h e = ground arith
mem_top nodes id (d ∷ chain) (h, live, up) e = cc

mem-IsUnder :
    (nodes : Nodes) (id c : NodeId) (chain : List NodeId)
    → IsLineage nodes (some c) chain
    → mem id chain ≡ true
    → IsUnder nodes id c
mem-IsUnder nodes id c [] h e = cc
mem-IsUnder nodes id c (d ∷ chain) (same, live, up) e =
    let same' : c ≡ d = ground arith in
    rw same' (elim (Bool-cases (id == d)) [
      | inl own ↦ rw ((==_iff id d).0 own) IsUnder.here
      | inr other ↦ elim (Option-cases (parent_of (nodes d))) [
        | inl nil ↦ absurd (mem_top nodes id chain (rw nil at up) (ground arith))
        | inr (p, above) ↦
            IsUnder.below d p above (mem-IsUnder nodes id p chain (rw above at up) (ground arith))
      ]
    ])

pub IsUnder-mem :
    (nodes : Nodes) (id c : NodeId) (chain : List NodeId)
    → IsUnder nodes id c
    → IsLineage nodes (some c) chain
    → mem id chain ≡ true
IsUnder-mem nodes id c [] h lineage = cc
IsUnder-mem nodes id c (d ∷ chain) IsUnder.here (same, live, up) = ground arith
IsUnder-mem nodes id c (d ∷ chain) (IsUnder.below x p above h) (same, live, up) =
    let same' : c ≡ d = ground arith in
    let ih = IsUnder-mem nodes id p chain h (rw (sym same', above) at up) in ground (arith, ih)

-- Where the list of the new parent and its ancestors ends, and there is more fuel than they are,
-- the iterator over the ancestors yields them; the test of a move fails with `WouldCycle` where the
-- new parent is the moved node or stands below it, and passes where it does not. It leaves the tree
-- as it was.
pub check_cycle-ancestors :
    (fuel : ℕ) (t : Tree) (id new_parent : NodeId) (chain : List NodeId)
    → IsLineage t.nodes (some new_parent) chain
    → length chain < fuel
    → (ancestors_from fuel t.nodes (some new_parent) ≡ some chain)
      × ((check_cycle fuel id new_parent (some new_parent) t ≡ fail (would_cycle id new_parent) t)
          ↔ IsUnder t.nodes id new_parent)
      × ((check_cycle fuel id new_parent (some new_parent) t ≡ done tt t)
          ↔ (¬ IsUnder t.nodes id new_parent))
check_cycle-ancestors fuel t id new_parent chain lineage enough =
    let run = check_cycle-IsLineage fuel t id new_parent (some new_parent) chain lineage enough in
    let inside = mem-IsUnder t.nodes id new_parent chain lineage in
    let found =
      λ (h : IsUnder t.nodes id new_parent). IsUnder-mem t.nodes id new_parent chain h lineage in
    let iterated = ancestors_from-IsLineage fuel t.nodes (some new_parent) chain lineage enough in
    elim (Bool-cases (mem id chain)) [
      | inl e ↦ (
        iterated,
        (λ h. inside e, λ h. ground (arith, run, e)),
        (λ h. absurd (ground (arith, run, e, h)), λ h. absurd (h (inside e))),
      )
      | inr e ↦ (
        iterated,
        (λ h. absurd (ground (arith, run, e, h)), λ h. absurd (ground (arith, found h, e))),
        (λ h under. ground (arith, found under, e), λ h. ground (arith, run, e)),
      )
    ]

-- A run that fails with an error and a tree of which `P` holds.
pub data Fails (P : TreeError → Tree → Type 0) : Run (Unit {0}) → Type 0 where
  fails : {e : TreeError} {t : Tree} → P e t → Fails P (fail e t)

-- The node stands in the tree with no parent, though it is not the root.
pub record IsLost (id : NodeId) (t : Tree) : Type 0 where
  pub stays : is_some (t.nodes id) ≡ true
  pub no_parent : parent_of (t.nodes id) ≡ none
  pub not_root : id ≢ t.root

pub not-IsWellFormed_of_lost : (id : NodeId) (t : Tree) → IsLost id t → ¬ IsWellFormed t
not-IsWellFormed_of_lost id t lost well = lost.not_root (well.rooted id lost.stays lost.no_parent)

module _ (fuel : ℕ) (t : Tree) (id new_parent sibling : NodeId) (well : IsWellFormed t)
    (other : id ≢ t.root) (live : is_some (t.nodes id) ≡ true)
    (live' : is_some (t.nodes new_parent) ≡ true) (chain : List NodeId)
    (lineage : IsLineage t.nodes (some new_parent) chain) (enough : length chain < fuel)
    (apart : ¬ IsUnder t.nodes id new_parent) where
  acyclic : check_cycle fuel id new_parent (some new_parent) t ≡ done tt t
  acyclic = (check_cycle-ancestors fuel t id new_parent chain lineage enough).2.1 apart

  -- The run up to the match on the position.
  move_to-attach :
      (n : Node) (position : Position)
      → t.nodes id ≡ some n
      → move_to fuel id new_parent position t
        ≡ attach position id new_parent (record t { nodes = unsplice t.nodes id n })
  unfolding move_to
  move_to-attach n position at =
      let (m, at') = live_node (t.nodes new_parent) live' in
      let (p, up) : (p : NodeId) × (n.parent ≡ some p) = elim (Option-cases n.parent) [
        | inl top ↦ absurd (other (well.rooted id live (ground arith)))
        | inr found ↦ found
      ] in
      let miss : (id == t.root) ≡ false = ground arith in
      rw (miss, at, at', acyclic) (rw (detach-unsplice t well.linked id p n at up) refl)

  abbrev taken_out : Node → Tree
  taken_out n = record t { nodes = unsplice t.nodes id n }

  taken_out-IsLost : (n : Node) → IsLost id (taken_out n)
  unfolding unsplice
  taken_out-IsLost n = record { stays = ground arith; no_parent = ground arith; not_root = other }

  abbrev Breaks : Run (Unit {0}) → Type 0
  Breaks r = Fails (λ e t'. IsLost id t' × ¬ IsWellFormed t') r

  attach-Breaks :
      (n : Node) (e : TreeError) (r : Run (Unit {0})) → r ≡ fail e (taken_out n) → Breaks r
  attach-Breaks n e r h =
      rw h
        (fails (taken_out-IsLost n, not-IsWellFormed_of_lost id (taken_out n) (taken_out-IsLost n)))

  -- On a well-formed tree, for a live node other than the root and a live new parent that neither is
  -- the node nor stands below it, whose list of ancestors ends and is shorter than the fuel: when
  -- the sibling of `Before` or `After` is no node of the tree, or is the moved node itself, the move
  -- fails with the node taken out, which is left with no parent, and the tree is not well formed.
  pub move_to-IsLost :
      (t.nodes sibling ≡ none) ⊎ (sibling ≡ id)
      → Breaks (move_to fuel id new_parent (before sibling) t)
        × Breaks (move_to fuel id new_parent (after sibling) t)
  unfolding attach unsplice
  move_to-IsLost h =
      let (n, at) = live_node (t.nodes id) live in
      rw (move_to-attach n (before sibling) at, move_to-attach n (after sibling) at)
        (elim h [
          | inl dead ↦ (
            attach-Breaks n (not_found sibling) _ (ground arith),
            attach-Breaks n (not_found sibling) _ (ground arith),
          )
          | inr same ↦ (
            attach-Breaks n cannot_move_root _ (ground arith),
            attach-Breaks n cannot_move_root _ (ground arith),
          )
        ])
