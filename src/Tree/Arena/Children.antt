-- ===== src/Tree/Arena/Children.antt =====
-- The list of children that the links of a node stand for, and the splice as an insertion into it.
use lovely_rs.Base.{
  ◌≡◌, refl, sym, ◌∙◌, ◌≢◌, ◌||◌, Bool, true, false, Option, none, some, List, [], ◌∷◌, ◌++◌, ◌==◌,
  arith,
}
use lovely_rs.Tree.Errors.{NodeId}
use lovely_rs.Tree.Arena.Monad.{Node, Nodes}
use lovely_rs.Tree.Arena.Links.{is_some, parent_of, first_of, last_of, prev_of, next_of, splice}

abbrev pub mem : NodeId → List NodeId → Bool
mem x [] = false
mem x (y ∷ ys) = x == y || mem x ys

abbrev pub mem_opt : Option NodeId → List NodeId → Bool
mem_opt none ys = false
mem_opt (some x) ys = mem x ys

abbrev pub Distinct : List NodeId → Type 0
Distinct [] = Unit {0}
Distinct (x ∷ xs) = (mem x xs ≡ false) × Distinct xs

abbrev pub head_opt : List NodeId → Option NodeId
head_opt [] = none
head_opt (x ∷ xs) = some x

abbrev pub last_or : Option NodeId → List NodeId → Option NodeId
last_or d [] = d
last_or d (x ∷ xs) = last_or (some x) xs

-- From `here` the `next_sibling` links lead through the children `cs` of `p` to its last child; the
-- `prev_sibling` links lead back, to `prev` at the start.
abbrev pub Chain : Nodes → NodeId → (prev here : Option NodeId) → List NodeId → Type 0
Chain nodes p prev here [] = (here ≡ none) × (last_of (nodes p) ≡ prev)
Chain nodes p prev here (c ∷ cs) =
    (here ≡ some c)
    × (parent_of (nodes c) ≡ some p)
    × (prev_of (nodes c) ≡ prev)
    × Chain nodes p (some c) (next_of (nodes c)) cs

-- The children of `p`, in order.
pub record HasChildren (nodes : Nodes) (p : NodeId) (cs : List NodeId) : Type 0 where
  pub chain : Chain nodes p none (first_of (nodes p)) cs
  pub distinct : Distinct cs

pub mem-append : (x : NodeId) (xs ys : List NodeId) → mem x (xs ++ ys) ≡ (mem x xs || mem x ys)
mem-append x [] ys = refl
mem-append x (y ∷ xs) ys = ground (arith, mem-append x xs ys)

last_or-ne :
    (x : NodeId) (d : Option NodeId) (xs : List NodeId)
    → d ≢ some x
    → mem x xs ≡ false
    → last_or d xs ≢ some x
last_or-ne x d [] h k = h
last_or-ne x d (y ∷ xs) h k = last_or-ne x (some y) xs (ground arith) (ground arith)

head_opt-ne : (x : NodeId) (xs ys : List NodeId) → mem x (xs ++ ys) ≡ false → head_opt ys ≢ some x
head_opt-ne x xs [] h = cc
head_opt-ne x xs (y ∷ ys) h = ground (arith, mem-append x xs (y ∷ ys))

-- Where the siblings around a member of the chain stand.
pub Chain-around :
    (nodes : Nodes) (p s : NodeId) (prev here : Option NodeId) (xs ys : List NodeId)
    → Chain nodes p prev here (xs ++ s ∷ ys)
    → (parent_of (nodes s) ≡ some p)
      × (prev_of (nodes s) ≡ last_or prev xs)
      × (next_of (nodes s) ≡ head_opt ys)
Chain-around nodes p s prev here [] [] (e, up, back, rest) = (up, back, rest.0)
Chain-around nodes p s prev here [] (y ∷ ys) (e, up, back, rest) = (up, back, rest.0)
Chain-around nodes p s prev here (x ∷ xs) ys (e, up, back, rest) =
    Chain-around nodes p s (some x) (next_of (nodes x)) xs ys rest

-- The last child that the chain ends with.
pub Chain-last :
    (nodes : Nodes) (p : NodeId) (prev here : Option NodeId) (xs : List NodeId)
    → Chain nodes p prev here xs
    → last_of (nodes p) ≡ last_or prev xs
Chain-last nodes p prev here [] h = h.1
Chain-last nodes p prev here (x ∷ xs) (e, up, back, rest) =
    Chain-last nodes p (some x) (next_of (nodes x)) xs rest

Chain-head :
    (nodes : Nodes) (p : NodeId) (prev here : Option NodeId) (xs : List NodeId)
    → Chain nodes p prev here xs
    → here ≡ head_opt xs
Chain-head nodes p prev here [] h = h.0
Chain-head nodes p prev here (x ∷ xs) h = h.0

-- A node that is in no place is in no chain.
pub Chain-mem :
    (nodes : Nodes) (p id : NodeId) (prev here : Option NodeId) (xs : List NodeId)
    → Chain nodes p prev here xs
    → parent_of (nodes id) ≢ some p
    → mem id xs ≡ false
Chain-mem nodes p id prev here [] h k = refl
Chain-mem nodes p id prev here (x ∷ xs) (e, up, back, rest) k =
    ground (arith, Chain-mem nodes p id (some x) (next_of (nodes x)) xs rest k)

-- Where the walk goes on once the new node stands behind `xs`.
abbrev pub start : NodeId → List NodeId → Option NodeId → Option NodeId
start id [] here = some id
start id (x ∷ xs) here = here

module _ (nodes : Nodes) (parent : NodeId) (prev next : Option NodeId) (id : NodeId) (n : Node)
    (unlinked : parent_of (nodes id) ≡ none) where
  abbrev pub after : Nodes
  after = splice nodes id n parent prev next

  -- A stretch of a chain that holds neither neighbour stays as it is.
  pub Chain-apart :
      (q : NodeId) (pr here : Option NodeId) (cs : List NodeId)
      → Chain nodes q pr here cs
      → mem_opt prev cs ≡ false
      → mem_opt next cs ≡ false
      → last_of (after q) ≡ last_of (nodes q)
      → Chain after q pr here cs
  unfolding splice
  Chain-apart q pr here [] (e, end) np nn same = (e, same ∙ end)
  Chain-apart q pr here (c ∷ cs) (e, up, back, rest) np nn same =
      let goes : next_of (after c) ≡ next_of (nodes c) = ground arith in
      (
        e,
        ground arith,
        ground arith,
        rw goes
            (Chain-apart q (some c) (next_of (nodes c)) cs rest (ground arith) (ground arith) same),
      )

  -- The part of the chain behind the new node.
  Chain-behind :
      (here : Option NodeId) (pr : Option NodeId) (bs : List NodeId)
      → Chain nodes parent pr here bs
      → head_opt bs ≡ next
      → mem_opt prev bs ≡ false
      → Distinct bs
      → is_some (nodes parent) ≡ true
      → (id == parent) ≡ false
      → Chain after parent (some id) here bs
  unfolding splice
  Chain-behind here pr [] (e, end) h np d live ne = (e, ground arith)
  Chain-behind here pr (b ∷ bs) (e, up, back, rest) h np d live ne =
      let goes : next_of (after b) ≡ next_of (nodes b) = ground arith in
      (
        e,
        ground arith,
        ground arith,
        rw goes (
            Chain-apart parent (some b) (next_of (nodes b)) bs rest (ground arith) (rw (← h) d.0)
              (ground arith)),
      )

  next-start :
      (x : NodeId) (pr : Option NodeId) (xs ys : List NodeId)
      → prev ≡ last_or pr (x ∷ xs)
      → parent_of (nodes x) ≡ some parent
      → mem x (xs ++ ys) ≡ false
      → next_of (after x) ≡ start id xs (next_of (nodes x))
  unfolding splice
  next-start x pr [] ys hp up out = ground arith
  next-start x pr (y ∷ xs) ys hp up out =
      let other : last_or (some y) xs ≢ some x =
        last_or-ne x (some y) xs (ground arith) (ground (arith, mem-append x xs ys)) in
      ground arith

  -- The whole chain: the new node stands behind `xs`.
  pub Chain-splice :
      (pr here : Option NodeId) (xs ys : List NodeId)
      → Chain nodes parent pr here (xs ++ ys)
      → prev ≡ last_or pr xs
      → next ≡ head_opt ys
      → Distinct (xs ++ ys)
      → mem_opt pr (xs ++ ys) ≡ false
      → is_some (nodes parent) ≡ true
      → (id == parent) ≡ false
      → Chain after parent pr (start id xs here) (xs ++ id ∷ ys)
  unfolding splice
  Chain-splice pr here [] ys chain hp hn d np live ne =
      let goes : next_of (after id) ≡ next = ground arith in
      let begins : here ≡ next = Chain-head nodes parent pr here ys chain ∙ sym hn in
      (
        refl,
        ground arith,
        ground arith,
        rw goes (rw begins at (Chain-behind here pr ys chain (sym hn) (rw hp np) d live ne)),
      )
  Chain-splice pr here (x ∷ xs) ys (e, up, back, rest) hp hn d np live ne =
      let goes : next_of (after x) ≡ start id xs (next_of (nodes x)) =
        next-start x pr xs ys hp up d.0 in
      (
        e,
        ground arith,
        ground (arith, head_opt-ne x xs ys),
        rw goes (Chain-splice (some x) (next_of (nodes x)) xs ys rest hp hn d.1 d.0 live ne),
      )
