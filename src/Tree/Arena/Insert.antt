-- ===== src/Tree/Arena/Insert.antt =====
-- The three insertions put a new node into a place, and never panic on a well-formed tree.
use mathlib.Core.Path.{fun_ext}
use lovely_rs.Base.{
  ◌≡◌, refl, ap, ◌∙◌, ◌≢◌, true, inl, inr, Option, none, some, arith, Option-cases,
}
use lovely_rs.Tree.Errors.{Uuid, NodeId}
use lovely_rs.Tree.Arena.Monad.{Node, Nodes, Tree, write, Run, done}
use lovely_rs.Tree.Arena.Ops.{NewNode, node_of, append_child, insert_before, insert_after}
use lovely_rs.Tree.Arena.Links.{is_some, parent_of, uuid_of, IsLinked, splice}

-- The links, the index by UUID, and the root, the one node with no parent.
pub record IsWellFormed (t : Tree) : Type 0 where
  pub linked : IsLinked t.nodes
  pub indexed : (u : Uuid) (a : NodeId) → t.by_uuid u ≡ some a → uuid_of (t.nodes a) ≡ some u
  pub named : (a : NodeId) (u : Uuid) → uuid_of (t.nodes a) ≡ some u → t.by_uuid u ≡ some a
  pub root_live : is_some (t.nodes t.root) ≡ true
  pub root_top : parent_of (t.nodes t.root) ≡ none
  pub rooted : (a : NodeId) → is_some (t.nodes a) ≡ true → parent_of (t.nodes a) ≡ none → a ≡ t.root

-- The tree with a new node spliced into a place.
abbrev pub inserted :
    Tree → (fresh : NodeId) → NewNode → (parent : NodeId) → (prev next : Option NodeId) → Tree
inserted t fresh n parent prev next = record t {
  nodes = splice t.nodes fresh (node_of n (some parent) prev next) parent prev next;
  by_uuid = write t.by_uuid n.uuid (some fresh);
}

abbrev with_nodes : Tree → NodeId → NewNode → Nodes → Run NodeId
with_nodes t fresh n f =
    done fresh (record t { nodes = f; by_uuid = write t.by_uuid n.uuid (some fresh) })

-- Two results with equal nodes are equal.
with_nodes-eq :
    (t : Tree) (fresh : NodeId) (n : NewNode) (f g : Nodes)
    → ((x : NodeId) → f x ≡ g x)
    → with_nodes t fresh n f ≡ with_nodes t fresh n g
with_nodes-eq t fresh n f g h = ap (with_nodes t fresh n) (fun_ext h)

pub live_node : (o : Option Node) → is_some o ≡ true → (m : Node) × (o ≡ some m)
live_node none h = cc
live_node (some m) h = (m, refl)

module _ (t : Tree) (fresh : NodeId) (n : NewNode) (unused : t.nodes fresh ≡ none)
    (new_uuid : t.by_uuid n.uuid ≡ none) where
  append_child-some :
      (parent l : NodeId) (at m : Node)
      → t.nodes parent ≡ some at
      → t.nodes l ≡ some m
      → at.last_child ≡ some l
      → l ≢ parent
      → append_child fresh parent n t ≡ done fresh (inserted t fresh n parent (some l) none)
  unfolding append_child splice
  append_child-some parent l at m live live' last apart =
      let written : Nodes =
        write
          (write (write t.nodes fresh (some (node_of n (some parent) (some l) none))) l
            (some (record m { next_sibling = some fresh })))
          parent (some (record at { last_child = some fresh })) in
      let run : append_child fresh parent n t ≡ with_nodes t fresh n written = ground arith in
      run ∙ with_nodes-eq t fresh n written _ (λ x. ground arith)

  append_child-none :
      (parent : NodeId) (at : Node)
      → t.nodes parent ≡ some at
      → at.last_child ≡ none
      → append_child fresh parent n t ≡ done fresh (inserted t fresh n parent none none)
  unfolding append_child splice
  append_child-none parent at live last =
      let written : Nodes =
        write (write t.nodes fresh (some (node_of n (some parent) none none))) parent
          (some (record at { first_child = some fresh; last_child = some fresh })) in
      let run : append_child fresh parent n t ≡ with_nodes t fresh n written = ground arith in
      run ∙ with_nodes-eq t fresh n written _ (λ x. ground arith)

  insert_before-some :
      (sibling parent q : NodeId) (at m : Node)
      → t.nodes sibling ≡ some at
      → at.parent ≡ some parent
      → at.prev_sibling ≡ some q
      → t.nodes q ≡ some m
      → q ≢ sibling
      → q ≢ parent
      → sibling ≢ parent
      → insert_before fresh sibling n t
        ≡ done fresh (inserted t fresh n parent (some q) (some sibling))
  unfolding insert_before splice
  insert_before-some sibling parent q at m live up prev live' apart apart' apart'' =
      let written : Nodes =
        write
          (write (write t.nodes fresh (some (node_of n (some parent) (some q) (some sibling)))) q
            (some (record m { next_sibling = some fresh })))
          sibling (some (record at { prev_sibling = some fresh })) in
      let run : insert_before fresh sibling n t ≡ with_nodes t fresh n written = ground arith in
      run ∙ with_nodes-eq t fresh n written _ (λ x. ground arith)

  insert_before-none :
      (sibling parent : NodeId) (at m : Node)
      → t.nodes sibling ≡ some at
      → at.parent ≡ some parent
      → at.prev_sibling ≡ none
      → t.nodes parent ≡ some m
      → sibling ≢ parent
      → insert_before fresh sibling n t ≡ done fresh (inserted t fresh n parent none (some sibling))
  unfolding insert_before splice
  insert_before-none sibling parent at m live up prev live' apart =
      let written : Nodes =
        write
          (write (write t.nodes fresh (some (node_of n (some parent) none (some sibling)))) parent
            (some (record m { first_child = some fresh })))
          sibling (some (record at { prev_sibling = some fresh })) in
      let run : insert_before fresh sibling n t ≡ with_nodes t fresh n written = ground arith in
      run ∙ with_nodes-eq t fresh n written _ (λ x. ground arith)

  insert_after-some :
      (sibling parent q : NodeId) (at m : Node)
      → t.nodes sibling ≡ some at
      → at.parent ≡ some parent
      → at.next_sibling ≡ some q
      → t.nodes q ≡ some m
      → q ≢ sibling
      → q ≢ parent
      → sibling ≢ parent
      → insert_after fresh sibling n t
        ≡ done fresh (inserted t fresh n parent (some sibling) (some q))
  unfolding insert_after splice
  insert_after-some sibling parent q at m live up next live' apart apart' apart'' =
      let written : Nodes =
        write
          (write (write t.nodes fresh (some (node_of n (some parent) (some sibling) (some q)))) q
            (some (record m { prev_sibling = some fresh })))
          sibling (some (record at { next_sibling = some fresh })) in
      let run : insert_after fresh sibling n t ≡ with_nodes t fresh n written = ground arith in
      run ∙ with_nodes-eq t fresh n written _ (λ x. ground arith)

  insert_after-none :
      (sibling parent : NodeId) (at m : Node)
      → t.nodes sibling ≡ some at
      → at.parent ≡ some parent
      → at.next_sibling ≡ none
      → t.nodes parent ≡ some m
      → sibling ≢ parent
      → insert_after fresh sibling n t ≡ done fresh (inserted t fresh n parent (some sibling) none)
  unfolding insert_after splice
  insert_after-none sibling parent at m live up next live' apart =
      let written : Nodes =
        write
          (write (write t.nodes fresh (some (node_of n (some parent) (some sibling) none))) parent
            (some (record m { last_child = some fresh })))
          sibling (some (record at { next_sibling = some fresh })) in
      let run : insert_after fresh sibling n t ≡ with_nodes t fresh n written = ground arith in
      run ∙ with_nodes-eq t fresh n written _ (λ x. ground arith)

  module _ (well : IsWellFormed t) where
    open well use {linked}

    -- On a well-formed tree each insertion is a splice.
    pub append_child-inserted :
        (parent : NodeId) (at : Node)
        → t.nodes parent ≡ some at
        → append_child fresh parent n t ≡ done fresh (inserted t fresh n parent at.last_child none)
    append_child-inserted parent at live = elim (Option-cases at.last_child) [
      | inl nil ↦ rw nil (append_child-none parent at live nil)
      | inr (l, last) ↦
          let (up, _) = linked.last_parent parent l (ground arith) in
          let (m, live') = live_node (t.nodes l) (ground arith) in
          rw last
            (append_child-some parent l at m live live' last (ground (arith, linked.not_own l)))
    ]

    pub insert_before-inserted :
        (sibling parent : NodeId) (at : Node)
        → t.nodes sibling ≡ some at
        → at.parent ≡ some parent
        → insert_before fresh sibling n t
          ≡ done fresh (inserted t fresh n parent at.prev_sibling (some sibling))
    insert_before-inserted sibling parent at live up =
        let apart : sibling ≢ parent = ground (arith, linked.not_own sibling) in
        elim (Option-cases at.prev_sibling) [
          | inl nil ↦
              let (m, live') =
                live_node (t.nodes parent) (linked.parent_live sibling parent (ground arith)) in
              rw nil (insert_before-none sibling parent at m live up nil live' apart)
          | inr (q, prev) ↦
              let (back, same) = linked.prev_next sibling q (ground arith) in
              let (m, live') = live_node (t.nodes q) (ground arith) in
              rw prev (
                insert_before-some sibling parent q at m live up prev live'
                  (ground (arith, linked.not_next sibling)) (ground (arith, linked.not_own q))
                  apart)
        ]

    pub insert_after-inserted :
        (sibling parent : NodeId) (at : Node)
        → t.nodes sibling ≡ some at
        → at.parent ≡ some parent
        → insert_after fresh sibling n t
          ≡ done fresh (inserted t fresh n parent (some sibling) at.next_sibling)
    insert_after-inserted sibling parent at live up =
        let apart : sibling ≢ parent = ground (arith, linked.not_own sibling) in
        elim (Option-cases at.next_sibling) [
          | inl nil ↦
              let (m, live') =
                live_node (t.nodes parent) (linked.parent_live sibling parent (ground arith)) in
              rw nil (insert_after-none sibling parent at m live up nil live' apart)
          | inr (q, next) ↦
              let (back, same) = linked.next_prev sibling q (ground arith) in
              let (m, live') = live_node (t.nodes q) (ground arith) in
              rw next (
                insert_after-some sibling parent q at m live up next live'
                  (ground (arith, linked.not_next sibling)) (ground (arith, linked.not_own q))
                  apart)
        ]
