-- ===== src/Tree/Arena/Refusals.antt =====
-- When the insertions fail on a well-formed tree, and with which error.
use lovely_rs.Base.{
  ◌≡◌, ◌≢◌, ◌↔◌, ◌⊎◌, refl, ap, sym, ◌∙◌, Bool, true, false, inl, inr, none, some, arith,
  Option-cases,
}
use mathlib.Core.Path.{subst}
use lovely_rs.Tree.Errors.{Uuid, NodeId, TreeError, not_found, duplicate_uuid, cannot_move_root}
use lovely_rs.Tree.Arena.Monad.{Node, Tree, Run, done, fail}
use lovely_rs.Tree.Arena.Ops.{NewNode, append_child, insert_before, insert_after}
use lovely_rs.Tree.Arena.Links.{is_some, uuid_of}
use lovely_rs.Tree.Arena.Insert.{
  live_node, IsWellFormed, append_child-inserted, insert_before-inserted, insert_after-inserted,
}
use lovely_rs.Tree.Arena.Keep.{insert_errors}

-- What refuses a new node at a target: the target is no node, or it is the root, beside which
-- nothing stands, or a node of the tree has the identifier already.
pub data Refuses (t : Tree) (target : NodeId) (uuid : Uuid) (beside : Bool)
    : TreeError → Type 0 where
  no_target : t.nodes target ≡ none → Refuses t target uuid beside (not_found target)
  at_root : beside ≡ true → target ≡ t.root → Refuses t target uuid beside cannot_move_root
  taken :
      (a : NodeId)
      → is_some (t.nodes target) ≡ true
      → (beside ≡ true → target ≢ t.root)
      → uuid_of (t.nodes a) ≡ some uuid
      → Refuses t target uuid beside (duplicate_uuid uuid)

-- A run that fails exactly where something refuses it, with that error and the tree as it was, and
-- otherwise gives the new handle.
pub record IsDecided (t : Tree) (fresh : NodeId) (refuses : TreeError → Type 0) (r : Run NodeId)
    : Type 0 where
  pub fails : (e : TreeError) (t' : Tree) → (r ≡ fail e t') ↔ (refuses e × (t' ≡ t))
  pub succeeds : ((t' : Tree) × (r ≡ done fresh t')) ↔ ((e : TreeError) → ¬ refuses e)

module _ (t : Tree) (fresh target : NodeId) (n : NewNode) (well : IsWellFormed t)
    (unused : t.nodes fresh ≡ none) where
  abbrev Refused : Bool → TreeError → Type 0
  Refused beside e = Refuses t target n.uuid beside e

  -- What an insertion needs of its target.
  abbrev Admitted : Bool → Type 0
  Admitted beside =
      (at : Node) × (t.nodes target ≡ some at)
      × (t.by_uuid n.uuid ≡ none)
      × (beside ≡ true → (p : NodeId) × (at.parent ≡ some p))

  not_top :
      (at : Node) (p : NodeId) → t.nodes target ≡ some at → at.parent ≡ some p → target ≢ t.root
  not_top at p live up e = ground (arith, well.root_top)

  top_of : (at : Node) → t.nodes target ≡ some at → at.parent ≡ none → target ≡ t.root
  top_of at live up = well.rooted target (ground arith) (ground arith)

  uuid_free :
      (beside : Bool) (at : Node)
      → t.nodes target ≡ some at
      → (beside ≡ true → (p : NodeId) × (at.parent ≡ some p))
      → ((e : TreeError) × Refused beside e) ⊎ Admitted beside
  uuid_free beside at live up = elim (Option-cases (t.by_uuid n.uuid)) [
    | inl free ↦ inr (at, live, free, up)
    | inr (a, e) ↦ inl (
      duplicate_uuid n.uuid,
      Refuses.taken a (ground arith) (λ b. not_top at (up b).0 live (up b).1)
          (well.indexed n.uuid a e),
    )
  ]

  parentless :
      (beside : Bool) (at : Node)
      → t.nodes target ≡ some at
      → at.parent ≡ none
      → ((e : TreeError) × Refused beside e) ⊎ Admitted beside
  parentless true at live up = inl (cannot_move_root, Refuses.at_root refl (top_of at live up))
  parentless false at live up = uuid_free false at live (λ b. cc)

  target_cases : (beside : Bool) → ((e : TreeError) × Refused beside e) ⊎ Admitted beside
  target_cases beside = elim (Option-cases (t.nodes target)) [
    | inl e ↦ inl (not_found target, Refuses.no_target e)
    | inr (at, live) ↦ elim (Option-cases at.parent) [
      | inr (p, up) ↦ uuid_free beside at live (λ b. (p, up))
      | inl up ↦ parentless beside at live up
    ]
  ]

  Admitted-Refused : (beside : Bool) (e : TreeError) → Admitted beside → Refused beside e → ⊥
  Admitted-Refused beside e (at, live, free, up) (Refuses.no_target dead) = ground arith
  Admitted-Refused beside e (at, live, free, up) (Refuses.at_root b same) =
      not_top at (up b).0 live (up b).1 same
  Admitted-Refused beside e (at, live, free, up) (Refuses.taken a l other same) =
      ground (arith, well.named a n.uuid same)

  decided :
      (beside : Bool) (r : Run NodeId)
      → ((e : TreeError) → Refused beside e → r ≡ fail e t)
      → (Admitted beside → (t' : Tree) × (r ≡ done fresh t'))
      → IsDecided t fresh (Refused beside) r
  decided beside r failing running = elim (target_cases beside) [
    | inl (e, why) ↦ record {
      fails = λ e' t'. (
        λ h.
            let run : fail e' t' ≡ fail e t = sym h ∙ failing e why in
            let same : e' ≡ e = ground arith in
            (subst (Refused beside) (sym same) why, ground arith),
        λ (why', same). failing e' why' ∙ ap (fail e') (sym same),
      );
      succeeds = (
        λ (t', run) e' why'. let stop = failing e' why' in absurd (ground arith),
        λ h. absurd (h e why),
      );
    }
    | inr ok ↦ record {
      fails = λ e' t'. (
        λ h. let (t1, run) = running ok in absurd (ground arith),
        λ (why, same). absurd (Admitted-Refused beside e' ok why),
      );
      succeeds = (λ h e. Admitted-Refused beside e ok, λ h. running ok);
    }
  ]

  append_child-Refused :
      (e : TreeError) → Refused false e → append_child fresh target n t ≡ fail e t
  append_child-Refused e (Refuses.no_target dead) = ((insert_errors t fresh target n).0 dead).0
  append_child-Refused e (Refuses.at_root b same) = cc
  append_child-Refused e (Refuses.taken a live other same) =
      let (at, found) = live_node (t.nodes target) live in
      ((insert_errors t fresh target n).2 at target a found (well.named a n.uuid same)).0

  beside-Refused :
      (e : TreeError)
      → Refused true e
      → (insert_before fresh target n t ≡ fail e t) × (insert_after fresh target n t ≡ fail e t)
  beside-Refused e (Refuses.no_target dead) =
      let (child, before, after) = (insert_errors t fresh target n).0 dead in (before, after)
  beside-Refused e (Refuses.at_root b same) =
      let (at, found) = live_node (t.nodes target) (rw same well.root_live) in
      (insert_errors t fresh target n).1 at found (ground (arith, well.root_top))
  beside-Refused e (Refuses.taken a live other same) =
      let (at, found) = live_node (t.nodes target) live in
      elim (Option-cases at.parent) [
        | inl up ↦ absurd (other refl (top_of at found up))
        | inr (p, up) ↦
            ((insert_errors t fresh target n).2 at p a found (well.named a n.uuid same)).1 up
      ]

  -- On a well-formed tree, with a handle that no node has, each insertion fails exactly where
  -- something refuses it, with the error that tells what, and leaves the tree as it was: `NotFound`
  -- where the target is no node, `CannotMoveRoot` beside the root, and `DuplicateUuid` where a node
  -- of the tree has the identifier. Otherwise it gives the new handle.
  pub insertions-IsDecided :
      IsDecided t fresh (Refuses t target n.uuid false) (append_child fresh target n t)
      × IsDecided t fresh (Refuses t target n.uuid true) (insert_before fresh target n t)
      × IsDecided t fresh (Refuses t target n.uuid true) (insert_after fresh target n t)
  insertions-IsDecided = (
    decided false (append_child fresh target n t) append_child-Refused (λ (at, live, free, up).
        (_, append_child-inserted t fresh n unused free well target at live)),
    decided true (insert_before fresh target n t) (λ e why. (beside-Refused e why).0)
        (λ (at, live, free, up).
          let (p, top) = up refl in
          (_, insert_before-inserted t fresh n unused free well target p at live top)),
    decided true (insert_after fresh target n t) (λ e why. (beside-Refused e why).1)
        (λ (at, live, free, up).
          let (p, top) = up refl in
          (_, insert_after-inserted t fresh n unused free well target p at live top)),
  )
