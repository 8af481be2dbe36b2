-- ===== src/Tree/Build/Load/Safe.antt =====
-- What a load gives: a tree that is well formed, or an error, and never a panic.
use lovely_rs.Base.{
  ◌≢◌, ◌∙◌, ◌≤◌, ℕ, zero, suc, ◌≡◌, inl, inr, Option, none, some, List, [], ◌∷◌, Bool, true, false,
  if◌then◌else◌, arith, Option-cases, ◌==◌, length,
}
use lovely_rs.Tree.Errors.{Uuid, NodeId, Result, ok, err}
use lovely_rs.Tree.Arena.Monad.{Tree, Run, write}
use lovely_rs.Tree.Arena.Ops.{root_node, NewNode, new, append_child}
use lovely_rs.Tree.Arena.Links.{is_some, splice, IsPlace}
use lovely_rs.Tree.Arena.Insert.{IsWellFormed, inserted, live_node, append_child-inserted}
use lovely_rs.Tree.Arena.Keep.{Returns, returns, insert_errors, last-IsPlace, inserted-IsWellFormed}
use lovely_rs.Tree.Arena.Update.{new-IsWellFormed, update-IsWellFormed}
use lovely_rs.Tree.Tags.{ElementTag}
use lovely_rs.Tree.Attrs.{AttrList}
use lovely_rs.Tree.Build.Rows.{ElementRow}
use lovely_rs.Tree.Build.Siblings.{contains}
use lovely_rs.Tree.Build.Load.{
  Outcome, loaded, failed, crashed, no_fuel, and_load, try, run, expect_run, Progress, visit,
  new_node, or_default, parse_tag, parse_attrs, check_unique, check_parents, ordered_children,
  synthesize, body_row, load_below, all_visited, root_patch, add_children, search_tree,
  from_db_rows,
}

-- An outcome of which `P` holds where it is a result, and which is no panic.
abbrev pub IsSafe : {A : Type 0} → (A → Type 0) → Outcome A → Type 0
IsSafe P (loaded a) = P a
IsSafe P (failed e) = Unit {0}
IsSafe P crashed = ⊥
IsSafe P no_fuel = Unit {0}

module _ {A B : Type 0} (P : B → Type 0) where
  IsSafe-and_load :
      (Q : A → Type 0) (o : Outcome A) (k : A → Outcome B)
      → IsSafe Q o
      → ((a : A) → Q a → IsSafe P (k a))
      → IsSafe P (and_load o k)
  IsSafe-and_load Q (loaded a) k h f = f a h
  IsSafe-and_load Q (failed e) k h f = tt
  IsSafe-and_load Q crashed k h f = h
  IsSafe-and_load Q no_fuel k h f = tt

  IsSafe-try : (r : Result A) (k : A → Outcome B) → ((a : A) → IsSafe P (k a)) → IsSafe P (try r k)
  IsSafe-try (ok a) k f = f a
  IsSafe-try (err e) k f = tt

  IsSafe-run :
      (Q : A → Tree → Type 0) (r : Run A) (k : A → Tree → Outcome B)
      → Returns Q r
      → ((a : A) (t : Tree) → Q a t → IsSafe P (k a t))
      → IsSafe P (run r k)
  IsSafe-run Q _ k (returns {a} {t} h) f = f a t h

  IsSafe-expect_run :
      (Q : A → Tree → Type 0) (r : Run A) (k : A → Tree → Outcome B)
      → Returns Q r
      → ((a : A) (t : Tree) → Q a t → IsSafe P (k a t))
      → IsSafe P (expect_run r k)
  IsSafe-expect_run Q _ k (returns {a} {t} h) f = f a t h

IsSafe-if :
    {A : Type 0} (P : A → Type 0) (b : Bool) (x y : Outcome A)
    → IsSafe P x
    → IsSafe P y
    → IsSafe P (if b then x else y)
IsSafe-if P true x y h k = h
IsSafe-if P false x y h k = k

uuid-live :
    (t : Tree) (u : Uuid) (a : NodeId)
    → IsWellFormed t
    → t.by_uuid u ≡ some a
    → is_some (t.nodes a) ≡ true
uuid-live t u a well h = ground (arith, well.indexed u a h)

stays_live :
    (t : Tree) (fresh parent : NodeId) (n : NewNode) (prev : Option NodeId)
    → is_some (t.nodes parent) ≡ true
    → is_some ((inserted t fresh n parent prev none).nodes parent) ≡ true
unfolding splice
stays_live t fresh parent n prev live = ground arith

new-root :
    (fresh : NodeId) (uuid : Uuid) (tag : ElementTag)
    → (new fresh uuid tag).nodes (new fresh uuid tag).root ≡ some (root_node uuid tag)
unfolding new
new-root fresh uuid tag = ground arith

inserted-none :
    (t : Tree) (fresh parent x : NodeId) (n : NewNode) (prev : Option NodeId)
    → x ≢ fresh
    → t.nodes x ≡ none
    → (inserted t fresh n parent prev none).nodes x ≡ none
unfolding splice
inserted-none t fresh parent x n prev ne e = ground arith

new-none :
    (fresh x : NodeId) (uuid : Uuid) (tag : ElementTag)
    → x ≢ fresh
    → (new fresh uuid tag).nodes x ≡ none
unfolding new
new-none fresh x uuid tag ne = ground arith

module _ (key : ℕ → NodeId) (apart : (i j : ℕ) → key i ≡ key j → i ≡ j) where
  -- A well-formed tree that has used the first `count` keys.
  record IsStanding (count : ℕ) (t : Tree) : Type 0 where
    well : IsWellFormed t
    spare : (i : ℕ) → count ≤ i → t.nodes (key i) ≡ none

  abbrev Stands : Progress → Type 0
  Stands s = IsStanding (length s.visited) s.tree

  append-Returns :
      (parent : NodeId) (n : NewNode) (t : Tree) (count : ℕ)
      → IsStanding count t
      → is_some (t.nodes parent) ≡ true
      → t.by_uuid n.uuid ≡ none
      → Returns
          (λ _ t'. IsStanding (suc count) t' × (is_some (t'.nodes parent) ≡ true))
          (append_child (key count) parent n t)
  append-Returns parent n t count standing live unused =
      let well = standing.well in
      let spare = standing.spare in
      let fresh = spare count (omega arith) in
      let (at, e) = live_node (t.nodes parent) live in
      let place : IsPlace t.nodes parent at.last_child none =
        rw e at (last-IsPlace {nodes = t.nodes} well.linked parent live) in
      rw (append_child-inserted t (key count) n fresh unused well parent at e) (
        returns (
          record {
            well =
                inserted-IsWellFormed t (key count) n well fresh unused parent at.last_child none
                  place;
            spare = λ i above.
                inserted-none t (key count) parent (key i) n at.last_child
                  (λ e. ground (arith, apart i count e)) (spare i (omega (arith, above)));
          },
          stays_live t (key count) parent n at.last_child live,
        ))

  taken_run :
      (s : Progress) (parent : NodeId) (r : ElementRow) (tag : _) (attrs : _) (a : NodeId)
      (k : NodeId → Tree → Outcome Progress)
      → is_some (s.tree.nodes parent) ≡ true
      → s.tree.by_uuid r.id ≡ some a
      → IsSafe (Stands) (
          run
            (append_child
              (key (length s.visited))
              parent
              (new_node r tag (or_default attrs))
              s.tree)
            k)
  taken_run s parent r tag attrs a k live taken =
      let (at, e) = live_node (s.tree.nodes parent) live in
      rw
        (((insert_errors s.tree (key (length s.visited)) parent
            (new_node r tag (or_default attrs))).2
          at parent a e taken).0)
        tt

  add_children-IsSafe :
      (parent : NodeId) (rows : List ElementRow) (s : Progress)
      → Stands s
      → is_some (s.tree.nodes parent) ≡ true
      → IsSafe (Stands) (add_children key parent rows s)
  unfolding add_children
  add_children-IsSafe parent [] s well live = well
  add_children-IsSafe parent (r ∷ rows) s well live =
      IsSafe-if (Stands) (contains s.visited r.id) (failed _) _ tt (
        IsSafe-try _ (parse_tag r.tag) _ λ tag. IsSafe-try _ (parse_attrs r.attrs_json) _ λ attrs.
          elim (Option-cases (s.tree.by_uuid r.id)) [
            | inl unused ↦
                IsSafe-run _ _ _ _
                  (append-Returns parent (new_node r tag (or_default attrs)) s.tree
                    (length s.visited) well live unused)
                  λ id t (w, l). add_children-IsSafe parent rows _ w l
            | inr (a, taken) ↦ taken_run s parent r tag attrs a _ live taken
          ])

  visit-IsSafe :
      (p : Uuid) (kids : Option (List ElementRow)) (s : Progress)
      → Stands s
      → IsSafe (Stands) (visit key p (s.tree.by_uuid p) kids s)
  visit-IsSafe p kids s well = elim (Option-cases (s.tree.by_uuid p)) [
    | inl e ↦ rw e tt
    | inr (parent, e) ↦ rw e (visit_live p parent kids e)
  ]
    where
      visit_live :
          (p : Uuid) (parent : NodeId) (kids : Option (List ElementRow))
          → s.tree.by_uuid p ≡ some parent
          → IsSafe (Stands) (visit key p (some parent) kids s)
      visit_live p parent none e = well
      visit_live p parent (some rows) e =
          add_children-IsSafe parent rows s well (uuid-live s.tree p parent well.well e)

  search_tree-IsSafe :
      (fuel : ℕ) (ordered : Uuid → Option (List ElementRow)) (queue : List Uuid) (t : Tree)
      (visited : List Uuid)
      → IsStanding (length visited) t
      → IsSafe (Stands) (search_tree key fuel ordered queue t visited)
  unfolding search_tree
  search_tree-IsSafe zero ordered queue t visited well = tt
  search_tree-IsSafe (suc k) ordered [] t visited well = well
  search_tree-IsSafe (suc k) ordered (p ∷ queue) t visited well =
      IsSafe-and_load _ (Stands) _ _ (visit-IsSafe p (ordered p) _ well)
        λ s w. search_tree-IsSafe k (write ordered p none) s.queue s.tree s.visited w

  all_visited-IsSafe :
      (rows : List ElementRow) (s : Progress) → Stands s → IsSafe IsWellFormed (all_visited rows s)
  all_visited-IsSafe rows s well =
      IsSafe-if IsWellFormed (length s.visited == length rows) (loaded _) (failed _) well.well tt

  start-none :
      (uuid : Uuid) (tag : ElementTag) (t : Tree) (i : ℕ)
      → 1 ≤ i
      → ((x : NodeId)
          → x ≢ (new (key 0) uuid tag).root
          → t.nodes x ≡ (new (key 0) uuid tag).nodes x)
      → t.nodes (key i) ≡ none
  unfolding new
  start-none uuid tag t i above same =
      let other : key i ≢ key 0 = λ e. ground (arith, apart i 0 e) in
      same (key i) other ∙ new-none (key 0) (key i) uuid tag other

  load_below-IsSafe :
      (fuel : ℕ) (root : ElementRow) (ordered : Uuid → Option (List ElementRow))
      (rows : List ElementRow) (root_tag : ElementTag) (attrs : Option AttrList)
      → IsSafe IsWellFormed (load_below key fuel root ordered rows root_tag attrs)
  load_below-IsSafe fuel root ordered rows root_tag attrs =
      let start : Tree = new (key 0) root.id root_tag in
      IsSafe-expect_run IsWellFormed _ _ _
        (update-IsWellFormed start start.root (root_node root.id root_tag)
          (root_patch (or_default attrs) root.text) (new-IsWellFormed _ root.id root_tag)
          (new-root _ root.id root_tag))
        λ _ t' (well, _, same).
          IsSafe-and_load IsWellFormed (Stands) _ _
            (search_tree-IsSafe fuel ordered (root.id ∷ []) t' (root.id ∷ []) (record {
              well = well;
              spare = λ i above. start-none root.id root_tag t' i above same;
            }))
            (all_visited-IsSafe rows)

  -- Where the slot map never hands out a key twice, a load of any rows, with any fuel, never panics,
  -- and a tree that it gives is well formed.
  pub from_db_rows-IsSafe :
      (fuel : ℕ) (body_id : Uuid) (into_values : List ElementRow → List ElementRow)
      (input : List ElementRow)
      → IsSafe IsWellFormed (from_db_rows key fuel body_id into_values input)
  unfolding from_db_rows
  from_db_rows-IsSafe fuel body_id into_values input =
      let rows = synthesize body_id input in
      IsSafe-try IsWellFormed (check_unique rows []) _ λ seen.
        IsSafe-try IsWellFormed (check_parents rows seen) _ λ _.
          IsSafe-try IsWellFormed (parse_tag (body_row body_id).tag) _ λ root_tag.
            IsSafe-try IsWellFormed (parse_attrs (body_row body_id).attrs_json) _ λ attrs.
              load_below-IsSafe fuel (body_row body_id) (ordered_children into_values rows) rows
                root_tag attrs
