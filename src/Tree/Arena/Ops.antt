-- ===== src/Tree/Arena/Ops.antt =====
-- The methods of `Tree` in arena.rs.
use lovely_rs.Base.{
  ℕ, zero, suc, Option, none, some, List, [], ◌∷◌, ◌==◌, eq_opt, if◌then◌else◌, Text,
}
use lovely_rs.Tree.Errors.{Uuid, NodeId, not_found, would_cycle, duplicate_uuid, cannot_move_root}
use lovely_rs.Tree.Tags.{ElementTag}
use lovely_rs.Tree.Attrs.{AttrList}
use lovely_rs.Tree.Arena.Monad.{
  Node, Tree, write, done, out_of_fuel, Cmd, pure, throw, ◌>>=◌, ◌>>◌, ok_or, get, index, root,
  modify, set_parent, set_first_child, set_last_child, set_prev_sibling, set_next_sibling,
}

pub record NewNode : Type 0 where
  pub uuid : Uuid
  pub tag : ElementTag
  pub attrs : AttrList
  pub text : Option Text

pub data Position : Type 0 where
  append_to prepend_to : Position
  before after : NodeId → Position

pub record NodePatch : Type 0 where
  pub attrs : Option AttrList
  pub text : Option (Option Text)
  pub tag : Option ElementTag

abbrev pub root_node : Uuid → ElementTag → Node
root_node uuid tag = record {
  uuid = uuid;
  tag = tag;
  attrs = [];
  text = none;
  parent = none;
  first_child = none;
  last_child = none;
  prev_sibling = none;
  next_sibling = none;
}

-- `Tree::new`, with the key of the root.
unfoldable pub new : (fresh : NodeId) → Uuid → ElementTag → Tree
new fresh uuid tag = record {
  nodes = write (λ _. none) fresh (some (root_node uuid tag));
  root = fresh;
  by_uuid = write (λ _. none) uuid (some fresh);
}

-- `get_by_uuid`.
abbrev pub get_by_uuid : Tree → Uuid → Option NodeId
get_by_uuid t u = t.by_uuid u

abbrev exists_or : Option Node → NodeId → Cmd (Unit {0})
exists_or none id = throw (not_found id)
exists_or (some n) id = pure tt

unfoldable pub node_exists : NodeId → Cmd (Unit {0})
node_exists id t = exists_or (t.nodes id) id t

abbrev unused_or : Option NodeId → Uuid → Cmd (Unit {0})
unused_or none u = pure tt
unused_or (some id) u = throw (duplicate_uuid u)

unfoldable pub uuid_unused : Uuid → Cmd (Unit {0})
uuid_unused u t = unused_or (t.by_uuid u) u t

-- The node that `insert_node` makes.
abbrev pub node_of : NewNode → (parent prev next : Option NodeId) → Node
node_of n parent prev next = record {
  uuid = n.uuid;
  tag = n.tag;
  attrs = n.attrs;
  text = n.text;
  parent = parent;
  first_child = none;
  last_child = none;
  prev_sibling = prev;
  next_sibling = next;
}

unfoldable pub insert_node :
    (fresh : NodeId) → NewNode → (parent prev next : Option NodeId) → Cmd NodeId
insert_node fresh n parent prev next t = done fresh (record t {
  nodes = write t.nodes fresh (some (node_of n parent prev next));
  by_uuid = write t.by_uuid n.uuid (some fresh);
})

-- The two halves of every insertion: what stands before the new node comes to point at it, and
-- what stands behind it.
unfoldable pub link_prev : (prev : Option NodeId) → (parent id : NodeId) → Cmd (Unit {0})
unfolding modify
link_prev (some p) parent id = set_next_sibling p (some id)
link_prev none parent id = set_first_child parent (some id)

unfoldable pub link_next : (next : Option NodeId) → (parent id : NodeId) → Cmd (Unit {0})
unfolding modify
link_next (some n) parent id = set_prev_sibling n (some id)
link_next none parent id = set_last_child parent (some id)

unfoldable pub append_child : (fresh parent : NodeId) → NewNode → Cmd NodeId
unfolding node_exists uuid_unused insert_node link_prev modify
append_child fresh parent node = do
  node_exists parent
  uuid_unused node.uuid
  at ← index parent
  id ← insert_node fresh node (some parent) at.last_child none
  link_prev at.last_child parent id
  set_last_child parent (some id)
  pure id

unfoldable pub insert_before : (fresh sibling : NodeId) → NewNode → Cmd NodeId
unfolding uuid_unused insert_node link_prev modify
insert_before fresh sibling node = do
  found ← get sibling
  target ← ok_or found (not_found sibling)
  parent ← ok_or target.parent cannot_move_root
  uuid_unused node.uuid
  id ← insert_node fresh node (some parent) target.prev_sibling (some sibling)
  link_prev target.prev_sibling parent id
  set_prev_sibling sibling (some id)
  pure id

unfoldable pub insert_after : (fresh sibling : NodeId) → NewNode → Cmd NodeId
unfolding uuid_unused insert_node link_next modify
insert_after fresh sibling node = do
  found ← get sibling
  target ← ok_or found (not_found sibling)
  parent ← ok_or target.parent cannot_move_root
  uuid_unused node.uuid
  id ← insert_node fresh node (some parent) (some sibling) target.next_sibling
  link_next target.next_sibling parent id
  set_next_sibling sibling (some id)
  pure id

-- The three parts of `detach_links`, which reads the links from a snapshot of the node.
unfoldable pub fix_first : (parent id : NodeId) → Node → Cmd (Unit {0})
unfolding modify
fix_first parent id snapshot = do
  at ← index parent
  if eq_opt at.first_child (some id) then set_first_child parent snapshot.next_sibling else pure tt

unfoldable pub fix_last : (parent id : NodeId) → Node → Cmd (Unit {0})
unfolding modify
fix_last parent id snapshot = do
  at ← index parent
  if eq_opt at.last_child (some id) then set_last_child parent snapshot.prev_sibling else pure tt

unfoldable pub detach_parent : Option NodeId → NodeId → Node → Cmd (Unit {0})
unfolding fix_first fix_last
detach_parent none id snapshot = pure tt
detach_parent (some parent) id snapshot =
    fix_first parent id snapshot >> fix_last parent id snapshot

unfoldable pub detach_prev : Option NodeId → Node → Cmd (Unit {0})
detach_prev none snapshot = pure tt
detach_prev (some p) snapshot = set_next_sibling p snapshot.next_sibling

unfoldable pub detach_next : Option NodeId → Node → Cmd (Unit {0})
detach_next none snapshot = pure tt
detach_next (some n) snapshot = set_prev_sibling n snapshot.prev_sibling

unfoldable pub detach_links : NodeId → Node → Cmd (Unit {0})
unfolding detach_parent detach_prev detach_next modify
detach_links id snapshot = do
  detach_parent snapshot.parent id snapshot
  detach_prev snapshot.prev_sibling snapshot
  detach_next snapshot.next_sibling snapshot

-- The inner loop of `remove`: the children of a node go onto the stack, whose top is the head.
unfoldable pub push_children : ℕ → Option NodeId → List NodeId → Cmd (List NodeId)
push_children zero child stack = λ _. out_of_fuel
push_children (suc k) none stack = pure stack
push_children (suc k) (some c) stack = do
  n ← get c
  push_children k (elim n [ none ↦ none | some m ↦ m.next_sibling ]) (c ∷ stack)

abbrev drop_node : NodeId → Node → Cmd (Unit {0})
drop_node id n t =
    done tt (record t { nodes = write t.nodes id none; by_uuid = write t.by_uuid n.uuid none })

unfoldable pub remove_loop : ℕ → List NodeId → Cmd (Unit {0})
unfolding push_children
remove_loop zero stack = λ _. out_of_fuel
remove_loop (suc k) [] = pure tt
remove_loop (suc k) (cur ∷ stack) = do
  node ← index cur
  drop_node cur node
  stack' ← push_children k node.first_child stack
  remove_loop k stack'

unfoldable pub remove : (fuel : ℕ) → NodeId → Cmd (Unit {0})
unfolding detach_links remove_loop
remove fuel id = do
  top ← root
  if id == top then throw cannot_move_root else do
    found ← get id
    node ← ok_or found (not_found id)
    detach_links id node
    remove_loop fuel (id ∷ [])

-- The walk of `move_to` over the ancestors of the new parent.
unfoldable pub check_cycle : ℕ → (id new_parent : NodeId) → Option NodeId → Cmd (Unit {0})
check_cycle zero id new_parent a = λ _. out_of_fuel
check_cycle (suc k) id new_parent none = pure tt
check_cycle (suc k) id new_parent (some cur) =
    if cur == id
    then throw (would_cycle id new_parent)
    else do n ← get cur; check_cycle k id new_parent (elim n [ none ↦ none | some m ↦ m.parent ])

-- The match on the position in `move_to`, once the node is detached.
unfoldable pub attach : Position → (id new_parent : NodeId) → Cmd (Unit {0})
unfolding link_prev link_next modify
attach append_to id new_parent = do
  at ← index new_parent
  set_parent id (some new_parent)
  set_prev_sibling id at.last_child
  link_prev at.last_child new_parent id
  set_last_child new_parent (some id)
attach prepend_to id new_parent = do
  at ← index new_parent
  set_parent id (some new_parent)
  set_next_sibling id at.first_child
  link_next at.first_child new_parent id
  set_first_child new_parent (some id)
attach (before sibling) id new_parent = do
  found ← get sibling
  target ← ok_or found (not_found sibling)
  parent ← ok_or target.parent cannot_move_root
  set_parent id (some parent)
  set_prev_sibling id target.prev_sibling
  set_next_sibling id (some sibling)
  set_prev_sibling sibling (some id)
  link_prev target.prev_sibling parent id
attach (after sibling) id new_parent = do
  found ← get sibling
  target ← ok_or found (not_found sibling)
  parent ← ok_or target.parent cannot_move_root
  set_parent id (some parent)
  set_prev_sibling id (some sibling)
  set_next_sibling id target.next_sibling
  set_next_sibling sibling (some id)
  link_next target.next_sibling parent id

-- The node out of its place, with no links but those to its children.
unfoldable pub detach : NodeId → Cmd (Unit {0})
unfolding detach_links modify
detach id = do
  original ← index id
  detach_links id original
  set_parent id none
  set_prev_sibling id none
  set_next_sibling id none

unfoldable pub move_to : (fuel : ℕ) → (id new_parent : NodeId) → Position → Cmd (Unit {0})
unfolding node_exists check_cycle detach attach
move_to fuel id new_parent position = do
  top ← root
  if id == top then throw cannot_move_root else do
    node_exists id
    node_exists new_parent
    check_cycle fuel id new_parent (some new_parent)
    detach id
    attach position id new_parent

abbrev or_keep : {A : Type 0} → Option A → A → A
or_keep none old = old
or_keep (some new) old = new

-- The fields that a patch sets.
unfoldable pub apply_patch : NodePatch → Node → Node
apply_patch patch n = record n {
  attrs = or_keep patch.attrs n.attrs;
  text = or_keep patch.text n.text;
  tag = or_keep patch.tag n.tag;
}

unfoldable pub update : NodeId → NodePatch → Cmd (Unit {0})
unfolding apply_patch modify
update id patch = do found ← get id; n ← ok_or found (not_found id); modify id (apply_patch patch)
