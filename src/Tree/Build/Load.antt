-- ===== src/Tree/Build/Load.antt =====
-- `Tree::from_db_rows`. The UUID of the synthetic body, the keys that the slot map hands out and
-- the order of a hash map's values are parameters.
pub mod Safe
use lovely_rs.Base.{
  ℕ, zero, suc, ◌+◌, ◌-◌, ◌≡◌, refl, Option, none, some, List, [], ◌∷◌, ◌++◌, Bool, true, false,
  not, ◌==◌, eq_opt, if◌then◌else◌, map, length, Text, codes,
}
use lovely_rs.Tree.Errors
use lovely_rs.Tree.Errors.{
  Uuid, NodeId, TreeError, Malformed, Result, ok, err, ◌>>=◌, duplicate_uuid, unknown_uuid,
  malformed_row, unknown_parent, cycle_at, unreachable_rows, unknown_tag, attrs_not_object,
  non_scalar_attr,
}
use lovely_rs.Tree.Tags.{ElementTag, body_name, from_name}
use lovely_rs.Tree.Attrs.{AttrName, AttrList, from_server_trusted, push}
use lovely_rs.Tree.Arena.Monad.{Tree, Run, write, done, fail, panic, out_of_fuel}
use lovely_rs.Tree.Arena.Ops.{NewNode, NodePatch, new, append_child, update}
use lovely_rs.Tree.Build.Rows.{
  Json, null, boolean, number, string, array, object, Fields, end, field, ElementRow,
}
use lovely_rs.Tree.Build.Siblings.{contains, order_siblings}

-- The result of a load. `crashed` is a panic of a step.
pub data Outcome (A : Type 0) : Type 0 where
  loaded : A → Outcome A
  failed : TreeError → Outcome A
  crashed : Outcome A
  no_fuel : Outcome A

abbrev pub and_load : {A B : Type 0} → Outcome A → (A → Outcome B) → Outcome B
and_load (loaded a) k = k a
and_load (failed e) k = failed e
and_load crashed k = crashed
and_load no_fuel k = no_fuel

abbrev pub try : {A B : Type 0} → Result A → (A → Outcome B) → Outcome B
try (ok a) k = k a
try (err e) k = failed e

-- A command on the tree that `expect`s its success.
abbrev pub expect_run : {A B : Type 0} → Run A → (A → Tree → Outcome B) → Outcome B
expect_run (done a t) k = k a t
expect_run (fail e t) k = crashed
expect_run panic k = crashed
expect_run out_of_fuel k = no_fuel

-- A command on the tree, whose result and tree go on.
abbrev pub run : {A B : Type 0} → Run A → (A → Tree → Outcome B) → Outcome B
run (done a t) k = k a t
run (fail e t) k = failed e
run panic k = crashed
run out_of_fuel k = no_fuel

abbrev tag_or : Option ElementTag → Text → Result ElementTag
tag_or none s = err (malformed_row (unknown_tag s))
tag_or (some tag) s = ok tag

unfoldable pub parse_tag : Text → Result ElementTag
parse_tag s = tag_or (from_name s) s

-- The value of an attribute, as the match over `serde_json::Value` gives it.
unfoldable pub attr_value : Text → Json → Result Text
attr_value k (string s) = ok s
attr_value k (boolean true) = ok (codes "true")
attr_value k (boolean false) = ok (codes "false")
attr_value k (number n) = ok n
attr_value k null = ok []
attr_value k other = err (malformed_row (non_scalar_attr k))

unfoldable pub parse_fields : Fields → AttrList → Result AttrList
unfolding attr_value
parse_fields end attrs = ok attrs
parse_fields (field k v fields) attrs = do
  name ← from_server_trusted k
  value ← attr_value k v
  parse_fields fields (push attrs name value)

unfoldable pub parse_attrs : Json → Result (Option AttrList)
unfolding parse_fields
parse_attrs null = ok none
parse_attrs (object fields) = do list ← parse_fields fields []; ok (some list)
parse_attrs other = err (malformed_row attrs_not_object)

abbrev pub or_default : Option AttrList → AttrList
or_default none = []
or_default (some attrs) = attrs

abbrev pub body_row : Uuid → ElementRow
body_row body_id = record {
  id = body_id;
  parent_id = none;
  prev_sibling = none;
  tag = body_name;
  attrs_json = object end;
  text = none;
}

abbrev parent_or : Option Uuid → Uuid → Option Uuid
parent_or none body_id = some body_id
parent_or (some p) body_id = some p

-- A row of the database as a row below the body.
abbrev pub adopt : Uuid → ElementRow → ElementRow
adopt body_id r = record r { parent_id = parent_or r.parent_id body_id }

abbrev pub synthesize : Uuid → List ElementRow → List ElementRow
synthesize body_id rows = body_row body_id ∷ map (adopt body_id) rows

-- The first loop: a UUID that is in the map already is an error.
unfoldable pub check_unique : List ElementRow → (seen : List Uuid) → Result (List Uuid)
check_unique [] seen = ok seen
check_unique (r ∷ rows) seen =
    if contains seen r.id then err (duplicate_uuid r.id) else check_unique rows (r.id ∷ seen)

abbrev known : Option Uuid → List Uuid → Bool
known none seen = true
known (some p) seen = contains seen p

abbrev parent_name : Option Uuid → Uuid
parent_name none = 0
parent_name (some p) = p

-- The second loop: every parent is a row.
unfoldable pub check_parents : List ElementRow → (seen : List Uuid) → Result (Unit {0})
check_parents [] seen = ok tt
check_parents (r ∷ rows) seen =
    if known r.parent_id seen
    then check_parents rows seen
    else err (malformed_row (unknown_parent r.id (parent_name r.parent_id)))

-- The rows below a parent, in the order of the rows.
unfoldable pub group : Uuid → List ElementRow → List ElementRow
group p [] = []
group p (r ∷ rows) = if eq_opt r.parent_id (some p) then r ∷ group p rows else group p rows

-- An entry of `ordered_children`: none for a parent without children.
abbrev entry : List ElementRow → Option (List ElementRow) → Option (List ElementRow)
entry [] sorted = none
entry (r ∷ rows) sorted = sorted

unfoldable pub ordered_children :
    (List ElementRow → List ElementRow) → List ElementRow → Uuid → Option (List ElementRow)
unfolding group
ordered_children into_values rows p =
    let kids = group p rows in entry kids (order_siblings into_values kids)

pub record Progress : Type 0 where
  pub tree : Tree
  pub visited : List Uuid
  pub queue : List Uuid

abbrev pub new_node : ElementRow → ElementTag → AttrList → NewNode
new_node r tag attrs = record { uuid = r.id; tag = tag; attrs = attrs; text = r.text }

-- `patch_root` on the new tree.
abbrev pub root_patch : AttrList → Option Text → NodePatch
root_patch attrs text = record { attrs = some attrs; text = some text; tag = none }

abbrev pub all_visited : List ElementRow → Progress → Outcome Tree
all_visited rows s =
    if length s.visited == length rows
    then loaded s.tree
    else failed (malformed_row (unreachable_rows (length rows - length s.visited)))

-- `key i` is the key that the slot map hands out for the node that is inserted as number `i`.
module _ (key : ℕ → NodeId) where
  -- The inner loop: the children of one parent are appended.
  unfoldable pub add_children : NodeId → List ElementRow → Progress → Outcome Progress
  unfolding parse_tag parse_attrs
  add_children parent [] s = loaded s
  add_children parent (r ∷ rows) s =
      if contains s.visited r.id
      then failed (malformed_row (cycle_at r.id))
      else try (parse_tag r.tag) λ tag. try (parse_attrs r.attrs_json) λ attrs.
        run
          (append_child (key (length s.visited)) parent (new_node r tag (or_default attrs)) s.tree)
          λ id t.
            add_children parent rows
              (record s { tree = t; visited = r.id ∷ s.visited; queue = s.queue ++ r.id ∷ [] })

  -- One round of the search: the children of the parent at the front of the queue.
  abbrev pub visit : Uuid → Option NodeId → Option (List ElementRow) → Progress → Outcome Progress
  visit p none kids s = failed (unknown_uuid p)
  visit p (some parent) none s = loaded s
  visit p (some parent) (some rows) s = add_children parent rows s

  -- The breadth-first search, on fuel.
  unfoldable pub search_tree :
      (fuel : ℕ)
      → (Uuid → Option (List ElementRow))
      → List Uuid
      → Tree
      → List Uuid
      → Outcome Progress
  unfolding add_children
  search_tree zero ordered queue t visited = no_fuel
  search_tree (suc k) ordered [] t visited =
      loaded (record { tree = t; visited = visited; queue = [] })
  search_tree (suc k) ordered (p ∷ queue) t visited =
      and_load
        (visit p (t.by_uuid p) (ordered p) (record { tree = t; visited = visited; queue = queue }))
        (λ s. search_tree k (write ordered p none) s.queue s.tree s.visited)

  -- The tree with its root, and the search from it.
  abbrev pub load_below :
      (fuel : ℕ)
      → ElementRow
      → (Uuid → Option (List ElementRow))
      → List ElementRow
      → ElementTag
      → Option AttrList
      → Outcome Tree
  load_below fuel root ordered rows root_tag attrs =
      let t = new (key 0) root.id root_tag in
      expect_run (update t.root (root_patch (or_default attrs) root.text) t) λ _ t'.
        and_load (search_tree fuel ordered (root.id ∷ []) t' (root.id ∷ [])) (all_visited rows)

  unfoldable pub from_db_rows :
      (fuel : ℕ)
      → (body_id : Uuid) → (List ElementRow → List ElementRow)
      → List ElementRow
      → Outcome Tree
  unfolding check_unique check_parents ordered_children search_tree
  from_db_rows fuel body_id into_values input =
      let rows = synthesize body_id input in
      let root = body_row body_id in
      try (check_unique rows []) λ seen. try (check_parents rows seen) λ _.
        try (parse_tag root.tag) λ root_tag.
          try (parse_attrs root.attrs_json)
            λ attrs. load_below fuel root (ordered_children into_values rows) rows root_tag attrs
