-- ===== src/Tree/Arena/Update.antt =====
-- `Tree::new` and `update`.
use lovely_rs.Base.{◌≡◌, refl, ◌≢◌, none, some, arith}
use lovely_rs.Tree.Errors.{Uuid, NodeId}
use lovely_rs.Tree.Tags.{ElementTag}
use lovely_rs.Tree.Arena.Monad.{Node, Nodes, Tree, write, done}
use lovely_rs.Tree.Arena.Ops.{new, NodePatch, apply_patch, update}
use lovely_rs.Tree.Arena.Links.{IsLinked}
use lovely_rs.Tree.Arena.Insert.{IsWellFormed}
use lovely_rs.Tree.Arena.Keep.{Returns, returns}

new-IsLinked :
    (fresh : NodeId) (uuid : Uuid) (tag : ElementTag) → IsLinked (new fresh uuid tag).nodes
unfolding new
new-IsLinked fresh uuid tag = record {
  parent_live = λ a b h. ground arith;
  prev_next = λ a b h. absurd (ground arith);
  next_prev = λ a b h. absurd (ground arith);
  first_parent = λ a b h. absurd (ground arith);
  last_parent = λ a b h. absurd (ground arith);
  parent_first = λ a b h k. absurd (ground arith);
  parent_last = λ a b h k. absurd (ground arith);
  has_first = λ a b h k. ground arith;
  has_last = λ a b h k. ground arith;
  not_next = λ a h. ground arith;
  not_own = λ a h. ground arith;
  orphan = λ a h. ground arith;
}

-- A new tree, which is its root, is well formed.
pub new-IsWellFormed :
    (fresh : NodeId) (uuid : Uuid) (tag : ElementTag) → IsWellFormed (new fresh uuid tag)
unfolding new
new-IsWellFormed fresh uuid tag = record {
  linked = new-IsLinked fresh uuid tag;
  indexed = λ u a h. ground arith;
  named = λ a u h. ground arith;
  root_live = ground arith;
  root_top = ground arith;
  rooted = λ a h k. ground arith;
}

abbrev patched : Nodes → NodeId → Node → NodePatch → Nodes
patched nodes id n patch = write nodes id (some (apply_patch patch n))

module _ (nodes : Nodes) (linked : IsLinked nodes) (id : NodeId) (n : Node) (patch : NodePatch)
    (at : nodes id ≡ some n) where
  patched-IsLinked : IsLinked (patched nodes id n patch)
  unfolding apply_patch
  patched-IsLinked = record {
    parent_live = λ a b h. ground (arith, linked.parent_live a b);
    prev_next = λ a b h. ground (arith, linked.prev_next a b);
    next_prev = λ a b h. ground (arith, linked.next_prev a b);
    first_parent = λ a b h. ground (arith, linked.first_parent a b);
    last_parent = λ a b h. ground (arith, linked.last_parent a b);
    parent_first = λ a b h k. ground (arith, linked.parent_first a b);
    parent_last = λ a b h k. ground (arith, linked.parent_last a b);
    has_first = λ a b h k. ground (arith, linked.has_first a b);
    has_last = λ a b h k. ground (arith, linked.has_last a b);
    not_next = λ a h. ground (arith, linked.not_next a);
    not_own = λ a h. ground (arith, linked.not_own a);
    orphan = λ a h. ground (arith, linked.orphan a);
  }

-- What a patch changes: the fields that it sets, and no link.
pub record IsPatched (patch : NodePatch) (old new : Node) : Type 0 where
  pub same_parent : new.parent ≡ old.parent
  pub same_uuid : new.uuid ≡ old.uuid
  pub attrs_set : (v : _) → patch.attrs ≡ some v → new.attrs ≡ v
  pub attrs_kept : patch.attrs ≡ none → new.attrs ≡ old.attrs
  pub text_set : (v : _) → patch.text ≡ some v → new.text ≡ v
  pub text_kept : patch.text ≡ none → new.text ≡ old.text
  pub tag_set : (v : ElementTag) → patch.tag ≡ some v → new.tag ≡ v
  pub tag_kept : patch.tag ≡ none → new.tag ≡ old.tag

patch-IsPatched : (patch : NodePatch) (n : Node) → IsPatched patch n (apply_patch patch n)
unfolding apply_patch
patch-IsPatched patch n = record {
  same_parent = refl;
  same_uuid = refl;
  attrs_set = λ v e. ground arith;
  attrs_kept = λ e. ground arith;
  text_set = λ v e. ground arith;
  text_kept = λ e. ground arith;
  tag_set = λ v e. ground arith;
  tag_kept = λ e. ground arith;
}

abbrev updated : Tree → NodeId → Node → NodePatch → Tree
updated t id n patch = record t { nodes = patched t.nodes id n patch }

module _ (t : Tree) (id : NodeId) (n : Node) (patch : NodePatch) (at : t.nodes id ≡ some n) where
  update-updated : update id patch t ≡ done tt (updated t id n patch)
  unfolding update
  update-updated = ground (arith, at)

  same_uuid : (apply_patch patch n).uuid ≡ n.uuid
  same_uuid = (patch-IsPatched patch n).same_uuid

  same_parent : (apply_patch patch n).parent ≡ n.parent
  same_parent = (patch-IsPatched patch n).same_parent

  patched-IsWellFormed : IsWellFormed t → IsWellFormed (updated t id n patch)
  patched-IsWellFormed well = record {
    linked = patched-IsLinked t.nodes well.linked id n patch at;
    indexed = λ u a h. ground (arith, at, same_uuid, well.indexed u a);
    named = λ a u h. ground (arith, at, same_uuid, well.named a u);
    root_live = ground (arith, at);
    root_top = ground (arith, at, same_parent, well.root_top);
    rooted = λ a h k. ground (arith, at, same_parent, well.rooted a);
  }

at_id :
    (t : Tree) (id : NodeId) (n m : Node) (patch : NodePatch)
    → (updated t id n patch).nodes id ≡ some m
    → m ≡ apply_patch patch n
at_id t id n m patch h = ground (arith, h)

off_id :
    (t : Tree) (id x : NodeId) (n : Node) (patch : NodePatch)
    → x ≢ id
    → (updated t id n patch).nodes x ≡ t.nodes x
off_id t id x n patch ne = ground (arith, ne)

-- An update of a live node succeeds, sets what the patch sets, leaves every other node as it is,
-- and keeps the tree well formed.
pub update-IsWellFormed :
    (t : Tree) (id : NodeId) (n : Node) (patch : NodePatch)
    → IsWellFormed t
    → t.nodes id ≡ some n
    → Returns
        (λ _ t'.
          IsWellFormed t'
          × ((m : Node) → t'.nodes id ≡ some m → IsPatched patch n m)
          × ((x : NodeId) → x ≢ id → t'.nodes x ≡ t.nodes x))
        (update id patch t)
update-IsWellFormed t id n patch well at = rw (update-updated t id n patch at) (
    returns (
      patched-IsWellFormed t id n patch at well,
      λ m h. rw (at_id t id n m patch h) (patch-IsPatched patch n),
      λ x ne. off_id t id x n patch ne,
    ))
