-- ===== src/Tree/Arena/Monad.antt =====
-- The state of the tree, and the commands that read and write it. A command that fails keeps the
-- writes that it has made, as a method on `&mut self` does that returns `Err`.
use lovely_rs.Base.{ℕ, Option, none, some, ◌==◌, if◌then◌else◌, Text}
use lovely_rs.Tree.Errors.{Uuid, NodeId, TreeError}
use lovely_rs.Tree.Tags.{ElementTag}
use lovely_rs.Tree.Attrs.{AttrList}

-- `Node`.
pub record Node : Type 0 where
  pub uuid : Uuid
  pub tag : ElementTag
  pub attrs : AttrList
  pub text : Option Text
  pub parent : Option NodeId
  pub first_child : Option NodeId
  pub last_child : Option NodeId
  pub prev_sibling : Option NodeId
  pub next_sibling : Option NodeId

abbrev pub Nodes : Type 0
Nodes = NodeId → Option Node

-- `Tree`.
pub record Tree : Type 0 where
  pub nodes : Nodes
  pub root : NodeId
  pub by_uuid : Uuid → Option NodeId

-- A map with one entry written or cleared.
abbrev pub write {ℓ} : {A : Type ℓ} → (ℕ → Option A) → ℕ → Option A → ℕ → Option A
write f k v j = if j == k then v else f j

-- The result of a command. `panic` is an index of the slot map by a key that is not live, or a
-- failed `expect`.
pub data Run (A : Type 0) : Type 0 where
  done : A → Tree → Run A
  fail : TreeError → Tree → Run A
  panic : Run A
  out_of_fuel : Run A

abbrev pub Cmd : Type 0 → Type 0
Cmd A = Tree → Run A

abbrev pub pure : {A : Type 0} → A → Cmd A
pure = done

abbrev pub throw : {A : Type 0} → TreeError → Cmd A
throw = fail

module _ {A B : Type 0} where
  abbrev pub and_then : Run A → (A → Cmd B) → Run B
  and_then (done a t) k = k a t
  and_then (fail e t) k = fail e t
  and_then panic k = panic
  and_then out_of_fuel k = out_of_fuel

  infixl 5 ◌>>=◌ ◌>>◌
  abbrev pub ◌>>=◌ : Cmd A → (A → Cmd B) → Cmd B
  m >>= k = λ t. and_then (m t) k

  abbrev pub ◌>>◌ : Cmd A → Cmd B → Cmd B
  m >> k = m >>= λ _. k

-- `ok_or(e)?`.
abbrev pub ok_or : {A : Type 0} → Option A → TreeError → Cmd A
ok_or none e = fail e
ok_or (some a) e = done a

abbrev pub expect : {A : Type 0} → Option A → Tree → Run A
expect none t = panic
expect (some a) t = done a t

-- `self.nodes.get(id)`, and `self.nodes[id]` read and written.
abbrev pub get : NodeId → Cmd (Option Node)
get id t = done (t.nodes id) t

abbrev pub index : NodeId → Cmd Node
index id t = expect (t.nodes id) t

abbrev pub root : Cmd NodeId
root t = done t.root t

abbrev store : NodeId → Node → Cmd (Unit {0})
store id n t = done tt (record t { nodes = write t.nodes id (some n) })

unfoldable pub modify : NodeId → (Node → Node) → Cmd (Unit {0})
modify id f = do n ← index id; store id (f n)

abbrev pub set_parent : NodeId → Option NodeId → Cmd (Unit {0})
set_parent id v = modify id (λ n. record n { parent = v })

abbrev pub set_first_child : NodeId → Option NodeId → Cmd (Unit {0})
set_first_child id v = modify id (λ n. record n { first_child = v })

abbrev pub set_last_child : NodeId → Option NodeId → Cmd (Unit {0})
set_last_child id v = modify id (λ n. record n { last_child = v })

abbrev pub set_prev_sibling : NodeId → Option NodeId → Cmd (Unit {0})
set_prev_sibling id v = modify id (λ n. record n { prev_sibling = v })

abbrev pub set_next_sibling : NodeId → Option NodeId → Cmd (Unit {0})
set_next_sibling id v = modify id (λ n. record n { next_sibling = v })
