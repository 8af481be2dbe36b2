-- ===== src/Tree/Render/Html.antt =====
-- The renderer against its reading of a forest of elements.
use Prim.Native.Nat.add
use mathlib.Core.List.{append_assoc, append-nil}
use lovely_rs.Base.{
  ℕ, suc, ◌+◌, ◌-◌, ◌<◌, ◌≤◌, ◌≡◌, refl, ◌∙◌, inl, inr, Option, some, List, [], ◌∷◌, ◌++◌, map,
  arith, if◌then◌else◌, length, Text, codes, Bool-cases,
}
use lovely_rs.Tree.Errors.{NodeId}
use lovely_rs.Tree.Tags.{name, is_text, is_body}
use lovely_rs.Tree.Arena.Monad.{Node, Nodes}
use lovely_rs.Tree.Forest.{Forest, nil, tree, Stands, roots, collect-roots}
use lovely_rs.Tree.Iter.{collect_children}
use lovely_rs.Tree.Render.{
  is_void, escape_opt, open_tag, close_tag, opening, closing, Step, open_node, render_loop,
  render_subtree,
}

-- The text of an element around the text of its children.
unfoldable pub element : Node → Text → Text
element n inner =
    if is_text n.tag
    then escape_opt n.text
    else if is_body n.tag
    then inner
    else if is_void n.tag
    then open_tag n ++ codes " />"
    else open_tag n ++ codes ">" ++ inner ++ close_tag (name n.tag)

-- The HTML of a forest, by recursion on it.
unfoldable pub html : Forest → Text
unfolding element
html nil = []
html (tree id n kids sibs) = element n (html kids) ++ html sibs

-- The rounds that the renderer makes.
abbrev inner_steps : Node → ℕ → ℕ
inner_steps n k =
    if is_text n.tag then 0 else if is_body n.tag then k else if is_void n.tag then 0 else suc k

unfoldable pub steps : Forest → ℕ
steps nil = 0
steps (tree id n kids sibs) = suc (inner_steps n (steps kids) + steps sibs)

length-roots : (f : Forest) → length (roots f) ≤ steps f
unfolding steps
length-roots nil = omega arith
length-roots (tree id n kids sibs) = omega (arith, length-roots sibs)

module _ (nodes : Nodes) where
  open_round :
      (m : ℕ) (id : NodeId) (n : Node) (stack : List Step) (out : Text)
      → nodes id ≡ some n
      → render_loop (suc m) nodes (opening id ∷ stack) out
        ≡ open_node n (collect_children m nodes n.first_child) stack out (render_loop m nodes)
  unfolding render_loop
  open_round m id n stack out at = rw (at, render_loop)

  close_round :
      (m : ℕ) (tag : Text) (stack : List Step) (out : Text)
      → render_loop (suc m) nodes (closing tag ∷ stack) out
        ≡ render_loop m nodes stack (out ++ close_tag tag)
  unfolding render_loop
  close_round m tag stack out = refl

  -- A forest whose roots lie on the stack is written out, and then the loop goes on with the rest.
  abbrev Renders : Forest → Type 0
  Renders f =
      (k : ℕ) (stack : List Step) (out : Text)
      → render_loop (steps f + suc k) nodes (map opening (roots f) ++ stack) out
        ≡ render_loop (suc k) nodes stack (out ++ html f)

  node-Renders :
      (id : NodeId) (n : Node) (kids : Forest)
      → nodes id ≡ some n
      → Stands nodes n.first_child kids
      → Renders kids
      → (j : ℕ) (stack : List Step) (out : Text)
      → render_loop (suc (inner_steps n (steps kids) + suc j)) nodes (opening id ∷ stack) out
        ≡ render_loop (suc j) nodes stack (out ++ element n (html kids))
  unfolding open_node element
  node-Renders id n kids at down ih j stack out =
      rw (open_round (inner_steps n (steps kids) + suc j) id n stack out at)
        (elim (Bool-cases (is_text n.tag)) [
          | inl text ↦ rw text (rw add.zero)
          | inr other ↦ rw other (elim (Bool-cases (is_body n.tag)) [
            | inl body ↦ rw body (
                rw (found (steps kids + suc j) (omega (arith, length-roots kids))) (ih j stack out))
            | inr other' ↦ rw other' (elim (Bool-cases (is_void n.tag)) [
              | inl void ↦ rw void (rw add.zero (simp append_assoc))
              | inr plain ↦ rw plain (
                  rw (found (suc (steps kids) + suc j) (omega (arith, length-roots kids))) (
                    rw (later j) (
                      ih (suc j) (closing (name n.tag) ∷ stack) (out ++ open_tag n ++ codes ">")
                      ∙ close_round (suc j) (name n.tag) stack _
                      ∙ (simp append_assoc))))
            ])
          ])
        ])
    where
      found :
          (m : ℕ)
          → length (roots kids) < m
          → collect_children m nodes n.first_child ≡ some (roots kids)
      found m l = collect-roots m nodes n.first_child kids down l

      later : (j : ℕ) → suc (steps kids) + suc j ≡ steps kids + suc (suc j)
      later j = omega arith

  render_loop-html : (f : Forest) (here : Option NodeId) → Stands nodes here f → Renders f
  unfolding steps html
  render_loop-html nil here h k stack out = rw (append-nil, add.zero)
  render_loop-html (tree id n kids sibs) here (e, at, down, along) k stack out =
      rw (regroup (inner_steps n (steps kids)) (steps sibs)) (
        node-Renders id n kids at down (render_loop-html kids n.first_child down) (steps sibs + k)
          (map opening (roots sibs) ++ stack) out
        ∙ rw (shift (steps sibs)) (
            render_loop-html sibs n.next_sibling along k stack (out ++ element n (html kids))
            ∙ (simp append_assoc)))
    where
      shift : (b : ℕ) → suc (b + k) ≡ b + suc k
      shift b = omega arith

      regroup : (a b : ℕ) → suc (a + b) + suc k ≡ suc (a + suc (b + k))
      regroup a b = omega arith

render_done : (nodes : Nodes) (k : ℕ) (out : Text) → render_loop (suc k) nodes [] out ≡ some out
unfolding render_loop
render_done nodes k out = refl

-- The rounds for a subtree, the last of them for the empty stack.
abbrev pub rounds : Node → Forest → ℕ
rounds n kids = suc (suc (inner_steps n (steps kids)))

-- With at least so many rounds of fuel, the renderer writes the HTML of the subtree of `root`, whose
-- links below the root stand for the forest `kids`, and nothing of the siblings of `root`.
pub render_subtree-html :
    (fuel : ℕ) (nodes : Nodes) (root : NodeId) (n : Node) (kids : Forest)
    → nodes root ≡ some n
    → Stands nodes n.first_child kids
    → rounds n kids ≤ fuel
    → render_subtree fuel nodes root ≡ some (element n (html kids))
unfolding render_subtree
render_subtree-html fuel nodes root n kids at down enough =
    rw (split fuel (inner_steps n (steps kids)) enough) (
      node-Renders nodes root n kids at down (render_loop-html nodes kids n.first_child down)
        (fuel - rounds n kids) [] []
      ∙ render_done nodes (fuel - rounds n kids) (element n (html kids)))
  where
    split : (f r : ℕ) → suc (suc r) ≤ f → f ≡ suc (r + suc (f - suc (suc r)))
    split f r h = omega arith
