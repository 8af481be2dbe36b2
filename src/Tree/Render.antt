-- ===== src/Tree/Render.antt =====
-- crates/lovely-tree/src/render.rs: the renderer, a loop over a stack of steps.
pub mod Escape
pub mod Html
pub mod Markup
use lovely_rs.Base.{
  ℕ, zero, suc, ◌≡◌, refl, Option, none, some, List, [], ◌∷◌, ◌++◌, Bool, true, false, ◌==◌, map,
  if◌then◌else◌, Text, codes,
}
use lovely_rs.Tree.Errors.{NodeId}
use lovely_rs.Tree.Tags.{ElementTag, name, is_text, is_body}
use lovely_rs.Tree.Attrs.{AttrName, AttrList}
use lovely_rs.Tree.Arena.Monad.{Node, Nodes}
use lovely_rs.Tree.Iter.{collect_children}

-- `is_void`.
unfoldable pub is_void : ElementTag → Bool
is_void ElementTag.img = true
is_void ElementTag.br = true
is_void ElementTag.hr = true
is_void ElementTag.input = true
is_void _ = false

-- One character of `push_escaped`.
unfoldable pub escape_char : ℕ → Text
escape_char c =
    if c == b'&'
    then codes "&amp;"
    else if c == b'<'
    then codes "&lt;"
    else if c == b'>'
    then codes "&gt;"
    else if c == b'"'
    then codes "&quot;"
    else if c == 0x27
    then codes "&#x27;"
    else c ∷ []

-- What `push_escaped` appends.
unfoldable pub escape : Text → Text
unfolding escape_char
escape [] = []
escape (c ∷ s) = escape_char c ++ escape s

unfoldable pub escape_opt : Option Text → Text
unfolding escape
escape_opt none = []
escape_opt (some t) = escape t

unfoldable pub attr_text : AttrList → Text
unfolding escape
attr_text [] = []
attr_text ((n, value) ∷ attrs) =
    (codes " " ++ n.text ++ codes "=\"" ++ escape value ++ codes "\"") ++ attr_text attrs

-- `<`, the name and the attributes.
unfoldable pub open_tag : Node → Text
unfolding attr_text
open_tag node = codes "<" ++ name node.tag ++ attr_text node.attrs

unfoldable pub close_tag : Text → Text
close_tag tag = codes "</" ++ tag ++ codes ">"

pub data Step : Type 0 where
  opening : NodeId → Step
  closing : Text → Step

-- The children of a node on top of the stack, the first uppermost.
abbrev pub push_children :
    Option (List NodeId) → List Step → (List Step → Option Text) → Option Text
push_children none stack go = none
push_children (some kids) stack go = go (map opening kids ++ stack)

-- The body of the loop for the step `Open` at a node: what it writes and how the loop goes on.
unfoldable pub open_node :
    Node → Option (List NodeId) → List Step → Text → (List Step → Text → Option Text) → Option Text
unfolding is_text is_body is_void escape_opt open_tag
open_node node kids stack out go =
    if is_text node.tag
    then go stack (out ++ escape_opt node.text)
    else if is_body node.tag
    then push_children kids stack (λ st. go st out)
    else if is_void node.tag
    then go stack (out ++ open_tag node ++ codes " />")
    else push_children kids (closing (name node.tag) ∷ stack)
        (λ st. go st (out ++ open_tag node ++ codes ">"))

-- The loop of `render_iter`, on fuel.
unfoldable pub render_loop : (fuel : ℕ) → Nodes → List Step → Text → Option Text
unfolding open_node collect_children close_tag
render_loop zero nodes stack out = none
render_loop (suc k) nodes [] out = some out
render_loop (suc k) nodes (closing tag ∷ stack) out =
    render_loop k nodes stack (out ++ close_tag tag)
render_loop (suc k) nodes (opening id ∷ stack) out = elim (nodes id) [
  | none ↦ render_loop k nodes stack out
  | some node ↦
      open_node node (collect_children k nodes node.first_child) stack out (render_loop k nodes)
]

-- `Tree::render_subtree`.
unfoldable pub render_subtree : (fuel : ℕ) → Nodes → NodeId → Option Text
unfolding render_loop
render_subtree fuel nodes root = render_loop fuel nodes (opening root ∷ []) []
