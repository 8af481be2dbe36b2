-- ===== src/Tree/Tests.antt =====
-- Runs on a small page: a `div` with a paragraph in it.

use lovely_rs.Base.{
  ◌↔◌, true, false, ◌≡◌, ◌≢◌, refl, ◌↔◌, ◌≤◌, inl, none, some, [], ◌∷◌, codes, arith, length,
}
use lovely_rs.Tree.Errors.{NodeId, ok, Uuid, would_cycle}
use lovely_rs.Tree.Tags.{ElementTag, name, from_name}
use lovely_rs.Tree.Tags
use lovely_rs.Tree.Attrs
use lovely_rs.Tree.Attrs.{AttrName, from_server_trusted}
use lovely_rs.Tree.Attrs.Grammar.{IsName, IsDenied, new_iff}
use lovely_rs.Tree.Arena.Monad.{Node, Tree, done, fail}
use lovely_rs.Tree.Arena.Ops.{
  NewNode, NodePatch, node_of, root_node, new, append_child, insert_before, insert_after, detach,
  before, after, check_cycle, move_to, update,
}
use lovely_rs.Tree.Arena.Links.{splice}
use lovely_rs.Tree.Arena.Insert.{IsWellFormed, inserted}
use lovely_rs.Tree.Arena.Keep.{
  Returns, inserted-IsWellFormed, last-IsPlace, append_child-IsWellFormed,
  insert_before-IsWellFormed, insert_after-IsWellFormed,
}
use lovely_rs.Tree.Arena.Children.{HasChildren}
use lovely_rs.Tree.Arena.Order.{
  IsInserted, append_child-IsInserted, insert_before-IsInserted, insert_after-IsInserted,
}
use lovely_rs.Tree.Arena.Detach.{unsplice, detach-unsplice}
use lovely_rs.Tree.Arena.Refusals.{IsDecided, Refuses, insertions-IsDecided}
use lovely_rs.Tree.Arena.Moves.{
  IsUnder, IsLineage, IsUnder-mem, check_cycle-ancestors, Fails, IsLost, move_to-IsLost,
}
use lovely_rs.Tree.Arena.Update.{new-IsWellFormed, IsPatched, update-IsWellFormed}
use lovely_rs.Tree.Forest.{Forest, nil, tree}
use lovely_rs.Tree.Iter.{ancestors_from, descendants}
use lovely_rs.Tree.Iter.Preorder.{descendants-preorder, preorder}
use lovely_rs.Tree.Render.{open_tag, close_tag, escape, render_subtree, is_void}
use lovely_rs.Tree.Render.Escape.{unescape, unescape-escape}
use lovely_rs.Tree.Render.Html.{element, html, render_subtree-html, steps}

abbrev made : Uuid → ElementTag → NewNode
made u tag = record { uuid = u; tag = tag; attrs = []; text = none }

abbrev page : Tree
page = new 10 100 ElementTag.div

abbrev paragraph : NewNode
paragraph = made 101 ElementTag.p

-- The page with the paragraph, whose key is 11.
abbrev filled : Tree
filled = inserted page 11 paragraph 10 none none

page-IsWellFormed : IsWellFormed page
page-IsWellFormed = new-IsWellFormed 10 100 ElementTag.div

page-kids : HasChildren page.nodes 10 []
unfolding new
page-kids = record { chain = (refl, refl); distinct = tt }

filled-IsWellFormed : IsWellFormed filled
unfolding new
filled-IsWellFormed =
    inserted-IsWellFormed page 11 paragraph page-IsWellFormed refl refl 10 none none
      (last-IsPlace {nodes = page.nodes} page-IsWellFormed.linked 10 refl)

filled-kids : HasChildren filled.nodes 10 (11 ∷ [])
unfolding new splice
filled-kids = record { chain = (refl, refl, refl, (refl, refl)); distinct = (refl, tt) }

abbrev href : AttrName
href = record { text = codes "href" }

new_attr_example : (Attrs.new (codes "href") ≡ ok href) ↔ (
    (href.text ≡ codes "href")
    × IsName (codes "href")
    × (length (codes "href") ≤ 64)
    × ¬ IsDenied (codes "href"))
new_attr_example = new_iff (codes "href") href

append_example :
    Returns
      (λ id t'. (id ≡ 11) × IsInserted page.nodes t'.nodes 11 10 (11 ∷ []))
      (append_child 11 10 paragraph page)
unfolding new
append_example =
    append_child-IsInserted page 11 paragraph page-IsWellFormed refl refl 10 [] refl page-kids

before_example :
    Returns
      (λ id t'. (id ≡ 12) × IsInserted filled.nodes t'.nodes 12 10 (12 ∷ 11 ∷ []))
      (insert_before 12 11 (made 102 ElementTag.h1) filled)
unfolding new splice
before_example =
    insert_before-IsInserted filled 12 (made 102 ElementTag.h1) filled-IsWellFormed refl refl 11 10
      [] [] filled-kids

after_example :
    Returns
      (λ id t'. (id ≡ 12) × IsInserted filled.nodes t'.nodes 12 10 (11 ∷ 12 ∷ []))
      (insert_after 12 11 (made 102 ElementTag.h1) filled)
unfolding new splice
after_example =
    insert_after-IsInserted filled 12 (made 102 ElementTag.h1) filled-IsWellFormed refl refl 11 10
      [] [] filled-kids

append_well_example :
    Returns (λ id t'. (id ≡ 11) × IsWellFormed t') (append_child 11 10 paragraph page)
unfolding new
append_well_example =
    append_child-IsWellFormed page 11 paragraph page-IsWellFormed refl refl 10 refl

before_well_example :
    Returns
      (λ id t'. (id ≡ 12) × IsWellFormed t')
      (insert_before 12 11 (made 102 ElementTag.h1) filled)
unfolding new splice
before_well_example =
    insert_before-IsWellFormed filled 12 (made 102 ElementTag.h1) filled-IsWellFormed refl refl 11
      10 refl

after_well_example :
    Returns
      (λ id t'. (id ≡ 12) × IsWellFormed t')
      (insert_after 12 11 (made 102 ElementTag.h1) filled)
unfolding new splice
after_well_example =
    insert_after-IsWellFormed filled 12 (made 102 ElementTag.h1) filled-IsWellFormed refl refl 11 10
      refl

errors_example :
    IsDecided filled 12
      (Refuses filled 77 102 false)
      (append_child 12 77 (made 102 ElementTag.h1) filled)
    × IsDecided filled 12
        (Refuses filled 77 102 true)
        (insert_before 12 77 (made 102 ElementTag.h1) filled)
    × IsDecided filled 12
        (Refuses filled 77 102 true)
        (insert_after 12 77 (made 102 ElementTag.h1) filled)
unfolding new splice
errors_example = insertions-IsDecided filled 12 77 (made 102 ElementTag.h1) filled-IsWellFormed refl

abbrev placed_node : Node
placed_node = node_of paragraph (some 10) none none

detach_example :
    detach 11 filled ≡ done tt (record filled { nodes = unsplice filled.nodes 11 placed_node })
unfolding new splice
detach_example = detach-unsplice filled filled-IsWellFormed.linked 11 10 placed_node refl refl

abbrev lineage : IsLineage filled.nodes (some 11) (11 ∷ 10 ∷ [])
unfolding new splice
lineage = (refl, refl, (refl, refl, refl))

cycle_example :
    (ancestors_from 5 filled.nodes (some 11) ≡ some (11 ∷ 10 ∷ []))
    × ((check_cycle 5 10 11 (some 11) filled ≡ fail (would_cycle 10 11) filled)
        ↔ IsUnder filled.nodes 10 11)
    × ((check_cycle 5 10 11 (some 11) filled ≡ done tt filled) ↔ (¬ IsUnder filled.nodes 10 11))
unfolding new splice
cycle_example = check_cycle-ancestors 5 filled 10 11 (11 ∷ 10 ∷ []) lineage (omega arith)

abbrev root_lineage : IsLineage filled.nodes (some 10) (10 ∷ [])
unfolding new splice
root_lineage = (refl, refl, refl)

root_apart : ¬ IsUnder filled.nodes 11 10
unfolding new splice
root_apart h = let found = IsUnder-mem filled.nodes 11 10 (10 ∷ []) h root_lineage in ground arith

move_example :
    Fails (λ e t'. IsLost 11 t' × ¬ IsWellFormed t') (move_to 5 11 10 (before 77) filled)
    × Fails (λ e t'. IsLost 11 t' × ¬ IsWellFormed t') (move_to 5 11 10 (after 77) filled)
unfolding new splice
move_example =
    move_to-IsLost 5 filled 11 10 77 filled-IsWellFormed (λ e. ground arith) refl refl (10 ∷ [])
      root_lineage (omega arith) root_apart (inl refl)

abbrev patch : NodePatch
patch = record { attrs = none; text = none; tag = some ElementTag.h1 }

update_example :
    Returns
      (λ _ t'.
        IsWellFormed t'
        × ((m : Node) → t'.nodes 11 ≡ some m → IsPatched patch placed_node m)
        × ((x : NodeId) → x ≢ 11 → t'.nodes x ≡ filled.nodes x))
      (update 11 patch filled)
unfolding new splice
update_example = update-IsWellFormed filled 11 placed_node patch filled-IsWellFormed refl

abbrev top : Node
top = record (root_node 100 ElementTag.div) { first_child = some 11; last_child = some 11 }

abbrev inside : Forest
inside = tree 11 placed_node nil nil

preorder_example : descendants 5 filled.nodes 10 ≡ some (preorder inside)
unfolding new splice
preorder_example =
    descendants-preorder 5 filled.nodes 10 top inside refl (refl, refl, refl, refl) (omega arith)

render_example : render_subtree 9 filled.nodes 10 ≡ some (element top (html inside))
unfolding new splice steps is_void Tags.is_text Tags.is_body
render_example =
    render_subtree-html 9 filled.nodes 10 top inside refl (refl, refl, refl, refl) (omega arith)

html_example : html inside ≡ codes "<p></p>"
unfolding html Tags.is_text Tags.is_body is_void open_tag name close_tag
html_example = refl

unescape_example : unescape 0 (escape (codes "a<b")) ≡ codes "a<b"
unescape_example = unescape-escape (codes "a<b")
