-- ===== src/Web/Elements.antt =====
-- crates/lovely-web/src/handlers/elements.rs, without the adding of children, wrapping and
-- duplicating, and the undo and redo of handlers/builder.rs. The statements of a handler are not one
-- transaction, but none of them fails behind one that wrote: the page and its row are there.
mod Tests
use lovely_rs.Base.{
  ℕ, ◌==◌, Option, none, some, Bool, true, false, not, List, ◌++◌, map, if◌then◌else◌, Text, codes,
  eq_opt,
}
use lovely_rs.Tree.Errors.{Uuid}
use lovely_rs.Tree.Tags.{from_name, is_text_tag}
use lovely_rs.Tree.Build.Rows as Rows
use lovely_rs.Tree.Build.Rows.{Json, object, string}
use lovely_rs.Db.Errors as Errors
use lovely_rs.Db.Errors.{DbResult}
use lovely_rs.Db.Elements.{
  ElementDbRow, InsertElement, insert_element, find_row, delete_element, update_element,
}
use lovely_rs.Db.Revisions.{Store, PageRow, Direction, snapshot_page, step}
use lovely_rs.Db.Pages.{App, Page, Tables, update_where}
use lovely_rs.Web.Errors.{bad_request, unprocessable, db}
use lovely_rs.Web.Pages.{
  Request, Answer, Response, done, failed, redirect, select, preview_stale, on_page, or_not_found,
  edit_path, token_of,
}

-- `is_valid_tag`.
unfoldable pub is_valid_tag : Text → Bool
unfolding from_name
is_valid_tag s = elim (from_name s) [ none ↦ false | some t ↦ true ]

pub data Position : Type 0 where
  before : Position
  after : Position

pub record AddSiblingForm : Type 0 where
  pub tag : Text
  pub text : Option Text

abbrev no_fields : Json
no_fields = object Rows.end

abbrev text_payload : Option Text → Json
text_payload text = object (Rows.field (codes "text") (string (token_of text)) Rows.end)

-- `SELECT .. FROM elements WHERE id = $1 AND page_id = $2`.
abbrev pub row_of_page : Uuid → Option ElementDbRow → Option ElementDbRow
row_of_page page none = none
row_of_page page (some r) = if r.page_id == page then some r else none

unfoldable pub find_on_page : (id page : Uuid) → List ElementDbRow → Option ElementDbRow
unfolding find_row
find_on_page id page rows = row_of_page page (find_row id rows)

abbrev previous : Position → ElementDbRow → Option Uuid
previous before target = target.prev_sibling
previous after target = some target.id

-- `UPDATE elements SET prev_sibling = $1 WHERE id = $2`.
abbrev link_target : (new_id target : Uuid) → Position → List ElementDbRow → List ElementDbRow
link_target new_id target after rows = rows
link_target new_id target before rows =
    map (λ r. if r.id == target then record r { prev_sibling = some new_id } else r) rows

-- The row of the new sibling.
unfoldable pub sibling_of : Page → ElementDbRow → AddSiblingForm → Position → InsertElement
unfolding is_text_tag
sibling_of page target f pos = record {
  page_id = page.id;
  parent_id = target.parent_id;
  prev_sibling = previous pos target;
  tag = f.tag;
  attrs = no_fields;
  payload = if is_text_tag f.tag then text_payload f.text else no_fields;
}

-- A foreign key of pages (`ON DELETE SET NULL` of `root_element`): what no longer exists is no root.
abbrev pub kept_root : List ElementDbRow → Option Uuid → Option Uuid
unfolding find_row
kept_root rows none = none
kept_root rows (some id) = elim (find_row id rows) [ none ↦ none | some r ↦ some id ]

abbrev pub forget_root : List ElementDbRow → Option PageRow → Option PageRow
forget_root rows none = none
forget_root rows (some p) = some (record p { root_element = kept_root rows p.root_element })

unfoldable pub after_delete : List ElementDbRow → Store → Store
after_delete rows s = record s { elements = rows; pages = λ page. forget_root rows (s.pages page) }

-- `UPDATE pages SET root_element = NULL, updated_at = now() WHERE id = $1`.
abbrev no_root : Option PageRow → Option PageRow
no_root none = none
no_root (some p) = some (record p { root_element = none })

abbrev root_of : Option PageRow → Option Uuid
root_of none = none
root_of (some p) = p.root_element

unfoldable pub clear_root : (now : ℕ) → (element : Uuid) → Page → Tables → Tables
unfolding update_where
clear_root now element page t =
    if eq_opt (some element) (root_of (t.store.pages page.id))
    then record t {
      pages = update_where page.id (λ p. record p { updated_at = now }) t.pages;
      store = record (t.store) {
        pages = λ id. if id == page.id then no_root (t.store.pages id) else t.store.pages id;
      };
    }
    else t

abbrev is_row : Option PageRow → Bool
is_row none = false
is_row (some p) = true

module _ (uuid_text time_text : ℕ → Text) where
  -- `snapshot_page(..).await?` and the response.
  abbrev snapshot_then : Response → Page → Tables → Store → Answer
  unfolding snapshot_page
  snapshot_then response page t s = elim (snapshot_page uuid_text time_text page.id s) [
    | Errors.ok r ↦ done response (record t { store = r.1 })
    | Errors.err e ↦ failed (db e)
  ]

  -- `hx_ok_select` for htmx, or the editor with the element.
  unfoldable pub selected : (is_htmx : Bool) → App → Page → Uuid → (tag : Text) → Response
  unfolding edit_path is_text_tag
  selected is_htmx app page id tag =
      if is_htmx
      then select id (if is_text_tag tag then codes "text" else codes "")
      else redirect (edit_path app page ++ (codes "?sel=" ++ uuid_text id))

  abbrev sibling_added :
      (is_htmx : Bool)
      → AddSiblingForm
      → Position
      → Tables
      → App
      → Page
      → ElementDbRow
      → DbResult (ElementDbRow × List ElementDbRow)
      → Answer
  unfolding snapshot_then selected
  sibling_added is_htmx f pos t app page target (Errors.err e) = failed (db e)
  sibling_added is_htmx f pos t app page target (Errors.ok (row, rows)) =
      snapshot_then (selected is_htmx app page row.id f.tag) page t
        (record (t.store) { elements = link_target row.id target.id pos rows })

  -- `add_sibling`.
  unfoldable pub add_sibling :
      (new_id now : ℕ)
      → (is_htmx : Bool) → (target : Uuid) → AddSiblingForm
      → Position
      → Request
      → Tables
      → Answer
  unfolding on_page is_valid_tag find_on_page insert_element sibling_of sibling_added
  add_sibling new_id now is_htmx target f pos r t = on_page r t (λ app page.
      if not (is_valid_tag f.tag)
      then failed (bad_request (codes "unknown tag: " ++ f.tag))
      else or_not_found (find_on_page target page.id t.store.elements) (λ row.
        sibling_added is_htmx f pos t app page row (
          insert_element new_id now (λ p. is_row (t.store.pages p)) (sibling_of page row f pos)
            t.store.elements)))

  unfoldable pub post_add_before :
      (new_id now : ℕ)
      → (is_htmx : Bool) → (target : Uuid) → AddSiblingForm
      → Request
      → Tables
      → Answer
  unfolding add_sibling
  post_add_before new_id now is_htmx target f r t =
      add_sibling new_id now is_htmx target f before r t

  unfoldable pub post_add_after :
      (new_id now : ℕ)
      → (is_htmx : Bool) → (target : Uuid) → AddSiblingForm
      → Request
      → Tables
      → Answer
  unfolding add_sibling
  post_add_after new_id now is_htmx target f r t = add_sibling new_id now is_htmx target f after r t

  -- `post_delete_element`. The element may be of any page.
  unfoldable pub post_delete_element :
      (now : ℕ) → (is_htmx : Bool) → (element : Uuid) → Request → Tables → Answer
  unfolding on_page clear_root delete_element after_delete snapshot_then edit_path
  post_delete_element now is_htmx element r t = on_page r t (λ app page.
      let cleared = clear_root now element page t in
      snapshot_then (if is_htmx then preview_stale else redirect (edit_path app page)) page cleared
        (after_delete (delete_element element now t.store.elements).1 cleared.store))

abbrev updated : Tables → App → Page → Option (ElementDbRow × List ElementDbRow) → Answer
unfolding edit_path
updated t app page none = failed (db Errors.sqlx)
updated t app page (some (row, rows)) =
    done (redirect (edit_path app page)) (record t { store = record (t.store) { elements = rows } })

-- `post_update_element`: the text of a text node.
unfoldable pub post_update_element :
    (now : ℕ) → (element : Uuid) → (text : Option Text) → Request → Tables → Answer
unfolding on_page find_on_page is_text_tag update_element updated
post_update_element now element text r t = on_page r t (λ app page.
    or_not_found (find_on_page element page.id t.store.elements) (λ row.
      if not (is_text_tag row.tag)
      then failed
          (unprocessable (codes "Text content lives on `#text` child elements, not on the parent."))
      else updated t app page (
          update_element element now
            (record { tag = none; attrs = none; payload = some (text_payload text) })
            t.store.elements)))

-- `step_revision`, of `post_undo` and `post_redo`.
unfoldable pub step_revision :
    (parse_uuid : Text → Option Uuid) → (now : ℕ) → Direction → Request → Tables → Answer
unfolding on_page step
step_revision parse_uuid now dir r t = on_page r t (λ app page.
    elim (step parse_uuid page.id now dir t.store) [
      | Errors.ok res ↦ done preview_stale (record t { store = res.1 })
      | Errors.err e ↦ failed (db e)
    ])
