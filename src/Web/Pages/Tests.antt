-- ===== src/Web/Pages/Tests.antt =====
-- Runs of the page handlers.
use lovely_rs.Base.{
  ◌==◌, if◌then◌else◌, ℕ, ◌≡◌, ◌↔◌, ◌⊎◌, refl, Option, none, some, true, false, [], ◌∷◌, ◌++◌, Text,
  codes,
}
use lovely_rs.Tree.Build.Rows.{null}
use lovely_rs.Tree.Errors.{Uuid}
use lovely_rs.Db.Errors as Errors
use lovely_rs.Db.Elements.{inserted_row}
use lovely_rs.Db.Pages.{
  User, App, Page, NewPage, Fresh, Tables, find_page_by_app_and_slug, create_page, page_of, root_of,
  update_page_head,
}
use lovely_rs.Db.Revisions.{Store}
use lovely_rs.Db.Revisions.History
use lovely_rs.Db.Revisions.Moves.{IsShown, recorded}
use lovely_rs.Web.Pages.{Request}
use lovely_rs.Web.Pages.Head.{sanitize_head_html}
use lovely_rs.Web.Pages.Head.Laws.{before, sanitize-rejoins}
use lovely_rs.Web.Pages.Public.{render_public, resolve, content}
use lovely_rs.Web.Pages.Access.{IsOwner, IsOpen, render_public_iff}
use lovely_rs.Web.Pages.Create.{first_entry, create_page-IsShown}

rejoins_example :
    sanitize_head_html (codes "<scr<script></script>ipt>" ++ codes "alert(1)")
    ≡ before (codes "<script>") (sanitize_head_html (codes "alert(1)"))
rejoins_example = sanitize-rejoins (codes "alert(1)")

abbrev ann : User
ann = record {
  id = 1;
  username = codes "ann";
  email = none;
  password_hash = none;
  totp_secret = none;
  role = codes "user";
  public_published_at = none;
  created_at = 0;
  updated_at = 0;
}

abbrev shop : App
shop = record {
  id = 2;
  slug = codes "shop";
  name = codes "Shop";
  description = none;
  owner_id = 1;
  is_default = true;
  theme_json = null;
  published_at = none;
  created_at = 0;
  updated_at = 0;
}

abbrev about : Page
about = record {
  id = 3;
  app_id = 2;
  slug = codes "about";
  title = codes "About";
  description = none;
  author_id = 1;
  published_at = some 4;
  head_html = [];
  password_hash = none;
  unlisted = false;
  created_at = 0;
  updated_at = 0;
}

abbrev store : Store
store = record { elements = []; pages = λ p. none; revisions = []; last_seq = 0 }

abbrev tables : Tables
tables = record { users = ann ∷ []; apps = shop ∷ []; pages = about ∷ []; store = store }

abbrev request : Request
request = record {
  user = ann;
  app_slug = codes "shop";
  page_slug = codes "about";
  cookie = some (codes "t");
  _csrf = some (codes "t");
}

abbrev no_hash : Text → Option Text
no_hash s = none

abbrev saved_head : Tables
unfolding update_page_head
saved_head = update_page_head 9 3 (codes "<meta>") tables

abbrev one_char : ℕ → Text
one_char n = n ∷ []

abbrev no_cookies : Text → Option Text
no_cookies name = none

public_example :
    (render_public one_char no_cookies none
        (codes "ann")
        (some (codes "shop"))
        (codes "about")
        tables
      ≡ content ann shop about)
    ↔ ((resolve (codes "ann") (some (codes "shop")) tables ≡ some (ann, shop))
        × (find_page_by_app_and_slug 2 (codes "about") tables.pages ≡ some about)
        × (IsOwner none ann ⊎ IsOpen one_char no_cookies about))
public_example =
    render_public_iff one_char no_cookies none (codes "ann") (some (codes "shop")) (codes "about")
      tables ann shop about

abbrev fresh : Fresh
fresh = record { page_id = 7; element_id = 8; now = 5 }

abbrev blog : NewPage
blog = record {
  app_id = 2;
  slug = codes "blog";
  title = codes "Blog";
  description = none;
  author_id = 1;
  root_tag = codes "div";
}

log_empty : History.log 7 store.revisions ≡ []
unfolding History.log
log_empty = refl

create_example :
    (s : Store) × (create_page one_char one_char fresh blog tables
      ≡ Errors.ok (
        (page_of fresh blog, 8),
        record tables { pages = about ∷ page_of fresh blog ∷ []; store = s },
      ))
    × (s.elements ≡ inserted_row 8 5 (root_of fresh blog) ∷ [])
    × ((p : Uuid)
        → s.pages p ≡ (
            if p == 7
            then some (record { root_element = some 8; revision_cursor = some 1 })
            else none))
    × IsShown 7 (some (recorded (first_entry one_char one_char fresh blog tables log_empty) none)) s
create_example = create_page-IsShown one_char one_char fresh blog tables log_empty refl refl refl
