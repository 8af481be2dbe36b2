-- ===== src/Web/Elements/Tests.antt =====
-- A deletion by the author of another page.
use lovely_rs.Base.{
  ℕ, ◌≡◌, refl, Option, none, some, true, false, List, [], ◌∷◌, ◌==◌, if◌then◌else◌, Text, bytes,
  codes,
}
use lovely_rs.Tree.Build.Rows.{null}
use lovely_rs.Db.Elements.{ElementDbRow}
use lovely_rs.Db.Pages.{User, App, Page, Tables}
use lovely_rs.Web.Pages.{Request, Answer, done, failed, panicked}
use lovely_rs.Web.Elements.{post_delete_element}

abbrev ann : User
ann = record {
  id = 1;
  username = codes "ann";
  email = none;
  password_hash = none;
  totp_secret = none;
  role = codes "user";
  public_published_at = none;
  created_at = 0;
  updated_at = 0;
}

abbrev shop : App
shop = record {
  id = 2;
  slug = codes "shop";
  name = codes "Shop";
  description = none;
  owner_id = 1;
  is_default = true;
  theme_json = null;
  published_at = none;
  created_at = 0;
  updated_at = 0;
}

abbrev about : Page
about = record {
  id = 3;
  app_id = 2;
  slug = codes "about";
  title = codes "About";
  description = none;
  author_id = 1;
  published_at = none;
  head_html = [];
  password_hash = none;
  unlisted = false;
  created_at = 0;
  updated_at = 0;
}

-- An element of page 5, which is not of Ann.
abbrev foreign : ElementDbRow
foreign = record {
  id = 9;
  page_id = 5;
  parent_id = none;
  prev_sibling = none;
  tag = codes "div";
  attrs = null;
  payload = null;
  created_at = 0;
  updated_at = 0;
}

abbrev tables : Tables
tables = record {
  users = ann ∷ [];
  apps = shop ∷ [];
  pages = about ∷ [];
  store = record {
    elements = foreign ∷ [];
    pages = λ id.
        if id == 3 then some (record { root_element = none; revision_cursor = none }) else none;
    revisions = [];
    last_seq = 0;
  };
}

abbrev request : Request
request = record {
  user = ann;
  app_slug = codes "shop";
  page_slug = codes "about";
  cookie = some (codes "t");
  _csrf = some (codes "t");
}

abbrev elements_left : Answer → Option (List ElementDbRow)
elements_left (done response t) = some (t.store.elements)
elements_left (failed e) = none
elements_left panicked = none

abbrev no_text : ℕ → Text
no_text n = []

deletes_foreign :
    elements_left (post_delete_element no_text no_text 1 true 9 request tables) ≡ some []
unfolding post_delete_element bytes
deletes_foreign = refl
