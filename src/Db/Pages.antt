-- ===== src/Db/Pages.antt =====
-- crates/lovely-db/src/{users,apps,pages}.rs: the rows of users, apps and pages, and the queries
-- that the page handlers use. What Postgres chooses, identifiers and times, is an argument.
use lovely_rs.Base.{
  ℕ, Option, none, some, Bool, true, false, not, ◌&&◌, ◌||◌, List, [], ◌∷◌, ◌++◌, ◌==◌, any,
  if◌then◌else◌, Text, text_eq,
}
use lovely_rs.Tree.Errors.{Uuid}
use lovely_rs.Tree.Build.Rows.{Json, object, end}
use lovely_rs.Db.Errors.{DbResult, ok, err, sqlx, conflict}
use lovely_rs.Db.Elements.{InsertElement, inserted_row}
use lovely_rs.Db.Revisions.{Store, Revision, snapshot_page, delete_page_rows}

pub record User : Type 0 where
  pub id : Uuid
  pub username : Text
  pub email : Option Text
  pub password_hash : Option Text
  pub totp_secret : Option Text
  pub role : Text
  pub public_published_at : Option ℕ
  pub created_at : ℕ
  pub updated_at : ℕ

pub record App : Type 0 where
  pub id : Uuid
  pub slug : Text
  pub name : Text
  pub description : Option Text
  pub owner_id : Uuid
  pub is_default : Bool
  pub theme_json : Json
  pub published_at : Option ℕ
  pub created_at : ℕ
  pub updated_at : ℕ

-- `Page`, but for `root_element`, which stands in the `PageRow` of the page.
pub record Page : Type 0 where
  pub id : Uuid
  pub app_id : Uuid
  pub slug : Text
  pub title : Text
  pub description : Option Text
  pub author_id : Uuid
  pub published_at : Option ℕ
  pub head_html : Text
  pub password_hash : Option Text
  pub unlisted : Bool
  pub created_at : ℕ
  pub updated_at : ℕ

pub record Tables : Type 0 where
  pub users : List User
  pub apps : List App
  pub pages : List Page
  pub store : Store

unfoldable pub find_user_by_username : Text → List User → Option User
find_user_by_username name [] = none
find_user_by_username name (u ∷ users) =
    if text_eq u.username name then some u else find_user_by_username name users

unfoldable pub find_app_by_owner_and_slug : Uuid → Text → List App → Option App
find_app_by_owner_and_slug owner slug [] = none
find_app_by_owner_and_slug owner slug (a ∷ apps) =
    if (a.owner_id == owner) && text_eq a.slug slug
    then some a
    else find_app_by_owner_and_slug owner slug apps

unfoldable pub find_default_app_for_owner : Uuid → List App → Option App
find_default_app_for_owner owner [] = none
find_default_app_for_owner owner (a ∷ apps) =
    if (a.owner_id == owner) && a.is_default then some a else find_default_app_for_owner owner apps

unfoldable pub find_page_by_app_and_slug : Uuid → Text → List Page → Option Page
find_page_by_app_and_slug app slug [] = none
find_page_by_app_and_slug app slug (p ∷ pages) =
    if (p.app_id == app) && text_eq p.slug slug
    then some p
    else find_page_by_app_and_slug app slug pages

pub record NewPage : Type 0 where
  pub app_id : Uuid
  pub slug : Text
  pub title : Text
  pub description : Option Text
  pub author_id : Uuid
  pub root_tag : Text

-- The identifiers and the time of a transaction.
pub record Fresh : Type 0 where
  pub page_id : Uuid
  pub element_id : Uuid
  pub now : ℕ

abbrev pub page_of : Fresh → NewPage → Page
page_of f new = record {
  id = f.page_id;
  app_id = new.app_id;
  slug = new.slug;
  title = new.title;
  description = new.description;
  author_id = new.author_id;
  published_at = none;
  head_html = [];
  password_hash = none;
  unlisted = false;
  created_at = f.now;
  updated_at = f.now;
}

abbrev pub root_of : Fresh → NewPage → InsertElement
root_of f new = record {
  page_id = f.page_id;
  parent_id = none;
  prev_sibling = none;
  tag = new.root_tag;
  attrs = object end;
  payload = object end;
}

-- What the transaction of `create_page` leaves in the tables of elements and of pages.
unfoldable pub with_page : Fresh → NewPage → Store → Store
with_page f new s = record s {
  elements = s.elements ++ inserted_row f.element_id f.now (root_of f new) ∷ [];
  pages = λ p.
      if p == f.page_id
      then some (record { root_element = some f.element_id; revision_cursor = none })
      else s.pages p;
}

abbrev pub unique_key : NewPage → Page → Bool
unique_key new p = (p.app_id == new.app_id) && text_eq p.slug new.slug

module _ (uuid_text time_text : ℕ → Text) where
  abbrev pub baseline :
      Fresh → NewPage → Tables → DbResult (ℕ × Store) → DbResult ((Page × Uuid) × Tables)
  baseline f new t (err e) = err e
  baseline f new t (ok (seq, s)) =
      ok (
        (page_of f new, f.element_id),
        record t { pages = t.pages ++ page_of f new ∷ []; store = s },
      )

  -- `create_page`, with the keys of the table: an app, an author, and no other page of the app
  -- with the slug.
  unfoldable pub create_page : Fresh → NewPage → Tables → DbResult ((Page × Uuid) × Tables)
  unfolding with_page snapshot_page
  create_page f new t =
      if any (unique_key new) t.pages
      then err conflict
      else if not (any (λ a. a.id == new.app_id) t.apps)
          || not (any (λ u. u.id == new.author_id) t.users)
      then err sqlx
      else baseline f new t (snapshot_page uuid_text time_text f.page_id (with_page f new t.store))

pub record PagePatch : Type 0 where
  pub title : Option Text
  pub description : Option (Option Text)
  pub publish : Option Bool

abbrev coalesce : {A : Type 0} → Option A → A → A
coalesce none old = old
coalesce (some new) old = new

abbrev published : (now : ℕ) → Option Bool → Option ℕ → Option ℕ
published now none old = old
published now (some true) old = some now
published now (some false) old = none

unfoldable pub patch_page : (now : ℕ) → PagePatch → Page → Page
patch_page now patch p = record p {
  title = coalesce patch.title p.title;
  description = coalesce patch.description p.description;
  published_at = published now patch.publish p.published_at;
  updated_at = now;
}

-- An UPDATE of the page with an identifier, which is a primary key.
unfoldable pub update_where : Uuid → (Page → Page) → List Page → List Page
update_where id f [] = []
update_where id f (p ∷ pages) =
    let rest = update_where id f pages in if p.id == id then f p ∷ rest else p ∷ rest

unfoldable pub find_page_by_id : Uuid → List Page → Option Page
find_page_by_id id [] = none
find_page_by_id id (p ∷ pages) = if p.id == id then some p else find_page_by_id id pages

abbrev pub patched : Option Page → Tables → DbResult (Page × Tables)
patched none t = err sqlx
patched (some p) t = ok (p, t)

-- `update_page`; `fetch_one` fails where no page has the identifier.
unfoldable pub update_page : (now : ℕ) → Uuid → PagePatch → Tables → DbResult (Page × Tables)
unfolding patch_page update_where find_page_by_id
update_page now id patch t =
    let pages = update_where id (patch_page now patch) t.pages in
    patched (find_page_by_id id pages) (record t { pages = pages })

unfoldable pub update_page_head : (now : ℕ) → Uuid → Text → Tables → Tables
unfolding update_where
update_page_head now id head_html t = record t {
  pages = update_where id (λ p. record p { head_html = head_html; updated_at = now }) t.pages;
}

unfoldable pub update_page_access : (now : ℕ) → Uuid → Option Text → Bool → Tables → Tables
unfolding update_where
update_page_access now id password_hash unlisted t = record t {
  pages =
      update_where id
        (λ p. record p { password_hash = password_hash; unlisted = unlisted; updated_at = now })
        t.pages;
}

unfoldable pub drop_page : Uuid → List Page → List Page
drop_page id [] = []
drop_page id (p ∷ pages) = let rest = drop_page id pages in if p.id == id then rest else p ∷ rest

unfoldable pub drop_revisions : Uuid → List Revision → List Revision
drop_revisions id [] = []
drop_revisions id (v ∷ revisions) =
    let rest = drop_revisions id revisions in if v.page_id == id then rest else v ∷ rest

-- `delete_page`: the elements and the revisions of the page go with it (`ON DELETE CASCADE`).
unfoldable pub delete_page : Uuid → Tables → Tables
unfolding drop_page drop_revisions delete_page_rows
delete_page id t =
    let cleared = delete_page_rows id t.store in
    record t {
      pages = drop_page id t.pages;
      store = record cleared {
        pages = λ p. if p == id then none else cleared.pages p;
        revisions = drop_revisions id cleared.revisions;
      };
    }
