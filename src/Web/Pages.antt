-- ===== src/Web/Pages.antt =====
-- crates/lovely-web/src/handlers/pages.rs: the handlers of pages. The cookies of a request, the
-- hash function of passwords and the texts of identifiers are parameters.
pub mod Slugs
pub mod Head
pub mod Guards
pub mod Public
pub mod Access
pub mod Create
pub mod Templates
pub mod Bindings
pub mod Forms
pub mod Repeaters
mod Tests
use lovely_rs.Base.{
  ℕ, ◌==◌, Option, none, some, Bool, true, false, not, ◌&&◌, ◌||◌, List, [], ◌∷◌, ◌++◌,
  if◌then◌else◌, Text, codes, text_eq, trim,
}
use lovely_rs.Tree.Errors.{Uuid}
use lovely_rs.Db.Errors.{DbError, DbResult}
use lovely_rs.Db.Errors as Errors
use lovely_rs.Db.Pages.{
  User, App, Page, NewPage, Fresh, Tables, PagePatch, find_user_by_username,
  find_app_by_owner_and_slug, find_default_app_for_owner, find_page_by_app_and_slug, create_page,
  update_page, update_page_head, update_page_access, delete_page,
}
use lovely_rs.Web.Errors.{
  WebError, WebResult, ok, err, not_found, forbidden, unprocessable, db, other,
}
use lovely_rs.Web.Csrf.{verify_token}
use lovely_rs.Web.Pages.Slugs.{is_empty, is_valid_slug, slug_path_segment, decode_slug_segment}
use lovely_rs.Web.Pages.Head.{sanitize_head_html}

-- A response: where the browser is sent, a form with a message and the status 422, an HTML
-- fragment, a redirect with a cookie, or an empty body whose header tells the builder to select an
-- element or to load its preview again.
pub data Response : Type 0 where
  redirect : Text → Response
  form : Text → Response
  fragment : Text → Response
  see_other : (location cookie : Text) → Response
  select : Uuid → (focus : Text) → Response
  preview_stale : Response

-- What a request gives: a response and the tables that it leaves. An error and a panic leave them
-- as they are.
pub data Answer : Type 0 where
  done : Response → Tables → Answer
  failed : WebError → Answer
  panicked : Answer

abbrev pub token_of : Option Text → Text
token_of none = []
token_of (some s) = s

abbrev pub after_check : WebResult (Unit {0}) → Answer → Answer
after_check (ok u) rest = rest
after_check (err e) rest = failed e

-- `csrf::verify_token(..)?` with the token of the cookie, or the empty text.
unfoldable pub checked : (cookie supplied : Option Text) → Answer → Answer
unfolding verify_token
checked cookie supplied rest = after_check (verify_token (token_of cookie) supplied) rest

-- `ok_or(WebError::NotFound)?`.
abbrev pub or_not_found : {A : Type 0} → Option A → (A → Answer) → Answer
or_not_found none rest = failed not_found
or_not_found (some a) rest = rest a

-- The page of a request, of an app of the user.
unfoldable pub owned_page : User → Text → Text → Tables → (App → Page → Answer) → Answer
unfolding find_app_by_owner_and_slug find_page_by_app_and_slug decode_slug_segment
owned_page user app_slug page_slug t rest =
    or_not_found (find_app_by_owner_and_slug user.id app_slug t.apps) (λ app.
      or_not_found (find_page_by_app_and_slug app.id (decode_slug_segment page_slug) t.pages)
        (λ page. rest app page))

-- `if page.author_id != user.id { return Err(WebError::Forbidden); }`.
unfoldable pub authored : User → Page → Answer → Answer
authored user page rest = if not (page.author_id == user.id) then failed forbidden else rest

-- `format!("/apps/{}/pages/{}/edit", ..)`.
unfoldable pub edit_path : App → Page → Text
unfolding slug_path_segment
edit_path app page =
    codes "/apps/"
    ++ (app.slug ++ (codes "/pages/" ++ (slug_path_segment page.slug ++ codes "/edit")))

-- A request to change a page.
pub record Request : Type 0 where
  pub user : User
  pub app_slug : Text
  pub page_slug : Text
  pub cookie : Option Text
  pub _csrf : Option Text

-- The checks that these handlers begin with.
unfoldable pub on_page : Request → Tables → (App → Page → Answer) → Answer
unfolding checked owned_page authored
on_page r t rest =
    checked r.cookie r._csrf (
      owned_page r.user r.app_slug r.page_slug t (λ app page. authored r.user page (rest app page)))

abbrev pub head_saved : (now : ℕ) → Tables → App → Page → Option Text → Answer
unfolding update_page_head edit_path
head_saved now t app page none = panicked
head_saved now t app page (some cleaned) =
    done (redirect (edit_path app page)) (update_page_head now page.id cleaned t)

unfoldable pub post_page_head : (now : ℕ) → (head_html : Text) → Request → Tables → Answer
unfolding on_page sanitize_head_html head_saved
post_page_head now head_html r t =
    on_page r t (λ app page. head_saved now t app page (sanitize_head_html head_html))

abbrev pub access_saved : (now : ℕ) → Bool → Tables → App → Page → Option (Option Text) → Answer
unfolding update_page_access edit_path
access_saved now unlisted t app page none = failed other
access_saved now unlisted t app page (some hash) =
    done (redirect (edit_path app page)) (update_page_access now page.id hash unlisted t)

abbrev pub is_text : Text → Option Text → Bool
is_text s none = false
is_text s (some x) = text_eq x s

abbrev pub given_hash : (hash_password : Text → Option Text) → Text → Option (Option Text)
given_hash hash_password [] = some none
given_hash hash_password (c ∷ s) = elim (hash_password (c ∷ s)) [
  | none ↦ none
  | some h ↦ some (some h)
]

-- `post_page_access`. `hash_password` may fail.
unfoldable pub post_page_access :
    (hash_password : Text → Option Text)
    → (now : ℕ) → (password : Text) → (unlisted : Option Text) → Request
    → Tables
    → Answer
unfolding on_page access_saved
post_page_access hash_password now password unlisted r t = on_page r t (λ app page.
    access_saved now (is_text (codes "on") unlisted || is_text (codes "true") unlisted) t app page
      (given_hash hash_password password))

-- `delete_page_handler`.
unfoldable pub delete_page_handler : Request → Tables → Answer
unfolding on_page delete_page
delete_page_handler r t = on_page r t (λ app page.
    if is_empty page.slug
    then failed (unprocessable (codes "The Home page can't be deleted."))
    else done (redirect (codes "/apps/" ++ app.slug)) (delete_page page.id t))

pub record UpdatePageForm : Type 0 where
  pub title : Option Text
  pub description : Option Text
  pub publish : Option Text
  pub publish_form : Option Text

abbrev pub keep_if : (Text → Bool) → Option Text → Option Text
keep_if test none = none
keep_if test (some s) = if test s then some s else none

abbrev is_switched : Text → Bool
is_switched v = text_eq v (codes "on") || text_eq v (codes "true")

abbrev publish_of : (publish publish_form : Option Text) → Option Bool
publish_of publish (some marker) = some (is_text (codes "on") publish)
publish_of none none = none
publish_of (some v) none = some (is_switched v)

unfoldable pub patch_of : UpdatePageForm → PagePatch
unfolding trim
patch_of f = record {
  title = keep_if (λ s. not (is_empty (trim s))) f.title;
  description = some (keep_if (λ s. not (is_empty s)) f.description);
  publish = publish_of f.publish f.publish_form;
}

abbrev pub is_published : Page → Bool
is_published p = elim p.published_at [ none ↦ false | some t ↦ true ]

-- The two fragments for the state of a page.
abbrev pill_span : (id : Text) → Bool → Text
pill_span id published =
    codes "<span id=\""
    ++ (id
        ++ (codes "\" hx-swap-oob=\"true\" class=\""
            ++ ((if published then codes "pill pill-published" else codes "pill pill-draft")
                ++ (codes "\">"
                    ++ ((if published then codes "published" else codes "draft")
                        ++ codes "</span>")))))

unfoldable pub publish_pill_oob_fragment : Bool → Text
publish_pill_oob_fragment published =
    pill_span (codes "topbar-publish-pill") published
    ++ pill_span (codes "tree-page-pill") published

abbrev pub update_answer : Option Text → App → Page → Page → Tables → Answer
unfolding edit_path publish_pill_oob_fragment
update_answer none app page updated t = done (redirect (edit_path app page)) t
update_answer (some marker) app page updated t =
    done (fragment (publish_pill_oob_fragment (is_published updated))) t

abbrev pub update_saved : UpdatePageForm → App → Page → DbResult (Page × Tables) → Answer
unfolding update_answer
update_saved f app page (Errors.err e) = failed (db e)
update_saved f app page (Errors.ok (updated, t)) = update_answer f.publish_form app page updated t

-- `post_page_update`.
unfoldable pub post_page_update : (now : ℕ) → UpdatePageForm → Request → Tables → Answer
unfolding on_page patch_of update_page update_saved
post_page_update now f r t =
    on_page r t (λ app page. update_saved f app page (update_page now page.id (patch_of f) t))
