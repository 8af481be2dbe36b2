-- ===== src/Web/Pages/Guards.antt =====
-- What the handlers check before they change a page.
use lovely_rs.Base.{ℕ, ◌==◌, ◌≡◌, Option, some, false, List, if◌then◌else◌, Text, codes, ◌++◌, ◌||◌}
use lovely_rs.Tree.Errors.{Uuid}
use lovely_rs.Db.Pages.{
  App, Page, Tables, find_app_by_owner_and_slug, find_page_by_app_and_slug, find_page_by_id,
  update_page, delete_page,
}
use lovely_rs.Web.Errors.{ok, unprocessable}
use lovely_rs.Web.Csrf.{verify_token}
use lovely_rs.Web.Pages.{
  Answer, done, failed, Request, UpdatePageForm, token_of, head_saved, access_saved, given_hash,
  is_text, update_saved, redirect, post_page_head, post_page_access, delete_page_handler,
  post_page_update, patch_of,
}
use lovely_rs.Web.Pages.Slugs.{decode_slug_segment, is_empty}
use lovely_rs.Web.Pages.Head.{sanitize_head_html}

-- A request that may change a page: the CSRF token fits, and the page is of an app of the user and
-- written by the user.
abbrev pub IsPermitted : Request → Tables → App → Page → Type 0
IsPermitted r t app page =
    (verify_token (token_of r.cookie) r._csrf ≡ ok tt)
    × (find_app_by_owner_and_slug r.user.id r.app_slug t.apps ≡ some app)
    × (find_page_by_app_and_slug app.id (decode_slug_segment r.page_slug) t.pages ≡ some page)
    × (page.author_id ≡ r.user.id)

-- The pages but for one are as before.
abbrev pub IsLocal : Uuid → List Page → List Page → Type 0
IsLocal id pages after =
    (q : Uuid) → (q == id) ≡ false → find_page_by_id q after ≡ find_page_by_id q pages

-- The requests to change a page.
pub data PageRequest : Type 0 where
  save_head : (head_html : Text) → PageRequest
  save_access : (password : Text) → (unlisted : Option Text) → PageRequest
  delete : PageRequest
  update : UpdatePageForm → PageRequest

module _ (hash_password : Text → Option Text) (now : ℕ) where
  unfoldable pub handle : PageRequest → Request → Tables → Answer
  unfolding post_page_head post_page_access delete_page_handler post_page_update
  handle (save_head head_html) r t = post_page_head now head_html r t
  handle (save_access password unlisted) r t =
      post_page_access hash_password now password unlisted r t
  handle delete r t = delete_page_handler r t
  handle (update form) r t = post_page_update now form r t

  unfoldable change : PageRequest → Tables → App → Page → Answer
  unfolding head_saved access_saved update_saved update_page sanitize_head_html delete_page patch_of
  change (save_head head_html) t app page = head_saved now t app page (sanitize_head_html head_html)
  change (save_access password unlisted) t app page =
      access_saved now (is_text (codes "on") unlisted || is_text (codes "true") unlisted) t app page
        (given_hash hash_password password)
  change delete t app page =
      if is_empty page.slug
      then failed (unprocessable (codes "The Home page can't be deleted."))
      else done (redirect (codes "/apps/" ++ app.slug)) (delete_page page.id t)
  change (update f) t app page = update_saved f app page (update_page now page.id (patch_of f) t)
