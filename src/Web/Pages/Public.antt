-- ===== src/Web/Pages/Public.antt =====
-- `render_public` up to the choice of what a viewer sees, and the unlocking of a page. The cookies
-- of a request are a function from their names; the texts of identifiers and the test of a
-- password are parameters.
use lovely_rs.Base.{
  ℕ, ◌==◌, Option, none, some, Bool, true, false, not, ◌&&◌, ◌||◌, List, [], ◌∷◌, ◌++◌,
  if◌then◌else◌, Text, codes, text_eq,
}
use lovely_rs.Tree.Errors.{Uuid}
use lovely_rs.Db.Pages.{
  User, App, Page, Tables, find_user_by_username, find_app_by_owner_and_slug,
  find_default_app_for_owner, find_page_by_app_and_slug,
}
use lovely_rs.Web.Errors.{not_found, unprocessable}
use lovely_rs.Web.Pages.{Answer, done, failed, see_other, or_not_found, checked}
use lovely_rs.Web.Pages.Slugs.{decode_slug_segment, is_empty}

-- What a viewer gets: an error, the way home, the apps of a user, the form for a password, or the
-- rendered page of an app of a user.
pub data View : Type 0 where
  missing : View
  home : View
  profile : List App → View
  gate : Page → View
  content : User → App → Page → View

abbrev with_user : User → Option App → Option (User × App)
with_user u none = none
with_user u (some app) = some (u, app)

abbrev default_app : List App → Option User → Option (User × App)
default_app apps none = none
default_app apps (some u) = with_user u (find_default_app_for_owner u.id apps)

abbrev named_app : Text → List App → Option User → Option (User × App)
named_app slug apps none = none
named_app slug apps (some u) = with_user u (find_app_by_owner_and_slug u.id slug apps)

-- `find_default_app_for_username`.
unfoldable pub find_default_app_for_username : Text → Tables → Option (User × App)
unfolding find_user_by_username find_default_app_for_owner
find_default_app_for_username username t =
    default_app t.apps (find_user_by_username username t.users)

-- The owner and the app of a path.
unfoldable pub resolve : (username : Text) → (app_slug : Option Text) → Tables → Option (User × App)
unfolding find_default_app_for_username find_user_by_username find_app_by_owner_and_slug
resolve username (some name) t = named_app name t.apps (find_user_by_username username t.users)
resolve username none t = find_default_app_for_username username t

abbrev pub is_owner : Option User → User → Bool
is_owner none owner = false
is_owner (some v) owner = v.id == owner.id

abbrev pub is_set : Option ℕ → Bool
is_set none = false
is_set (some time) = true

-- `list_apps_by_owner` and `list_published_apps_by_owner`, in the order of the table.
unfoldable pub apps_of : (published_only : Bool) → Uuid → List App → List App
apps_of published_only owner [] = []
apps_of published_only owner (a ∷ apps) =
    let rest = apps_of published_only owner apps in
    if (a.owner_id == owner) && (not published_only || is_set a.published_at)
    then a ∷ rest
    else rest

-- No page at the path: the profile of the user.
unfoldable pub profile_view : (slug : Text) → Bool → User → List App → View
unfolding apps_of
profile_view slug own owner apps =
    if is_empty slug && (own || is_set owner.public_published_at)
    then profile (apps_of (not own) owner.id apps)
    else missing

module _ (uuid_text : ℕ → Text) (cookies : Text → Option Text) where
  abbrev pub unlock_cookie : Page → Text
  unlock_cookie page = codes "lovely_unlock_" ++ uuid_text page.id

  abbrev pub cookie_is : Option Text → Text → Bool
  cookie_is none value = false
  cookie_is (some c) value = text_eq c value

  abbrev pub locked : Option Text → Page → Bool
  locked none page = false
  locked (some hash) page = not (cookie_is (cookies (unlock_cookie page)) (uuid_text page.id))

  unfoldable pub page_view : Bool → User → App → Page → View
  page_view own owner app page =
      if own
      then content owner app page
      else if not (is_set page.published_at)
      then home
      else if page.unlisted
      then missing
      else if locked page.password_hash page
      then gate page
      else content owner app page

  unfoldable pub view_found : Text → Bool → User → App → Tables → Option Page → View
  unfolding profile_view page_view
  view_found slug own owner app t none = profile_view slug own owner t.apps
  view_found slug own owner app t (some page) = page_view own owner app page

  unfoldable pub view_resolved : Text → Option User → Tables → Option (User × App) → View
  unfolding view_found find_page_by_app_and_slug
  view_resolved slug viewer t none = missing
  view_resolved slug viewer t (some (owner, app)) =
      view_found slug (is_owner viewer owner) owner app t
        (find_page_by_app_and_slug app.id slug t.pages)

  -- `render_public`.
  unfoldable pub render_public :
      (viewer : Option User)
      → (username : Text) → (app_slug : Option Text) → (slug : Text) → Tables
      → View
  unfolding resolve view_resolved
  render_public viewer username app_slug slug t =
      view_resolved slug viewer t (resolve username app_slug t)

  -- The routes of public pages.
  unfoldable pub get_public_user_root : Option User → Text → Tables → View
  unfolding render_public
  get_public_user_root viewer username t = render_public viewer username none [] t

  unfoldable pub get_public_user_page : Option User → (username slug : Text) → Tables → View
  unfolding render_public decode_slug_segment
  get_public_user_page viewer username slug t =
      render_public viewer username none (decode_slug_segment slug) t

  unfoldable pub get_public_user_app_page :
      Option User → (username app_slug page_slug : Text) → Tables → View
  unfolding render_public decode_slug_segment
  get_public_user_app_page viewer username app_slug page_slug t =
      render_public viewer username (some app_slug) (decode_slug_segment page_slug) t

  unfoldable pub get_public_user_app_root : Option User → (username app_slug : Text) → Tables → View
  unfolding render_public
  get_public_user_app_root viewer username app_slug t =
      render_public viewer username (some app_slug) [] t

-- `post_page_unlock`.
module _ (uuid_text : ℕ → Text) (verify_password : (password hash : Text) → Bool) where
  abbrev pub target_of : (username slug : Text) → Text
  target_of username [] = codes "/" ++ username
  target_of username (c ∷ s) = codes "/" ++ (username ++ (codes "/" ++ (c ∷ s)))

  abbrev pub set_cookie : Page → Text
  set_cookie page =
      codes "lovely_unlock_"
      ++ (uuid_text page.id
          ++ (codes "="
              ++ (uuid_text page.id ++ codes "; Path=/; HttpOnly; SameSite=Lax; Max-Age=86400")))

  abbrev pub unlock_with : (username slug password : Text) → Tables → Page → Option Text → Answer
  unlock_with username slug password t page none = failed not_found
  unlock_with username slug password t page (some hash) =
      if not (verify_password password hash)
      then failed (unprocessable (codes "incorrect password"))
      else done (see_other (target_of username slug) (set_cookie page)) t

  unfoldable pub post_page_unlock :
      (username slug password : Text) → (cookie _csrf : Option Text) → Tables → Answer
  unfolding checked find_default_app_for_username find_page_by_app_and_slug decode_slug_segment
  post_page_unlock username slug password cookie _csrf t = checked cookie _csrf (
      or_not_found (find_default_app_for_username username t) (λ found.
        or_not_found (find_page_by_app_and_slug found.1.id (decode_slug_segment slug) t.pages)
          (λ page.
            unlock_with username (decode_slug_segment slug) password t page page.password_hash)))
