-- ===== src/Web/Pages/Create.antt =====
-- `post_pages_create`: a new page, with the first entry of its history.
use lovely_rs.Base.{
  Option-cases, inl, inr, suc, ◌∙◌, ap, sym, Bool, true, false, all, ◌&&◌, ℕ, ◌==◌, ==_refl, ◌≡◌,
  refl, Option, none, some, true, false, not, [], ◌∷◌, ◌++◌, any, if◌then◌else◌, Text, codes, trim,
  arith,
}
use lovely_rs.Tree.Errors.{Uuid}
use lovely_rs.Db.Errors as Errors
use lovely_rs.Db.Errors.{DbError, DbResult}
use lovely_rs.Db.Pages.{
  User, App, Page, NewPage, Fresh, Tables, find_app_by_owner_and_slug, find_page_by_app_and_slug,
  create_page, with_page, page_of, root_of, unique_key,
}
use lovely_rs.Db.Elements.{inserted_row}
use lovely_rs.Db.Revisions.{
  Store, Revision, PageRow, with_cursor, snapshot_page, append_revision, set_cursor,
}
use lovely_rs.Db.Revisions.History
use lovely_rs.Db.Revisions.Moves.{IsShown, recorded, new_revision, snapshot_page-recorded}
use lovely_rs.Web.Errors.{db}
use lovely_rs.Web.Pages.{
  Answer, done, failed, redirect, fragment, form, token_of, or_not_found, checked, edit_path,
  keep_if,
}
use lovely_rs.Web.Pages.Slugs.{is_empty, is_slug_char, is_valid_slug}

pub record CreatePageForm : Type 0 where
  pub slug : Text
  pub title : Text
  pub description : Option Text

module _ (uuid_text time_text : ℕ → Text) where
  abbrev created : App → Tables → DbResult ((Page × Uuid) × Tables) → Answer
  unfolding edit_path
  created app t (Errors.ok ((page, root), after)) = done (redirect (edit_path app page)) after
  created app t (Errors.err Errors.conflict) =
      done (form (codes "That slug is already used in this app")) t
  created app t (Errors.err e) = failed (db e)

  unfoldable new_page : CreatePageForm → User → App → NewPage
  new_page f user app = record {
    app_id = app.id;
    slug = f.slug;
    title = f.title;
    description = keep_if (λ s. not (is_empty s)) f.description;
    author_id = user.id;
    root_tag = codes "div";
  }

  unfoldable pub post_pages_create :
      Fresh
      → CreatePageForm
      → User
      → (app_slug : Text) → (cookie _csrf : Option Text) → Tables
      → Answer
  unfolding checked find_app_by_owner_and_slug is_valid_slug trim create_page created new_page
  post_pages_create fresh f user app_slug cookie _csrf t = checked cookie _csrf (
      or_not_found (find_app_by_owner_and_slug user.id app_slug t.apps) (λ app.
        if not (is_valid_slug f.slug)
        then done (form (codes "Slug must be empty (home page) or 1–80 chars: a-z, 0-9, hyphen")) t
        else if is_empty (trim f.title)
        then done (form (codes "Title is required")) t
        else created app t (create_page uuid_text time_text fresh (new_page f user app) t)))

  -- The history of a page that was just made.
  module _ (f : Fresh) (new : NewPage) (t : Tables)
      (unused : History.log f.page_id t.store.revisions ≡ []) where
    fresh-IsShown : IsShown f.page_id none (with_page f new t.store)
    unfolding with_page
    fresh-IsShown = (
      unused,
      (
        record { root_element = some f.element_id; revision_cursor = none },
        ground (arith, ==_refl f.page_id),
        refl,
      ),
    )

    abbrev pub first_entry : Revision
    first_entry = new_revision f.page_id uuid_text time_text (with_page f new t.store)

    abbrev number_after : DbResult (ℕ × Store) → ℕ
    number_after (Errors.ok (n, s)) = n
    number_after (Errors.err e) = 0

    abbrev row_after : DbResult (ℕ × Store) → Uuid → Option PageRow
    row_after (Errors.ok (n, s)) p = s.pages p
    row_after (Errors.err e) p = none

    -- The row of a page after a snapshot, and the rows of the others.
    snapshot_page-pages :
        (page seq : ℕ) (before s : Store)
        → snapshot_page uuid_text time_text page before ≡ Errors.ok (seq, s)
        → (p : Uuid)
        → s.pages p ≡ (if p == page then with_cursor seq (before.pages p) else before.pages p)
    unfolding snapshot_page append_revision set_cursor
    snapshot_page-pages page seq before s e p = elim (Option-cases (before.pages page)) [
      | inl nil ↦ let no_row : Errors.err Errors.sqlx ≡ Errors.ok (seq, s) = rw nil at e in cc
      | inr (row, found) ↦
          let run : Errors.ok (append_revision uuid_text time_text page row.revision_cursor before)
              ≡ Errors.ok (seq, s) =
            rw found at e in
          rw (sym (ap number_after run)) (sym (ap (λ r. row_after r p) run))
    ]

    with_page-row :
        (n : ℕ) (p : Uuid)
        → (if p == f.page_id
            then with_cursor n ((with_page f new t.store).pages p)
            else (with_page f new t.store).pages p)
          ≡ (if p == f.page_id
              then some (record { root_element = some f.element_id; revision_cursor = some n })
              else t.store.pages p)
    unfolding with_page
    with_page-row n p = ground arith

    -- A new page, whose slug no other page of the app has, whose app and author are there, and of
    -- whose identifier the table has no revisions, gets one root element behind the elements of the table, which its row names as the root, and the
    -- snapshot of it as the only entry of its history, so that a later change can be undone to it;
    -- the rows of the other pages are as they were.
    pub create_page-IsShown :
        any (unique_key new) t.pages ≡ false
        → any (λ a. a.id == new.app_id) t.apps ≡ true
        → any (λ u. u.id == new.author_id) t.users ≡ true
        → (s : Store) × (create_page uuid_text time_text f new t
            ≡ Errors.ok (
              (page_of f new, f.element_id),
              record t { pages = t.pages ++ page_of f new ∷ []; store = s },
            ))
          × (s.elements ≡ t.store.elements ++ inserted_row f.element_id f.now (root_of f new) ∷ [])
          × ((p : Uuid)
              → s.pages p ≡ (
                  if p == f.page_id
                  then some (record {
                    root_element = some f.element_id;
                    revision_cursor = some (suc t.store.last_seq);
                  })
                  else t.store.pages p))
          × IsShown f.page_id (some (recorded first_entry none)) s
    unfolding create_page with_page
    create_page-IsShown no_other app author =
        let (s, e, same, shown) =
          snapshot_page-recorded f.page_id uuid_text time_text (with_page f new t.store) none
            fresh-IsShown in
        (
          s,
          rw (no_other, app, author, e) refl,
          same,
          λ p. snapshot_page-pages f.page_id _ (with_page f new t.store) s e p ∙ with_page-row _ p,
          shown,
        )

abbrev quoted_slug : Text → Text
quoted_slug slug = codes "\"" ++ (slug ++ codes "\"")

abbrev taken_answer : (slug : Text) → (taken : Bool) → Text
taken_answer slug true =
    codes "<span class=\"slug-error\">"
    ++ ((if is_empty slug then codes "the home page" else quoted_slug slug)
        ++ codes " is already used in this app.</span>")
taken_answer slug false =
    if is_empty slug
    then codes "<span class=\"slug-ok\">Will be the home page.</span>"
    else codes "<span class=\"slug-ok\">" ++ (quoted_slug slug ++ codes " is available.</span>")

abbrev is_found : Option Page → Bool
is_found none = false
is_found (some p) = true

-- `get_check_page_slug`.
unfoldable pub get_check_page_slug : User → (app_slug : Text) → Option Text → Tables → Answer
unfolding find_app_by_owner_and_slug find_page_by_app_and_slug trim
get_check_page_slug user app_slug q t =
    let slug = trim (token_of q) in
    or_not_found (find_app_by_owner_and_slug user.id app_slug t.apps) (λ app.
      if not (is_empty slug) && not (all is_slug_char slug)
      then done
          (fragment (
            codes
              "<span class=\"slug-error\">Slugs can only contain lowercase letters, digits, and dashes.</span>"))
          t
      else done
          (fragment (taken_answer slug (is_found (find_page_by_app_and_slug app.id slug t.pages))))
          t)
