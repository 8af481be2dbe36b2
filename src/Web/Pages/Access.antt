-- ===== src/Web/Pages/Access.antt =====
-- Who sees a page.
use lovely_rs.Base.{
  ℕ, ==_iff, ◌≡◌, ◌↔◌, ◌⊎◌, inl, inr, refl, ap, sym, Option, none, some, Bool, true, false, not,
  List, if◌then◌else◌, Text, text_eq_iff, arith,
}
use mathlib.Core.Path.{subst}
use lovely_rs.Db.Pages.{User, App, Page, Tables, find_page_by_app_and_slug}
use lovely_rs.Web.Pages.Public.{
  missing, home, gate, content, resolve, is_owner, is_set, profile_view, unlock_cookie, cookie_is,
  locked, page_view, view_found, view_resolved, render_public,
}

-- The viewer is the owner.
abbrev pub IsOwner : Option User → User → Type 0
IsOwner viewer owner = (v : User) × (viewer ≡ some v) × (v.id ≡ owner.id)

module _ (uuid_text : ℕ → Text) (cookies : Text → Option Text) where
  -- A page that everybody may see: it is published and listed, and has no password or was unlocked.
  abbrev pub IsOpen : Page → Type 0
  IsOpen page =
      ((time : ℕ) × (page.published_at ≡ some time))
      × (page.unlisted ≡ false)
      × ((page.password_hash ≡ none)
          ⊎ (cookies (unlock_cookie uuid_text cookies page) ≡ some (uuid_text page.id)))

  is_owner_iff :
      (viewer : Option User) (owner : User) → (is_owner viewer owner ≡ true) ↔ IsOwner viewer owner
  is_owner_iff none owner = (λ h. cc, λ (v, e, f). cc)
  is_owner_iff (some u) owner =
      (λ h. (u, refl, (==_iff u.id owner.id).0 h), λ (v, e, f). (==_iff u.id owner.id).1 (cc))

  is_set_iff : (o : Option ℕ) → (is_set o ≡ true) ↔ ((time : ℕ) × (o ≡ some time))
  is_set_iff none = (λ h. cc, λ (time, e). cc)
  is_set_iff (some time) = (λ h. (time, refl), λ h. refl)

  cookie_is_iff :
      (o : Option Text) (value : Text)
      → (cookie_is uuid_text cookies o value ≡ true) ↔ (o ≡ some value)
  cookie_is_iff none value = (λ h. cc, λ h. cc)
  cookie_is_iff (some c) value =
      (λ h. ap some ((text_eq_iff c value).0 h), λ h. (text_eq_iff c value).1 (cc))

  locked_iff :
      (o : Option Text) (page : Page)
      → (locked uuid_text cookies o page ≡ false)
        ↔ ((o ≡ none) ⊎ (cookies (unlock_cookie uuid_text cookies page) ≡ some (uuid_text page.id)))
  locked_iff none page = (λ h. inl refl, λ h. refl)
  locked_iff (some hash) page =
      let c = cookie_is_iff (cookies (unlock_cookie uuid_text cookies page)) (uuid_text page.id) in
      (
        λ h. inr (c.0 (ground (arith, h))),
        λ h. elim h [ inl e ↦ cc | inr e ↦ let open_ = c.1 e in ground (arith, open_) ],
      )

  -- The tests of a page, one after the other.
  tests_iff :
      (own set unlisted shut : Bool) (owner o : User) (app a : App) (page p : Page)
      → ((if own
            then content owner app page
            else if not set
            then home
            else if unlisted
            then missing
            else if shut
            then gate page
            else content owner app page)
          ≡ content o a p)
        ↔ (((own ≡ true) ⊎ ((set ≡ true) × (unlisted ≡ false) × (shut ≡ false)))
            × (owner ≡ o)
            × (app ≡ a)
            × (page ≡ p))
  tests_iff true set unlisted shut owner o app a page p =
      (λ h. (inl refl, cc, cc, cc), λ (h, e, f, g). cc)
  tests_iff false false unlisted shut owner o app a page p =
      (λ h. cc, λ (h, e, f, g). ground (arith, h))
  tests_iff false true true shut owner o app a page p = (λ h. cc, λ (h, e, f, g). ground (arith, h))
  tests_iff false true false true owner o app a page p =
      (λ h. cc, λ (h, e, f, g). ground (arith, h))
  tests_iff false true false false owner o app a page p =
      (λ h. (inr (refl, refl, refl), cc, cc, cc), λ (h, e, f, g). cc)

  IsOpen-iff :
      (viewer : Option User) (owner : User) (page : Page)
      → ((is_owner viewer owner ≡ true)
          ⊎ ((is_set page.published_at ≡ true)
              × (page.unlisted ≡ false)
              × (locked uuid_text cookies page.password_hash page ≡ false)))
        ↔ (IsOwner viewer owner ⊎ IsOpen page)
  IsOpen-iff viewer owner page =
      let own = is_owner_iff viewer owner in
      let set = is_set_iff page.published_at in
      let shut = locked_iff page.password_hash page in
      (
        λ h. elim h [ inl e ↦ inl (own.0 e) | inr (e, f, g) ↦ inr (set.0 e, f, shut.0 g) ],
        λ h. elim h [ inl e ↦ inl (own.1 e) | inr (e, f, g) ↦ inr (set.1 e, f, shut.1 g) ],
      )

  profile_not :
      (slug : Text) (own : Bool) (owner o : User) (apps : List App) (a : App) (p : Page)
      → profile_view slug own owner apps ≡ content o a p
      → ⊥
  unfolding profile_view
  profile_not slug own owner o apps a p h = ground (arith, h)

  found_iff :
      (slug : Text) (viewer : Option User) (t : Tables) (found : Option Page) (owner o : User)
      (app a : App) (p : Page)
      → (view_found uuid_text cookies slug (is_owner viewer owner) owner app t found
          ≡ content o a p)
        ↔ ((found ≡ some p) × (owner ≡ o) × (app ≡ a) × (IsOwner viewer owner ⊎ IsOpen p))
  unfolding view_found page_view
  found_iff slug viewer t none owner o app a p = (
    λ h. elim (profile_not slug (is_owner viewer owner) owner o t.apps a p h) [ ],
    λ (e, _, _, _). cc,
  )
  found_iff slug viewer t (some page) owner o app a p =
      let tests =
        tests_iff (is_owner viewer owner) (is_set page.published_at) page.unlisted
          (locked uuid_text cookies page.password_hash page) owner o app a page p in
      (
        λ h.
            let (allowed, e, f, g) = tests.0 h in
            (
              ap some g,
              e,
              f,
              subst (λ q. IsOwner viewer owner ⊎ IsOpen q) g
                  ((IsOpen-iff viewer owner page).0 allowed),
            ),
        λ (g, e, f, allowed).
            let same : page ≡ p = cc in
            tests.1 (
              (IsOpen-iff viewer owner page).1
                  (subst (λ q. IsOwner viewer owner ⊎ IsOpen q) (sym same) allowed),
              e,
              f,
              same,
            ),
      )

  resolved_iff :
      (slug : Text) (viewer : Option User) (t : Tables) (found : Option (User × App)) (o : User)
      (a : App) (p : Page)
      → (view_resolved uuid_text cookies slug viewer t found ≡ content o a p) ↔ (
          (found ≡ some (o, a))
          × (find_page_by_app_and_slug a.id slug t.pages ≡ some p)
          × (IsOwner viewer o ⊎ IsOpen p))
  unfolding view_resolved
  resolved_iff slug viewer t none o a p = (λ h. cc, λ (e, _, _). cc)
  resolved_iff slug viewer t (some (owner, app)) o a p =
      let found =
        found_iff slug viewer t (find_page_by_app_and_slug app.id slug t.pages) owner o app a p in
      (
        λ h.
            let (g, e, f, allowed) = found.0 h in
            (
              ap some (λ i. (e i, f i)),
              subst (λ x. find_page_by_app_and_slug x.id slug t.pages ≡ some p) f g,
              subst (λ x. IsOwner viewer x ⊎ IsOpen p) e allowed,
            ),
        λ (h, g, allowed).
            let e : owner ≡ o = cc in
            let f : app ≡ a = cc in
            found.1 (
              subst (λ x. find_page_by_app_and_slug x.id slug t.pages ≡ some p) (sym f) g,
              e,
              f,
              subst (λ x. IsOwner viewer x ⊎ IsOpen p) (sym e) allowed,
            ),
      )

  -- A viewer gets the content of a page exactly when the path leads to its owner, its app and the
  -- page, and either the viewer is the owner, or the page is published, listed, and without a
  -- password or the request has the cookie of the page with the identifier of the page in it.
  pub render_public_iff :
      (viewer : Option User) (username : Text) (app_slug : Option Text) (slug : Text) (t : Tables)
      (owner : User) (app : App) (page : Page)
      → (render_public uuid_text cookies viewer username app_slug slug t ≡ content owner app page)
        ↔ ((resolve username app_slug t ≡ some (owner, app))
            × (find_page_by_app_and_slug app.id slug t.pages ≡ some page)
            × (IsOwner viewer owner ⊎ IsOpen page))
  unfolding render_public
  render_public_iff viewer username app_slug slug t owner app page =
      resolved_iff slug viewer t (resolve username app_slug t) owner app page
