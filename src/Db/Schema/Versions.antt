-- ===== src/Db/Schema/Versions.antt =====
-- The versions that `record` hands out.
use mathlib.Core.List.{append-nil}
use lovely_rs.Base.{
  sym, ℕ, zero, suc, ◌+◌, ◌≡◌, refl, ap, ◌∙◌, true, inl, inr, Bool-cases, List, [], ◌∷◌, ◌++◌, ◌==◌,
  ==_iff, if◌then◌else◌, any, arith, length, length-append,
}
use lovely_rs.Tree.Errors.{Uuid}
use lovely_rs.Db.Errors.{DbResult, ok, err}
use lovely_rs.Db.Intent.{Intent, RenderedDdl, render_sqlite}
use lovely_rs.Db.Schema.{
  Migration, Postgres, larger, max_version, migration_of, record_row, rendered, record_intent,
}

-- The versions of an app, in the order of the log.
unfoldable pub versions : Uuid → List Migration → List ℕ
versions app [] = []
versions app (m ∷ ms) =
    let rest = versions app ms in if m.app_id == app then m.version ∷ rest else rest

-- `count` numbers from one.
unfoldable pub count_from : (first count : ℕ) → List ℕ
count_from first zero = []
count_from first (suc k) = first ∷ count_from (suc first) k

-- The versions of every app are 1, 2, 3 and so on, without a gap.
abbrev pub IsNumbered : List Migration → Type 0
IsNumbered ms = (app : Uuid) → versions app ms ≡ count_from 1 (length (versions app ms))

versions-append :
    (app : Uuid) (ms ns : List Migration)
    → versions app (ms ++ ns) ≡ versions app ms ++ versions app ns
unfolding versions
versions-append app [] ns = refl
versions-append app (m ∷ ms) ns = ground (arith, versions-append app ms ns)

count_from-append :
    (first k : ℕ) → count_from first k ++ (first + k) ∷ [] ≡ count_from first (suc k)
unfolding count_from
count_from-append first zero = ground arith
count_from-append first (suc k) = ground (arith, count_from-append (suc first) k)

-- The largest of a list.
unfoldable max_of : List ℕ → ℕ
max_of [] = 0
max_of (v ∷ vs) = larger v (max_of vs)

max_version-versions :
    (app : Uuid) (ms : List Migration) → max_version app ms ≡ max_of (versions app ms)
unfolding max_version max_of versions
max_version-versions app [] = refl
max_version-versions app (m ∷ ms) = ground (arith, max_version-versions app ms)

max_of-count_from : (first k : ℕ) → max_of (count_from (suc first) (suc k)) ≡ suc (first + k)
unfolding max_of count_from
max_of-count_from first zero = ground arith
max_of-count_from first (suc k) = ground (arith, max_of-count_from (suc first) k)

max_of-count : (k : ℕ) → max_of (count_from 1 k) ≡ k
unfolding max_of count_from
max_of-count zero = refl
max_of-count (suc k) = max_of-count_from 0 k ∙ omega arith

max_version-IsNumbered :
    (ms : List Migration) (app : Uuid)
    → IsNumbered ms
    → max_version app ms ≡ length (versions app ms)
max_version-IsNumbered ms app h =
    max_version-versions app ms ∙ ap max_of (h app) ∙ max_of-count (length (versions app ms))

versions_one :
    (app a : Uuid) (v : ℕ) (user : Uuid) (i : Intent) (d : RenderedDdl)
    → versions app (migration_of a v user i d ∷ []) ≡ (if a == app then v ∷ [] else [])
unfolding versions
versions_one app a v user i d = refl

one_more : (vs : List ℕ) (v : ℕ) → v ≡ suc (length vs) → v ≡ 1 + length vs
one_more vs v e = omega arith

counted :
    (vs : List ℕ) (v : ℕ)
    → vs ≡ count_from 1 (length vs)
    → v ≡ suc (length vs)
    → vs ++ v ∷ [] ≡ count_from 1 (length (vs ++ v ∷ []))
counted vs v h e =
    let size : suc (length vs) ≡ length (vs ++ v ∷ []) = omega (arith, length-append vs (v ∷ [])) in
    ap (λ w. w ++ v ∷ []) h
    ∙ ap (λ u. count_from 1 (length vs) ++ u ∷ []) (one_more vs v e)
    ∙ count_from-append 1 (length vs)
    ∙ ap (count_from 1) size

-- A list that stays numbered when it is replaced by an equal one.
numbered_as :
    (vs ws : List ℕ) → vs ≡ ws → ws ≡ count_from 1 (length ws) → vs ≡ count_from 1 (length vs)
numbered_as vs ws e h = e ∙ h ∙ ap (λ w. count_from 1 (length w)) (sym e)

appended-IsNumbered :
    (ms : List Migration) (a : Uuid) (user : Uuid) (i : Intent) (d : RenderedDdl)
    → IsNumbered ms
    → IsNumbered (ms ++ migration_of a (suc (max_version a ms)) user i d ∷ [])
appended-IsNumbered ms a user i d h app =
    let v = suc (max_version a ms) in
    let split =
      versions-append app ms (migration_of a v user i d ∷ [])
      ∙ ap (λ t. versions app ms ++ t) (versions_one app a v user i d) in
    elim (Bool-cases (a == app)) [
      | inl hit ↦
          let own : v ≡ suc (length (versions app ms)) =
            ap suc (rw ((==_iff a app).0 hit) (max_version-IsNumbered ms app h)) in
          numbered_as _ (versions app ms ++ v ∷ []) (rw hit at split)
            (counted (versions app ms) v (h app) own)
      | inr miss ↦
          numbered_as _ (versions app ms) ((rw miss at split) ∙ append-nil (versions app ms))
            (h app)
    ]

rendered-ok :
    (r : DbResult RenderedDdl) (k : RenderedDdl → DbResult (ℕ × Postgres)) (x : ℕ × Postgres)
    → rendered r k ≡ ok x
    → (d : RenderedDdl) × (r ≡ ok d) × (k d ≡ ok x)
rendered-ok (ok d) k x h = (d, refl, h)
rendered-ok (err e) k x h = cc

row_added :
    (app user : Uuid) (i : Intent) (pg : Postgres) (d : RenderedDdl) (x : ℕ × Postgres)
    → record_row app user i pg d ≡ ok x
    → (any (λ a. a == app) pg.apps ≡ true)
      × (x ≡ (
        suc (max_version app pg.migrations),
        record pg {
          migrations =
              pg.migrations ++ migration_of app (suc (max_version app pg.migrations)) user i d ∷ [];
        },
      ))
row_added app user i pg d x h = (ground arith, ground arith)

-- Where the log numbers every app's rows from one without a gap, a `record` that succeeds keeps it
-- so, hands out the next number of the app, adds one row with that number at the end, and was for
-- an app that exists.
pub record_intent-IsNumbered :
    (app user : Uuid) (i : Intent) (pg : Postgres) (x : ℕ × Postgres)
    → IsNumbered pg.migrations
    → record_intent app user i pg ≡ ok x
    → IsNumbered x.1.migrations
      × (x.0 ≡ suc (length (versions app pg.migrations)))
      × ((m : Migration) × (x.1.migrations ≡ pg.migrations ++ m ∷ [])
          × (m.version ≡ x.0)
          × (m.intent ≡ i))
      × (any (λ a. a == app) x.1.apps ≡ true)
unfolding record_intent
record_intent-IsNumbered app user i pg x h e =
    let (d, _, row) = rendered-ok (render_sqlite i) (record_row app user i pg) x e in
    let (known, same) = row_added app user i pg d x row in
    rw same (
      appended-IsNumbered pg.migrations app user i d h,
      ap suc (max_version-IsNumbered pg.migrations app h),
      (_, refl, refl, refl),
      known,
    )
