-- ===== src/Db/Schema/Replay.antt =====
-- The SQLite database of an app is the replay of the app's log, up to its version pointer.
use lovely_rs.Base.{
  ◌-◌, ℕ, zero, suc, ◌+◌, ◌≤◌, ◌≡◌, refl, ap, sym, ◌∙◌, true, inl, inr, Bool-cases, Option-cases,
  Option, none, some, List, [], ◌∷◌, ltb, leb, ◌==◌, ==_iff, if◌then◌else◌, arith, length, All,
  Text,
}
use lovely_rs.Tree.Errors.{Uuid}
use lovely_rs.Db.Errors.{DbError}
use lovely_rs.Db.Schema.{
  Migration, Postgres, insert_version, order_by_version, above, pending, Sqlite,
  ensure_version_table, read_applied_version, Applied, applied, stopped, committed, apply_one,
  apply_all, ensure_migrated,
}
use lovely_rs.Db.Schema.Versions.{versions, count_from}

-- The log of an app as a function of the version.
abbrev pub IsLog : (sql_of : ℕ → Option Text) → Uuid → List Migration → Type 0
IsLog sql_of app ms = All (λ m. m.app_id ≡ app → sql_of m.version ≡ some m.forward_sql) ms

-- Migrations for the versions behind a version, one after the other.
abbrev pub IsQueue : (sql_of : ℕ → Option Text) → ℕ → List Migration → Type 0
IsQueue sql_of k [] = Unit
IsQueue sql_of k (m ∷ ms) =
    (m.version ≡ suc k) × (sql_of m.version ≡ some m.forward_sql) × IsQueue sql_of (suc k) ms

order-IsQueue :
    (sql_of : ℕ → Option Text) (k : ℕ) (ms : List Migration)
    → IsQueue sql_of k ms
    → order_by_version ms ≡ ms
unfolding order_by_version insert_version
order-IsQueue sql_of k [] q = refl
order-IsQueue sql_of k (m ∷ []) q = refl
order-IsQueue sql_of k (m ∷ n ∷ ms) (e, s, q) =
    ap (insert_version m) (order-IsQueue sql_of (suc k) (n ∷ ms) q) ∙ ground (arith, e, q.0)

first_version :
    (v : ℕ) (vs : List ℕ) (first count : ℕ)
    → v ∷ vs ≡ count_from (suc first) count
    → (v ≡ suc first) × ((c : ℕ) × (suc c ≡ count) × (vs ≡ count_from (suc (suc first)) c))
unfolding count_from
first_version v vs first zero e = cc
first_version v vs first (suc c) e = (cc, (c, refl, cc))

-- The rows of the app are all above a version below the first of them.
above-all :
    (sql_of : ℕ → Option Text) (app : Uuid) (k first count : ℕ) (ms : List Migration)
    → IsLog sql_of app ms
    → versions app ms ≡ count_from (suc first) count
    → k ≤ first
    → IsQueue sql_of first (above app k ms)
unfolding above versions
above-all sql_of app k first count [] log e h = tt
above-all sql_of app k first count (m ∷ ms) (own, log) e h = elim (Bool-cases (m.app_id == app)) [
  | inl hit ↦
      let (v, (c, more, rest)) =
        first_version m.version (versions app ms) first count (rw hit at e) in
      let here : ltb k m.version ≡ true = ground arith in
      rw (hit, here)
        (
          v,
          own ((==_iff m.app_id app).0 hit),
          above-all sql_of app k (suc first) c ms log rest (omega (arith, h)),
        )
  | inr miss ↦ rw miss (above-all sql_of app k first count ms log (rw miss at e) h)
]

above-IsQueue :
    (sql_of : ℕ → Option Text) (app : Uuid) (k first count : ℕ) (ms : List Migration)
    → IsLog sql_of app ms
    → versions app ms ≡ count_from (suc first) count
    → first ≤ k
    → IsQueue sql_of k (above app k ms)
unfolding above versions
above-IsQueue sql_of app k first count [] log e h = tt
above-IsQueue sql_of app k first count (m ∷ ms) (own, log) e h =
    elim (Bool-cases (m.app_id == app)) [
      | inl hit ↦
          let (v, (c, more, rest)) =
            first_version m.version (versions app ms) first count (rw hit at e) in
          elim (Bool-cases (ltb k m.version)) [
            | inl later ↦
                let exact : m.version ≡ suc k = ground arith in
                let from_here : versions app ms ≡ count_from (suc (suc k)) c =
                  rest ∙ ap (λ f. count_from (suc (suc f)) c) (ground arith) in
                rw (hit, later)
                  (
                    exact,
                    own ((==_iff m.app_id app).0 hit),
                    above-all sql_of app k (suc k) c ms log from_here (omega arith),
                  )
            | inr earlier ↦
                rw (hit, earlier)
                  (above-IsQueue sql_of app k (suc first) c ms log rest (ground arith))
          ]
      | inr miss ↦ rw miss (above-IsQueue sql_of app k first count ms log (rw miss at e) h)
    ]

no_versions : (first count : ℕ) → [] ≡ count_from first count → count ≡ 0
unfolding count_from
no_versions first zero e = refl
no_versions first (suc c) e = cc

-- No row above a version is left out.
above-length :
    (app : Uuid) (k first count : ℕ) (ms : List Migration)
    → versions app ms ≡ count_from (suc first) count
    → first + count ≤ length (above app k ms) + k + (first - k)
unfolding above versions
above-length app k first count [] e = omega (arith, no_versions (suc first) count e)
above-length app k first count (m ∷ ms) e = elim (Bool-cases (m.app_id == app)) [
  | inl hit ↦
      let (v, (c, more, rest)) =
        first_version m.version (versions app ms) first count (rw hit at e) in
      let ih = above-length app k (suc first) c ms rest in
      elim (Bool-cases (ltb k m.version)) [
        | inl later ↦ rw (hit, later) (ground arith)
        | inr earlier ↦ rw (hit, earlier) (ground arith)
      ]
  | inr miss ↦ rw miss (above-length app k first count ms (rw miss at e))
]

pending-IsQueue :
    (sql_of : ℕ → Option Text) (app : Uuid) (k : ℕ) (ms : List Migration)
    → IsLog sql_of app ms
    → versions app ms ≡ count_from 1 (length (versions app ms))
    → IsQueue sql_of k (pending app k ms)
unfolding pending
pending-IsQueue sql_of app k ms log e =
    let q = above-IsQueue sql_of app k 0 (length (versions app ms)) ms log e (omega arith) in
    rw (order-IsQueue sql_of k (above app k ms) q) q

module _ {D : Type 0} (exec : Text → D → Option D) (empty : D) (sql_of : ℕ → Option Text) where
  -- The content that the first `n` changes of the log make of an empty database.
  pub data IsReplay : ℕ → D → Type 0 where
    start : IsReplay 0 empty
    next :
        {n : ℕ} {q : Text} {c c' : D}
        → IsReplay n c
        → sql_of (suc n) ≡ some q
        → exec q c ≡ some c'
        → IsReplay (suc n) c'

  abbrev pub IsCurrent : Sqlite exec → Type 0
  IsCurrent db = IsReplay (read_applied_version exec db) db.content

  -- The database stays current and its pointer only grows; after a success the pointer has come to
  -- a version.
  abbrev pub Kept : (old version : ℕ) → Applied exec → Type 0
  Kept old v (applied db) =
      IsCurrent db × (old ≤ read_applied_version exec db) × (v ≤ read_applied_version exec db)
  Kept old v (stopped e db) = IsCurrent db × (old ≤ read_applied_version exec db)

  committed-Kept :
      (m : Migration) (k : ℕ) (db : Sqlite exec)
      → IsReplay k db.content
      → k ≡ read_applied_version exec db
      → m.version ≡ suc k
      → sql_of m.version ≡ some m.forward_sql
      → Kept k m.version (committed exec m.version db (exec m.forward_sql db.content))
  unfolding read_applied_version
  committed-Kept m k db c p e s = elim (Option-cases (exec m.forward_sql db.content)) [
    | inl bad ↦ rw bad (rw p at c, omega (arith, p))
    | inr (c', good) ↦ rw (good, e) (next c (rw e at s) good, omega arith, omega arith)
  ]

  apply_one-Kept :
      (m : Migration) (k : ℕ) (db : Sqlite exec)
      → IsCurrent db
      → k ≤ read_applied_version exec db
      → m.version ≡ suc k
      → sql_of m.version ≡ some m.forward_sql
      → Kept (read_applied_version exec db) m.version (apply_one exec m.version m.forward_sql db)
  unfolding apply_one
  apply_one-Kept m k db c p e s = elim (Bool-cases (leb m.version (read_applied_version exec db))) [
    | inl done ↦ rw done (c, omega arith, ground arith)
    | inr behind ↦
        let exact : read_applied_version exec db ≡ k = ground arith in
        rw (behind, exact) (committed-Kept m k db (rw exact at c) (sym exact) e s)
  ]

  further : (o o' v v' : ℕ) (r : Applied exec) → o ≤ o' → v' ≡ v → Kept o' v r → Kept o v' r
  further o o' v v' (applied d) l w (x, y, z) = (x, omega (arith, l, y), omega (arith, w, z))
  further o o' v v' (stopped e d) l w (x, y) = (x, omega (arith, l, y))

  -- The rest of the loop behind its first migration.
  after_one :
      (v : ℕ) (ms : List Migration) (k : ℕ) (db : Sqlite exec)
      → v ≡ suc k
      → ((db' : Sqlite exec)
          → IsCurrent db'
          → suc k ≤ read_applied_version exec db'
          → Kept (read_applied_version exec db') (suc k + length ms) (apply_all exec ms db'))
      → (r : Applied exec) → Kept (read_applied_version exec db) v r
      → Kept
          (read_applied_version exec db)
          (k + suc (length ms))
          (elim r [ applied db' ↦ apply_all exec ms db' | stopped e db' ↦ stopped e db' ])
  after_one v ms k db e go (applied db') (c', l, h') =
      further (read_applied_version exec db) (read_applied_version exec db') (suc k + length ms)
        (k + suc (length ms)) (apply_all exec ms db') l (omega arith)
        (go db' c' (omega (arith, e, h')))
  after_one v ms k db e go (stopped er db') c' = c'

  apply_all-Kept :
      (ms : List Migration) (k : ℕ) (db : Sqlite exec)
      → IsCurrent db
      → k ≤ read_applied_version exec db
      → IsQueue sql_of k ms
      → Kept (read_applied_version exec db) (k + length ms) (apply_all exec ms db)
  unfolding apply_all
  apply_all-Kept [] k db c h q = (c, omega arith, omega (arith, h))
  apply_all-Kept (m ∷ ms) k db c h (e, s, q) =
      after_one m.version ms k db e (λ db' c' h'. apply_all-Kept ms (suc k) db' c' h' q)
        (apply_one exec m.version m.forward_sql db) (apply_one-Kept m k db c h e s)

  ensured_row :
      (o : Option ℕ) (d : D)
      → IsCurrent (record { applied_version = o; content = d })
      → IsCurrent (ensure_version_table exec (record { applied_version = o; content = d }))
  unfolding ensure_version_table read_applied_version
  ensured_row none d c = c
  ensured_row (some v) d c = c

  ensured_pointer :
      (o : Option ℕ) (d : D)
      → read_applied_version exec
          (ensure_version_table exec (record { applied_version = o; content = d }))
        ≡ read_applied_version exec (record { applied_version = o; content = d })
  unfolding ensure_version_table read_applied_version
  ensured_pointer none d = refl
  ensured_pointer (some v) d = refl

  -- Two databases with the same version pointer that replay the log have the same content.
  IsReplay-unique : {n : ℕ} {c d : D} → IsReplay n c → IsReplay n d → c ≡ d
  IsReplay-unique start start = refl
  IsReplay-unique (next r s e) (next r' s' e') = let same = IsReplay-unique r r' in cc

  lower : (o v v' : ℕ) (r : Applied exec) → v' ≤ v → Kept o v r → Kept o v' r
  lower o v v' (applied d) w (x, y, z) = (x, y, omega (arith, w, z))
  lower o v v' (stopped e d) w k = k

  ready-Kept :
      (app : Uuid) (ms : List Migration) (ready : Sqlite exec)
      → IsLog sql_of app ms
      → versions app ms ≡ count_from 1 (length (versions app ms))
      → IsCurrent ready
      → Kept
          (read_applied_version exec ready)
          (length (versions app ms))
          (apply_all exec (pending app (read_applied_version exec ready) ms) ready)
  unfolding pending
  ready-Kept app ms ready log numbered c =
      let k = read_applied_version exec ready in
      let q =
        above-IsQueue sql_of app k 0 (length (versions app ms)) ms log numbered (omega arith) in
      rw (order-IsQueue sql_of k (above app k ms) q) (
        lower k (k + length (above app k ms)) (length (versions app ms)) _
          (omega (arith, above-length app k 0 (length (versions app ms)) ms numbered))
          (apply_all-Kept (above app k ms) k ready c (omega arith) q))

  -- On a current database, where the log numbers the app's rows from one without a gap, a migration
  -- that succeeds brings the pointer to the last row of the app at least. A success and an error
  -- leave a database that is the replay of the log up to its pointer, which never goes back.
  pub ensure_migrated-Kept :
      (app : Uuid) (pg : Postgres) (db : Sqlite exec)
      → IsLog sql_of app pg.migrations
      → versions app pg.migrations ≡ count_from 1 (length (versions app pg.migrations))
      → IsCurrent db
      → Kept
          (read_applied_version exec db)
          (length (versions app pg.migrations))
          (ensure_migrated exec app pg db)
  unfolding ensure_migrated
  ensure_migrated-Kept app pg db log numbered c =
      further _ _ _ _ _ (omega (arith, ensured_pointer db.applied_version db.content)) refl (
        ready-Kept app pg.migrations (ensure_version_table exec db) log numbered
          (ensured_row db.applied_version db.content c))

  module _ (app : Uuid) (pg : Postgres) (log : IsLog sql_of app pg.migrations)
      (numbered : versions app pg.migrations
        ≡ count_from 1 (length (versions app pg.migrations))) where
    abbrev assign : (ℕ → List Migration) → ℕ → List Migration → ℕ → List Migration
    assign queues w ms = λ x. if x == w then ms else queues x

    -- The database, and the pending migrations of the processes that apply them.
    pub record Racing : Type 0 where
      pub db : Sqlite exec
      pub queues : ℕ → List Migration

    -- One step of one process: it reads the version pointer and the log, or applies the migration at
    -- the front of its list, or stops at an error.
    pub data Step : Racing → Racing → Type 0 where
      reads :
          (w : ℕ) (db : Sqlite exec) (queues : ℕ → List Migration)
          → Step
              (record { db = db; queues = queues })
              (record {
                db = db;
                queues = assign queues w (pending app (read_applied_version exec db) pg.migrations);
              })
      applies :
          (w : ℕ) (m : Migration) (ms : List Migration) (db db' : Sqlite exec)
          (queues : ℕ → List Migration)
          → queues w ≡ m ∷ ms
          → apply_one exec m.version m.forward_sql db ≡ applied db'
          → Step
              (record { db = db; queues = queues })
              (record { db = db'; queues = assign queues w ms })
      stops :
          (w : ℕ) (m : Migration) (ms : List Migration) (e : DbError) (db db' : Sqlite exec)
          (queues : ℕ → List Migration)
          → queues w ≡ m ∷ ms
          → apply_one exec m.version m.forward_sql db ≡ stopped e db'
          → Step
              (record { db = db; queues = queues })
              (record { db = db'; queues = assign queues w [] })

    pub data Steps : Racing → Racing → Type 0 where
      none_left : {r : Racing} → Steps r r
      followed : {r r' r'' : Racing} → Step r r' → Steps r' r'' → Steps r r''

    pub record IsRacing (r : Racing) : Type 0 where
      pub current : IsCurrent r.db
      pub queued :
          (w : ℕ) → (k : ℕ) × (k ≤ read_applied_version exec r.db) × IsQueue sql_of k (r.queues w)

    Step-IsRacing : {r r' : Racing} → Step r r' → IsRacing r → IsRacing r'
    Step-IsRacing (reads w db queues) i = record {
      current = i.current;
      queued = λ x. elim (Bool-cases (x == w)) [
        | inl hit ↦ rw hit (
          read_applied_version exec db,
          omega arith,
          pending-IsQueue sql_of app (read_applied_version exec db) pg.migrations log numbered,
        )
        | inr miss ↦ rw miss (i.queued x)
      ];
    }
    Step-IsRacing (applies w m ms db db' queues e h) i =
        let (k, low, queue) = i.queued w in
        let (e1, s1, rest) = rw e at queue in
        let kept = rw h at (apply_one-Kept m k db i.current low e1 s1) in
        record {
          current = kept.0;
          queued = λ x. elim (Bool-cases (x == w)) [
            | inl hit ↦ rw hit (suc k, omega (arith, kept.2, e1), rest)
            | inr miss ↦
                let (k', l', q') = i.queued x in rw miss (k', omega (arith, l', kept.1), q')
          ];
        }
    Step-IsRacing (stops w m ms er db db' queues e h) i =
        let (k, low, queue) = i.queued w in
        let (e1, s1, rest) = rw e at queue in
        let kept = rw h at (apply_one-Kept m k db i.current low e1 s1) in
        record {
          current = kept.0;
          queued = λ x. elim (Bool-cases (x == w)) [
            | inl hit ↦ rw hit (0, omega arith, tt)
            | inr miss ↦
                let (k', l', q') = i.queued x in rw miss (k', omega (arith, l', kept.1), q')
          ];
        }

    -- Processes that read the version pointer and apply the migrations they found, in any
    -- interleaving, with errors anywhere, leave a database that is the replay of the log up to its
    -- pointer, where they began with one and with nothing pending.
    pub Steps-IsRacing : {r r' : Racing} → Steps r r' → IsRacing r → IsRacing r'
    Steps-IsRacing none_left i = i
    Steps-IsRacing (followed step steps) i = Steps-IsRacing steps (Step-IsRacing step i)
