-- ===== src/Db/Schema.antt =====
-- crates/lovely-db/src/schema_service.rs: the log of an app's changes in Postgres, and its replay
-- into the app's SQLite database. The SQLite engine is a parameter: what a statement does to the
-- content of a database, or none for an error.
pub mod Versions
pub mod Replay
use lovely_rs.Base.{
  ℕ, zero, suc, ◌+◌, Option, none, some, Bool, true, false, not, ◌&&◌, List, [], ◌∷◌, ◌++◌, ltb,
  leb, ◌==◌, if◌then◌else◌, any, Text,
}
use lovely_rs.Tree.Errors.{Uuid}
use lovely_rs.Db.Errors.{DbError, DbResult, ok, err, app_not_found, sqlx}
use lovely_rs.Db.Intent.{Intent, RenderedDdl, render_sqlite}

-- A row of `app_schema_migrations`.
pub record Migration : Type 0 where
  pub app_id : Uuid
  pub version : ℕ
  pub intent : Intent
  pub forward_sql : Text
  pub reverse_sql : Option Text
  pub created_by : Uuid

-- The tables of Postgres that the service reads and writes.
pub record Postgres : Type 0 where
  pub apps : List Uuid
  pub users : List Uuid
  pub migrations : List Migration

-- The larger of two numbers, as `MAX` folds it.
abbrev pub larger : ℕ → ℕ → ℕ
larger a b = if ltb a b then b else a

-- `SELECT COALESCE(MAX(version), 0) … WHERE app_id = $1`.
unfoldable pub max_version : Uuid → List Migration → ℕ
max_version app [] = 0
max_version app (m ∷ ms) =
    let rest = max_version app ms in if m.app_id == app then larger m.version rest else rest

abbrev pub migration_of : Uuid → ℕ → Uuid → Intent → RenderedDdl → Migration
migration_of app version user intent ddl = record {
  app_id = app;
  version = version;
  intent = intent;
  forward_sql = ddl.forward;
  reverse_sql = ddl.reverse;
  created_by = user;
}

-- The transaction of `record`, once the SQL is rendered. The INSERT fails where the user of
-- `created_by` is not there.
abbrev pub record_row : Uuid → Uuid → Intent → Postgres → RenderedDdl → DbResult (ℕ × Postgres)
record_row app user intent pg ddl =
    if not (any (λ a. a == app) pg.apps)
    then err (app_not_found app)
    else if not (any (λ u. u == user) pg.users)
    then err sqlx
    else let next = suc (max_version app pg.migrations) in
      ok (
        next,
        record pg { migrations = pg.migrations ++ migration_of app next user intent ddl ∷ [] },
      )

abbrev pub rendered :
    DbResult RenderedDdl → (RenderedDdl → DbResult (ℕ × Postgres)) → DbResult (ℕ × Postgres)
rendered (ok ddl) k = k ddl
rendered (err e) k = err e

-- `SchemaService::record`. On an error the transaction is dropped, and Postgres is as it was.
unfoldable pub record_intent : Uuid → Uuid → Intent → Postgres → DbResult (ℕ × Postgres)
unfolding max_version
record_intent app user intent pg = rendered (render_sqlite intent) (record_row app user intent pg)

-- `ORDER BY version`.
unfoldable pub insert_version : Migration → List Migration → List Migration
insert_version m [] = m ∷ []
insert_version m (n ∷ ns) =
    let rest = insert_version m ns in if leb m.version n.version then m ∷ n ∷ ns else n ∷ rest

unfoldable pub order_by_version : List Migration → List Migration
unfolding insert_version
order_by_version [] = []
order_by_version (m ∷ ms) = insert_version m (order_by_version ms)

-- The rows of an app above a version.
unfoldable pub above : Uuid → ℕ → List Migration → List Migration
above app applied [] = []
above app applied (m ∷ ms) =
    let rest = above app applied ms in
    if (m.app_id == app) && ltb applied m.version then m ∷ rest else rest

-- The pending migrations of `ensure_migrated`; with version 0 applied, all of `list_for_app`.
unfoldable pub pending : Uuid → ℕ → List Migration → List Migration
unfolding order_by_version above
pending app applied ms = order_by_version (above app applied ms)

unfoldable pub list_rows : List Migration → List (ℕ × Intent)
list_rows [] = []
list_rows (m ∷ ms) = (m.version, m.intent) ∷ list_rows ms

-- `list_for_app`.
unfoldable pub list_for_app : Uuid → List Migration → List (ℕ × Intent)
unfolding pending list_rows
list_for_app app ms = list_rows (pending app 0 ms)

module _ {D : Type 0} (exec : Text → D → Option D) where
  -- An app's SQLite database: the row of `_lovely_schema_version`, where the table is there, and
  -- the rest.
  pub record Sqlite : Type 0 where
    pub applied_version : Option ℕ
    pub content : D

  -- `ensure_version_table`.
  unfoldable pub ensure_version_table : Sqlite → Sqlite
  ensure_version_table db = record db {
    applied_version = elim db.applied_version [ none ↦ some 0 | some v ↦ some v ];
  }

  -- `read_applied_version`, where the table is there.
  unfoldable pub read_applied_version : Sqlite → ℕ
  read_applied_version db = elim db.applied_version [ none ↦ 0 | some v ↦ v ]

  -- What a command leaves: an error rolls back its own transaction alone.
  pub data Applied : Type 0 where
    applied : Sqlite → Applied
    stopped : DbError → Sqlite → Applied

  abbrev pub committed : ℕ → Sqlite → Option D → Applied
  committed version db none = stopped sqlx db
  committed version db (some content) =
      applied (record { applied_version = some version; content = content })

  -- `apply_one`.
  unfoldable pub apply_one : ℕ → Text → Sqlite → Applied
  unfolding read_applied_version
  apply_one version forward_sql db =
      if leb version (read_applied_version db)
      then applied db
      else committed version db (exec forward_sql db.content)

  -- The loop over the pending migrations.
  unfoldable pub apply_all : List Migration → Sqlite → Applied
  unfolding apply_one
  apply_all [] db = applied db
  apply_all (m ∷ ms) db = elim (apply_one m.version m.forward_sql db) [
    | applied db' ↦ apply_all ms db'
    | stopped e db' ↦ stopped e db'
  ]

  -- `ensure_migrated`, under the lock of the app.
  unfoldable pub ensure_migrated : Uuid → Postgres → Sqlite → Applied
  unfolding ensure_version_table read_applied_version pending apply_all
  ensure_migrated app pg db =
      let ready = ensure_version_table db in
      apply_all (pending app (read_applied_version ready) pg.migrations) ready
