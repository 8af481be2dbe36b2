-- ===== src/Db/Tests.antt =====
-- Runs of the database components.
use lovely_rs.Base
use lovely_rs.Base.{
  map, if◌then◌else◌, ℕ, zero, suc, ◌≤◌, ◌≡◌, refl, ◌↔◌, Option, none, some, List, [], ◌∷◌, ◌++◌,
  Bool, true, false, Text, codes, arith, length, any, ◌==◌,
}
use lovely_rs.Tree.Build.Rows.{Json}
use lovely_rs.Db.Errors as DbErrors
use lovely_rs.Db.Elements.{
  refers, ElementDbRow, InsertElement, inserted_row, insert_element, delete_element,
}
use lovely_rs.Db.Elements.Undo.{untimed, delete_element-insert_element}
use lovely_rs.Db.Errors.{ok}
use lovely_rs.Db.Identifier.{Identifier}
use lovely_rs.Db.Identifier
use lovely_rs.Db.Identifier.Laws.{IsIdentifier, new_identifier_iff}
use lovely_rs.Db.Intent.{
  drop_table, render_sqlite, RenderedDdl, DefaultValue, render_default, quoted,
}
use lovely_rs.Db.Intent.Reverse.{inverse, render_sqlite-IsReverse}
use lovely_rs.Db.Intent.Quote.{read_quoted, behind, read-render_default}
use lovely_rs.Db.Schema.{
  Migration, Postgres, record_intent, migration_of, Sqlite, ensure_migrated, read_applied_version,
  max_version, pending,
}
use lovely_rs.Db.Schema.Versions.{versions, IsNumbered, count_from, record_intent-IsNumbered}
use lovely_rs.Db.Schema.Replay.{
  IsLog, start, Kept, ensure_migrated-Kept, Racing, IsRacing, none_left, Steps-IsRacing, followed,
  reads,
}

abbrev posts : Identifier
posts = record { raw = codes "posts" }

IsIdentifier-example :
    (Identifier.new (codes "posts") ≡ ok posts)
    ↔ ((posts.raw ≡ codes "posts") × IsIdentifier (codes "posts"))
IsIdentifier-example = new_identifier_iff (codes "posts") posts

posts-ok : Identifier.new (codes "posts") ≡ ok posts
unfolding Identifier.new Base.len
posts-ok = refl

reverse_example : (d : RenderedDdl) × (render_sqlite (drop_table posts) ≡ ok d) × (d.reverse ≡ none)
unfolding inverse
reverse_example = (render_sqlite-IsReverse (drop_table posts)).0 tt

default_example :
    read_quoted 0x27 (behind (render_default (DefaultValue.text (codes "it's")) ++ codes ")"))
    ≡ some (codes "it's", codes ")")
default_example = read-render_default (codes "it's") (codes ")") refl

abbrev ddl : RenderedDdl
ddl = record { forward = codes "DROP TABLE \"posts\""; reverse = none }

abbrev first_row : Migration
first_row = migration_of 1 1 7 (drop_table posts) ddl

abbrev before_it : Postgres
before_it = record { apps = 1 ∷ []; users = 7 ∷ []; migrations = [] }

abbrev log : Postgres
log = record { apps = 1 ∷ []; users = 7 ∷ []; migrations = first_row ∷ [] }

record_example :
    IsNumbered log.migrations
    × (1 ≡ suc (length (versions 1 [])))
    × ((m : Migration) × (log.migrations ≡ [] ++ m ∷ [])
        × (m.version ≡ 1)
        × (m.intent ≡ drop_table posts))
    × (any (λ a. a == 1) log.apps ≡ true)
unfolding record_intent render_sqlite versions count_from quoted max_version
record_example =
    record_intent-IsNumbered 1 7 (drop_table posts) before_it (1, log) (λ app. refl) refl

-- A database that remembers the statements that it ran.
abbrev remember : Text → List Text → Option (List Text)
remember q db = some (q ∷ db)

abbrev sql_of : ℕ → Option Text
sql_of zero = none
sql_of (suc k) = some ddl.forward

abbrev fresh_db : Sqlite remember
fresh_db = record { applied_version = none; content = [] }

migrate_example : Kept remember [] sql_of 0 1 (ensure_migrated remember 1 log fresh_db)
unfolding versions count_from read_applied_version
migrate_example = ensure_migrated-Kept remember [] sql_of 1 log fresh_db (λ e. refl, tt) refl start

log-IsLog : IsLog sql_of 1 log.migrations
log-IsLog = (λ e. refl, tt)

one_row : versions 1 log.migrations ≡ count_from 1 (length (versions 1 log.migrations))
unfolding versions count_from
one_row = refl

abbrev RacingHere : Type 0
RacingHere = Racing remember [] sql_of 1 log log-IsLog one_row

abbrev idle : RacingHere
idle = record { db = record { applied_version = some 0; content = [] }; queues = λ w. [] }

abbrev reading : RacingHere
reading = record { db = idle.db; queues = λ x. if x == 0 then pending 1 0 log.migrations else [] }

idle-IsRacing : IsRacing remember [] sql_of 1 log log-IsLog one_row idle
unfolding read_applied_version
idle-IsRacing = record { current = start; queued = λ w. (0, omega arith, tt) }

IsRacing-example : IsRacing remember [] sql_of 1 log log-IsLog one_row reading
unfolding read_applied_version
IsRacing-example =
    Steps-IsRacing remember [] sql_of 1 log log-IsLog one_row
      (followed (reads 0 idle.db (λ w. [])) none_left) idle-IsRacing

abbrev placing : InsertElement
placing = record {
  page_id = 1;
  parent_id = none;
  prev_sibling = some 5;
  tag = codes "p";
  attrs = Json.null;
  payload = Json.null;
}

-- A row with two rows behind it; the new one goes in between.
abbrev table : List ElementDbRow
table =
    inserted_row 5 0 (record placing { prev_sibling = none })
    ∷ inserted_row 6 0 placing
    ∷ inserted_row 7 0 (record placing { prev_sibling = some 6 })
    ∷ []

undo_example :
    (after : List ElementDbRow) × (insert_element 9 6 (λ p. p == 1) placing table
      ≡ DbErrors.ok (inserted_row 9 6 placing, after))
    × (((delete_element 9 7 after).0 ≡ 1)
        × (map untimed (delete_element 9 7 after).1 ≡ map untimed table))
unfolding refers
undo_example =
    delete_element-insert_element 9 6 7 placing (λ p. p == 1) table
      ((refl, refl, refl), ((refl, refl, refl), ((refl, refl, refl), tt))) refl refl refl

-- Nothing is inserted below a missing row or into a missing page.
no_parent :
    insert_element 9 6 (λ p. p == 1) (record placing { parent_id = some 8 }) table
    ≡ DbErrors.err DbErrors.sqlx
unfolding insert_element
no_parent = refl

no_page : insert_element 9 6 (λ p. false) placing table ≡ DbErrors.err DbErrors.sqlx
unfolding insert_element
no_page = refl
