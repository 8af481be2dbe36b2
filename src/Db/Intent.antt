-- ===== src/Db/Intent.antt =====
-- crates/lovely-db/src/intent.rs: columns, the changes of a schema, and the SQL of a change.
pub mod Reverse
pub mod Quote
use lovely_rs.Base.{
  ℕ, zero, suc, ◌+◌, ◌/◌, ◌%◌, Option, none, some, Bool, true, false, List, [], ◌∷◌, ◌++◌, map, ltb,
  ◌==◌, if◌then◌else◌, length, Text, codes,
}
use lovely_rs.Db.Errors.{DbResult, ok, err, schema_conflict}
use lovely_rs.Db.Identifier.{Identifier}

pub data ColumnKind : Type 0 where
  text integer real boolean blob datetime json uuid : ColumnKind

unfoldable pub sqlite_type : ColumnKind → Text
sqlite_type ColumnKind.text = codes "TEXT"
sqlite_type ColumnKind.json = codes "TEXT"
sqlite_type ColumnKind.uuid = codes "TEXT"
sqlite_type ColumnKind.datetime = codes "TEXT"
sqlite_type ColumnKind.integer = codes "INTEGER"
sqlite_type ColumnKind.boolean = codes "INTEGER"
sqlite_type ColumnKind.real = codes "REAL"
sqlite_type ColumnKind.blob = codes "BLOB"

-- The name of a kind as `{:?}` prints it.
unfoldable pub debug_name : ColumnKind → Text
debug_name ColumnKind.text = codes "Text"
debug_name ColumnKind.integer = codes "Integer"
debug_name ColumnKind.real = codes "Real"
debug_name ColumnKind.boolean = codes "Boolean"
debug_name ColumnKind.blob = codes "Blob"
debug_name ColumnKind.datetime = codes "Datetime"
debug_name ColumnKind.json = codes "Json"
debug_name ColumnKind.uuid = codes "Uuid"

-- An `i64`: a number, or one less than the negation of a number.
pub data I64 : Type 0 where
  pos negsuc : ℕ → I64

-- The decimal digits of a number; 20 digits hold every 64-bit number.
unfoldable pub digits : (fuel : ℕ) → ℕ → Text
digits zero n = []
digits (suc k) n =
    let front = digits k (n / 10) in
    if ltb n 10 then (b'0' + n) ∷ [] else front ++ (b'0' + n % 10) ∷ []

-- `to_string` of an `i64`, and of a length.
unfoldable pub int_text : I64 → Text
unfolding digits
int_text (I64.pos n) = digits 20 n
int_text (I64.negsuc n) = codes "-" ++ digits 20 (suc n)

pub data DefaultValue : Type 0 where
  null current_timestamp : DefaultValue
  integer : I64 → DefaultValue
  boolean : Bool → DefaultValue
  text : Text → DefaultValue

-- `replace('\'', "''")`.
unfoldable pub double_quotes : Text → Text
double_quotes [] = []
double_quotes (c ∷ s) = (if c == 0x27 then 0x27 ∷ 0x27 ∷ [] else c ∷ []) ++ double_quotes s

-- `DefaultValue::render_sqlite`.
unfoldable pub render_default : DefaultValue → Text
unfolding int_text double_quotes
render_default DefaultValue.null = codes "NULL"
render_default DefaultValue.current_timestamp = codes "CURRENT_TIMESTAMP"
render_default (DefaultValue.integer value) = int_text value
render_default (DefaultValue.boolean value) = if value then codes "1" else codes "0"
render_default (DefaultValue.text value) = codes "'" ++ double_quotes value ++ codes "'"

pub record ColumnSpec : Type 0 where
  pub name : Identifier
  pub kind : ColumnKind
  pub nullable : Bool
  pub default_value : Option DefaultValue

-- `"{name}"`.
unfoldable pub quoted : Identifier → Text
quoted name = codes "\"" ++ name.raw ++ codes "\""

unfoldable pub default_clause : Option DefaultValue → Text
unfolding render_default
default_clause none = []
default_clause (some d) = codes " DEFAULT " ++ render_default d

-- `ColumnSpec::render_sqlite`.
unfoldable pub render_column : ColumnSpec → Text
unfolding quoted sqlite_type default_clause
render_column column =
    quoted column.name
    ++ codes " "
    ++ sqlite_type column.kind
    ++ (if column.nullable then [] else codes " NOT NULL")
    ++ default_clause column.default_value

-- `join(", ")`.
unfoldable pub join : List Text → Text
join [] = []
join (t ∷ []) = t
join (t ∷ u ∷ texts) = t ++ codes ", " ++ join (u ∷ texts)

pub data Intent : Type 0 where
  create_table : (name : Identifier) (columns : List ColumnSpec) → Intent
  drop_table : (name : Identifier) → Intent
  add_column : (table : Identifier) (column : ColumnSpec) → Intent
  drop_column : (table column : Identifier) → Intent
  rename_column : (table from_name to_name : Identifier) → Intent
  add_index : (table name : Identifier) (columns : List Identifier) (unique : Bool) → Intent
  drop_index : (name : Identifier) → Intent

unfoldable pub summary : Intent → Text
unfolding digits debug_name
summary (create_table name columns) =
    codes "create table `"
    ++ name.raw
    ++ codes "` ("
    ++ digits 20 (length columns)
    ++ codes " cols)"
summary (drop_table name) = codes "drop table `" ++ name.raw ++ codes "`"
summary (add_column table column) =
    codes "add `"
    ++ table.raw
    ++ codes "."
    ++ column.name.raw
    ++ codes "` ("
    ++ debug_name column.kind
    ++ codes ")"
summary (drop_column table column) =
    codes "drop `" ++ table.raw ++ codes "." ++ column.raw ++ codes "`"
summary (rename_column table from_name to_name) =
    codes "rename `"
    ++ table.raw
    ++ codes "."
    ++ from_name.raw
    ++ codes "` → `"
    ++ to_name.raw
    ++ codes "`"
summary (add_index table name columns unique) =
    if unique
    then codes "add unique index `" ++ name.raw ++ codes "` on `" ++ table.raw ++ codes "`"
    else codes "add index `" ++ name.raw ++ codes "` on `" ++ table.raw ++ codes "`"
summary (drop_index name) = codes "drop index `" ++ name.raw ++ codes "`"

pub record RenderedDdl : Type 0 where
  pub forward : Text
  pub reverse : Option Text

abbrev ddl : Text → Option Text → DbResult RenderedDdl
ddl forward reverse = ok (record { forward = forward; reverse = reverse })

-- `Intent::render_sqlite`.
unfoldable pub render_sqlite : Intent → DbResult RenderedDdl
unfolding quoted render_column join
render_sqlite (create_table name []) =
    err (
      schema_conflict (codes "create_table " ++ name.raw ++ codes ": at least one column required"))
render_sqlite (create_table name (column ∷ columns)) =
    let cols = join (map render_column (column ∷ columns)) in
    ddl (codes "CREATE TABLE " ++ quoted name ++ codes " (" ++ cols ++ codes ")")
      (some (codes "DROP TABLE " ++ quoted name))
render_sqlite (drop_table name) = ddl (codes "DROP TABLE " ++ quoted name) none
render_sqlite (add_column table column) =
    ddl (codes "ALTER TABLE " ++ quoted table ++ codes " ADD COLUMN " ++ render_column column)
      (some (codes "ALTER TABLE " ++ quoted table ++ codes " DROP COLUMN " ++ quoted column.name))
render_sqlite (drop_column table column) =
    ddl (codes "ALTER TABLE " ++ quoted table ++ codes " DROP COLUMN " ++ quoted column) none
render_sqlite (rename_column table from_name to_name) =
    ddl
      (codes "ALTER TABLE "
        ++ quoted table
        ++ codes " RENAME COLUMN "
        ++ quoted from_name
        ++ codes " TO "
        ++ quoted to_name)
      (some (
        codes "ALTER TABLE "
        ++ quoted table
        ++ codes " RENAME COLUMN "
        ++ quoted to_name
        ++ codes " TO "
        ++ quoted from_name))
render_sqlite (add_index table name [] unique) =
    err (schema_conflict (codes "add_index " ++ name.raw ++ codes ": at least one column required"))
render_sqlite (add_index table name (column ∷ columns) unique) =
    let cols = join (map quoted (column ∷ columns)) in
    let kw = if unique then codes "UNIQUE INDEX" else codes "INDEX" in
    ddl
      (codes "CREATE "
        ++ kw
        ++ codes " "
        ++ quoted name
        ++ codes " ON "
        ++ quoted table
        ++ codes " ("
        ++ cols
        ++ codes ")")
      (some (codes "DROP INDEX " ++ quoted name))
render_sqlite (drop_index name) = ddl (codes "DROP INDEX " ++ quoted name) none
