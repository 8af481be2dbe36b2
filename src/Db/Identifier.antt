-- ===== src/Db/Identifier.antt =====
-- crates/lovely-db/src/intent.rs: `Identifier`, a name that may stand in a SQL statement.
pub mod Laws
use lovely_rs.Base.{
  ℕ, Bool, true, false, ◌&&◌, ◌||◌, not, List, [], ◌∷◌, ltb, ◌==◌, if◌then◌else◌, all, any, Text,
  codes, bytes, len, text_eq, starts_with, is_lower, is_digit,
}
use lovely_rs.Db.Errors.{DbResult, ok, err, invalid_identifier}

-- `RESERVED`.
abbrev pub reserved : List Text
reserved =
    codes "select"
    ∷ codes "from"
    ∷ codes "where"
    ∷ codes "table"
    ∷ codes "index"
    ∷ codes "drop"
    ∷ codes "create"
    ∷ codes "insert"
    ∷ codes "update"
    ∷ codes "delete"
    ∷ codes "alter"
    ∷ codes "rename"
    ∷ codes "column"
    ∷ codes "primary"
    ∷ codes "foreign"
    ∷ codes "key"
    ∷ codes "unique"
    ∷ codes "constraint"
    ∷ codes "join"
    ∷ codes "inner"
    ∷ codes "outer"
    ∷ codes "left"
    ∷ codes "right"
    ∷ codes "on"
    ∷ codes "and"
    ∷ codes "or"
    ∷ codes "not"
    ∷ codes "null"
    ∷ codes "default"
    ∷ codes "values"
    ∷ codes "into"
    ∷ codes "set"
    ∷ codes "begin"
    ∷ codes "commit"
    ∷ codes "rollback"
    ∷ codes "transaction"
    ∷ codes "savepoint"
    ∷ codes "release"
    ∷ codes "with"
    ∷ codes "as"
    ∷ codes "by"
    ∷ codes "order"
    ∷ codes "group"
    ∷ codes "having"
    ∷ codes "limit"
    ∷ codes "offset"
    ∷ codes "case"
    ∷ codes "when"
    ∷ codes "then"
    ∷ codes "else"
    ∷ codes "end"
    ∷ codes "exists"
    ∷ codes "in"
    ∷ codes "between"
    ∷ codes "like"
    ∷ codes "is"
    ∷ codes "all"
    ∷ codes "any"
    ∷ codes "distinct"
    ∷ codes "having"
    ∷ codes "union"
    ∷ codes "intersect"
    ∷ codes "except"
    ∷ codes "view"
    ∷ codes "trigger"
    ∷ codes "if"
    ∷ []

pub record Identifier : Type 0 where
  pub raw : Text

abbrev pub is_first_byte : ℕ → Bool
is_first_byte b = is_lower b || b == b'_'

abbrev pub is_other_byte : ℕ → Bool
is_other_byte b = is_lower b || is_digit b || b == b'_'

-- `first_ok` and the loop over the other bytes; `bytes[0]` of no bytes is not reached.
unfoldable pub check_bytes : List ℕ → Bool
check_bytes [] = false
check_bytes (b ∷ bs) = is_first_byte b && all is_other_byte bs

-- `RESERVED.contains`.
unfoldable pub is_reserved : Text → Bool
is_reserved raw = any (text_eq raw) reserved

-- `starts_with("_lovely")`.
unfoldable pub is_internal : Text → Bool
is_internal raw = starts_with raw (codes "_lovely")

-- `Identifier::new`.
unfoldable pub new : Text → DbResult Identifier
unfolding check_bytes is_reserved is_internal
new raw =
    if len raw == 0 || ltb 63 (len raw)
    then err (invalid_identifier raw)
    else if not (check_bytes (bytes raw))
    then err (invalid_identifier raw)
    else if is_reserved raw
    then err (invalid_identifier raw)
    else if is_internal raw
    then err (invalid_identifier raw)
    else ok (record { raw = raw })
