-- ===== src/Db/Errors.antt =====
-- crates/lovely-db/src/errors.rs: the errors that the modelled code raises. An error of the database
-- driver carries nothing here, and no more does a violated uniqueness or a decoding error.
use lovely_rs.Base.{Text}
use lovely_rs.Tree.Errors.{Uuid}

pub data DbError : Type 0 where
  sqlx : DbError
  app_not_found : Uuid → DbError
  invalid_identifier : Text → DbError
  schema_conflict : Text → DbError
  conflict : DbError
  snapshot_decode : DbError

-- `Result<A, DbError>`.
pub data DbResult (A : Type 0) : Type 0 where
  ok : A → DbResult A
  err : DbError → DbResult A
