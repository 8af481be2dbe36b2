-- ===== src/Web/Errors.antt =====
-- crates/lovely-web/src/errors.rs: the errors of the handlers and the responses that they become.
use lovely_rs.Base.{ℕ, Text, codes}
use lovely_rs.Tree.Errors.{TreeError}
use lovely_rs.Db.Errors.{DbError}

-- `WebError`; an error of another library carries nothing here.
pub data WebError : Type 0 where
  not_found : WebError
  unauthorized : WebError
  forbidden : WebError
  bad_request : Text → WebError
  unprocessable : Text → WebError
  csrf : WebError
  db : DbError → WebError
  tree : TreeError → WebError
  other : WebError

-- `WebResult`.
pub data WebResult (A : Type 0) : Type 0 where
  ok : A → WebResult A
  err : WebError → WebResult A

-- `into_response`: the status and the text. A request that is not authenticated is sent to the
-- login.
unfoldable pub into_response : WebError → ℕ × Text
into_response not_found = (404, codes "Not Found")
into_response unauthorized = (303, codes "/auth/login")
into_response forbidden = (403, codes "Forbidden")
into_response (bad_request msg) = (400, msg)
into_response (unprocessable msg) = (422, msg)
into_response csrf = (403, codes "CSRF")
into_response (db e) = (500, codes "Internal Server Error")
into_response (tree e) = (500, codes "Internal Server Error")
into_response other = (500, codes "Internal Server Error")
