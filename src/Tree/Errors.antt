-- ===== src/Tree/Errors.antt =====
-- crates/lovely-tree/src/errors.rs and types.rs: identifiers and errors. A UUID and a slot-map key
-- are opaque values that the code compares, orders and copies; they are numbers here.
use lovely_rs.Base.{ℕ, ◌≡◌, refl, Text}

abbrev pub Uuid : Type 0
Uuid = ℕ

abbrev pub NodeId : Type 0
NodeId = ℕ

-- What the message of `MalformedRow` names.
pub data Malformed : Type 0 where
  unknown_parent : (row parent : Uuid) → Malformed
  cycle_at : Uuid → Malformed
  unreachable_rows : ℕ → Malformed
  unknown_tag : Text → Malformed
  attrs_not_object : Malformed
  non_scalar_attr : Text → Malformed

pub data TreeError : Type 0 where
  not_found : NodeId → TreeError
  unknown_uuid : Uuid → TreeError
  would_cycle : (child ancestor : NodeId) → TreeError
  invalid_attribute : Text → TreeError
  duplicate_uuid : Uuid → TreeError
  cannot_move_root : TreeError
  malformed_row : Malformed → TreeError

-- `Result<A, TreeError>`, and the operator `?` with what follows it.
pub data Result (A : Type 0) : Type 0 where
  err : TreeError → Result A
  ok : A → Result A

infixl 5 ◌>>=◌
abbrev pub ◌>>=◌ : {A B : Type 0} → Result A → (A → Result B) → Result B
err e >>= next = err e
ok value >>= next = next value

pub >>=-eq-ok :
    {A B : Type 0} (m : Result A) (next : A → Result B) {b : B}
    → (m >>= next) ≡ ok b
    → (value : A) × (m ≡ ok value) × (next value ≡ ok b)
>>=-eq-ok (err e) next h = cc
>>=-eq-ok (ok value) next h = (value, refl, h)
