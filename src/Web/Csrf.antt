-- ===== src/Web/Csrf.antt =====
-- crates/lovely-web/src/auth/csrf.rs: tokens against forged requests. The random bytes and the
-- cookies of the request are parameters.
pub mod Laws
use lovely_rs.Base.{
  ℕ, zero, suc, ◌+◌, ◌-◌, ◌/◌, ◌%◌, ◌*◌, Bool, true, false, not, ◌||◌, Option, none, some, List, [],
  ◌∷◌, ltb, leb, ◌==◌, if◌then◌else◌, length, Text, codes, bytes, starts_with,
}
use lovely_rs.Web.Errors.{WebResult, ok, err, csrf}

-- `hex_nibble`; none is the unreachable arm.
unfoldable pub hex_nibble : ℕ → Option ℕ
hex_nibble n =
    if leb n 9 then some (b'0' + n) else if leb n 15 then some (b'a' + (n - 10)) else none

abbrev pub push_opt : Option ℕ → Option Text → Option Text
push_opt none s = none
push_opt (some c) none = none
push_opt (some c) (some s) = some (c ∷ s)

-- `generate_token` from the bytes that the generator filled in: `b >> 4`, then `b & 0x0F`.
unfoldable pub generate_token : List ℕ → Option Text
unfolding hex_nibble
generate_token [] = some []
generate_token (b ∷ bs) =
    push_opt (hex_nibble (b / 16)) (push_opt (hex_nibble (b % 16)) (generate_token bs))

-- What `ensure_cookie` gives: the cookie that it adds, where it adds one, and the token.
pub record NewCookie : Type 0 where
  pub value : Text
  pub http_only : Bool
  pub secure : Bool

abbrev with_token : Text → Option Text → Option (Option NewCookie × Text)
with_token base_url none = none
with_token base_url (some token) = some (
  some (record {
    value = token;
    http_only = false;
    secure = starts_with base_url (codes "https://");
  }),
  token,
)

unfoldable pub ensure_cookie :
    (random : List ℕ)
    → (cookie : Option Text) → (base_url : Text) → Option (Option NewCookie × Text)
unfolding generate_token
ensure_cookie random (some value) base_url = some (none, value)
ensure_cookie random none base_url = with_token base_url (generate_token random)

-- `from_request_parts`: the token of the request's cookie.
unfoldable pub from_request_parts : (cookie : Option Text) → WebResult Text
from_request_parts none = err csrf
from_request_parts (some value) = ok value

-- `^` on bytes, bit by bit, on as many bits as the fuel says.
unfoldable pub xor : (bits : ℕ) → ℕ → ℕ → ℕ
xor zero a b = 0
xor (suc k) a b = (if a % 2 == b % 2 then 0 else 1) + 2 * xor k (a / 2) (b / 2)

-- `|` on bytes.
unfoldable pub bit_or : (bits : ℕ) → ℕ → ℕ → ℕ
bit_or zero a b = 0
bit_or (suc k) a b = (if a % 2 == 1 || b % 2 == 1 then 1 else 0) + 2 * bit_or k (a / 2) (b / 2)

-- The loop over the zipped bytes.
unfoldable pub diff_loop : ℕ → List ℕ → List ℕ → ℕ
unfolding xor bit_or
diff_loop diff (x ∷ xs) (y ∷ ys) = diff_loop (bit_or 8 diff (xor 8 x y)) xs ys
diff_loop diff [] ys = diff
diff_loop diff (x ∷ xs) [] = diff

unfoldable pub constant_time_eq : List ℕ → List ℕ → Bool
unfolding diff_loop
constant_time_eq a b = if not (length a == length b) then false else diff_loop 0 a b == 0

-- `verify_token`.
unfoldable pub verify_token :
    (cookie_token : Text) → (header_or_form : Option Text) → WebResult (Unit {0})
unfolding constant_time_eq
verify_token cookie_token none = err csrf
verify_token cookie_token (some supplied) =
    if not (constant_time_eq (bytes cookie_token) (bytes supplied)) then err csrf else ok tt
