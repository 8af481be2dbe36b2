-- ===== src/Tree/Attrs.antt =====
-- crates/lovely-tree/src/attrs.rs: validated attribute names and ordered attribute lists.
pub mod Grammar
use lovely_rs.Base.{
  ℕ, Bool, true, false, ◌||◌, not, List, [], ◌∷◌, ◌++◌, map, leb, ltb, ◌==◌, if◌then◌else◌, all,
  length, Text, codes, len, starts_with, is_lower, is_upper, is_digit, to_lower,
}
use lovely_rs.Tree.Errors.{Result, ok, err, invalid_attribute, ◌>>=◌}

pub record AttrName : Type 0 where
  pub text : Text

-- `char::is_ascii_alphabetic` and the characters allowed behind the first.
abbrev pub is_alphabetic : ℕ → Bool
is_alphabetic c = is_lower c || is_upper c

abbrev pub is_name_char : ℕ → Bool
is_name_char c = is_alphabetic c || is_digit c || c == b'-' || c == b'_'

-- The part behind the test of the length: the first character, then the loop over the others.
check_chars : Text → Text → Result AttrName
check_chars s [] = err (invalid_attribute s)
check_chars s (first ∷ chars) =
    if not (is_alphabetic first)
    then err (invalid_attribute s)
    else if not (all is_name_char chars)
    then err (invalid_attribute s)
    else ok (record { text = s })

-- `AttrName::from_server_trusted`.
unfoldable pub from_server_trusted : Text → Result AttrName
unfolding check_chars
from_server_trusted s =
    if len s == 0 || ltb 64 (len s) then err (invalid_attribute s) else check_chars s s

-- The denylist of `AttrName::new`, on the lower-cased name.
deny_prefixes : Text → Text → AttrName → Result AttrName
deny_prefixes s lower valid =
    if starts_with lower (codes "on") || starts_with lower (codes "hx-")
    then err (invalid_attribute s)
    else ok valid

-- `AttrName::new`.
unfoldable pub new : Text → Result AttrName
unfolding deny_prefixes
new s = do valid ← from_server_trusted s; deny_prefixes s (map to_lower valid.text) valid

-- `AttrList`: its entries in order, with `push` at the end.
abbrev pub AttrList : Type 0
AttrList = List (AttrName × Text)

unfoldable pub push : AttrList → AttrName → Text → AttrList
push entries name value = entries ++ (name, value) ∷ []
