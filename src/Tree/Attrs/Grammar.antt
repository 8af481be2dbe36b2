-- ===== src/Tree/Attrs/Grammar.antt =====
-- Which texts the two validators of attribute names accept.
use lovely_rs.Base.{
  ℕ, ◌≤◌, ◌<◌, ◌≡◌, refl, ◌↔◌, ◌||◌, ◌⊎◌, Bool, true, false, [], ◌∷◌, map, arith, all, any, Text,
  codes, len, length, starts_with, to_lower, IsAscii, bytes_of_IsAscii, ◌==◌,
}
use lovely_rs.Tree.Errors.{ok, >>=-eq-ok}
use lovely_rs.Tree.Attrs.{
  AttrName, is_alphabetic, is_name_char, check_chars, from_server_trusted, new, deny_prefixes,
}

-- A letter, then letters, digits, hyphens and underscores.
abbrev pub IsName : Text → Type 0
IsName [] = ⊥
IsName (c ∷ s) = (is_alphabetic c ≡ true) × (all is_name_char s ≡ true)

name_chars-IsAscii : (s : Text) → all is_name_char s ≡ true → IsAscii s
name_chars-IsAscii [] h = tt
name_chars-IsAscii (c ∷ s) h = (ground arith, name_chars-IsAscii s (ground arith))

IsName-IsAscii : (s : Text) → IsName s → IsAscii s
IsName-IsAscii [] h = absurd h
IsName-IsAscii (c ∷ s) (h, k) = (ground arith, name_chars-IsAscii s k)

len_of_IsName : (s : Text) → IsName s → len s ≡ length s
unfolding len
len_of_IsName s h = rw (bytes_of_IsAscii s (IsName-IsAscii s h))

check_chars_iff : (s t : Text) (n : AttrName) → (check_chars s t ≡ ok n) ↔ ((n.text ≡ s) × IsName t)
unfolding check_chars
check_chars_iff s [] n = (λ h. cc, λ h. absurd h.1)
check_chars_iff s (c ∷ t) n = (λ h. (ground arith, (ground arith, ground arith)), λ h. ground arith)

length-pos : (s : Text) → IsName s → 0 < length s
length-pos [] h = absurd h
length-pos (c ∷ s) h = omega arith

-- The permissive validator accepts exactly the names of at most 64 characters, unchanged.
pub from_server_trusted_iff :
    (s : Text) (n : AttrName)
    → (from_server_trusted s ≡ ok n) ↔ ((n.text ≡ s) × IsName s × (length s ≤ 64))
unfolding from_server_trusted
from_server_trusted_iff s n = (
  λ h.
      let tested : check_chars s s ≡ ok n = ground arith in
      let (same, grammar) = (check_chars_iff s s n).0 tested in
      (same, grammar, ground (arith, len_of_IsName s grammar)),
  λ (same, grammar, short). ground (
    arith,
    (check_chars_iff s s n).1 (same, grammar),
    len_of_IsName s grammar,
    length-pos s grammar,
  ),
)

-- The prefixes that user input may not have, in any letter case.
abbrev pub IsDenied : Text → Type 0
IsDenied s =
    (starts_with (map to_lower s) (codes "on") ≡ true)
    ⊎ (starts_with (map to_lower s) (codes "hx-") ≡ true)

abbrev IsAllowed : Text → Type 0
IsAllowed lower =
    ¬ ((starts_with lower (codes "on") ≡ true) ⊎ (starts_with lower (codes "hx-") ≡ true))

deny_prefixes-ok :
    (s lower : Text) (valid : AttrName) {n : AttrName}
    → deny_prefixes s lower valid ≡ ok n
    → (valid ≡ n) × IsAllowed lower
unfolding deny_prefixes
deny_prefixes-ok s lower valid h = (ground arith, λ k. ground arith)

deny_prefixes_fine :
    (s lower : Text) (n : AttrName) → IsAllowed lower → deny_prefixes s lower n ≡ ok n
unfolding deny_prefixes
deny_prefixes_fine s lower n h = ground arith

-- The strict validator accepts exactly the names of at most 64 characters that do not begin with
-- `on` or `hx-` in any letter case, unchanged.
pub new_iff :
    (s : Text) (n : AttrName)
    → (new s ≡ ok n) ↔ ((n.text ≡ s) × IsName s × (length s ≤ 64) × ¬ IsDenied s)
unfolding new
new_iff s n = (
  λ h.
      let (valid, got, kept) = >>=-eq-ok (from_server_trusted s) _ h in
      let (same, grammar, short) = (from_server_trusted_iff s valid).0 got in
      let (eq, fine) = deny_prefixes-ok s (map to_lower valid.text) valid kept in
      let ends : n.text ≡ s = rw (← eq) same in (ends, grammar, short, rw same at fine),
  λ (same, grammar, short, fine).
      rw ((from_server_trusted_iff s n).1 (same, grammar, short))
        (deny_prefixes_fine s (map to_lower n.text) n (rw same fine)),
)

-- The characters that end an attribute name in HTML, and those that markup is made of.
abbrev pub is_markup : ℕ → Bool
is_markup c =
    c == b' '
    || c == b'<'
    || c == b'>'
    || c == b'"'
    || c == 0x27
    || c == b'='
    || c == b'/'
    || c == b'&'

name_chars-is_markup : (s : Text) → all is_name_char s ≡ true → any is_markup s ≡ false
name_chars-is_markup [] h = refl
name_chars-is_markup (c ∷ s) h = ground (arith, name_chars-is_markup s)

IsName-is_markup : (s : Text) → IsName s → any is_markup s ≡ false
IsName-is_markup [] h = absurd h
IsName-is_markup (c ∷ s) (h, k) = ground (arith, name_chars-is_markup s k)

-- No name that the permissive validator accepts holds a space, an angle bracket, a quote, an equals
-- sign, a slash or an ampersand.
pub from_server_trusted-is_markup :
    (s : Text) (n : AttrName) → from_server_trusted s ≡ ok n → any is_markup n.text ≡ false
from_server_trusted-is_markup s n h =
    let (same, grammar, _) = (from_server_trusted_iff s n).0 h in
    rw same (IsName-is_markup s grammar)
