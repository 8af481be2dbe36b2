-- ===== src/Db/Identifier/Laws.antt =====
-- Which texts are identifiers.
use lovely_rs.Base.{
  if◌then◌else◌, ℕ, ◌≤◌, ◌<◌, ◌≡◌, refl, ◌↔◌, inl, inr, ap, Bool, true, false, ◌||◌, not, List, [],
  ◌∷◌, ◌++◌, arith, all, any, Text, codes, bytes, len, length, ltb, text_eq, text_eq_iff,
  starts_with, ◌==◌, IsAscii, bytes_of_IsAscii, bytes-IsAscii, Bool-cases,
}
use lovely_rs.Db.Errors.{ok, err, invalid_identifier}
use lovely_rs.Db.Identifier.{
  Identifier, new, reserved, is_reserved, is_internal, check_bytes, is_first_byte, is_other_byte,
}

-- A letter or an underscore, then letters, digits and underscores, all of them lower case.
abbrev pub IsWord : Text → Type 0
IsWord [] = ⊥
IsWord (c ∷ s) = (is_first_byte c ≡ true) × (all is_other_byte s ≡ true)

pub data In (s : Text) : List Text → Type 0 where
  here : {words : List Text} → In s (s ∷ words)
  there : {w : Text} {words : List Text} → In s words → In s (w ∷ words)

-- A word of 1 to 63 characters that is not reserved and does not begin with `_lovely`.
abbrev pub IsIdentifier : Text → Type 0
IsIdentifier s =
    IsWord s × (length s ≤ 63) × (¬ In s reserved) × ((t : Text) → ¬ (s ≡ codes "_lovely" ++ t))

any-In : (s : Text) (words : List Text) → any (text_eq s) words ≡ true → In s words
any-In s [] h = cc
any-In s (w ∷ words) h = elim (Bool-cases (text_eq s w)) [
  | inl hit ↦ rw (← (text_eq_iff s w).0 hit) here
  | inr miss ↦ there (any-In s words (rw miss at h))
]

In-any : (s : Text) (words : List Text) → In s words → any (text_eq s) words ≡ true
In-any s [] x = elim x [ ]
In-any s (_ ∷ words) here = rw ((text_eq_iff s s).1 refl) refl
In-any s (w ∷ words) (there h) = ground (arith, In-any s words h)

starts_with-append : (s p : Text) → starts_with s p ≡ true → (t : Text) × (s ≡ p ++ t)
starts_with-append s [] h = (s, refl)
starts_with-append [] (b ∷ p) h = cc
starts_with-append (a ∷ s) (b ∷ p) h =
    let (t, e) = starts_with-append s p (ground arith) in (t, ground arith)

append-starts_with : (p t : Text) → starts_with (p ++ t) p ≡ true
append-starts_with [] t = refl
append-starts_with (b ∷ p) t = ground (arith, append-starts_with p t)

other_bytes-IsAscii : (s : List ℕ) → all is_other_byte s ≡ true → IsAscii s
other_bytes-IsAscii [] h = tt
other_bytes-IsAscii (c ∷ s) h = (ground arith, other_bytes-IsAscii s (ground arith))

check_bytes_iff : (s : Text) → (check_bytes s ≡ true) ↔ IsWord s
unfolding check_bytes
check_bytes_iff [] = (λ h. cc, λ h. absurd h)
check_bytes_iff (c ∷ s) = (λ h. (ground arith, ground arith), λ h. ground arith)

IsWord-IsAscii : (s : Text) → IsWord s → IsAscii s
IsWord-IsAscii [] h = absurd h
IsWord-IsAscii (c ∷ s) (h, k) = (ground arith, other_bytes-IsAscii s k)

check_bytes-below : (s : List ℕ) → check_bytes s ≡ true → all (λ b. ltb b 0x80) s ≡ true
unfolding check_bytes
check_bytes-below [] h = refl
check_bytes-below (c ∷ s) h = ground (arith, others-below s)
  where
    others-below : (s : List ℕ) → all is_other_byte s ≡ true → all (λ b. ltb b 0x80) s ≡ true
    others-below [] h = refl
    others-below (c ∷ s) h = ground (arith, others-below s)

-- The bytes are in order exactly when the text is a word.
bytes_iff : (s : Text) → (check_bytes (bytes s) ≡ true) ↔ IsWord s
bytes_iff s = (
  λ h.
      let ascii = bytes-IsAscii s (check_bytes-below (bytes s) h) in
      (check_bytes_iff s).0 (rw (bytes_of_IsAscii s ascii) at h),
  λ w. rw (bytes_of_IsAscii s (IsWord-IsAscii s w)) ((check_bytes_iff s).1 w),
)

len_of_IsWord : (s : Text) → IsWord s → len s ≡ length s
unfolding len
len_of_IsWord s w = rw (bytes_of_IsAscii s (IsWord-IsAscii s w))

IsWord-length : (s : Text) → IsWord s → 0 < length s
IsWord-length [] w = absurd w
IsWord-length (c ∷ s) w = omega arith

is_reserved-false : (s : Text) → is_reserved s ≡ false → ¬ In s reserved
unfolding is_reserved
is_reserved-false s h k = ground (arith, In-any s reserved k)

is_reserved_of_not : (s : Text) → ¬ In s reserved → is_reserved s ≡ false
unfolding is_reserved
is_reserved_of_not s h = elim (Bool-cases (any (text_eq s) reserved)) [
  | inl hit ↦ absurd (h (any-In s reserved hit))
  | inr miss ↦ miss
]

is_internal_iff : (s : Text) → (is_internal s ≡ false) ↔ ((t : Text) → ¬ (s ≡ codes "_lovely" ++ t))
unfolding is_internal
is_internal_iff s = (
  λ h t e.
      ground (
        arith,
        append-starts_with (codes "_lovely") t,
        ap (λ r. starts_with r (codes "_lovely")) e,
      ),
  λ h. elim (Bool-cases (starts_with s (codes "_lovely"))) [
    | inl hit ↦ let (t, e) = starts_with-append s (codes "_lovely") hit in absurd (h t e)
    | inr miss ↦ miss
  ],
)

-- The four tests in a row.
guards_iff :
    (a b c d : Bool) (s : Text) (i : Identifier)
    → ((if a
          then err (invalid_identifier s)
          else if not b
          then err (invalid_identifier s)
          else if c
          then err (invalid_identifier s)
          else if d
          then err (invalid_identifier s)
          else ok (record { raw = s }))
        ≡ ok i)
      ↔ ((i.raw ≡ s) × (a ≡ false) × (b ≡ true) × (c ≡ false) × (d ≡ false))
guards_iff a b c d s i =
    (λ h. (ground arith, ground arith, ground arith, ground arith, ground arith), λ h. ground arith)

in_bounds_iff : (n : ℕ) → ((n == 0 || ltb 63 n) ≡ false) ↔ ((0 < n) × (n ≤ 63))
in_bounds_iff n = (λ h. (ground arith, ground arith), λ h. ground arith)

-- `Identifier::new` accepts exactly the identifiers, unchanged: the lower-case words of at most 63
-- characters that are not reserved and do not begin with `_lovely`.
pub new_identifier_iff :
    (s : Text) (i : Identifier) → (new s ≡ ok i) ↔ ((i.raw ≡ s) × IsIdentifier s)
unfolding new
new_identifier_iff s i = (
  λ h.
      let (same, bounds, letters, free, own) =
        (guards_iff (len s == 0 || ltb 63 (len s)) (check_bytes (bytes s)) (is_reserved s)
            (is_internal s) s i).0
          h in
      let word = (bytes_iff s).0 letters in
      (
        same,
        (
          word,
          rw (len_of_IsWord s word) at ((in_bounds_iff (len s)).0 bounds).1,
          is_reserved-false s free,
          (is_internal_iff s).0 own,
        ),
      ),
  λ (same, (word, short, free, own)).
      (guards_iff (len s == 0 || ltb 63 (len s)) (check_bytes (bytes s)) (is_reserved s)
          (is_internal s) s i).1
        (
          same,
          (in_bounds_iff (len s)).1 (rw (len_of_IsWord s word) (IsWord-length s word, short)),
          (bytes_iff s).1 word,
          is_reserved_of_not s free,
          (is_internal_iff s).1 own,
        ),
)
