-- ===== src/Web/Csrf/Laws.antt =====
-- What the tokens guarantee.
use lovely_rs.Base.{
  All-append, utf8, sym, ==_iff, ℕ, zero, suc, ◌+◌, ◌*◌, ◌/◌, ◌%◌, ◌^◌, ◌<◌, ◌≡◌, refl, ◌↔◌, ap,
  ◌∙◌, Bool-cases, inl, inr, ◌-◌, Bool, true, false, not, ◌||◌, ◌&&◌, Option, none, some, List, [],
  ◌∷◌, ltb, leb, ◌==◌, arith, if◌then◌else◌, All, all, length, Text, bytes, is_digit,
}
use lovely_rs.Web.Errors.{csrf, ok, err}
use lovely_rs.Web.Csrf.{
  hex_nibble, generate_token, xor, bit_or, diff_loop, constant_time_eq, verify_token,
}

abbrev pub is_hex : ℕ → Bool
is_hex c = is_digit c || (leb b'a' c && leb c b'f')

nibble-is_hex : (n : ℕ) → n < 16 → (c : ℕ) × (hex_nibble n ≡ some c) × (is_hex c ≡ true)
unfolding hex_nibble
nibble-is_hex n h = elim (Bool-cases (leb n 9)) [
  | inl low ↦ (b'0' + n, ground arith, ground arith)
  | inr high ↦ (b'a' + (n - 10), ground arith, ground arith)
]

-- A token of bytes: two lower-case hex digits for each, so 64 for the 32 of the generator.
pub generate_token-is_hex :
    (bs : List ℕ)
    → All (λ b. b < 256) bs
    → (token : Text) × (generate_token bs ≡ some token)
      × (length token ≡ 2 * length bs)
      × (all is_hex token ≡ true)
unfolding generate_token
generate_token-is_hex [] h = ([], refl, refl, refl)
generate_token-is_hex (b ∷ bs) (small, h) =
    let (token, e, size, fine) = generate_token-is_hex bs h in
    let (c, high, c_fine) = nibble-is_hex (b / 16) (omega arith) in
    let (d, low, d_fine) = nibble-is_hex (b % 16) (omega arith) in
    (c ∷ d ∷ token, rw (high, low, e) refl, omega (arith, size), rw (c_fine, d_fine, fine) refl)

xor-zero : (k a b : ℕ) → a < 2 ^ k → b < 2 ^ k → (xor k a b ≡ 0) ↔ (a ≡ b)
unfolding xor
xor-zero zero a b h k = (λ _. omega arith, λ _. refl)
xor-zero (suc k) a b h l =
    let ih = xor-zero k (a / 2) (b / 2) (omega arith) (omega arith) in
    (λ e. ground (arith, ih), λ e. ground (arith, ih))

bit_or-zero : (k a b : ℕ) → a < 2 ^ k → b < 2 ^ k → (bit_or k a b ≡ 0) ↔ ((a ≡ 0) × (b ≡ 0))
unfolding bit_or
bit_or-zero zero a b h k = (λ _. (omega arith, omega arith), λ _. refl)
bit_or-zero (suc k) a b h l =
    let ih = bit_or-zero k (a / 2) (b / 2) (omega arith) (omega arith) in
    (λ e. ground (arith, ih), λ e. ground (arith, ih))

bit_or-below : (k a b : ℕ) → bit_or k a b < 2 ^ k
unfolding bit_or
bit_or-below zero a b = omega arith
bit_or-below (suc k) a b = ground (arith, bit_or-below k (a / 2) (b / 2))

xor-below : (k a b : ℕ) → xor k a b < 2 ^ k
unfolding xor
xor-below zero a b = omega arith
xor-below (suc k) a b = ground (arith, xor-below k (a / 2) (b / 2))

abbrev IsByte : ℕ → Type 0
IsByte b = b < 256

unfoldable mixed : ℕ → ℕ → ℕ → ℕ
mixed d x y = bit_or 8 d (xor 8 x y)

diff_loop_cons :
    (d x y : ℕ) (xs ys : List ℕ) → diff_loop d (x ∷ xs) (y ∷ ys) ≡ diff_loop (mixed d x y) xs ys
unfolding diff_loop mixed
diff_loop_cons d x y xs ys = refl

diff_loop_nil : (d : ℕ) → diff_loop d [] [] ≡ d
unfolding diff_loop
diff_loop_nil d = refl

mixed-zero : (d x y : ℕ) → IsByte d → IsByte x → IsByte y → (mixed d x y ≡ 0) ↔ ((d ≡ 0) × (x ≡ y))
unfolding mixed
mixed-zero d x y s hx hy =
    let here = xor-zero 8 x y hx hy in
    let both = bit_or-zero 8 d (xor 8 x y) s (xor-below 8 x y) in
    (λ z. let (l, r) = both.0 z in (l, here.0 r), λ (l, r). both.1 (l, here.1 r))

mixed-below : (d x y : ℕ) → IsByte (mixed d x y)
unfolding mixed
mixed-below d x y = bit_or-below 8 d (xor 8 x y)

same_lists : {x y : ℕ} {xs ys : List ℕ} → x ≡ y → xs ≡ ys → x ∷ xs ≡ y ∷ ys
same_lists e f = cc

heads : {x y : ℕ} {xs ys : List ℕ} → x ∷ xs ≡ y ∷ ys → (x ≡ y) × (xs ≡ ys)
heads e = (cc, cc)

diff_loop_iff :
    (xs ys : List ℕ) (d : ℕ)
    → IsByte d
    → All IsByte xs
    → All IsByte ys
    → length xs ≡ length ys
    → (diff_loop d xs ys ≡ 0) ↔ ((d ≡ 0) × (xs ≡ ys))
diff_loop_iff [] [] d s h k e =
    (λ z. (sym (diff_loop_nil d) ∙ z, refl), λ (z, _). diff_loop_nil d ∙ z)
diff_loop_iff [] (y ∷ ys) d s h k e = absurd (ground arith)
diff_loop_iff (x ∷ xs) [] d s h k e = absurd (ground arith)
diff_loop_iff (x ∷ xs) (y ∷ ys) d s (hx, h) (ky, k) e =
    let mix = mixed-zero d x y s hx ky in
    let rest = diff_loop_iff xs ys (mixed d x y) (mixed-below d x y) h k (omega (arith, e)) in
    rw (diff_loop_cons d x y xs ys) (
      λ z. let (m, f) = rest.0 z in let (zero_d, e') = mix.0 m in (zero_d, same_lists e' f),
      λ (zero_d, same). let (e', f) = heads same in rest.1 (mix.1 (zero_d, e'), f),
    )

lengths_differ : (a b : List ℕ) → (length a == length b) ≡ false → ¬ (a ≡ b)
lengths_differ a b h e = ground (arith, ap length e)

-- The comparison that does not stop early is equality, on bytes.
pub constant_time_eq_iff :
    (a b : List ℕ)
    → All (λ x. x < 256) a
    → All (λ x. x < 256) b
    → (constant_time_eq a b ≡ true) ↔ (a ≡ b)
unfolding constant_time_eq
constant_time_eq_iff a b h k = elim (Bool-cases (length a == length b)) [
  | inl same ↦
      let loop = diff_loop_iff a b 0 (omega arith) h k (ground arith) in
      rw same (
        λ z. (loop.0 ((==_iff (diff_loop 0 a b) 0).0 z)).1,
        λ e. (==_iff (diff_loop 0 a b) 0).1 (loop.1 (refl, e)),
      )
  | inr differ ↦ rw differ (λ z. cc, λ e. absurd (lengths_differ a b differ e))
]

utf8-IsByte : (c : ℕ) → c < 0x110000 → All IsByte (utf8 c)
unfolding utf8
utf8-IsByte c h = elim (Bool-cases (ltb c 0x80)) [
  | inl a ↦ rw a (ground arith, tt)
  | inr a ↦ elim (Bool-cases (ltb c 0x800)) [
    | inl b ↦ rw (a, b) (ground arith, (ground arith, tt))
    | inr b ↦ elim (Bool-cases (ltb c 0x10000)) [
      | inl d ↦ rw (a, b, d) (ground arith, (ground arith, (ground arith, tt)))
      | inr d ↦ rw (a, b, d) (ground arith, (ground arith, (ground arith, (ground arith, tt))))
    ]
  ]
]

bytes-IsByte : (s : Text) → All (λ c. c < 0x110000) s → All IsByte (bytes s)
unfolding bytes
bytes-IsByte [] h = tt
bytes-IsByte (c ∷ s) (l, h) =
    All-append IsByte (utf8 c) (bytes s) (utf8-IsByte c l) (bytes-IsByte s h)

passes_iff : (b : Bool) → ((if not b then err csrf else ok tt) ≡ ok tt) ↔ (b ≡ true)
passes_iff true = (λ z. refl, λ z. refl)
passes_iff false = (λ z. cc, λ z. cc)

-- A request passes exactly when it supplies the bytes of the cookie's token, where both texts hold
-- Unicode scalar values.
pub verify_token_iff :
    (cookie : Text) (supplied : Option Text)
    → All (λ c. c < 0x110000) cookie
    → ((s : Text) → supplied ≡ some s → All (λ c. c < 0x110000) s)
    → (verify_token cookie supplied ≡ ok tt)
      ↔ ((s : Text) × (supplied ≡ some s) × (bytes cookie ≡ bytes s))
unfolding verify_token
verify_token_iff cookie none h k = (λ z. cc, λ (s, e, _). cc)
verify_token_iff cookie (some s) h k =
    let test =
      constant_time_eq_iff (bytes cookie) (bytes s) (bytes-IsByte cookie h)
        (bytes-IsByte s (k s refl)) in
    (
      λ z. (s, refl, test.0 ((passes_iff (constant_time_eq (bytes cookie) (bytes s))).0 z)),
      λ (s', e, same).
          let same_text : s ≡ s' = cc in
          (passes_iff (constant_time_eq (bytes cookie) (bytes s))).1
            (test.1 (same ∙ ap bytes (sym same_text))),
    )
