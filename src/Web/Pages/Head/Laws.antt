-- ===== src/Web/Pages/Head/Laws.antt =====
-- What the sanitizer keeps, and what it lets through.
use lovely_rs.Base.{
  ℕ, zero, suc, ◌+◌, ◌<◌, ◌≤◌, ◌≡◌, refl, ap, ◌∙◌, Option, none, some, true, false, List, [], ◌∷◌,
  ◌++◌, map, ltb, ◌==◌, length, Text, codes, bytes, utf8, length-append, ◌/◌, ◌%◌, starts_with,
  to_lower, IsAscii, bytes_of_IsAscii, Bool-cases, inl, inr, arith,
}
use lovely_rs.Web.Pages.Head.{
  after_step, panic, push, is_continuation, head_step, under, head_loop, sanitize_head_html,
}
use lovely_rs.Web.Pages.Head.Rounds.{head_loop-rounds}

abbrev pub before : Text → Option Text → Option Text
before a none = none
before a (some out) = some (a ++ out)

abbrev script : Option Text → Option Text
script o =
    under b'<'
      (under b's' (under b'c' (under b'r' (under b'i' (under b'p' (under b't' (under b'>' o)))))))

script-before : (o : Option Text) → script o ≡ before (codes "<script>") o
script-before none = refl
script-before (some out) = refl

-- Text that hides one script tag in another comes out with the tag put together again, whatever
-- follows.
pub sanitize-rejoins :
    (s : Text)
    → sanitize_head_html (codes "<scr<script></script>ipt>" ++ s)
      ≡ before (codes "<script>") (sanitize_head_html s)
unfolding sanitize_head_html utf8
sanitize-rejoins s =
    ap script (
      head_loop-rounds
        (suc (
          suc (
            suc (
              suc (
                suc (
                  suc (
                    suc (
                      suc (
                        suc (
                          suc (suc (suc (suc (suc (suc (suc (suc (length (bytes s)))))))))))))))))))
        (suc (length (bytes s))) (bytes s) (omega arith) (omega arith))
    ∙ script-before (sanitize_head_html s)

-- Text of harmless characters comes out as it is.
abbrev pub IsHarmless : Text → Type 0
IsHarmless [] = Unit {0}
IsHarmless (c ∷ s) =
    (c < 0x80)
    × (starts_with (map to_lower (c ∷ s)) (codes "<script") ≡ false)
    × (starts_with (map to_lower (c ∷ s)) (codes " on") ≡ false)
    × IsHarmless s

head_step-IsHarmless : (c : ℕ) (s : Text) → IsHarmless (c ∷ s) → head_step c s ≡ push c s
unfolding head_step
head_step-IsHarmless c s (low, no_script, no_handler, h) =
    rw (no_script, no_handler) (ground (arith, low))

head_loop-IsHarmless : (s : Text) → IsHarmless s → head_loop (suc (length s)) s ≡ some s
unfolding head_loop
head_loop-IsHarmless [] h = refl
head_loop-IsHarmless (c ∷ s) (low, no_script, no_handler, h) =
    ap (λ step. after_step step (head_loop (suc (length s))))
      (head_step-IsHarmless c s (low, no_script, no_handler, h))
    ∙ ap (under c) (head_loop-IsHarmless s h)

IsHarmless-IsAscii : (s : Text) → IsHarmless s → IsAscii s
IsHarmless-IsAscii [] h = tt
IsHarmless-IsAscii (c ∷ s) (low, _, _, h) = (low, IsHarmless-IsAscii s h)

-- ASCII text in which no script tag and no handler begins comes out as it is.
pub sanitize-IsHarmless : (s : Text) → IsHarmless s → sanitize_head_html s ≡ some s
unfolding sanitize_head_html
sanitize-IsHarmless s h =
    ap (λ b. head_loop (suc (length b)) b) (bytes_of_IsAscii s (IsHarmless-IsAscii s h))
    ∙ head_loop-IsHarmless s h

-- The bytes of a character beyond ASCII.
utf8_lead :
    (c : ℕ)
    → 0x80 ≤ c
    → c < 0x110000
    → (a : ℕ) × (b : ℕ) × (rest : List ℕ) × (utf8 c ≡ a ∷ b ∷ rest)
      × (0xC0 ≤ a)
      × (0x80 ≤ b)
      × (b < 0xC0)
unfolding utf8
utf8_lead c low high = elim (Bool-cases (ltb c 0x800)) [
  | inl e ↦ (
    0xC0 + c / 64,
    0x80 + c % 64,
    [],
    ground (arith, e, low),
    omega arith,
    omega arith,
    omega arith,
  )
  | inr e ↦ elim (Bool-cases (ltb c 0x10000)) [
    | inl f ↦ (
      0xE0 + c / 4096,
      0x80 + c / 64 % 64,
      (0x80 + c % 64) ∷ [],
      ground (arith, e, f, low),
      omega arith,
      omega arith,
      omega arith,
    )
    | inr f ↦ (
      0xF0 + c / 262144,
      0x80 + c / 4096 % 64,
      (0x80 + c / 64 % 64) ∷ (0x80 + c % 64) ∷ [],
      ground (arith, e, f, low),
      omega arith,
      omega arith,
      omega arith,
    )
  ]
]

head_step-push :
    (b : ℕ) (s : List ℕ)
    → is_continuation b ≡ false
    → (b == b'<') ≡ false
    → (b == b' ') ≡ false
    → head_step b s ≡ push b s
unfolding head_step
head_step-push b s e no_tag no_space = ground (arith, e, no_tag, no_space)

head_step-panic : (b : ℕ) (s : List ℕ) → is_continuation b ≡ true → head_step b s ≡ panic
unfolding head_step
head_step-panic b s e = rw e refl

-- Characters of ASCII that begin neither a tag nor an attribute.
abbrev pub IsPlain : Text → Type 0
IsPlain [] = Unit {0}
IsPlain (c ∷ s) = (c < 0x80) × ((c == b'<') ≡ false) × ((c == b' ') ≡ false) × IsPlain s

loop_panics :
    (n a b : ℕ) (s : List ℕ)
    → 0xC0 ≤ a
    → 0x80 ≤ b
    → b < 0xC0
    → head_loop (suc (suc n)) (a ∷ b ∷ s) ≡ none
unfolding head_loop
loop_panics n a b s lead low high =
    rw
      (
        head_step-push a (b ∷ s) (ground arith) (ground arith) (ground arith),
        head_step-panic b s (ground arith),
      )
      refl

plain_panics :
    (text : Text) (n a b : ℕ) (s : List ℕ)
    → IsPlain text
    → 0xC0 ≤ a
    → 0x80 ≤ b
    → b < 0xC0
    → length text < n
    → head_loop (suc n) (text ++ a ∷ b ∷ s) ≡ none
unfolding head_loop
plain_panics [] zero a b s h lead low high room = ground (arith, room)
plain_panics [] (suc n) a b s h lead low high room = loop_panics n a b s lead low high
plain_panics (c ∷ text) zero a b s h lead low high room = ground (arith, room)
plain_panics (c ∷ text) (suc n) a b s (ascii, no_tag, no_space, h) lead low high room =
    ap (λ step. after_step step (head_loop (suc n)))
      (head_step-push c (text ++ a ∷ b ∷ s) (ground arith) no_tag no_space)
    ∙ ap (under c) (plain_panics text n a b s h lead low high (omega (arith, room)))

bytes-IsPlain : (text rest : Text) → IsPlain text → bytes (text ++ rest) ≡ text ++ bytes rest
unfolding bytes utf8
bytes-IsPlain [] rest h = refl
bytes-IsPlain (c ∷ text) rest (ascii, _, _, h) =
    rw (bytes-IsPlain text rest h) (ground (arith, ascii))

-- The sanitizer panics on every text with a character beyond ASCII behind plain characters.
pub sanitize-panics :
    (text : Text) (c : ℕ) (s : Text)
    → IsPlain text
    → 0x80 ≤ c
    → c < 0x110000
    → sanitize_head_html (text ++ c ∷ s) ≡ none
unfolding sanitize_head_html bytes
sanitize-panics text c s plain low high =
    let (a, b, rest, e, lead, from, to) = utf8_lead c low high in
    let all_bytes : bytes (text ++ c ∷ s) ≡ text ++ a ∷ b ∷ (rest ++ bytes s) =
      bytes-IsPlain text (c ∷ s) plain ∙ ap (λ l. text ++ (l ++ bytes s)) e in
    ap (λ l. head_loop (suc (length l)) l) all_bytes
    ∙ plain_panics text (length (text ++ a ∷ b ∷ (rest ++ bytes s))) a b (rest ++ bytes s) plain
        lead from to (omega (arith, length-append text (a ∷ b ∷ (rest ++ bytes s))))
