-- ===== src/Tree/Render/Escape.antt =====
-- What escaping guarantees.
use lovely_rs.Base.{
  ℕ, zero, suc, ◌≡◌, refl, ap, ◌∙◌, Bool, true, ◌||◌, not, [], ◌∷◌, ◌++◌, ◌==◌, arith,
  if◌then◌else◌, all, all-append, Text, codes, starts_with,
}
use lovely_rs.Tree.Render.{escape_char, escape}

-- Characters that neither open nor close a tag or a quoted value.
abbrev pub is_inert : ℕ → Bool
is_inert c = not (c == b'<' || c == b'>' || c == b'"' || c == 0x27)

escape_char-is_inert : (c : ℕ) → all is_inert (escape_char c) ≡ true
unfolding escape_char
escape_char-is_inert c = ground arith

-- No escaped text holds an angle bracket or a quote.
pub escape-is_inert : (s : Text) → all is_inert (escape s) ≡ true
unfolding escape
escape-is_inert [] = refl
escape-is_inert (c ∷ s) =
    all-append is_inert (escape_char c) (escape s)
    ∙ ground (arith, escape_char-is_inert c, escape-is_inert s)

-- A reader of character references: the character at the front of a text that begins with `&`, and
-- how many further characters its reference takes.
abbrev reference : Text → ℕ × ℕ
reference s =
    if starts_with s (codes "amp;")
    then (b'&', 4)
    else if starts_with s (codes "lt;")
    then (b'<', 3)
    else if starts_with s (codes "gt;")
    then (b'>', 3)
    else if starts_with s (codes "quot;")
    then (b'"', 5)
    else if starts_with s (codes "#x27;")
    then (0x27, 5)
    else (b'&', 0)

abbrev next_char : ℕ → Text → ℕ × ℕ
next_char c s = if c == b'&' then reference s else (c, 0)

-- The text that a reader of the references reads, with `skip` characters still to pass over.
unfoldable pub unescape : (skip : ℕ) → Text → Text
unescape skip [] = []
unescape (suc k) (c ∷ s) = unescape k s
unescape zero (c ∷ s) = (next_char c s).0 ∷ unescape (next_char c s).1 s

unescape-escape_char : (c : ℕ) (s : Text) → unescape 0 (escape_char c ++ s) ≡ c ∷ unescape 0 s
unfolding unescape escape_char
unescape-escape_char c s = ground arith

-- A reader of the five character references reads an escaped text back as it was.
pub unescape-escape : (s : Text) → unescape 0 (escape s) ≡ s
unfolding escape unescape
unescape-escape [] = refl
unescape-escape (c ∷ s) = unescape-escape_char c (escape s) ∙ ap (λ t. c ∷ t) (unescape-escape s)
