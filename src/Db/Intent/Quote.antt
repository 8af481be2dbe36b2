-- ===== src/Db/Intent/Quote.antt =====
-- What SQLite reads of the quoted parts of a statement.
use mathlib.Core.List.{append_assoc}
use lovely_rs.Base.{
  ℕ, ◌≡◌, ap, ◌∙◌, true, false, inl, inr, Bool-cases, Option, none, some, [], ◌∷◌, ◌++◌, ◌==◌,
  if◌then◌else◌, arith, all, Text,
}
use lovely_rs.Db.Errors.{ok}
use lovely_rs.Db.Identifier.{Identifier, new, is_other_byte}
use lovely_rs.Db.Identifier.Laws.{IsWord, new_identifier_iff}
use lovely_rs.Db.Intent.{double_quotes, render_default, DefaultValue, quoted}

abbrev cons_first : ℕ → Option (Text × Text) → Option (Text × Text)
cons_first c none = none
cons_first c (some (s, t)) = some (c ∷ s, t)

-- A lexer of SQL behind the opening quote: the text up to the closing quote, a doubled quote being
-- one character, and what follows.
unfoldable pub read_quoted : (quote : ℕ) → Text → Option (Text × Text)
read_quoted q [] = none
read_quoted q (c ∷ []) = if c == q then some ([], []) else none
read_quoted q (c ∷ d ∷ s) =
    let pair = read_quoted q s in
    let one = read_quoted q (d ∷ s) in
    if c == q then if d == q then cons_first c pair else some ([], d ∷ s) else cons_first c one

-- What may follow a quoted part: anything but a further quote.
abbrev IsApart : (quote : ℕ) → Text → Type 0
IsApart q [] = Unit
IsApart q (c ∷ s) = (c == q) ≡ false

read_closing : (q : ℕ) (rest : Text) → IsApart q rest → read_quoted q (q ∷ rest) ≡ some ([], rest)
unfolding read_quoted
read_closing q [] h = ground arith
read_closing q (c ∷ rest) h = ground arith

read_other :
    (q c : ℕ) (s : Text) → (c == q) ≡ false → read_quoted q (c ∷ s) ≡ cons_first c (read_quoted q s)
unfolding read_quoted
read_other q c [] h = ground arith
read_other q c (d ∷ s) h = ground arith

read_double : (q : ℕ) (s : Text) → read_quoted q (q ∷ q ∷ s) ≡ cons_first q (read_quoted q s)
unfolding read_quoted
read_double q s = ground arith

read-double_quotes :
    (v rest : Text)
    → IsApart 0x27 rest
    → read_quoted 0x27 (double_quotes v ++ 0x27 ∷ rest) ≡ some (v, rest)
unfolding double_quotes
read-double_quotes [] rest h = read_closing 0x27 rest h
read-double_quotes (c ∷ v) rest h = elim (Bool-cases (c == 0x27)) [
  | inl hit ↦
      let same : c ≡ 0x27 = ground arith in
      rw same (
        read_double 0x27 (double_quotes v ++ 0x27 ∷ rest)
        ∙ ap (cons_first 0x27) (read-double_quotes v rest h))
  | inr miss ↦ rw miss (
      read_other 0x27 c (double_quotes v ++ 0x27 ∷ rest) miss
      ∙ ap (cons_first c) (read-double_quotes v rest h))
]

-- A statement without its first character, the opening quote.
abbrev pub behind : Text → Text
behind [] = []
behind (c ∷ s) = s

-- SQLite reads a default text back as it was given, whatever quotes it holds, and leaves what
-- follows it in the statement.
pub read-render_default :
    (v rest : Text)
    → IsApart 0x27 rest
    → read_quoted 0x27 (behind (render_default (DefaultValue.text v) ++ rest)) ≡ some (v, rest)
unfolding render_default
read-render_default v rest h =
    ap (read_quoted 0x27) (append_assoc (double_quotes v) (0x27 ∷ []) rest)
    ∙ read-double_quotes v rest h

read_word :
    (s rest : Text)
    → all is_other_byte s ≡ true
    → IsApart b'"' rest
    → read_quoted b'"' (s ++ b'"' ∷ rest) ≡ some (s, rest)
read_word [] rest w h = read_closing b'"' rest h
read_word (c ∷ s) rest w h =
    read_other b'"' c (s ++ b'"' ∷ rest) (ground arith)
    ∙ ap (cons_first c) (read_word s rest (ground arith) h)

IsWord-all : (s : Text) → IsWord s → all is_other_byte s ≡ true
IsWord-all [] h = absurd h
IsWord-all (c ∷ s) (h, k) = ground arith

-- SQLite reads a quoted identifier back as it was given, and leaves what follows it.
pub read-quoted :
    (s rest : Text) (i : Identifier)
    → new s ≡ ok i
    → IsApart b'"' rest
    → read_quoted b'"' (behind (quoted i ++ rest)) ≡ some (s, rest)
unfolding quoted
read-quoted s rest i h apart =
    let (same, (word, _, _, _)) = (new_identifier_iff s i).0 h in
    ap (read_quoted b'"') (append_assoc i.raw (b'"' ∷ []) rest)
    ∙ (rw same (read_word s rest (IsWord-all s word) apart))
