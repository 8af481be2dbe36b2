-- ===== src/Web/Pages/Head.antt =====
-- `sanitize_head_html`, on the bytes of the text. Where it slices the text at an index that is no
-- boundary of a character it panics, which `none` stands for.
pub mod Rounds
pub mod Laws
use lovely_rs.Base.{
  ℕ, zero, suc, Option, none, some, Bool, true, false, ◌&&◌, ◌||◌, List, [], ◌∷◌, map, ltb, leb,
  ◌==◌, length, if◌then◌else◌, Text, codes, bytes, starts_with, to_lower,
}

abbrev pub drop_text : Text → List ℕ → List ℕ
drop_text [] s = s
drop_text (c ∷ pattern) [] = []
drop_text (c ∷ pattern) (b ∷ s) = drop_text pattern s

-- What stands behind the first place where `find` finds a pattern, whatever the case of the
-- letters.
unfoldable pub behind : (pattern : Text) → List ℕ → Option (List ℕ)
behind pattern [] = none
behind pattern (b ∷ s) =
    let rest = behind pattern s in
    if starts_with (map to_lower (b ∷ s)) pattern then some (drop_text pattern (b ∷ s)) else rest

-- The loop over the value of an attribute: to the quote, or to a space or the end of the tag.
unfoldable pub skip_quoted : (quote : ℕ) → List ℕ → List ℕ
skip_quoted quote [] = []
skip_quoted quote (b ∷ s) = let rest = skip_quoted quote s in if b == quote then s else rest

unfoldable pub skip_bare : List ℕ → List ℕ
skip_bare [] = []
skip_bare (b ∷ s) = let rest = skip_bare s in if b == b' ' || b == b'>' then b ∷ s else rest

unfoldable pub skip_value : List ℕ → List ℕ
unfolding skip_quoted skip_bare
skip_value [] = []
skip_value (b ∷ s) = if b == b'"' || b == 0x27 then skip_quoted b s else skip_bare (b ∷ s)

-- A round of the loop: it panics, ends the loop, goes on behind a chunk, or copies a byte.
pub data HeadStep : Type 0 where
  panic : HeadStep
  stop : HeadStep
  skip : List ℕ → HeadStep
  push : ℕ → List ℕ → HeadStep

abbrev pub is_continuation : ℕ → Bool
is_continuation b = leb 0x80 b && ltb b 0xC0

abbrev pub skip_or_stop : Option (List ℕ) → HeadStep
skip_or_stop none = stop
skip_or_stop (some s) = skip s

abbrev pub skip_or_push : ℕ → List ℕ → Option (List ℕ) → HeadStep
unfolding skip_value
skip_or_push b s none = push b s
skip_or_push b s (some value) = skip (skip_value value)

unfoldable pub head_step : ℕ → List ℕ → HeadStep
unfolding behind skip_or_push
head_step b s =
    let lower = map to_lower (b ∷ s) in
    if is_continuation b
    then panic
    else if starts_with lower (codes "<script")
    then skip_or_stop (behind (codes "</script>") (b ∷ s))
    else if starts_with lower (codes " on")
    then skip_or_push b s (behind (codes "=") s)
    else push b s

abbrev pub under : ℕ → Option Text → Option Text
under b none = none
under b (some out) = some (b ∷ out)

abbrev pub after_step : HeadStep → (List ℕ → Option Text) → Option Text
after_step panic loop = none
after_step stop loop = some []
after_step (skip rest) loop = loop rest
after_step (push c rest) loop = under c (loop rest)

-- The loop. Each round but the last shortens the text.
unfoldable pub head_loop : (rounds : ℕ) → List ℕ → Option Text
unfolding head_step
head_loop zero s = some []
head_loop (suc rounds) [] = some []
head_loop (suc rounds) (b ∷ s) = after_step (head_step b s) (head_loop rounds)

-- `sanitize_head_html`: each byte that is copied becomes a character.
unfoldable pub sanitize_head_html : Text → Option Text
unfolding head_loop bytes
sanitize_head_html s = head_loop (suc (length (bytes s))) (bytes s)
