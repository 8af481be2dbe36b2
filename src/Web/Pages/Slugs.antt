-- ===== src/Web/Pages/Slugs.antt =====
-- The slugs of pages in forms and in paths.
use lovely_rs.Base.{
  ℕ, ◌≡◌, refl, Bool, true, false, ◌&&◌, ◌||◌, [], ◌∷◌, leb, ◌==◌, all, if◌then◌else◌, Text, codes,
  text_eq, len, is_lower, is_digit, arith,
}

abbrev pub is_empty : Text → Bool
is_empty [] = true
is_empty (c ∷ s) = false

abbrev pub is_slug_char : ℕ → Bool
is_slug_char c = is_lower c || is_digit c || (c == b'-')

-- `is_valid_slug`.
unfoldable pub is_valid_slug : Text → Bool
unfolding len
is_valid_slug s = is_empty s || (leb (len s) 80 && all is_slug_char s)

-- `slug_path_segment`.
unfoldable pub slug_path_segment : Text → Text
slug_path_segment s = if is_empty s then codes "~home" else s

-- `decode_slug_segment`.
unfoldable pub decode_slug_segment : Text → Text
decode_slug_segment s = if text_eq s (codes "~home") then [] else s

-- The path of a page leads back to its slug, where the slug is valid.
pub decode-slug_path_segment :
    (s : Text) → is_valid_slug s ≡ true → decode_slug_segment (slug_path_segment s) ≡ s
unfolding decode_slug_segment slug_path_segment is_valid_slug
decode-slug_path_segment [] h = refl
decode-slug_path_segment (c ∷ s) h = ground arith
