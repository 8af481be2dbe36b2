-- ===== src/Web/Pages/Templates.antt =====
-- The interpolation of the values of records into the rows of a page. The source walks over the
-- bytes of a text; a byte of a character beyond ASCII is never a brace, so that a walk over the
-- characters which copies the bytes of each does the same. The text of a JSON value that is no
-- string is a parameter.
pub mod Segments
mod Tests
use lovely_rs.Base.{
  ℕ, zero, suc, ◌+◌, Option, none, some, Bool, true, false, not, ◌&&◌, ◌||◌, List, [], ◌∷◌, ◌++◌,
  map, any, ◌==◌, length, if◌then◌else◌, Text, codes, text_eq, utf8, trim,
}
use lovely_rs.Tree.Errors.{Uuid}
use lovely_rs.Tree.Build.Rows as Rows
use lovely_rs.Tree.Build.Rows.{Json, string, object, ElementRow}
use lovely_rs.Db.Elements.{get_field}
use lovely_rs.Db.Collections.{
  Collection, Record, Store, find_collection_by_name, list_records, set_key,
}
use lovely_rs.Web.Pages.Slugs.{is_empty}

-- `find("}}")`: the text before the first pair of closing braces.
abbrev under_char : ℕ → Option Text → Option Text
under_char c none = none
under_char c (some s) = some (c ∷ s)

unfoldable pub close : Text → Option Text
close [] = none
close (c ∷ []) = none
close (c ∷ d ∷ s) =
    let rest = close (d ∷ s) in if (c == b'}') && (d == b'}') then some [] else under_char c rest

-- What the braces at the head of a text hold.
unfoldable pub token : Text → Option Text
unfolding close
token [] = none
token (c ∷ []) = none
token (c ∷ d ∷ s) = if (c == b'{') && (d == b'{') then close s else none

-- A character is copied byte by byte; braces are filled in and skipped.
abbrev pub expand_at : (fill : Text → Text) → ℕ → Option Text → (ℕ → Text) → Text
unfolding utf8
expand_at fill c none rest = utf8 c ++ rest 0
expand_at fill c (some inner) rest = fill inner ++ rest (length inner + 3)

-- The loop of `interpolate` and `interpolate_named`: some characters are skipped, then the text is
-- expanded.
unfoldable pub expand : (fill : Text → Text) → (skipped : ℕ) → Text → Text
unfolding token expand_at
expand fill skipped [] = []
expand fill (suc k) (c ∷ s) = expand fill k s
expand fill zero (c ∷ s) = expand_at fill c (token (c ∷ s)) (λ k. expand fill k s)

-- `split_once('.')`.
abbrev before_dot : ℕ → Option (Text × Text) → Option (Text × Text)
before_dot c none = none
before_dot c (some (a, b)) = some (c ∷ a, b)

unfoldable pub split_once : Text → Option (Text × Text)
split_once [] = none
split_once (c ∷ s) =
    let rest = split_once s in if c == b'.' then some ([], s) else before_dot c rest

abbrev pub get : Json → Text → Option Json
unfolding get_field
get (object fields) key = get_field fields key
get v key = none

-- The names of the collections that a text refers to.
abbrev pub refs_at : Option Text → (ℕ → List Text) → List Text
unfolding split_once trim
refs_at none rest = rest 0
refs_at (some inner) rest = elim (split_once (trim inner)) [
  | none ↦ rest (length inner + 3)
  | some (coll, key) ↦ trim coll ∷ rest (length inner + 3)
]

-- `collect_refs`.
unfoldable pub collect_refs : (skipped : ℕ) → Text → List Text
unfolding token refs_at
collect_refs skipped [] = []
collect_refs (suc k) (c ∷ s) = collect_refs k s
collect_refs zero (c ∷ s) = refs_at (token (c ∷ s)) (λ k. collect_refs k s)

-- The values of an object that are strings.
unfoldable pub map_strings : (Text → Text) → Rows.Fields → Rows.Fields
map_strings f Rows.end = Rows.end
map_strings f (Rows.field k (string s) fields) = Rows.field k (string (f s)) (map_strings f fields)
map_strings f (Rows.field k v fields) = Rows.field k v (map_strings f fields)

module _ (json_text : Json → Text) where
  abbrev pub value_text : Json → Text
  value_text (string s) = s
  value_text v = json_text v

  abbrev pub filled : (missing : Text) → Option Json → Text
  filled missing none = missing
  filled missing (some v) = value_text v

  -- What a field of the record puts in the place of the braces: nothing where it is missing.
  unfoldable pub fill_record : Json → Text → Text
  unfolding get trim
  fill_record data_json inner = filled [] (get data_json (trim inner))

  -- `interpolate`.
  unfoldable pub interpolate : Text → Json → Text
  unfolding expand fill_record
  interpolate template data_json = expand (fill_record data_json) 0 template

  -- What is not resolved stays as it is.
  abbrev pub braces : Text → Text
  braces inner = codes "{{" ++ (inner ++ codes "}}")

  abbrev pub fill_named_at : (cache : Text → Option Json) → Text → Option (Text × Text) → Text
  unfolding get trim
  fill_named_at cache inner none = braces inner
  fill_named_at cache inner (some (coll, key)) = elim (cache (trim coll)) [
    | none ↦ braces inner
    | some v ↦ filled (braces inner) (get v (trim key))
  ]

  unfoldable pub fill_named : (cache : Text → Option Json) → Text → Text
  unfolding split_once trim fill_named_at
  fill_named cache inner = fill_named_at cache inner (split_once (trim inner))

  -- `interpolate_named`.
  unfoldable pub interpolate_named : Text → (cache : Text → Option Json) → Text
  unfolding expand fill_named
  interpolate_named s cache = expand (fill_named cache) 0 s

  -- `interpolate_attrs`.
  unfoldable pub interpolate_attrs : Json → Json → Json
  unfolding map_strings interpolate
  interpolate_attrs (object m) data_json = object (map_strings (λ s. interpolate s data_json) m)
  interpolate_attrs v data_json = v
