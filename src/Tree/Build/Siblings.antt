-- ===== src/Tree/Build/Siblings.antt =====
-- `order_siblings`: sibling rows in the order of their `prev_sibling` links, with what the links do
-- not reach sorted by UUID behind them. The order in which a hash map gives its values is the
-- parameter `into_values`.
use lovely_rs.Base.{
  ℕ, zero, suc, Option, none, some, List, [], ◌∷◌, ◌++◌, Bool, true, false, ◌==◌, leb, eq_opt,
  if◌then◌else◌, length, any,
}
use lovely_rs.Tree.Errors.{Uuid}
use lovely_rs.Tree.Build.Rows.{ElementRow}

-- The entry API on `next_of`, whose keys are the `prev_sibling` fields of its rows.
abbrev pub occupied : Option Uuid → List ElementRow → Bool
occupied prev next_of = any (λ r. eq_opt r.prev_sibling prev) next_of

-- The loop over the rows: the first row for each `prev_sibling` in `next_of`, the others in
-- `overflow`, both in the order of the rows.
pub record Split : Type 0 where
  pub next_of : List ElementRow
  pub overflow : List ElementRow

unfoldable pub split_rows : List ElementRow → (next_of overflow : List ElementRow) → Split
split_rows [] next_of overflow = record { next_of = next_of; overflow = overflow }
split_rows (row ∷ rows) next_of overflow =
    let kept = split_rows rows (next_of ++ row ∷ []) overflow in
    let dropped = split_rows rows next_of (overflow ++ row ∷ []) in
    if occupied row.prev_sibling next_of then dropped else kept

abbrev pub under :
    ElementRow → Option (ElementRow × List ElementRow) → Option (ElementRow × List ElementRow)
under r none = none
under r (some (s, rest)) = some (s, r ∷ rest)

-- `next_of.remove(&cursor)`.
unfoldable pub take_next : Option Uuid → List ElementRow → Option (ElementRow × List ElementRow)
take_next cursor [] = none
take_next cursor (r ∷ rows) =
    if eq_opt r.prev_sibling cursor then some (r, rows) else under r (take_next cursor rows)

abbrev pub contains : List Uuid → Uuid → Bool
contains [] u = false
contains (v ∷ vs) u = if v == u then true else contains vs u

-- The walk from the head: what is ordered, what is visited and what is left in `next_of`.
pub record Walk : Type 0 where
  pub ordered : List ElementRow
  pub visited : List Uuid
  pub left : List ElementRow

-- One round of the walk, with the rounds that follow it.
unfoldable pub walk_step :
    (Option Uuid → List ElementRow → List Uuid → List ElementRow → Option Walk)
    → (next_of : List ElementRow) → List Uuid
    → List ElementRow
    → Option (ElementRow × List ElementRow)
    → Option Walk
walk_step onward next_of visited ordered none =
    some (record { ordered = ordered; visited = visited; left = next_of })
walk_step onward next_of visited ordered (some (row, rest)) =
    if contains visited row.id
    then some (record { ordered = ordered; visited = visited; left = rest })
    else onward (some row.id) rest (row.id ∷ visited) (ordered ++ row ∷ [])

unfoldable pub walk :
    (fuel : ℕ)
    → Option Uuid
    → (next_of : List ElementRow) → List Uuid
    → List ElementRow
    → Option Walk
unfolding take_next walk_step
walk zero cursor next_of visited ordered = none
walk (suc k) cursor next_of visited ordered =
    walk_step (walk k) next_of visited ordered (take_next cursor next_of)

-- `sort_by_key(|r| r.id)`, a stable sort.
unfoldable pub insert_row : ElementRow → List ElementRow → List ElementRow
insert_row r [] = r ∷ []
insert_row r (s ∷ rows) = if leb r.id s.id then r ∷ s ∷ rows else s ∷ insert_row r rows

unfoldable pub sort_rows : List ElementRow → List ElementRow
unfolding insert_row
sort_rows [] = []
sort_rows (r ∷ rows) = insert_row r (sort_rows rows)

unfoldable pub unvisited : List Uuid → List ElementRow → List ElementRow
unvisited visited [] = []
unvisited visited (r ∷ rows) =
    if contains visited r.id then unvisited visited rows else r ∷ unvisited visited rows

abbrev pub finish :
    (List ElementRow → List ElementRow)
    → (overflow : List ElementRow) → Option Walk
    → Option (List ElementRow)
finish into_values overflow none = none
finish into_values overflow (some w) =
    some (w.ordered ++ sort_rows (unvisited w.visited (into_values w.left ++ overflow)))

-- The fuel for the walk, which takes a row out of `next_of` in each round.
unfoldable pub order_siblings :
    (into_values : List ElementRow → List ElementRow) → List ElementRow → Option (List ElementRow)
unfolding split_rows walk sort_rows unvisited
order_siblings into_values rows =
    let s = split_rows rows [] [] in
    finish into_values s.overflow (walk (suc (length s.next_of)) none s.next_of [] [])
