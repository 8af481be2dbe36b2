-- ===== src/Tree/Build/Tests.antt =====
-- Runs of the loader on two sibling rows.
use lovely_rs.Base.{◌+◌, ◌≡◌, refl, Option, none, some, List, [], ◌∷◌, codes, arith}
use lovely_rs.Tree.Errors.{Uuid}
use lovely_rs.Tree.Arena.Insert.{IsWellFormed}
use lovely_rs.Tree.Build.Rows.{ElementRow, object, end}
use lovely_rs.Tree.Build.Siblings.{order_siblings}
use lovely_rs.Tree.Build.Salvage.{HasDistinctIds, SameRows, order_siblings-SameRows}
use lovely_rs.Tree.Build.ChainOrder.{ids, order_siblings-chain}
use lovely_rs.Tree.Build.Load.{from_db_rows}
use lovely_rs.Tree.Build.Load.Safe.{IsSafe, from_db_rows-IsSafe}

abbrev row : Uuid → Option Uuid → ElementRow
row id prev = record {
  id = id;
  parent_id = none;
  prev_sibling = prev;
  tag = codes "div";
  attrs_json = object end;
  text = none;
}

abbrev as_is : List ElementRow → List ElementRow
as_is rows = rows

abbrev in_order : List ElementRow
in_order = row 1 none ∷ row 2 (some 1) ∷ []

abbrev swapped : List ElementRow
swapped = row 2 (some 1) ∷ row 1 none ∷ []

in_order-distinct : HasDistinctIds in_order
in_order-distinct = λ u. ground arith

swapped-distinct : HasDistinctIds swapped
swapped-distinct = λ u. ground arith

swapped-SameRows : SameRows swapped in_order
swapped-SameRows = λ q. omega arith

salvage_example :
    (ordered : List ElementRow) × (order_siblings as_is swapped ≡ some ordered)
    × SameRows ordered swapped
salvage_example = order_siblings-SameRows as_is swapped (λ l q. refl) swapped-distinct

chain_example :
    (ordered : List ElementRow) × (order_siblings as_is swapped ≡ some ordered)
    × (ids ordered ≡ ids in_order)
chain_example =
    order_siblings-chain as_is swapped in_order (λ l q. refl) swapped-SameRows (refl, (refl, tt))
      in_order-distinct

load_example : IsSafe IsWellFormed (from_db_rows (λ i. i + 1) 10 100 as_is in_order)
load_example = from_db_rows-IsSafe (λ i. i + 1) (λ i j e. omega (arith, e)) 10 100 as_is in_order
