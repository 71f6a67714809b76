-- ===== src/Import/Tests.antt =====
-- The theorems on the loaders at concrete draws, and runs of the model.
use mathlib.Core.List.Perm
use tpcc_oceanbase_cpp.Common.{
  ℕ, ◌≡◌, refl, List, [], ◌∷◌, ◌++◌, some, none, arith, All, get_or, replicate, Option, map,
}
use tpcc_oceanbase_cpp.Common.Int.{pos}
use tpcc_oceanbase_cpp.Import.Gen.{random_number, draw_text, for_each}
use tpcc_oceanbase_cpp.Import.Schema.{Cell, null, int, Conforms, warehouse}
use tpcc_oceanbase_cpp.Import.Rows.{Standard, up_from}
use tpcc_oceanbase_cpp.Import.Load.{load, load_orders, load_order_lines}
use tpcc_oceanbase_cpp.Import.Types.{types}
use tpcc_oceanbase_cpp.Import.Conforming.{load-Conforms}
use tpcc_oceanbase_cpp.Import.Orders.{line_count, order_lines_match}
use tpcc_oceanbase_cpp.Import.Split.{thread_count, shares, shares_cover, Progress}

abbrev std : Standard
std = record {
  hash_int = λ n. n;
  five_to_fifteen = λ seed. 5;
  five_to_fifteen_bounds = λ seed. omega arith;
  shuffle = λ xs. xs;
  shuffle_perm = Perm.refl;
  current_timestamp = [];
}

abbrev rows_of : Option (List (List Cell) × List ℕ) → List (List Cell)
rows_of none = []
rows_of (some (rows, rest)) = rows

-- The tax, and five texts of 5, 9, 9, 9 and 2 characters.
abbrev warehouse_draws : List ℕ
warehouse_draws =
    150
    ∷ 6
    ∷ (replicate 5 1
        ++ (10 ∷ replicate 9 2)
        ++ (10 ∷ replicate 9 3)
        ++ (10 ∷ replicate 9 4)
        ++ (3 ∷ replicate 2 5))

one_warehouse :
    load std warehouse 1 1 1 warehouse_draws
    ≡ some (rows_of (load std warehouse 1 1 1 warehouse_draws), [])
unfolding load random_number draw_text for_each
one_warehouse = refl

load-Conforms_example :
    All (Conforms (types warehouse)) (rows_of (load std warehouse 1 1 1 warehouse_draws))
load-Conforms_example =
    load-Conforms std warehouse 1 1 1 (omega arith) (omega arith) (omega arith) warehouse_draws []
      (rows_of (load std warehouse 1 1 1 warehouse_draws)) one_warehouse

abbrev line_draws : List ℕ
line_draws = 77 ∷ replicate 23 6

abbrev five_lines : List ℕ
five_lines = line_draws ++ line_draws ++ line_draws ++ line_draws ++ line_draws

abbrev orders : List (List Cell)
orders = rows_of (load_orders std 1 2 3 (4 ∷ []))

abbrev lines : List (List Cell)
lines = rows_of (load_order_lines std 1 2 3 five_lines)

orders_run : load_orders std 1 2 3 (4 ∷ []) ≡ some (orders, [])
unfolding load_orders random_number draw_text for_each up_from
orders_run = refl

lines_run : load_order_lines std 1 2 3 five_lines ≡ some (lines, [])
unfolding load_order_lines random_number draw_text for_each
lines_run = refl

order_lines_match_example :
    All
      (λ row.
        (oid : ℕ) × (get_or row 2 null ≡ int oid)
        × (get_or row 5 null ≡ int (line_count oid lines)))
      orders
order_lines_match_example =
    order_lines_match std 1 2 3 (4 ∷ []) five_lines [] [] orders lines orders_run lines_run

shares_cover_example :
    shares 10 (thread_count 4 10 8) (thread_count 4 10 8) ≡ map pos (up_from 1 10)
shares_cover_example = shares_cover 4 10 8 (omega arith) (omega arith)

abbrev halfway : Progress
halfway = record { loaded = 4000000; warehouses = 3 }
