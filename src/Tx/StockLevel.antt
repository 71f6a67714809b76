-- ===== src/Tx/StockLevel.antt =====
-- src/transaction_stocklevel.cpp, `GetStockLevelTask`.
use tpcc_oceanbase_cpp.Common.{ℕ, true, [], ◌∷◌}
use tpcc_oceanbase_cpp.Common.Int.{pos, ◌-ℤ◌}
use tpcc_oceanbase_cpp.Tx.{
  Driver, Param, p_int, Tx, finish, stop_with_error, random, query, commit,
  stock_level_select_district, stock_level_count_stock,
}
use tpcc_oceanbase_cpp.Tx.Customer.{need, first_row}
use tpcc_oceanbase_cpp.Tx.Workload.{district_low_id, district_high_id}

module _ (F : Driver) where
  open F use {Row, Real, get_int32}

  unfoldable pub stock_level_task : ℕ → Tx Row Real
  stock_level_task warehouse = random district_low_id district_high_id λ district.
      random 10 20 λ threshold.
        let w : Param Real = p_int (pos warehouse) in
        let d : Param Real = p_int (pos district) in
        query stock_level_select_district (w ∷ d ∷ []) λ rows. first_row rows stop_with_error λ row.
          need (get_int32 row "d_next_o_id") λ next.
            query stock_level_count_stock
              (w ∷ d ∷ p_int next ∷ p_int (next -ℤ pos 20) ∷ w ∷ p_int (pos threshold) ∷ [])
              λ _. commit (finish true)
