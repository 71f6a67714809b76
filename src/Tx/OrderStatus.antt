-- ===== src/Tx/OrderStatus.antt =====
-- src/transaction_orderstatus.cpp, `GetOrderStatusTask`.
use tpcc_oceanbase_cpp.Common.{ℕ, true, false, [], ◌∷◌}
use tpcc_oceanbase_cpp.Common.Int.{pos}
use tpcc_oceanbase_cpp.Tx.{
  Driver, Param, p_int, Tx, finish, random, query, commit, order_status_select_latest_order,
  order_status_select_order_lines,
}
use tpcc_oceanbase_cpp.Tx.Customer.{need, first_row}
use tpcc_oceanbase_cpp.Tx.Payment.{pick_customer}
use tpcc_oceanbase_cpp.Tx.Workload.{district_low_id, district_high_id}

module _ (F : Driver) where
  open F use {Row, Real, get_int32}

  unfoldable pub order_status_task : ℕ → Tx Row Real
  order_status_task warehouse = random district_low_id district_high_id λ district.
      let w : Param Real = p_int (pos warehouse) in
      let d : Param Real = p_int (pos district) in
      pick_customer F warehouse district false λ customer.
        query order_status_select_latest_order (w ∷ d ∷ p_int customer.c_id ∷ []) λ rows.
          first_row rows (commit (finish true)) λ row. need (get_int32 row "o_id") λ order.
            query order_status_select_order_lines (w ∷ d ∷ p_int order ∷ [])
              λ _. commit (finish true)
