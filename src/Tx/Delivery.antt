-- ===== src/Tx/Delivery.antt =====
-- src/transaction_delivery.cpp, `GetDeliveryTask`.
use tpcc_oceanbase_cpp.Common.{ℕ, zero, suc, ◌+◌, true, List, [], ◌∷◌, ◌++◌}
use tpcc_oceanbase_cpp.Common.Int.{ℤ, pos}
use tpcc_oceanbase_cpp.Tx.{
  Driver, Param, p_int, p_real, Tx, finish, stop_with_error, random, query, modify, commit,
  delivery_select_new_order_for_update, delivery_select_order_customer, delivery_select_order_lines,
  delivery_delete_new_order, delivery_update_carrier, delivery_update_order_line_delivery,
  delivery_update_customer_balance,
}
use tpcc_oceanbase_cpp.Tx.Customer.{need, first_row}
use tpcc_oceanbase_cpp.Tx.Workload.{district_low_id}

module _ (F : Driver) where
  open F use {Row, Real, get_int32, get_double, zero_real, plus}

  -- `TOrderData`, with the district that the array of the orders is indexed by.
  pub record OrderData : Type 0 where
    pub district : ℕ
    pub order_id : ℤ
    pub customer_id : ℤ
    pub total_amount : Real
    pub line_numbers : List ℤ

  -- `while (olResult.TryNextRow())`.
  unfoldable pub sum_lines : List Row → List ℤ → Real → (List ℤ → Real → Tx Row Real) → Tx Row Real
  sum_lines [] numbers amount k = k numbers amount
  sum_lines (row ∷ rows) numbers amount k = need (get_int32 row "ol_number") λ number.
      need (get_double row "ol_amount")
        λ line_amount. sum_lines rows (numbers ++ number ∷ []) (plus amount line_amount) k

  -- The reading loop, with `n` districts left from `district` on.
  unfoldable pub read_orders :
      ℕ → ℕ → ℕ → List OrderData → (List OrderData → Tx Row Real) → Tx Row Real
  read_orders warehouse zero district orders k = k orders
  read_orders warehouse (suc n) district orders k =
      let w : Param Real = p_int (pos warehouse) in
      let d : Param Real = p_int (pos district) in
      query delivery_select_new_order_for_update (d ∷ w ∷ []) λ rows.
        first_row rows (read_orders warehouse n (district + 1) orders k) λ row.
          need (get_int32 row "no_o_id") λ order.
            query delivery_select_order_customer (w ∷ d ∷ p_int order ∷ []) λ rows.
              first_row rows stop_with_error λ row. need (get_int32 row "o_c_id") λ customer.
                query delivery_select_order_lines (w ∷ d ∷ p_int order ∷ []) λ rows.
                  sum_lines rows [] zero_real λ numbers amount. elim numbers [
                    | [] ↦ stop_with_error
                    | number ∷ more ↦
                        read_orders warehouse n (district + 1)
                          (orders
                            ++ record {
                              district = district;
                              order_id = order;
                              customer_id = customer;
                              total_amount = amount;
                              line_numbers = number ∷ more;
                            }
                              ∷ [])
                          k
                  ]

  -- The writing loop.
  unfoldable pub write_orders : ℕ → ℕ → List OrderData → Tx Row Real → Tx Row Real
  write_orders warehouse carrier [] k = k
  write_orders warehouse carrier (o ∷ os) k =
      let w : Param Real = p_int (pos warehouse) in
      let d : Param Real = p_int (pos o.district) in
      let key : List (Param Real) = w ∷ d ∷ p_int o.order_id ∷ [] in
      modify delivery_delete_new_order key (
        modify delivery_update_carrier (p_int (pos carrier) ∷ key) (
          modify delivery_update_order_line_delivery key (
            modify delivery_update_customer_balance
              (p_real o.total_amount ∷ w ∷ d ∷ p_int o.customer_id ∷ [])
              (write_orders warehouse carrier os k))))

  unfoldable pub delivery_task : ℕ → Tx Row Real
  delivery_task warehouse = random 1 10 λ carrier.
      read_orders warehouse 10 district_low_id []
        λ orders. write_orders warehouse carrier orders (commit (finish true))
