-- ===== src/Tx/Atomic.antt =====
-- Each transaction commits exactly when it reports success.
use tpcc_oceanbase_cpp.Common.{
  ℕ, zero, suc, ◌+◌, ◌⊎◌, inl, inr, ◌≢◌, refl, Bool, true, false, List, [], ◌∷◌, Option, none, some,
  leb, ltb, ◌==◌, ◌&&◌, if◌then◌else◌,
}
use tpcc_oceanbase_cpp.Common.Int.{ℤ, eq_ℤ}
use tpcc_oceanbase_cpp.Tx.{Driver, Tx}
use tpcc_oceanbase_cpp.Tx.Run.{
  Event, End, aborted, Run, Settled, IsAtomic, Run-Settled, Run-ne-aborted,
}
use tpcc_oceanbase_cpp.Tx.Customer.{
  Customer, need, first_row, found, parse_customer, select_customer, get_customer_by_id,
  get_customers_by_last_name,
}
use tpcc_oceanbase_cpp.Tx.Workload.{
  random_customer_id, random_item_id, random_last_name, random_other_warehouse,
}
use tpcc_oceanbase_cpp.Tx.NewOrder.{
  Line, Stock, draw_lines, read_prices, read_stocks, write_lines, place_order, new_order_task,
  find_price, find_stock, read_stock, invalid_item_id,
}
use tpcc_oceanbase_cpp.Tx.Payment.{pick_customer, update_customer, payment_task, is_bad_credit}
use tpcc_oceanbase_cpp.Tx.Delivery.{OrderData, sum_lines, read_orders, write_orders, delivery_task}
use tpcc_oceanbase_cpp.Tx.OrderStatus.{order_status_task}
use tpcc_oceanbase_cpp.Tx.StockLevel.{stock_level_task}
use tpcc_oceanbase_cpp.Tx.Simulation.{select_ones}

module _ (aborts : Bool) where
  module _ {Row Real : Type 0} where
    need-IsAtomic {ℓ} :
        {A : Type ℓ} (o : Option A) (k : A → Tx Row Real)
        → ((a : A) → IsAtomic aborts (k a))
        → IsAtomic aborts (need o k)
    need-IsAtomic none k h = tt
    need-IsAtomic (some a) k h = h a

    found-IsAtomic {ℓ} :
        {A : Type ℓ} (o : Option A) (missing : Tx Row Real) (k : A → Tx Row Real)
        → IsAtomic aborts missing
        → ((a : A) → IsAtomic aborts (k a))
        → IsAtomic aborts (found o missing k)
    found-IsAtomic none missing k m h = m
    found-IsAtomic (some a) missing k m h = h a

    first_row-IsAtomic :
        (rows : List Row) (missing : Tx Row Real) (k : Row → Tx Row Real)
        → IsAtomic aborts missing
        → ((row : Row) → IsAtomic aborts (k row))
        → IsAtomic aborts (first_row rows missing k)
    first_row-IsAtomic [] missing k m h = m
    first_row-IsAtomic (row ∷ rows) missing k m h = h row

    if-IsAtomic :
        (b : Bool) (t u : Tx Row Real)
        → IsAtomic aborts t
        → IsAtomic aborts u
        → IsAtomic aborts (if b then t else u)
    if-IsAtomic true t u a b = a
    if-IsAtomic false t u a b = b

    random_other_warehouse-IsAtomic :
        (fuel count home : ℕ) (k : ℕ → Tx Row Real)
        → ((n : ℕ) → IsAtomic aborts (k n))
        → IsAtomic aborts (random_other_warehouse fuel count home k)
    unfolding random_other_warehouse
    random_other_warehouse-IsAtomic zero count home k h = tt
    random_other_warehouse-IsAtomic (suc fuel) count home k h = λ id.
        if-IsAtomic (id == home && ltb 1 count) _ _
          (random_other_warehouse-IsAtomic fuel count home k h) (h id)

    select_ones-IsAtomic :
        (n : ℕ) (k : Tx Row Real) → IsAtomic aborts k → IsAtomic aborts (select_ones n k)
    unfolding select_ones
    select_ones-IsAtomic zero k h = h
    select_ones-IsAtomic (suc n) k h = λ rows. select_ones-IsAtomic n k h

  module _ (F : Driver) where
    open F use {Row, Real, get_int32, get_double, get_string}

    pick_customer-IsAtomic :
        (warehouse district : ℕ) (for_update : Bool) (k : Customer F → Tx Row Real)
        → ((c : Customer F) → IsAtomic aborts (k c))
        → IsAtomic aborts (pick_customer F warehouse district for_update k)
    unfolding pick_customer random_last_name random_customer_id get_customer_by_id
        get_customers_by_last_name
    pick_customer-IsAtomic warehouse district for_update k h = λ percent.
        if-IsAtomic (leb percent 60) _ _
          (λ d1 d2 rows.
            need-IsAtomic (select_customer F rows) _ (elim [ none ↦ tt | some c ↦ h c ]))
          (λ d1 d2 rows.
            first_row-IsAtomic rows _ _ tt λ row. need-IsAtomic (parse_customer F row) _ λ c. h _)

    stock_level-IsAtomic : (warehouse : ℕ) → IsAtomic aborts (stock_level_task F warehouse)
    unfolding stock_level_task
    stock_level-IsAtomic warehouse = λ d threshold rows.
        first_row-IsAtomic rows _ _ tt
          λ row. need-IsAtomic (get_int32 row "d_next_o_id") _ λ next _. tt

    order_status-IsAtomic : (warehouse : ℕ) → IsAtomic aborts (order_status_task F warehouse)
    unfolding order_status_task
    order_status-IsAtomic warehouse = λ d. pick_customer-IsAtomic warehouse d false _ λ c rows.
        first_row-IsAtomic rows _ _ tt λ row. need-IsAtomic (get_int32 row "o_id") _ λ o _. tt

    update_customer-IsAtomic :
        (w d cw cd : ℕ) (amount : Real) (c : Customer F) (k : Tx Row Real)
        → IsAtomic aborts k
        → IsAtomic aborts (update_customer F w d cw cd amount c k)
    unfolding update_customer
    update_customer-IsAtomic w d cw cd amount c k h =
        if-IsAtomic (is_bad_credit c.c_credit) _ _
          (λ rows.
            first_row-IsAtomic rows _ _ h λ row. need-IsAtomic (get_string row "c_data") _ λ old. h)
          h

    payment-IsAtomic :
        (fuel warehouse count : ℕ) → IsAtomic aborts (payment_task F fuel warehouse count)
    unfolding payment_task
    payment-IsAtomic fuel warehouse count = λ d hundredths rows.
        first_row-IsAtomic rows _ _ tt λ row. need-IsAtomic (get_string row "w_name") _ λ wn rows'.
          first_row-IsAtomic rows' _ _ tt λ row'.
            need-IsAtomic (get_string row' "d_name") _ λ dn home.
              if-IsAtomic (leb home 85) _ _
                (pick_customer-IsAtomic warehouse d true _
                  λ c. update_customer-IsAtomic _ _ _ _ _ c _ tt)
                λ cd. random_other_warehouse-IsAtomic fuel count warehouse _ λ cw.
                  pick_customer-IsAtomic cw cd true _ λ c. update_customer-IsAtomic _ _ _ _ _ c _ tt

    sum_lines-IsAtomic :
        (rows : List Row) (numbers : List ℤ) (amount : Real) (k : List ℤ → Real → Tx Row Real)
        → ((ns : List ℤ) (a : Real) → IsAtomic aborts (k ns a))
        → IsAtomic aborts (sum_lines F rows numbers amount k)
    unfolding sum_lines
    sum_lines-IsAtomic [] numbers amount k h = h numbers amount
    sum_lines-IsAtomic (row ∷ rows) numbers amount k h =
        need-IsAtomic (get_int32 row "ol_number") _
          λ n. need-IsAtomic (get_double row "ol_amount") _ λ a. sum_lines-IsAtomic rows _ _ k h

    read_orders-IsAtomic :
        (warehouse n district : ℕ) (orders : List (OrderData F))
        (k : List (OrderData F) → Tx Row Real)
        → ((os : List (OrderData F)) → IsAtomic aborts (k os))
        → IsAtomic aborts (read_orders F warehouse n district orders k)
    unfolding read_orders
    read_orders-IsAtomic warehouse zero district orders k h = h orders
    read_orders-IsAtomic warehouse (suc n) district orders k h = λ rows.
        first_row-IsAtomic rows _ _ (read_orders-IsAtomic warehouse n (district + 1) orders k h)
          λ row. need-IsAtomic (get_int32 row "no_o_id") _ λ o rows'.
            first_row-IsAtomic rows' _ _ tt λ row'.
              need-IsAtomic (get_int32 row' "o_c_id") _ λ c rows''.
                sum_lines-IsAtomic rows'' _ _ _ (elim [
                  | [] ↦ λ a. tt
                  | x ∷ xs ↦ λ a. read_orders-IsAtomic warehouse n (district + 1) _ k h
                ])

    write_orders-IsAtomic :
        (warehouse carrier : ℕ) (orders : List (OrderData F)) (k : Tx Row Real)
        → IsAtomic aborts k
        → IsAtomic aborts (write_orders F warehouse carrier orders k)
    unfolding write_orders
    write_orders-IsAtomic warehouse carrier [] k h = h
    write_orders-IsAtomic warehouse carrier (o ∷ os) k h =
        write_orders-IsAtomic warehouse carrier os k h

    delivery-IsAtomic : (warehouse : ℕ) → IsAtomic aborts (delivery_task F warehouse)
    unfolding delivery_task
    delivery-IsAtomic warehouse = λ carrier.
        read_orders-IsAtomic warehouse 10 1 [] _
          λ os. write_orders-IsAtomic warehouse carrier os _ tt

    draw_lines-IsAtomic :
        (fuel warehouse count n : ℕ) (lines : List Line) (all_local : Bool)
        (k : List Line → Bool → Tx Row Real)
        → ((ls : List Line) (b : Bool) → IsAtomic aborts (k ls b))
        → IsAtomic aborts (draw_lines F fuel warehouse count n lines all_local k)
    unfolding draw_lines random_item_id
    draw_lines-IsAtomic fuel warehouse count zero lines all_local k h = h lines all_local
    draw_lines-IsAtomic fuel warehouse count (suc n) lines all_local k h = λ d1 d2 remote.
        if-IsAtomic (ltb 1 remote) _ _
          (λ q. draw_lines-IsAtomic fuel warehouse count n _ all_local k h)
          (random_other_warehouse-IsAtomic fuel count warehouse _
            λ s q. draw_lines-IsAtomic fuel warehouse count n _ false k h)

    read_prices-IsAtomic :
        (lines : List Line) (prices : List (ℤ × Real)) (k : List (ℤ × Real) → Tx Row Real)
        → ((m : List (ℤ × Real)) → IsAtomic aborts (k m))
        → IsAtomic aborts (read_prices F lines prices k)
    unfolding read_prices
    read_prices-IsAtomic [] prices k h = h prices
    read_prices-IsAtomic (l ∷ ls) prices k h =
        if-IsAtomic (eq_ℤ l.item invalid_item_id) _ _ (read_prices-IsAtomic ls prices k h) λ rows.
          first_row-IsAtomic rows _ _ (read_prices-IsAtomic ls prices k h)
            λ row. need-IsAtomic (get_double row "i_price") _ λ p. read_prices-IsAtomic ls _ k h

    read_stock-IsAtomic :
        (row : Row) (k : Stock F → Tx Row Real)
        → ((s : Stock F) → IsAtomic aborts (k s))
        → IsAtomic aborts (read_stock F row k)
    read_stock-IsAtomic row k h = need-IsAtomic (get_int32 row "s_quantity") _ λ _.
        need-IsAtomic (get_double row "s_ytd") _ λ _.
          need-IsAtomic (get_int32 row "s_order_cnt") _ λ _.
            need-IsAtomic (get_int32 row "s_remote_cnt") _ λ _.
              need-IsAtomic (get_string row "s_dist_01") _ λ _.
                need-IsAtomic (get_string row "s_dist_02") _ λ _.
                  need-IsAtomic (get_string row "s_dist_03") _ λ _.
                    need-IsAtomic (get_string row "s_dist_04") _ λ _.
                      need-IsAtomic (get_string row "s_dist_05") _ λ _.
                        need-IsAtomic (get_string row "s_dist_06") _ λ _.
                          need-IsAtomic (get_string row "s_dist_07") _ λ _.
                            need-IsAtomic (get_string row "s_dist_08") _ λ _.
                              need-IsAtomic (get_string row "s_dist_09") _
                                λ _. need-IsAtomic (get_string row "s_dist_10") _ λ _. h _

    read_stocks-IsAtomic :
        (lines : List Line) (stocks : List (ℕ × ℤ × Stock F))
        (k : List (ℕ × ℤ × Stock F) → Tx Row Real)
        → ((m : List (ℕ × ℤ × Stock F)) → IsAtomic aborts (k m))
        → IsAtomic aborts (read_stocks F lines stocks k)
    unfolding read_stocks
    read_stocks-IsAtomic [] stocks k h = h stocks
    read_stocks-IsAtomic (l ∷ ls) stocks k h =
        found-IsAtomic (find_stock F l.supplier l.item stocks) _ _
          (λ rows. first_row-IsAtomic rows _ _ (read_stocks-IsAtomic ls stocks k h) λ row.
            read_stock-IsAtomic row (λ s. read_stocks F ls ((l.supplier, l.item, s) ∷ stocks) k)
              λ s. read_stocks-IsAtomic ls ((l.supplier, l.item, s) ∷ stocks) k h)
          λ s. read_stocks-IsAtomic ls stocks k h

    write_lines-IsAtomic :
        (w d : ℕ) (order : ℤ) (ol_num : ℕ) (lines : List Line) (prices : List (ℤ × Real))
        (stocks : List (ℕ × ℤ × Stock F)) (k : Tx Row Real)
        → IsAtomic aborts k
        → IsAtomic aborts (write_lines F w d order ol_num lines prices stocks k)
    unfolding write_lines
    write_lines-IsAtomic w d order ol_num [] prices stocks k h = h
    write_lines-IsAtomic w d order ol_num (l ∷ ls) prices stocks k h =
        found-IsAtomic (find_price F l.item prices) _ _ tt λ p.
          found-IsAtomic (find_stock F l.supplier l.item stocks) _ _ tt
            λ s. write_lines-IsAtomic w d order (ol_num + 1) ls prices _ k h

module _ (F : Driver) where
  open F use {Row, Real, get_int32, get_double, get_string}

  new_order-IsAtomic :
      (fuel warehouse count : ℕ) → IsAtomic true (new_order_task F fuel warehouse count)
  unfolding new_order_task place_order random_customer_id
  new_order-IsAtomic fuel warehouse count = λ d d1 d2 items.
      draw_lines-IsAtomic true F fuel warehouse count items [] true _
        λ lines local percent r1 r2 rows. first_row-IsAtomic true rows _ _ tt λ row.
          need-IsAtomic true (get_int32 row "d_next_o_id") _ λ order.
            read_prices-IsAtomic true F _ [] _ λ prices.
              if-IsAtomic true (percent == 1) _ _ (tt, refl)
                (read_stocks-IsAtomic true F _ [] _
                  λ stocks. write_lines-IsAtomic true F _ _ _ _ _ _ _ _ tt)

  -- NewOrder: whatever is drawn and answered, a result of true has exactly one commit and no rollback
  -- behind it, a user abort exactly one rollback and no commit, and every other end neither.
  pub new_order_settles :
      (fuel warehouse count : ℕ) {tr : List (Event Real)} {e : End}
      → Run (new_order_task F fuel warehouse count) tr e
      → Settled tr e
  new_order_settles fuel warehouse count r =
      Run-Settled true (new_order-IsAtomic fuel warehouse count) r

  -- Payment: a result of true has exactly one commit and no rollback behind it; it never ends with the
  -- user abort, and every other end has neither.
  pub payment_settles :
      (fuel warehouse count : ℕ) {tr : List (Event Real)} {e : End}
      → Run (payment_task F fuel warehouse count) tr e
      → Settled tr e × (e ≢ aborted)
  payment_settles fuel warehouse count r =
      let a = payment-IsAtomic false F fuel warehouse count in
      (Run-Settled false a r, Run-ne-aborted a r)

  -- Delivery: a result of true has exactly one commit and no rollback behind it; it never ends with the
  -- user abort, and every other end has neither.
  pub delivery_settles :
      (warehouse : ℕ) {tr : List (Event Real)} {e : End}
      → Run (delivery_task F warehouse) tr e
      → Settled tr e × (e ≢ aborted)
  delivery_settles warehouse r =
      let a = delivery-IsAtomic false F warehouse in (Run-Settled false a r, Run-ne-aborted a r)

  -- OrderStatus and StockLevel: a result of true has exactly one commit and no rollback behind it; they
  -- never end with the user abort, and every other end has neither.
  pub read_only_settles :
      (warehouse : ℕ) {tr : List (Event Real)} {e : End}
      → Run (order_status_task F warehouse) tr e ⊎ Run (stock_level_task F warehouse) tr e
      → Settled tr e × (e ≢ aborted)
  read_only_settles warehouse (inl r) =
      let a = order_status-IsAtomic false F warehouse in (Run-Settled false a r, Run-ne-aborted a r)
  read_only_settles warehouse (inr r) =
      let a = stock_level-IsAtomic false F warehouse in (Run-Settled false a r, Run-ne-aborted a r)
