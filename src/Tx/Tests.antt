-- ===== src/Tx/Tests.antt =====
-- Executions of the transactions with a driver whose every column holds a constant, and the theorems
-- at these executions.
use tpcc_oceanbase_cpp.Common.{ℕ, ◌+◌, ◌≢◌, inr, true, List, [], ◌∷◌, some, none, arith}
use tpcc_oceanbase_cpp.Common.Int.{pos}
use tpcc_oceanbase_cpp.Tx.{Driver}
use tpcc_oceanbase_cpp.Tx.Customer.{parse_customer, get_customer_by_id}
use tpcc_oceanbase_cpp.Tx.Workload.{random_customer_id, random_item_id}
use tpcc_oceanbase_cpp.Tx.NewOrder.{
  new_order_task, draw_lines, place_order, read_prices, spoil_last,
}
use tpcc_oceanbase_cpp.Tx.Payment.{payment_task, pick_customer, update_customer, is_bad_credit}
use tpcc_oceanbase_cpp.Tx.Delivery.{delivery_task, read_orders, write_orders}
use tpcc_oceanbase_cpp.Tx.StockLevel.{stock_level_task}
use tpcc_oceanbase_cpp.Tx.Run.{
  Event, Run, Settled, aborted, returned, at_finish, at_abort, draw, answer, modified, commits_then,
  rolls_back_then,
}
use tpcc_oceanbase_cpp.Tx.Atomic.{
  new_order_settles, payment_settles, delivery_settles, read_only_settles,
}

-- A row is the number that its columns hold, and a `double` is a whole number.
abbrev driver : Driver
driver = record {
  Row = ℕ;
  Real = ℕ;
  get_int32 = λ row name. some (pos row);
  get_double = λ row name. some row;
  get_string = λ row name. some (71 ∷ 67 ∷ []);
  get_optional_int32 = λ row name. some none;
  get_optional_string = λ row name. some none;
  zero_real = 0;
  of_int = λ i. 1;
  cents = λ n. n;
  plus = λ a b. a + b;
  minus = λ a b. a;
  times = λ a b. b;
  format_payment = λ a b c d e f old. old;
}

abbrev stock_level_run : (tr : List (Event ℕ)) × Run (stock_level_task driver 1) tr (returned true)
unfolding stock_level_task
stock_level_run = (
  _,
  draw 3 (omega arith) (omega arith)
      (draw 15 (omega arith) (omega arith) (answer (40 ∷ []) (answer [] (commits_then at_finish)))),
)

abbrev delivery_run : (tr : List (Event ℕ)) × Run (delivery_task driver 1) tr (returned true)
unfolding delivery_task read_orders write_orders
delivery_run = (
  _,
  draw 3 (omega arith) (omega arith) (
      answer [] (
        answer [] (
          answer [] (
            answer [] (
              answer [] (
                answer []
                  (answer [] (answer [] (answer [] (answer [] (commits_then at_finish))))))))))),
)

abbrev payment_run : (tr : List (Event ℕ)) × Run (payment_task driver 1 1 3) tr (returned true)
unfolding payment_task pick_customer update_customer random_customer_id parse_customer is_bad_credit
    get_customer_by_id
payment_run = (
  _,
  draw 3 (omega arith) (omega arith) (
      draw 5000 (omega arith) (omega arith) (
        answer (1 ∷ []) (
          modified (
            answer (2 ∷ []) (
              modified (
                draw 40 (omega arith) (omega arith) (
                  draw 61 (omega arith) (omega arith) (
                    draw 7 (omega arith) (omega arith) (
                      draw 8 (omega arith) (omega arith)
                        (answer (4 ∷ []) (modified (modified (commits_then at_finish))))))))))))),
)

-- Five lines from the home warehouse, with an invalid item as the last one.
abbrev new_order_run : (tr : List (Event ℕ)) × Run (new_order_task driver 1 1 3) tr aborted
unfolding new_order_task random_customer_id draw_lines random_item_id place_order read_prices
    spoil_last
new_order_run = (
  _,
  draw 3 (omega arith) (omega arith) (
      draw 3 (omega arith) (omega arith) (
        draw 3 (omega arith) (omega arith) (
          draw 5 (omega arith) (omega arith) (
            draw 2 (omega arith) (omega arith) (
              draw 3 (omega arith) (omega arith) (
                draw 50 (omega arith) (omega arith) (
                  draw 4 (omega arith) (omega arith) (
                    draw 2 (omega arith) (omega arith) (
                      draw 3 (omega arith) (omega arith) (
                        draw 50 (omega arith) (omega arith) (
                          draw 4 (omega arith) (omega arith) (
                            draw 2 (omega arith) (omega arith) (
                              draw 3 (omega arith) (omega arith) (
                                draw 50 (omega arith) (omega arith) (
                                  draw 4 (omega arith) (omega arith) (
                                    draw 2 (omega arith) (omega arith) (
                                      draw 3 (omega arith) (omega arith) (
                                        draw 50 (omega arith) (omega arith) (
                                          draw 4 (omega arith) (omega arith) (
                                            draw 2 (omega arith) (omega arith) (
                                              draw 3 (omega arith) (omega arith) (
                                                draw 50 (omega arith) (omega arith) (
                                                  draw 4 (omega arith) (omega arith) (
                                                    draw 1 (omega arith) (omega arith) (
                                                      answer (1 ∷ []) (
                                                        answer (1 ∷ []) (
                                                          answer (3 ∷ []) (
                                                            modified (
                                                            modified (
                                                            modified (
                                                            answer (9 ∷ []) (
                                                            answer (9 ∷ []) (
                                                            answer (9 ∷ []) (
                                                            answer (9 ∷ []) (
                                                            rolls_back_then
                                                            at_abort))))))))))))))))))))))))))))))))))),
)

read_only_settles_example : Settled stock_level_run.0 (returned true) × (returned true ≢ aborted)
read_only_settles_example = read_only_settles driver 1 (inr stock_level_run.1)

delivery_settles_example : Settled delivery_run.0 (returned true) × (returned true ≢ aborted)
delivery_settles_example = delivery_settles driver 1 delivery_run.1

payment_settles_example : Settled payment_run.0 (returned true) × (returned true ≢ aborted)
payment_settles_example = payment_settles driver 1 1 3 payment_run.1

new_order_settles_example : Settled new_order_run.0 aborted
new_order_settles_example = new_order_settles driver 1 1 3 new_order_run.1
