-- ===== src/Check/Tests.antt =====
-- The theorems on src/check.cpp and the tables at concrete data.
use tpcc_oceanbase_cpp.Common.{
  ℕ, ◌+◌, ◌≤◌, ◌≡◌, true, false, ◌&&◌, List, [], ◌∷◌, map, none, some, leb, arith,
}
use tpcc_oceanbase_cpp.Common.Int.{pos}
use tpcc_oceanbase_cpp.Tx.{Driver}
use tpcc_oceanbase_cpp.Tx.Run.{
  Event, Run, returned, at_finish, draw, answer, modified, commits_then,
}
use tpcc_oceanbase_cpp.Tx.Payment.{payment_task, pick_customer, update_customer, is_bad_credit}
use tpcc_oceanbase_cpp.Tx.Customer.{get_customer_by_id, parse_customer}
use tpcc_oceanbase_cpp.Tx.Workload.{random_customer_id}
use tpcc_oceanbase_cpp.Store.{District, Store, replay}
use tpcc_oceanbase_cpp.Store.Books.{Balanced, copies}
use tpcc_oceanbase_cpp.Check.{any}
use tpcc_oceanbase_cpp.Check.Windows.{windows, within, windows_complete}
use tpcc_oceanbase_cpp.Check.Conditions.{check_3321, check_3328, check_3329}
use tpcc_oceanbase_cpp.Check.Passes.{payment_passes}

abbrev driver : Driver
driver = record {
  Row = ℕ;
  Real = ℕ;
  get_int32 = λ row name. some (pos row);
  get_double = λ row name. some row;
  get_string = λ row name. some (66 ∷ 67 ∷ []);
  get_optional_int32 = λ row name. some none;
  get_optional_string = λ row name. some none;
  zero_real = 0;
  of_int = λ i. 1;
  cents = λ n. n;
  plus = λ a b. a + b;
  minus = λ a b. a;
  times = λ a b. b;
  format_payment = λ a b c d e f old. 49 ∷ old;
}

-- A payment of 50.00 in district 3 of warehouse 1 by a customer with bad credit.
abbrev payment_run : (tr : List (Event ℕ)) × Run (payment_task driver 1 1 2) tr (returned true)
unfolding payment_task pick_customer update_customer random_customer_id parse_customer is_bad_credit
    get_customer_by_id
payment_run = (
  _,
  draw 3 (omega arith) (omega arith) (
      draw 5000 (omega arith) (omega arith) (
        answer (1 ∷ []) (
          modified (
            answer (2 ∷ []) (
              modified (
                draw 85 (omega arith) (omega arith) (
                  draw 100 (omega arith) (omega arith) (
                    draw 7 (omega arith) (omega arith) (
                      draw 8 (omega arith) (omega arith) (
                        answer (4 ∷ [])
                          (answer [] (modified (modified (commits_then at_finish)))))))))))))),
)

abbrev district_row : ℕ → District
district_row d = record { d_w_id = 1; d_id = d; d_ytd = 0; d_next_o_id = 3001 }

abbrev tables : Store
tables = record {
  warehouses = record { w_id = 1; w_ytd = 0 } ∷ record { w_id = 2; w_ytd = 0 } ∷ [];
  districts = map district_row (1 ∷ 2 ∷ 3 ∷ 4 ∷ 5 ∷ 6 ∷ 7 ∷ 8 ∷ 9 ∷ 10 ∷ []);
  customers = [];
  history = [];
  orders = [];
  new_orders = [];
  order_lines = [];
  stocks = [];
  items = [];
}

tables-Balanced : Balanced tables
tables-Balanced = record {
  districts_add_up = omega arith;
  history_adds_up = omega arith;
  district_history_adds_up = omega arith;
}

each_district_once : (d : ℕ) → 1 ≤ d → d ≤ 10 → copies 1 d tables.districts ≡ 1
each_district_once d h k = ground arith

payment_passes_example :
    let t = replay (λ n. n) payment_run.0 tables in
    Balanced t × (check_3321 t ≡ false) × (check_3328 t ≡ false) × (check_3329 t ≡ false)
payment_passes_example =
    payment_passes driver (λ n. n) 1 1 2 tables each_district_once tables-Balanced payment_run.1

-- Of 120 warehouses the one that is wrong stands in the last window of ten.
windows_complete_example :
    any (λ w. any (λ (x : ℕ). leb 117 x && within w x) (3 ∷ 117 ∷ [])) (windows 120 10 1 120)
    ≡ any (λ (x : ℕ). leb 117 x && within (1, 120) x) (3 ∷ 117 ∷ [])
windows_complete_example = windows_complete 10 120 (λ x. x) (leb 117) (3 ∷ 117 ∷ []) (omega arith)
