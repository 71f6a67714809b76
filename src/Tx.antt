-- ===== src/Tx.antt =====
-- The TPC-C transactions (src/transactions.h, src/transaction_*.cpp and src/common_queries.cpp) as
-- programs that draw random numbers and talk to a database session.
-- A coroutine is a tree: each node is what the code asks for, and its branches are the answers.
-- Every database node may also throw; that ends the coroutine, so it needs no branch.
pub mod Customer
pub mod Workload
pub mod NewOrder
pub mod Payment
pub mod Delivery
pub mod OrderStatus
pub mod StockLevel
pub mod Simulation
pub mod Run
pub mod Atomic
mod Tests
use Prim.Native.String.{String}
use tpcc_oceanbase_cpp.Common.{
  Bool, ℕ, zero, suc, ◌+◌, ◌-◌, ◌%◌, List, [], ◌∷◌, Option, none, some, bit_or,
}
use tpcc_oceanbase_cpp.Common.Int.{ℤ}

-- `QueryId`, without its last member `Count`.
pub data QueryId : Type 0 where
  new_order_select_customer new_order_select_warehouse_tax : QueryId
  new_order_select_district_for_update new_order_update_district : QueryId
  new_order_insert_oorder new_order_insert_new_order new_order_select_item : QueryId
  new_order_select_stock_for_update new_order_update_stock new_order_insert_order_line : QueryId
  payment_select_warehouse_for_update payment_update_warehouse_ytd : QueryId
  payment_select_district_for_update payment_update_district_ytd : QueryId
  payment_select_customer_data payment_update_customer_bc payment_update_customer : QueryId
  payment_insert_history : QueryId
  customer_select_by_id customer_select_by_id_for_update : QueryId
  customer_select_by_last_name customer_select_by_last_name_for_update : QueryId
  delivery_select_new_order_for_update delivery_select_order_customer : QueryId
  delivery_select_order_lines delivery_delete_new_order delivery_update_carrier : QueryId
  delivery_update_order_line_delivery delivery_update_customer_balance : QueryId
  order_status_select_latest_order order_status_select_order_lines : QueryId
  stock_level_select_district stock_level_count_stock : QueryId
  simulation_select_cast_int : QueryId

-- A text is its bytes.
abbrev pub Text : Type 0
Text = List ℕ

-- What the transactions take from the result rows, from `double` and from `fmt::format`.
-- A getter is `none` where it throws.
pub record Driver : Type 1 where
  pub Row : Type 0
  pub Real : Type 0
  pub get_int32 : Row → String → Option ℤ
  pub get_double : Row → String → Option Real
  pub get_string : Row → String → Option Text
  pub get_optional_int32 : Row → String → Option (Option ℤ)
  pub get_optional_string : Row → String → Option (Option Text)
  pub zero_real : Real
  pub of_int : ℤ → Real
  pub cents : ℕ → Real
  pub plus : Real → Real → Real
  pub minus : Real → Real → Real
  pub times : Real → Real → Real
  pub format_payment : ℤ → ℤ → ℤ → ℤ → ℤ → Real → Text → Text

-- `Params::Value`, as far as the transactions bind it.
pub data Param (Real : Type 0) : Type 0 where
  p_int : ℤ → Param Real
  p_real : Real → Param Real
  p_text : Text → Param Real

-- A coroutine that returns a `bool`.
pub data Tx (Row Real : Type 0) : Type 0 where
  -- `co_return`.
  finish : Bool → Tx Row Real
  -- `RequestStopWithError(); co_return false;`
  stop_with_error : Tx Row Real
  -- `throw TUserAbortedException();`
  user_abort : Tx Row Real
  -- A getter of a result throws.
  raise : Tx Row Real
  -- The fuel of a rejection loop has run out.
  starved : Tx Row Real
  -- `RandomNumber(from, to)`.
  random : ℕ → ℕ → (ℕ → Tx Row Real) → Tx Row Real
  -- `co_await` of `ExecuteQuery`, `ExecuteModify`, `Commit` and `Rollback`.
  query : QueryId → List (Param Real) → (List Row → Tx Row Real) → Tx Row Real
  modify : QueryId → List (Param Real) → Tx Row Real → Tx Row Real
  commit : Tx Row Real → Tx Row Real
  rollback : Tx Row Real → Tx Row Real
  -- `co_await TSuspend`, in milliseconds.
  suspend : ℕ → Tx Row Real → Tx Row Real
