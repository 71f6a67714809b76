-- ===== src/Store.antt =====
-- The tables that the statements of src/db/queries.cpp change, and the changes.
-- A row has the columns that these statements or the checks of src/check.cpp use. Amounts of money are
-- in hundredths, as `decimal(…, 2)` stores them, and what is never negative is a natural number.
pub mod Books
pub mod Payment
use tpcc_oceanbase_cpp.Common.{
  ℕ, ◌+◌, Bool, true, false, ◌&&◌, List, [], ◌∷◌, ◌++◌, map, Option, none, some, ◌==◌,
  if◌then◌else◌, get_or,
}
use tpcc_oceanbase_cpp.Common.Int.{ℤ, pos, ◌+ℤ◌, ◌-ℤ◌, pos_part}
use tpcc_oceanbase_cpp.Tx.{
  Param, p_int, p_real, p_text, QueryId, new_order_update_district, new_order_insert_oorder,
  new_order_insert_new_order, new_order_update_stock, new_order_insert_order_line,
  payment_update_warehouse_ytd, payment_update_district_ytd, payment_update_customer_bc,
  payment_update_customer, payment_insert_history, delivery_delete_new_order,
  delivery_update_carrier, delivery_update_order_line_delivery, delivery_update_customer_balance,
}
use tpcc_oceanbase_cpp.Tx.Run.{Event, statement, committed, rolled_back}

pub record Warehouse : Type 0 where
  pub w_id : ℕ
  pub w_ytd : ℕ

pub record District : Type 0 where
  pub d_w_id : ℕ
  pub d_id : ℕ
  pub d_ytd : ℕ
  pub d_next_o_id : ℕ

pub record Customer : Type 0 where
  pub c_w_id : ℕ
  pub c_d_id : ℕ
  pub c_id : ℕ
  pub c_balance : ℤ
  pub c_ytd_payment : ℕ
  pub c_payment_cnt : ℕ
  pub c_delivery_cnt : ℕ

pub record History : Type 0 where
  pub h_c_id : ℕ
  pub h_c_d_id : ℕ
  pub h_c_w_id : ℕ
  pub h_d_id : ℕ
  pub h_w_id : ℕ
  pub h_amount : ℕ

pub record Order : Type 0 where
  pub o_w_id : ℕ
  pub o_d_id : ℕ
  pub o_id : ℕ
  pub o_c_id : ℕ
  pub o_carrier_id : Option ℕ
  pub o_ol_cnt : ℕ

pub record NewOrder : Type 0 where
  pub no_w_id : ℕ
  pub no_d_id : ℕ
  pub no_o_id : ℕ

-- `ol_delivered` says whether `ol_delivery_d` is not null.
pub record OrderLine : Type 0 where
  pub ol_w_id : ℕ
  pub ol_d_id : ℕ
  pub ol_o_id : ℕ
  pub ol_number : ℕ
  pub ol_i_id : ℕ
  pub ol_delivered : Bool
  pub ol_amount : ℕ

pub record Stock : Type 0 where
  pub s_w_id : ℕ
  pub s_i_id : ℕ
  pub s_quantity : ℕ
  pub s_ytd : ℕ
  pub s_order_cnt : ℕ
  pub s_remote_cnt : ℕ

-- `items` are the numbers `i_id`.
pub record Store : Type 0 where
  pub warehouses : List Warehouse
  pub districts : List District
  pub customers : List Customer
  pub history : List History
  pub orders : List Order
  pub new_orders : List NewOrder
  pub order_lines : List OrderLine
  pub stocks : List Stock
  pub items : List ℕ

-- `WHERE … = ? AND … = ?`.
abbrev pub same2 : ℕ → ℕ → ℕ → ℕ → Bool
same2 a b x y = a == x && b == y

abbrev pub same3 : ℕ → ℕ → ℕ → ℕ → ℕ → ℕ → Bool
same3 a b c x y z = a == x && (b == y && c == z)

-- `UPDATE … SET … WHERE`.
abbrev pub update {ℓ} : {A : Type ℓ} → (A → Bool) → (A → A) → List A → List A
update at change [] = []
update at change (x ∷ xs) = (if at x then change x else x) ∷ update at change xs

-- `DELETE FROM … WHERE`.
abbrev pub delete {ℓ} : {A : Type ℓ} → (A → Bool) → List A → List A
delete at [] = []
delete at (x ∷ xs) = if at x then delete at xs else x ∷ delete at xs

unfoldable pub add_warehouse_ytd : ℕ → ℕ → List Warehouse → List Warehouse
add_warehouse_ytd amount w = update (λ r. r.w_id == w) (λ r. record r { w_ytd = r.w_ytd + amount })

unfoldable pub add_district_ytd : ℕ → ℕ → ℕ → List District → List District
add_district_ytd amount w d =
    update (λ r. same2 r.d_w_id r.d_id w d) (λ r. record r { d_ytd = r.d_ytd + amount })

unfoldable pub next_order_id : ℕ → ℕ → List District → List District
next_order_id w d =
    update (λ r. same2 r.d_w_id r.d_id w d) (λ r. record r { d_next_o_id = r.d_next_o_id + 1 })

unfoldable pub pay_customer : ℕ → ℕ → ℕ → ℕ → ℕ → List Customer → List Customer
pay_customer balance payment w d c =
    update (λ r. same3 r.c_w_id r.c_d_id r.c_id w d c)
      (λ r. record r {
        c_balance = r.c_balance -ℤ pos balance;
        c_ytd_payment = r.c_ytd_payment + payment;
        c_payment_cnt = r.c_payment_cnt + 1;
      })

unfoldable pub credit_customer : ℕ → ℕ → ℕ → ℕ → List Customer → List Customer
credit_customer amount w d c =
    update (λ r. same3 r.c_w_id r.c_d_id r.c_id w d c)
      (λ r. record r {
        c_balance = r.c_balance +ℤ pos amount;
        c_delivery_cnt = r.c_delivery_cnt + 1;
      })

unfoldable pub take_stock : ℕ → ℕ → ℕ → ℕ → ℕ → List Stock → List Stock
take_stock quantity ytd remote w i =
    update (λ r. same2 r.s_w_id r.s_i_id w i)
      (λ r. record r {
        s_quantity = quantity;
        s_ytd = r.s_ytd + ytd;
        s_order_cnt = r.s_order_cnt + 1;
        s_remote_cnt = r.s_remote_cnt + remote;
      })

-- The statement on its parameters. The selections, and the columns that are left out, change nothing.
unfoldable pub execute : QueryId → List ℕ → Store → Store
unfolding add_warehouse_ytd add_district_ytd next_order_id pay_customer credit_customer take_stock
execute new_order_update_district ps s = record s {
  districts = next_order_id (get_or ps 0 0) (get_or ps 1 0) s.districts;
}
execute new_order_insert_oorder ps s = record s {
  orders =
      s.orders
      ++ record {
        o_w_id = get_or ps 0 0;
        o_d_id = get_or ps 1 0;
        o_id = get_or ps 2 0;
        o_c_id = get_or ps 3 0;
        o_carrier_id = none;
        o_ol_cnt = get_or ps 4 0;
      }
        ∷ [];
}
execute new_order_insert_new_order ps s = record s {
  new_orders =
      s.new_orders
      ++ record { no_w_id = get_or ps 0 0; no_d_id = get_or ps 1 0; no_o_id = get_or ps 2 0 } ∷ [];
}
execute new_order_update_stock ps s = record s {
  stocks =
      take_stock (get_or ps 0 0) (get_or ps 1 0) (get_or ps 2 0) (get_or ps 3 0) (get_or ps 4 0)
        s.stocks;
}
execute new_order_insert_order_line ps s = record s {
  order_lines =
      s.order_lines
      ++ record {
        ol_w_id = get_or ps 0 0;
        ol_d_id = get_or ps 1 0;
        ol_o_id = get_or ps 2 0;
        ol_number = get_or ps 3 0;
        ol_i_id = get_or ps 4 0;
        ol_delivered = false;
        ol_amount = get_or ps 5 0;
      }
        ∷ [];
}
execute payment_update_warehouse_ytd ps s = record s {
  warehouses = add_warehouse_ytd (get_or ps 0 0) (get_or ps 1 0) s.warehouses;
}
execute payment_update_district_ytd ps s = record s {
  districts = add_district_ytd (get_or ps 0 0) (get_or ps 1 0) (get_or ps 2 0) s.districts;
}
execute payment_update_customer_bc ps s = record s {
  customers =
      pay_customer (get_or ps 0 0) (get_or ps 1 0) (get_or ps 3 0) (get_or ps 4 0) (get_or ps 5 0)
        s.customers;
}
execute payment_update_customer ps s = record s {
  customers =
      pay_customer (get_or ps 0 0) (get_or ps 1 0) (get_or ps 2 0) (get_or ps 3 0) (get_or ps 4 0)
        s.customers;
}
execute payment_insert_history ps s = record s {
  history =
      s.history
      ++ record {
        h_c_id = get_or ps 0 0;
        h_c_d_id = get_or ps 1 0;
        h_c_w_id = get_or ps 2 0;
        h_d_id = get_or ps 3 0;
        h_w_id = get_or ps 4 0;
        h_amount = get_or ps 5 0;
      }
        ∷ [];
}
execute delivery_delete_new_order ps s = record s {
  new_orders =
      delete
        (λ r. same3 r.no_w_id r.no_d_id r.no_o_id (get_or ps 0 0) (get_or ps 1 0) (get_or ps 2 0))
        s.new_orders;
}
execute delivery_update_carrier ps s = record s {
  orders =
      update (λ r. same3 r.o_w_id r.o_d_id r.o_id (get_or ps 1 0) (get_or ps 2 0) (get_or ps 3 0))
        (λ r. record r { o_carrier_id = some (get_or ps 0 0) }) s.orders;
}
execute delivery_update_order_line_delivery ps s = record s {
  order_lines =
      update
        (λ r. same3 r.ol_w_id r.ol_d_id r.ol_o_id (get_or ps 0 0) (get_or ps 1 0) (get_or ps 2 0))
        (λ r. record r { ol_delivered = true }) s.order_lines;
}
execute delivery_update_customer_balance ps s = record s {
  customers =
      credit_customer (get_or ps 0 0) (get_or ps 1 0) (get_or ps 2 0) (get_or ps 3 0) s.customers;
}
execute _ ps s = s

-- The parameters as they are stored, where `hundredths` says what the server stores for a `double`; a
-- text is not looked at.
abbrev pub stored : {Real : Type 0} → (Real → ℕ) → List (Param Real) → List ℕ
stored hundredths [] = []
stored hundredths (p_int n ∷ ps) = pos_part n ∷ stored hundredths ps
stored hundredths (p_real r ∷ ps) = hundredths r ∷ stored hundredths ps
stored hundredths (p_text t ∷ ps) = 0 ∷ stored hundredths ps

-- The statements of a transaction in order.
unfoldable pub replay : {Real : Type 0} → (Real → ℕ) → List (Event Real) → Store → Store
unfolding execute
replay hundredths [] s = s
replay hundredths (statement q ps ∷ tr) s =
    replay hundredths tr (execute q (stored hundredths ps) s)
replay hundredths (committed ∷ tr) s = replay hundredths tr s
replay hundredths (rolled_back ∷ tr) s = replay hundredths tr s
