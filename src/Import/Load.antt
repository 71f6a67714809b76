-- ===== src/Import/Load.antt =====
-- src/import.cpp: the loaders of the nine tables, without the statements that carry the rows.
use Prim.Native.String.{String}
use tpcc_oceanbase_cpp.Common.{ℕ, ◌+◌, ◌-◌, List, [], ◌∷◌}
use tpcc_oceanbase_cpp.Import.Gen.{Gen, ◌>>=◌, for_each, emit}
use tpcc_oceanbase_cpp.Import.Schema.{
  Cell, int, Table, warehouse, item, stock, district, customer, history, oorder, new_order,
  order_line,
}
use tpcc_oceanbase_cpp.Import.Rows.{
  Standard, customers, first_unprocessed, up_from, random_count, item_row, warehouse_row,
  district_row, stock_row, customer_row, history_row, order_row, order_line_row,
}

-- The column names of `BulkInsert`.
unfoldable pub bulk_columns : Table → List String
bulk_columns item = "i_id" ∷ "i_name" ∷ "i_price" ∷ "i_data" ∷ "i_im_id" ∷ []
bulk_columns warehouse =
    "w_id" ∷ "w_ytd" ∷ "w_tax" ∷ "w_name" ∷ "w_street_1" ∷ "w_street_2" ∷ "w_city" ∷ "w_state"
    ∷ "w_zip" ∷ []
bulk_columns district =
    "d_w_id" ∷ "d_id" ∷ "d_ytd" ∷ "d_tax" ∷ "d_next_o_id" ∷ "d_name" ∷ "d_street_1" ∷ "d_street_2"
    ∷ "d_city" ∷ "d_state" ∷ "d_zip" ∷ []
bulk_columns stock =
    "s_w_id" ∷ "s_i_id" ∷ "s_quantity" ∷ "s_ytd" ∷ "s_order_cnt" ∷ "s_remote_cnt" ∷ "s_data"
    ∷ "s_dist_01" ∷ "s_dist_02" ∷ "s_dist_03" ∷ "s_dist_04" ∷ "s_dist_05" ∷ "s_dist_06"
    ∷ "s_dist_07" ∷ "s_dist_08" ∷ "s_dist_09" ∷ "s_dist_10" ∷ []
bulk_columns customer =
    "c_w_id" ∷ "c_d_id" ∷ "c_id" ∷ "c_discount" ∷ "c_credit" ∷ "c_last" ∷ "c_first" ∷ "c_credit_lim"
    ∷ "c_balance" ∷ "c_ytd_payment" ∷ "c_payment_cnt" ∷ "c_delivery_cnt" ∷ "c_street_1"
    ∷ "c_street_2" ∷ "c_city" ∷ "c_state" ∷ "c_zip" ∷ "c_phone" ∷ "c_since" ∷ "c_middle" ∷ "c_data"
    ∷ []
bulk_columns history =
    "h_c_id" ∷ "h_c_d_id" ∷ "h_c_w_id" ∷ "h_d_id" ∷ "h_w_id" ∷ "h_date" ∷ "h_amount" ∷ "h_data" ∷ []
bulk_columns oorder =
    "o_w_id" ∷ "o_d_id" ∷ "o_id" ∷ "o_c_id" ∷ "o_carrier_id" ∷ "o_ol_cnt" ∷ "o_all_local"
    ∷ "o_entry_d" ∷ []
bulk_columns new_order = "no_w_id" ∷ "no_d_id" ∷ "no_o_id" ∷ []
bulk_columns order_line =
    "ol_w_id" ∷ "ol_d_id" ∷ "ol_o_id" ∷ "ol_number" ∷ "ol_i_id" ∷ "ol_delivery_d" ∷ "ol_amount"
    ∷ "ol_supply_w_id" ∷ "ol_quantity" ∷ "ol_dist_info" ∷ []

abbrev pub one_row : Gen (List Cell) → Gen (List (List Cell))
one_row m = do row ← m; emit row

-- The loops over the orders of a district that has `n` customers.
unfoldable pub load_orders : Standard → ℕ → ℕ → ℕ → Gen (List (List Cell))
unfolding order_row emit
load_orders std n wh d =
    for_each n 1 λ oid. one_row (order_row std (std.shuffle (up_from 1 n)) wh d oid)

unfoldable pub load_order_lines : Standard → ℕ → ℕ → ℕ → Gen (List (List Cell))
unfolding order_line_row emit random_count
load_order_lines std n wh d =
    for_each n 1 λ oid.
      for_each (random_count std wh oid d) 1 λ line. one_row (order_line_row std wh d oid line)

-- The rows of one table: of warehouses 1 to `last` for the shared tables, and of warehouse `wh` and
-- district `d` for the others.
unfoldable pub load : Standard → Table → ℕ → ℕ → ℕ → Gen (List (List Cell))
unfolding item_row warehouse_row district_row stock_row customer_row history_row load_orders
    load_order_lines emit
load std item last wh d = for_each 100000 1 λ i. one_row (item_row i)
load std warehouse last wh d = for_each last 1 λ w. one_row (warehouse_row w)
load std district last wh d = for_each last 1 λ w. for_each 10 1 λ e. one_row (district_row w e)
load std stock last wh d = for_each 100000 1 λ i. one_row (stock_row wh i)
load std customer last wh d = for_each customers 1 λ cid. one_row (customer_row std wh d cid)
load std history last wh d = for_each customers 1 λ cid. one_row (history_row std wh d cid)
load std oorder last wh d = load_orders std customers wh d
load std new_order last wh d =
    for_each (customers + 1 - first_unprocessed) first_unprocessed
      λ oid. emit (int wh ∷ int d ∷ int oid ∷ [])
load std order_line last wh d = load_order_lines std customers wh d
