-- ===== src/Import/Conforming.antt =====
-- Every row that is loaded conforms to the columns of its table.
use tpcc_oceanbase_cpp.Common.{
  ℕ, if◌then◌else◌, ◌+◌, ◌-◌, ◌^◌, ◌≤◌, ◌<◌, ◌≡◌, List, [], ◌∷◌, some, arith, ltb, length-append,
  get_or, All,
}
use tpcc_oceanbase_cpp.Import.Gen.{
  Gen, emit, Ensures, Ensures-pure, Ensures-bind, random_number-Ensures, for_each-Ensures,
}
use tpcc_oceanbase_cpp.Import.Schema.{
  Cell, null, text, Suits, Conforms, timestamp, nullable, Table, warehouse, item, stock, district,
  customer, history, oorder, new_order, order_line,
}
use tpcc_oceanbase_cpp.Import.Rows.{
  Standard, customers, first_unprocessed, item_row, warehouse_row, district_row, stock_row,
  customer_row, history_row, order_row, order_line_row, random_count,
}
use tpcc_oceanbase_cpp.Import.Load.{one_row, load_orders, load_order_lines, load}
use tpcc_oceanbase_cpp.Import.Types.{
  types, item_types, warehouse_types, district_types, stock_types, customer_types, history_types,
  oorder_types, new_order_types, order_line_types,
}
use tpcc_oceanbase_cpp.Import.Texts.{
  random_string-Ensures, random_alpha-Ensures, random_numeric-Ensures, random_data-Ensures,
  customer_last-Ensures, credit-le, customer_ids-le, random_count-le, carrier_of-Ensures,
  amount-Ensures,
}

item_row-Conforms : (i : ℕ) → i < 2 ^ 31 → Ensures (Conforms (types item)) (item_row i)
unfolding item_row
item_row-Conforms i h = rw item_types (
    Ensures-bind (random_data-Ensures) λ t l.
      Ensures-bind (random_alpha-Ensures 97 14 24) λ name n_name.
        Ensures-bind (random_number-Ensures 100 10000) λ price b_price.
          Ensures-bind (random_number-Ensures 1 10000)
            λ image b_image. Ensures-pure _ (omega arith))

warehouse_row-Conforms :
    (wh : ℕ) → wh < 2 ^ 31 → Ensures (Conforms (types warehouse)) (warehouse_row wh)
unfolding warehouse_row
warehouse_row-Conforms wh h = rw warehouse_types (
    Ensures-bind (random_number-Ensures 0 2000) λ tax b_tax.
      Ensures-bind (random_alpha-Ensures 97 6 10) λ name n_name.
        Ensures-bind (random_alpha-Ensures 97 10 20) λ street_1 n_street_1.
          Ensures-bind (random_alpha-Ensures 97 10 20) λ street_2 n_street_2.
            Ensures-bind (random_alpha-Ensures 97 10 20) λ city n_city.
              Ensures-bind (random_alpha-Ensures 65 3 3)
                λ state n_state. Ensures-pure _ (omega arith))

district_row-Conforms :
    (wh d : ℕ) → wh < 2 ^ 31 → d < 2 ^ 31 → Ensures (Conforms (types district)) (district_row wh d)
unfolding district_row
district_row-Conforms wh d h k = rw district_types (
    Ensures-bind (random_number-Ensures 0 2000) λ tax b_tax.
      Ensures-bind (random_alpha-Ensures 97 6 10) λ name n_name.
        Ensures-bind (random_alpha-Ensures 97 10 20) λ street_1 n_street_1.
          Ensures-bind (random_alpha-Ensures 97 10 20) λ street_2 n_street_2.
            Ensures-bind (random_alpha-Ensures 97 10 20) λ city n_city.
              Ensures-bind (random_alpha-Ensures 65 3 3)
                λ state n_state. Ensures-pure _ (omega arith))

stock_row-Conforms :
    (wh i : ℕ) → wh < 2 ^ 31 → i < 2 ^ 31 → Ensures (Conforms (types stock)) (stock_row wh i)
unfolding stock_row
stock_row-Conforms wh i h k = rw stock_types (
    Ensures-bind (random_data-Ensures) λ t l.
      Ensures-bind (random_number-Ensures 10 100) λ quantity b_quantity.
        Ensures-bind (random_string-Ensures 97 24) λ t1 l1.
          Ensures-bind (random_string-Ensures 97 24) λ t2 l2.
            Ensures-bind (random_string-Ensures 97 24) λ t3 l3.
              Ensures-bind (random_string-Ensures 97 24) λ t4 l4.
                Ensures-bind (random_string-Ensures 97 24) λ t5 l5.
                  Ensures-bind (random_string-Ensures 97 24) λ t6 l6.
                    Ensures-bind (random_string-Ensures 97 24) λ t7 l7.
                      Ensures-bind (random_string-Ensures 97 24) λ t8 l8.
                        Ensures-bind (random_string-Ensures 97 24) λ t9 l9.
                          Ensures-bind (random_string-Ensures 97 24)
                            λ t10 l10. Ensures-pure _ (omega arith))

customer_row-Conforms :
    (std : Standard) (wh d cid : ℕ)
    → wh < 2 ^ 31
    → d < 2 ^ 31
    → cid < 2 ^ 31
    → Ensures (Conforms (types customer)) (customer_row std wh d cid)
unfolding customer_row
customer_row-Conforms std wh d cid h k l = rw customer_types (
    Ensures-bind (customer_last-Ensures cid) λ last n_last.
      Ensures-bind (random_number-Ensures 1 100) λ percent b_percent.
        Ensures-bind (random_number-Ensures 1 5000) λ discount b_discount.
          Ensures-bind (random_alpha-Ensures 97 8 16) λ first n_first.
            Ensures-bind (random_alpha-Ensures 97 10 20) λ street_1 n_street_1.
              Ensures-bind (random_alpha-Ensures 97 10 20) λ street_2 n_street_2.
                Ensures-bind (random_alpha-Ensures 97 10 20) λ city n_city.
                  Ensures-bind (random_alpha-Ensures 65 3 3) λ state n_state.
                    Ensures-bind (random_numeric-Ensures 4) λ zip n_zip.
                      Ensures-bind (random_numeric-Ensures 16) λ phone n_phone.
                        Ensures-bind (random_alpha-Ensures 97 300 500) λ c_data n_c_data.
                          Ensures-pure _ (
                            omega (
                              arith,
                              credit-le percent,
                              length-append zip (49 ∷ 49 ∷ 49 ∷ 49 ∷ 49 ∷ []),
                            )))

history_row-Conforms :
    (std : Standard) (wh d cid : ℕ)
    → wh < 2 ^ 31
    → d < 2 ^ 31
    → cid < 2 ^ 31
    → Ensures (Conforms (types history)) (history_row std wh d cid)
unfolding history_row
history_row-Conforms std wh d cid h k l =
    rw history_types
      (Ensures-bind (random_alpha-Ensures 97 10 24) λ h_data n_h_data. Ensures-pure _ (omega arith))

order_row-Conforms :
    (std : Standard) (ids : List ℕ) (wh d oid : ℕ)
    → get_or ids (oid - 1) 0 ≤ customers
    → wh < 2 ^ 31
    → d < 2 ^ 31
    → oid < 2 ^ 31
    → Ensures (Conforms (types oorder)) (order_row std ids wh d oid)
unfolding order_row
order_row-Conforms std ids wh d oid c h k l = rw oorder_types (
    Ensures-bind (carrier_of-Ensures oid) λ carrier s. Ensures-pure _ (
      h,
      (
        k,
        (
          l,
          (
            omega arith,
            (s, (omega (arith, random_count-le std wh oid d), (omega arith, (tt, tt)))),
          ),
        ),
      ),
    ))

delivered-Suits :
    (std : Standard) (oid : ℕ)
    → Suits
        (nullable timestamp)
        (if ltb oid first_unprocessed then text std.current_timestamp else null)
delivered-Suits std oid = ground arith

order_line_row-Conforms :
    (std : Standard) (wh d oid line : ℕ)
    → wh < 2 ^ 31
    → d < 2 ^ 31
    → oid < 2 ^ 31
    → line < 2 ^ 31
    → Ensures (Conforms (types order_line)) (order_line_row std wh d oid line)
unfolding order_line_row
order_line_row-Conforms std wh d oid line h k l m = rw order_line_types (
    Ensures-bind (random_number-Ensures 1 100000) λ i b_i.
      Ensures-bind (amount-Ensures oid) λ amount b_amount.
        Ensures-bind (random_string-Ensures 97 24) λ dist_info n_dist. Ensures-pure _ (
          h,
          (k, (l, (m, (omega arith, (delivered-Suits std oid, (omega arith, (h, omega arith))))))),
        ))

one_row-Ensures :
    (t : Table) (m : Gen (List Cell))
    → Ensures (Conforms (types t)) m
    → Ensures (All (Conforms (types t))) (one_row m)
unfolding emit
one_row-Ensures t m h = Ensures-bind h λ row c. Ensures-pure (row ∷ []) (c, tt)

load-Ensures :
    (std : Standard) (t : Table) (last wh d : ℕ)
    → last < 2 ^ 31
    → wh < 2 ^ 31
    → d < 2 ^ 31
    → Ensures (All (Conforms (types t))) (load std t last wh d)
unfolding load load_orders load_order_lines
load-Ensures std item last wh d h k l =
    for_each-Ensures _ 100000 1 _
      λ i lo hi. one_row-Ensures item _ (item_row-Conforms i (omega arith))
load-Ensures std warehouse last wh d h k l =
    for_each-Ensures _ last 1 _
      λ w lo hi. one_row-Ensures warehouse _ (warehouse_row-Conforms w (omega arith))
load-Ensures std district last wh d h k l = for_each-Ensures _ last 1 _ λ w lo hi.
    for_each-Ensures _ 10 1 _ λ e lo' hi'.
      one_row-Ensures district _ (district_row-Conforms w e (omega arith) (omega arith))
load-Ensures std stock last wh d h k l =
    for_each-Ensures _ 100000 1 _
      λ i lo hi. one_row-Ensures stock _ (stock_row-Conforms wh i k (omega arith))
load-Ensures std customer last wh d h k l =
    for_each-Ensures _ customers 1 _
      λ cid lo hi. one_row-Ensures customer _ (customer_row-Conforms std wh d cid k l (omega arith))
load-Ensures std history last wh d h k l =
    for_each-Ensures _ customers 1 _
      λ cid lo hi. one_row-Ensures history _ (history_row-Conforms std wh d cid k l (omega arith))
load-Ensures std oorder last wh d h k l = for_each-Ensures _ customers 1 _ λ oid lo hi.
    one_row-Ensures oorder _
      (order_row-Conforms std _ wh d oid (customer_ids-le std (oid - 1)) k l (omega arith))
load-Ensures std new_order last wh d h k l = rw new_order_types (
    for_each-Ensures _ (customers + 1 - first_unprocessed) first_unprocessed _
      λ oid lo hi. Ensures-pure _ ((k, (l, (omega arith, tt))), tt))
load-Ensures std order_line last wh d h k l = for_each-Ensures _ customers 1 _ λ oid lo hi.
    for_each-Ensures _ (random_count std wh oid d) 1 _ λ line lo' hi'.
      one_row-Ensures order_line _ (
        order_line_row-Conforms std wh d oid line k l (omega arith)
          (omega (arith, random_count-le std wh oid d)))

-- Every row that any loader emits, whatever was drawn, has as many cells as its statement names columns,
-- and each cell suits the type that the schema gives the column: integers are in range, texts are
-- short enough, decimals need no more digits, and only nullable columns are null.
pub load-Conforms :
    (std : Standard) (t : Table) (last wh d : ℕ)
    → last < 2 ^ 31
    → wh < 2 ^ 31
    → d < 2 ^ 31
    → (draws rest : List ℕ) (rows : List (List Cell))
    → load std t last wh d draws ≡ some (rows, rest)
    → All (Conforms (types t)) rows
load-Conforms std t last wh d h k l draws rest rows e =
    (load-Ensures std t last wh d h k l).holds draws e
