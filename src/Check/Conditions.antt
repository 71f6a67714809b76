-- ===== src/Check/Conditions.antt =====
-- src/check.cpp: the consistency conditions of TPC-C (3.3.2.1 to 3.3.2.12) and the checks after an import.
use tpcc_oceanbase_cpp.Common.{
  ℕ, ◌+◌, ◌-◌, Bool, true, false, not, ◌&&◌, ◌||◌, Option, none, some, ◌==◌, leb, if◌then◌else◌,
}
use tpcc_oceanbase_cpp.Common.Int.{pos, ◌+ℤ◌, eq_ℤ}
use tpcc_oceanbase_cpp.Store.{
  Warehouse, District, Customer, History, Order, NewOrder, OrderLine, Store, same2, same3,
}
use tpcc_oceanbase_cpp.Store.Books.{district_total, history_total, district_history_total}
use tpcc_oceanbase_cpp.Tx.Workload.{customers_per_district}
use tpcc_oceanbase_cpp.Import.Rows.{first_unprocessed}
use tpcc_oceanbase_cpp.Check.{any, count_if, sum_if, least, greatest}
use tpcc_oceanbase_cpp.Check.Windows.{windows, within}

-- A comparison with null is not true, and so is a join without a partner.
abbrev pub differ : Option ℕ → Option ℕ → Bool
differ none b = false
differ (some a) none = false
differ (some a) (some b) = not (a == b)

abbrev pub is_null : Option ℕ → Bool
is_null none = true
is_null (some a) = false

unfoldable pub check_3321 : Store → Bool
check_3321 s =
    any
      (λ (w : Warehouse).
        any (λ (d : District). d.d_w_id == w.w_id) s.districts
        && not (w.w_ytd == district_total w.w_id s.districts))
      s.warehouses

unfoldable pub check_3322 : Store → Bool
check_3322 s =
    any
      (λ (d : District).
        let last_order =
          greatest (λ (o : Order). same2 o.o_w_id o.o_d_id d.d_w_id d.d_id) (λ o. o.o_id)
            s.orders in
        let last_new =
          greatest (λ (n : NewOrder). same2 n.no_w_id n.no_d_id d.d_w_id d.d_id) (λ n. n.no_o_id)
            s.new_orders in
        differ (some d.d_next_o_id) (elim last_order [ none ↦ none | some o ↦ some (o + 1) ])
        || differ last_order last_new)
      s.districts

unfoldable pub check_3323 : Store → Bool
check_3323 s =
    any
      (λ (n : NewOrder).
        let group = λ (m : NewOrder). same2 m.no_w_id m.no_d_id n.no_w_id n.no_d_id in
        let count = count_if group s.new_orders in
        differ
          (elim (least group (λ m. m.no_o_id) s.new_orders) [
            | none ↦ none
            | some a ↦ some (count + a)
          ])
          (elim (greatest group (λ m. m.no_o_id) s.new_orders) [
            | none ↦ none
            | some b ↦ some (b + 1)
          ]))
      s.new_orders

abbrev lines_of_district : Store → ℕ → ℕ → ℕ
lines_of_district s w d = count_if (λ (l : OrderLine). same2 l.ol_w_id l.ol_d_id w d) s.order_lines

abbrev lines_of_order : Store → Order → ℕ
lines_of_order s o =
    count_if (λ (l : OrderLine). same3 l.ol_w_id l.ol_d_id l.ol_o_id o.o_w_id o.o_d_id o.o_id)
      s.order_lines

abbrev has_order : Store → OrderLine → Bool
has_order s l =
    any (λ (o : Order). same3 o.o_w_id o.o_d_id o.o_id l.ol_w_id l.ol_d_id l.ol_o_id) s.orders

-- The sum is -1 for a district without lines, which no sum of `o_ol_cnt` is.
unfoldable pub window_3324 : Store → ℕ × ℕ → Bool
window_3324 s w =
    any
      (λ (o : Order).
        let count = lines_of_district s o.o_w_id o.o_d_id in
        (count == 0
          || not (
              sum_if (λ (p : Order). same2 p.o_w_id p.o_d_id o.o_w_id o.o_d_id) (λ p. p.o_ol_cnt)
                s.orders
              == count))
        && within w o.o_w_id)
      s.orders
    || any
        (λ (l : OrderLine).
          not (any (λ (o : Order). same2 o.o_w_id o.o_d_id l.ol_w_id l.ol_d_id) s.orders)
          && within w l.ol_w_id)
        s.order_lines

abbrev undelivered : Option ℕ → Bool
undelivered none = true
undelivered (some carrier) = carrier == 0

unfoldable pub window_3325 : Store → ℕ × ℕ → Bool
window_3325 s w =
    any
      (λ (n : NewOrder).
        (not (
            any (λ (o : Order). same3 n.no_w_id n.no_d_id n.no_o_id o.o_w_id o.o_d_id o.o_id)
              s.orders)
          || any
              (λ (o : Order).
                same3 n.no_w_id n.no_d_id n.no_o_id o.o_w_id o.o_d_id o.o_id
                && not (undelivered o.o_carrier_id))
              s.orders)
        && within w n.no_w_id)
      s.new_orders
    || any
        (λ (o : Order).
          (undelivered o.o_carrier_id
            && not (
                any (λ (n : NewOrder). same3 o.o_w_id o.o_d_id o.o_id n.no_w_id n.no_d_id n.no_o_id)
                  s.new_orders))
          && within w o.o_w_id)
        s.orders

unfoldable pub window_3326 : Store → ℕ × ℕ → Bool
window_3326 s w =
    any (λ (o : Order). not (o.o_ol_cnt == lines_of_order s o) && within w o.o_w_id) s.orders
    || any (λ (l : OrderLine). not (has_order s l) && within w l.ol_w_id) s.order_lines

-- The lines of the order of `l` that are delivered, or not.
abbrev some_line : Store → OrderLine → (OrderLine → Bool) → Bool
some_line s l p =
    any
      (λ (m : OrderLine). same3 m.ol_w_id m.ol_d_id m.ol_o_id l.ol_w_id l.ol_d_id l.ol_o_id && p m)
      s.order_lines

unfoldable pub window_3327 : Store → ℕ × ℕ → Bool
window_3327 s w =
    any
      (λ (l : OrderLine).
        any
          (λ (o : Order).
            same3 l.ol_w_id l.ol_d_id l.ol_o_id o.o_w_id o.o_d_id o.o_id
            && (if is_null o.o_carrier_id
                then not (some_line s l (λ m. not m.ol_delivered))
                else some_line s l (λ m. not m.ol_delivered)))
          s.orders
        && within w l.ol_w_id)
      s.order_lines

unfoldable pub check_3328 : Store → Bool
check_3328 s =
    any
      (λ (w : Warehouse).
        any (λ (h : History). h.h_w_id == w.w_id) s.history
        && not (w.w_ytd == history_total w.w_id s.history))
      s.warehouses

unfoldable pub check_3329 : Store → Bool
check_3329 s =
    any
      (λ (d : District).
        any (λ (h : History). same2 h.h_w_id h.h_d_id d.d_w_id d.d_id) s.history
        && not (d.d_ytd == district_history_total d.d_w_id d.d_id s.history))
      s.districts

-- `SUM(ol_amount)` of the delivered lines of a customer's orders, and how many there are.
abbrev of_customer : Customer → Order → Bool
of_customer c o = same3 o.o_w_id o.o_d_id o.o_c_id c.c_w_id c.c_d_id c.c_id

abbrev delivered_line : Order → OrderLine → Bool
delivered_line o l = same3 l.ol_w_id l.ol_d_id l.ol_o_id o.o_w_id o.o_d_id o.o_id && l.ol_delivered

abbrev delivered_amount : Store → Customer → ℕ
delivered_amount s c =
    sum_if (of_customer c) (λ o. sum_if (delivered_line o) (λ l. l.ol_amount) s.order_lines)
      s.orders

abbrev has_delivered : Store → Customer → Bool
has_delivered s c = any (λ o. of_customer c o && any (delivered_line o) s.order_lines) s.orders

abbrev paid_amount : Store → Customer → ℕ
paid_amount s c =
    sum_if (λ (h : History). same3 h.h_c_w_id h.h_c_d_id h.h_c_id c.c_w_id c.c_d_id c.c_id)
      (λ h. h.h_amount) s.history

-- `c_balance != delivered - paid`, and `c_balance + c_ytd_payment != delivered`.
unfoldable pub window_33210 : Store → ℕ × ℕ → Bool
window_33210 s w =
    any
      (λ (c : Customer).
        not (eq_ℤ (c.c_balance +ℤ pos (paid_amount s c)) (pos (delivered_amount s c)))
        && within w c.c_w_id)
      s.customers

unfoldable pub window_33212 : Store → ℕ × ℕ → Bool
window_33212 s w =
    any
      (λ (c : Customer).
        (has_delivered s c
          && not (eq_ℤ (c.c_balance +ℤ pos c.c_ytd_payment) (pos (delivered_amount s c))))
        && within w c.c_w_id)
      s.customers

-- `order_cnt - new_order_cnt != FIRST_UNPROCESSED_O_ID - 1`, for districts that have both.
unfoldable pub window_33211 : Store → ℕ × ℕ → Bool
window_33211 s w =
    any
      (λ (o : Order).
        let news =
          count_if (λ (n : NewOrder). same2 n.no_w_id n.no_d_id o.o_w_id o.o_d_id) s.new_orders in
        (not (news == 0)
          && not (
              count_if (λ (p : Order). same2 p.o_w_id p.o_d_id o.o_w_id o.o_d_id) s.orders
              == news + (first_unprocessed - 1)))
        && within w o.o_w_id)
      s.orders

-- The loop over the windows stops at the first one that fails, which is a failure of the check.
unfoldable pub in_windows : ℕ → ℕ → (ℕ × ℕ → Bool) → Bool
unfolding windows
in_windows size n query = any query (windows n size 1 n)

unfoldable pub post_next_order_id : Store → Bool
post_next_order_id s =
    any (λ (d : District). not (d.d_next_o_id == customers_per_district + 1)) s.districts

unfoldable pub post_warehouse_ytd : Store → Bool
post_warehouse_ytd s = any (λ (w : Warehouse). not (w.w_ytd == 30000000)) s.warehouses

unfoldable pub post_district_ytd : Store → Bool
post_district_ytd s = any (λ (d : District). not (d.d_ytd == 3000000)) s.districts

unfoldable pub post_no_carriers : Store → Bool
post_no_carriers s =
    any (λ (o : Order). leb first_unprocessed o.o_id && not (is_null o.o_carrier_id)) s.orders

unfoldable pub post_no_delivery_dates : Store → Bool
post_no_delivery_dates s =
    any (λ (l : OrderLine). leb first_unprocessed l.ol_o_id && l.ol_delivered) s.order_lines
