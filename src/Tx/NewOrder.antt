-- ===== src/Tx/NewOrder.antt =====
-- src/transaction_neworder.cpp, `GetNewOrderTask`.
use tpcc_oceanbase_cpp.Common.{
  ℕ, zero, suc, ◌+◌, ◌-◌, ◌≤◌, ◌<◌, ◌≡◌, Bool, true, false, ◌&&◌, List, [], ◌∷◌, ◌++◌, Option, none,
  some, arith, ◌==◌, ltb, leb, if◌then◌else◌, Bool-cases, inl, inr, ◌⊎◌, length,
}
use tpcc_oceanbase_cpp.Common.Int.{ℤ, pos, negsuc, ◌+ℤ◌, ◌-ℤ◌, leb_ℤ, eq_ℤ}
use tpcc_oceanbase_cpp.Tx.{
  Text, Driver, Param, p_int, p_real, p_text, Tx, finish, stop_with_error, user_abort, random,
  query, modify, commit, rollback, new_order_select_customer, new_order_select_warehouse_tax,
  new_order_select_district_for_update, new_order_update_district, new_order_insert_oorder,
  new_order_insert_new_order, new_order_select_item, new_order_select_stock_for_update,
  new_order_update_stock, new_order_insert_order_line,
}
use tpcc_oceanbase_cpp.Tx.Customer.{need, first_row, found}
use tpcc_oceanbase_cpp.Tx.Workload.{
  random_customer_id, random_item_id, random_other_warehouse, district_low_id, district_high_id,
}

abbrev pub invalid_item_id : ℤ
invalid_item_id = negsuc 12344

-- One order line as drawn: `itemIDs[i]`, `supplierWarehouseIDs[i]` and `orderQuantities[i]`.
pub record Line : Type 0 where
  pub item : ℤ
  pub supplier : ℕ
  pub quantity : ℕ

-- `stock.s_quantity` after an order of `qty`.
pub new_quantity : ℤ → ℤ → ℤ
new_quantity s qty = if leb_ℤ (pos 10) (s -ℤ qty) then s -ℤ qty else s +ℤ (pos 91 -ℤ qty)

-- An order of one to ten from a stock of at least ten leaves at least ten, and takes the quantity
-- away, after 91 have come in where fewer than ten would be left.
new_quantity_lem :
    (s qty : ℕ)
    → 10 ≤ s
    → 1 ≤ qty
    → qty ≤ 10
    → (n : ℕ) × (new_quantity (pos s) (pos qty) ≡ pos n)
      × (10 ≤ n)
      × ((n + qty ≡ s) ⊎ ((n + qty ≡ s + 91) × (s < qty + 10)))
unfolding new_quantity
new_quantity_lem s qty h lo hi = elim (Bool-cases (leb (10 + qty) s)) [
  | inl plenty ↦ (s - qty, ground arith, ground arith, inl (ground arith))
  | inr few ↦ (s + 91 - qty, ground arith, omega arith, inr (omega arith, ground arith))
]

-- `itemIDs[numItems - 1] = INVALID_ITEM_ID`.
unfoldable pub spoil_last : List Line → List Line
spoil_last [] = []
spoil_last (l ∷ []) = record l { item = invalid_item_id } ∷ []
spoil_last (l ∷ m ∷ ls) = l ∷ spoil_last (m ∷ ls)

module _ (F : Driver) where
  open F use {Row, Real, get_int32, get_double, get_string, of_int, times}

  -- `Stock`, with the ten `s_dist` fields in a list.
  pub record Stock : Type 0 where
    pub s_quantity : ℤ
    pub s_ytd : Real
    pub s_order_cnt : ℤ
    pub s_remote_cnt : ℤ
    pub s_dist : List Text

  -- `GetDistInfo`.
  pub dist_info : ℕ → List Text → Text
  dist_info district [] = []
  dist_info zero (t ∷ ts) = []
  dist_info (suc zero) (t ∷ ts) = t
  dist_info (suc (suc n)) (t ∷ ts) = dist_info (suc n) ts

  -- `itemPrices` and `stocks`: the newest entry of a key stands first.
  pub find_price : ℤ → List (ℤ × Real) → Option Real
  find_price i [] = none
  find_price i ((j, p) ∷ m) = if eq_ℤ i j then some p else find_price i m

  abbrev StockKey : Type 0
  StockKey = ℕ × ℤ

  pub find_stock : ℕ → ℤ → List (ℕ × ℤ × Stock) → Option Stock
  find_stock w i [] = none
  find_stock w i ((v, j, s) ∷ m) = if w == v && eq_ℤ i j then some s else find_stock w i m

  -- The loop that draws the lines.
  unfoldable pub draw_lines :
      ℕ → ℕ → ℕ → ℕ → List Line → Bool → (List Line → Bool → Tx Row Real) → Tx Row Real
  draw_lines fuel warehouse count zero lines all_local k = k lines all_local
  draw_lines fuel warehouse count (suc n) lines all_local k = random_item_id λ item.
      random 1 100 λ remote.
        let add = λ (supplier : ℕ) (local : Bool). random 1 10 λ quantity.
          draw_lines fuel warehouse count n
            (lines ++ record { item = pos item; supplier = supplier; quantity = quantity } ∷ [])
            local k in
        if ltb 1 remote
        then add warehouse all_local
        else random_other_warehouse fuel count warehouse λ supplier. add supplier false

  -- The loop over the items' prices.
  unfoldable pub read_prices :
      List Line → List (ℤ × Real) → (List (ℤ × Real) → Tx Row Real) → Tx Row Real
  read_prices [] prices k = k prices
  read_prices (l ∷ ls) prices k =
      let skip = read_prices ls prices k in
      let look = query new_order_select_item (p_int l.item ∷ []) λ rows. first_row rows skip λ row.
        need (get_double row "i_price") λ price. read_prices ls ((l.item, price) ∷ prices) k in
      if eq_ℤ l.item invalid_item_id then skip else look

  abbrev pub read_stock : Row → (Stock → Tx Row Real) → Tx Row Real
  read_stock row k = need (get_int32 row "s_quantity") λ quantity.
      need (get_double row "s_ytd") λ ytd. need (get_int32 row "s_order_cnt") λ order_cnt.
        need (get_int32 row "s_remote_cnt") λ remote_cnt. need (get_string row "s_dist_01") λ d01.
          need (get_string row "s_dist_02") λ d02. need (get_string row "s_dist_03") λ d03.
            need (get_string row "s_dist_04") λ d04. need (get_string row "s_dist_05") λ d05.
              need (get_string row "s_dist_06") λ d06. need (get_string row "s_dist_07") λ d07.
                need (get_string row "s_dist_08") λ d08. need (get_string row "s_dist_09") λ d09.
                  need (get_string row "s_dist_10") λ d10. k (record {
                    s_quantity = quantity;
                    s_ytd = ytd;
                    s_order_cnt = order_cnt;
                    s_remote_cnt = remote_cnt;
                    s_dist = d01 ∷ d02 ∷ d03 ∷ d04 ∷ d05 ∷ d06 ∷ d07 ∷ d08 ∷ d09 ∷ d10 ∷ [];
                  })

  -- The loop that locks and reads the stock rows, each once.
  unfoldable pub read_stocks :
      List Line → List (ℕ × ℤ × Stock) → (List (ℕ × ℤ × Stock) → Tx Row Real) → Tx Row Real
  read_stocks [] stocks k = k stocks
  read_stocks (l ∷ ls) stocks k =
      let skip = read_stocks ls stocks k in
      let look =
        query new_order_select_stock_for_update (p_int (pos l.supplier) ∷ p_int l.item ∷ []) λ rows.
          first_row rows skip
            λ row. read_stock row λ s. read_stocks ls ((l.supplier, l.item, s) ∷ stocks) k in
      found (find_stock l.supplier l.item stocks) look (λ s. skip)

  -- The loop over the order lines; `ol_num` is `olNum`.
  unfoldable pub write_lines :
      ℕ → ℕ → ℤ → ℕ → List Line → List (ℤ × Real) → List (ℕ × ℤ × Stock) → Tx Row Real → Tx Row Real
  write_lines warehouse district order ol_num [] prices stocks k = k
  write_lines warehouse district order ol_num (l ∷ ls) prices stocks k =
      found (find_price l.item prices) stop_with_error λ price.
        found (find_stock l.supplier l.item stocks) stop_with_error λ stock.
          let left = new_quantity stock.s_quantity (pos l.quantity) in
          let remote : ℤ = if l.supplier == warehouse then pos 0 else pos 1 in
          modify new_order_update_stock
            (p_int left
              ∷ p_real (of_int (pos l.quantity))
              ∷ p_int remote
              ∷ p_int (pos l.supplier)
              ∷ p_int l.item
              ∷ [])
            (modify new_order_insert_order_line
              (p_int (pos warehouse)
                ∷ p_int (pos district)
                ∷ p_int order
                ∷ p_int (pos ol_num)
                ∷ p_int l.item
                ∷ p_real (times (of_int (pos l.quantity)) price)
                ∷ p_int (pos l.supplier)
                ∷ p_real (of_int (pos l.quantity))
                ∷ p_text (dist_info district stock.s_dist)
                ∷ [])
              (write_lines warehouse district order (ol_num + 1) ls prices
                ((l.supplier, l.item, record stock { s_quantity = left }) ∷ stocks) k))

  -- From the district's lock on.
  unfoldable pub place_order : ℕ → ℕ → ℕ → List Line → Bool → Bool → Tx Row Real
  place_order warehouse district customer lines all_local invalid =
      let w : Param Real = p_int (pos warehouse) in
      let d : Param Real = p_int (pos district) in
      query new_order_select_district_for_update (w ∷ d ∷ []) λ rows.
        first_row rows stop_with_error λ row. need (get_int32 row "d_next_o_id") λ order.
          modify new_order_update_district (w ∷ d ∷ []) (
            modify new_order_insert_oorder
              (w
                ∷ d
                ∷ p_int order
                ∷ p_int (pos customer)
                ∷ p_int (pos (length lines))
                ∷ p_int (if all_local then pos 1 else pos 0)
                ∷ [])
              (modify new_order_insert_new_order (w ∷ d ∷ p_int order ∷ []) (
                read_prices lines [] λ prices.
                  if invalid
                  then rollback user_abort
                  else (read_stocks lines [] λ stocks.
                      write_lines warehouse district order 1 lines prices stocks
                        (commit (finish true))))))

  unfoldable pub new_order_task : ℕ → ℕ → ℕ → Tx Row Real
  new_order_task fuel warehouse warehouse_count =
      random district_low_id district_high_id λ district. random_customer_id λ customer.
        random 5 15 λ items.
          draw_lines fuel warehouse warehouse_count items [] true λ lines all_local.
            random 1 100 λ percent.
              let invalid = percent == 1 in
              let w : Param Real = p_int (pos warehouse) in
              query new_order_select_customer (w ∷ p_int (pos district) ∷ p_int (pos customer) ∷ [])
                λ _. query new_order_select_warehouse_tax (w ∷ []) λ _.
                  place_order warehouse district customer
                    (if invalid then spoil_last lines else lines) all_local invalid
