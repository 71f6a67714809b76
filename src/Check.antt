-- ===== src/Check.antt =====
-- src/check.cpp: what its queries find in the tables of `Store`, and how `CheckSync` goes through them.
-- A check is the Boolean of its failure. Amounts differ by more than 1e-3 where their hundredths differ.
pub mod Windows
pub mod Conditions
pub mod Sync
pub mod Passes
mod Tests
use tpcc_oceanbase_cpp.Common.{
  ℕ, zero, suc, ◌+◌, ◌-◌, ◌*◌, Bool, true, false, not, ◌&&◌, ◌||◌, List, [], ◌∷◌, ◌++◌, map, Option,
  none, some, ◌==◌, leb, ltb, if◌then◌else◌, length, min, max,
}
use tpcc_oceanbase_cpp.Common.Int.{ℤ, pos, ◌+ℤ◌, ◌-ℤ◌, eq_ℤ}
use tpcc_oceanbase_cpp.Store.{
  Warehouse, District, Customer, History, Order, NewOrder, OrderLine, Stock, Store, same2, same3,
}
use tpcc_oceanbase_cpp.Tx.Workload.{customers_per_district}
use tpcc_oceanbase_cpp.Import.Rows.{first_unprocessed}

module _ {ℓ} {A : Type ℓ} where
  -- Whether a query with the condition returns a row.
  abbrev pub any : (A → Bool) → List A → Bool
  any p [] = false
  any p (x ∷ xs) = p x || any p xs

  -- `COUNT(*)` and `SUM` over the rows with the condition.
  abbrev pub count_if : (A → Bool) → List A → ℕ
  count_if p [] = 0
  count_if p (x ∷ xs) = (if p x then 1 else 0) + count_if p xs

  abbrev pub sum_if : (A → Bool) → (A → ℕ) → List A → ℕ
  sum_if p f [] = 0
  sum_if p f (x ∷ xs) = (if p x then f x else 0) + sum_if p f xs

  -- `MIN` and `MAX` over them, null where there are none.
  abbrev pub least : (A → Bool) → (A → ℕ) → List A → Option ℕ
  least p f [] = none
  least p f (x ∷ xs) =
      let rest = least p f xs in
      if p x then (elim rest [ none ↦ some (f x) | some m ↦ some (min (f x) m) ]) else rest

  abbrev pub greatest : (A → Bool) → (A → ℕ) → List A → Option ℕ
  greatest p f [] = none
  greatest p f (x ∷ xs) =
      let rest = greatest p f xs in
      if p x then (elim rest [ none ↦ some (f x) | some m ↦ some (max (f x) m) ]) else rest

  abbrev pub every_row : A → Bool
  every_row x = true

  -- `COUNT(DISTINCT …)`, by the last row of each value.
  abbrev pub count_distinct : (A → ℕ) → List A → ℕ
  count_distinct f [] = 0
  count_distinct f (x ∷ xs) = (if any (λ y. f y == f x) xs then 0 else 1) + count_distinct f xs

-- `GetInt32(…) == n`; the getter throws on null.
abbrev pub is_number : Option ℕ → ℕ → Bool
is_number none n = false
is_number (some m) n = m == n

-- The comparison `min != low || max != high` on a column.
abbrev pub off_range {ℓ} : {A : Type ℓ} → (A → ℕ) → ℕ → ℕ → List A → Bool
off_range f low high xs =
    not (is_number (least every_row f xs) low && is_number (greatest every_row f xs) high)

unfoldable pub base_check_warehouse : ℕ → Store → Bool
base_check_warehouse n s =
    not (length s.warehouses == n) || off_range (λ (r : Warehouse). r.w_id) 1 n s.warehouses

unfoldable pub base_check_district : ℕ → Store → Bool
base_check_district n s =
    not (length s.districts == n * 10)
    || (off_range (λ (r : District). r.d_w_id) 1 n s.districts
        || off_range (λ (r : District). r.d_id) 1 10 s.districts)

unfoldable pub base_check_customer : ℕ → Store → Bool
base_check_customer n s =
    not (length s.customers == n * customers_per_district * 10)
    || (off_range (λ (r : Customer). r.c_w_id) 1 n s.customers
        || (off_range (λ (r : Customer). r.c_d_id) 1 10 s.customers
            || off_range (λ (r : Customer). r.c_id) 1 customers_per_district s.customers))

unfoldable pub base_check_item : Store → Bool
base_check_item s = not (length s.items == 100000) || off_range (λ (i : ℕ). i) 1 100000 s.items

unfoldable pub base_check_stock : ℕ → Store → Bool
base_check_stock n s =
    not (length s.stocks == n * 100000)
    || (not (count_distinct (λ (r : Stock). r.s_w_id) s.stocks == n)
        || (off_range (λ (r : Stock). r.s_w_id) 1 n s.stocks
            || off_range (λ (r : Stock). r.s_i_id) 1 100000 s.stocks))

unfoldable pub base_check_oorder : ℕ → Store → Bool
base_check_oorder n s =
    not (length s.orders == n * customers_per_district * 10)
    || (off_range (λ (r : Order). r.o_w_id) 1 n s.orders
        || (off_range (λ (r : Order). r.o_d_id) 1 10 s.orders
            || off_range (λ (r : Order). r.o_id) 1 customers_per_district s.orders))

-- `min_o < FIRST_UNPROCESSED_O_ID` is the test of the least number.
unfoldable pub base_check_new_order : ℕ → Store → Bool
base_check_new_order n s =
    not (length s.new_orders == n * (customers_per_district - first_unprocessed + 1) * 10)
    || (off_range (λ (r : NewOrder). r.no_w_id) 1 n s.new_orders
        || (off_range (λ (r : NewOrder). r.no_d_id) 1 10 s.new_orders
            || (not (elim (least every_row (λ (r : NewOrder). r.no_o_id) s.new_orders) [
              | none ↦ false
              | some m ↦ leb first_unprocessed m
            ])
                || not (
                    is_number (greatest every_row (λ (r : NewOrder). r.no_o_id) s.new_orders)
                      customers_per_district))))

-- The lines of a district that are the last of their order: one for each order that has lines.
abbrev pub last_of_orders : List OrderLine → List OrderLine
last_of_orders [] = []
last_of_orders (l ∷ ls) =
    let rest = last_of_orders ls in
    if any (λ m. same3 m.ol_w_id m.ol_d_id m.ol_o_id l.ol_w_id l.ol_d_id l.ol_o_id) ls
    then rest
    else l ∷ rest

-- And one for each district that has lines.
abbrev pub last_of_districts : List OrderLine → List OrderLine
last_of_districts [] = []
last_of_districts (l ∷ ls) =
    let rest = last_of_districts ls in
    if any (λ m. same2 m.ol_w_id m.ol_d_id l.ol_w_id l.ol_d_id) ls then rest else l ∷ rest

unfoldable pub base_check_order_line : ℕ → Store → Bool
base_check_order_line n s =
    not (length (last_of_districts s.order_lines) == n * 10)
    || any
        (λ l. not (
          count_if (λ m. same2 m.ol_w_id m.ol_d_id l.ol_w_id l.ol_d_id)
            (last_of_orders s.order_lines)
          == customers_per_district))
        s.order_lines

unfoldable pub base_check_history : ℕ → Store → Bool
base_check_history n s =
    not (length s.history == n * customers_per_district * 10)
    || off_range (λ (r : History). r.h_c_w_id) 1 n s.history
