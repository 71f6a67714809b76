-- ===== src/Import/Orders.antt =====
-- `LoadOrders`: the tables of orders and of order lines, which are filled one after the other, agree.
use tpcc_oceanbase_cpp.Common.{
  ℕ, zero, suc, ◌+◌, ◌≤◌, ◌≡◌, refl, ap, ◌∙◌, Bool, false, ◌&&◌, List, [], ◌∷◌, ◌++◌, some, arith,
  ◌==◌, leb, ltb, if◌then◌else◌, get_or, All, All-weaken,
}
use tpcc_oceanbase_cpp.Import.Gen.{
  emit, Ensures, Ensures-pure, Ensures-bind, random_number-Ensures, for_each, for_each-Ensures,
}
use tpcc_oceanbase_cpp.Import.Schema.{Cell, null, int}
use tpcc_oceanbase_cpp.Import.Rows.{Standard, random_count, order_row, order_line_row}
use tpcc_oceanbase_cpp.Import.Load.{one_row, load_orders, load_order_lines}
use tpcc_oceanbase_cpp.Import.Texts.{amount-Ensures, random_string-Ensures, carrier_of-Ensures}

abbrev pub is_int : Cell → ℕ → Bool
is_int (int m) n = m == n
is_int _ n = false

-- The number of the rows whose third cell is `oid`.
pub line_count : ℕ → List (List Cell) → ℕ
line_count oid [] = 0
line_count oid (row ∷ rows) =
    (if is_int (get_or row 2 null) oid then 1 else 0) + line_count oid rows

line_count-append :
    (oid : ℕ) (xs ys : List (List Cell))
    → line_count oid (xs ++ ys) ≡ line_count oid xs + line_count oid ys
unfolding line_count
line_count-append oid [] ys = omega arith
line_count-append oid (x ∷ xs) ys = omega (arith, line_count-append oid xs ys)

module _ (std : Standard) (wh d : ℕ) where
  line_row-Ensures :
      (oid line : ℕ)
      → Ensures
          (λ rows. (k : ℕ) → line_count k rows ≡ (if oid == k then 1 else 0))
          (one_row (order_line_row std wh d oid line))
  unfolding order_line_row emit line_count
  line_row-Ensures oid line =
      Ensures-bind
        (Ensures-bind (random_number-Ensures 1 100000) λ i _.
          Ensures-bind (amount-Ensures oid) λ amount _.
            Ensures-bind (random_string-Ensures 97 24)
              λ dist_info _. Ensures-pure {P = λ row. get_or row 2 null ≡ int oid} _ refl)
        λ row e. Ensures-pure (row ∷ []) λ k. rw e (omega arith)

  lines_of-Ensures :
      (oid n first : ℕ)
      → Ensures
          (λ rows. (k : ℕ) → line_count k rows ≡ (if oid == k then n else 0))
          (for_each n first λ line. one_row (order_line_row std wh d oid line))
  unfolding for_each line_count
  lines_of-Ensures oid zero first = Ensures-pure [] λ k. ground arith
  lines_of-Ensures oid (suc n) first = Ensures-bind (line_row-Ensures oid first) λ rows h.
      Ensures-bind (lines_of-Ensures oid n (first + 1)) λ more m.
        Ensures-pure (rows ++ more) λ k. ground (arith, line_count-append k rows more, h k, m k)

  -- What the table of order lines holds of the orders from `first` on.
  all_lines-Ensures :
      (n first : ℕ)
      → Ensures
          (λ rows.
            (k : ℕ)
            → line_count k rows
              ≡ (if leb first k && ltb k (first + n) then random_count std wh k d else 0))
          (for_each n first λ oid.
            for_each
              (random_count std wh oid d)
              1
              λ line. one_row (order_line_row std wh d oid line))
  unfolding for_each line_count
  all_lines-Ensures zero first = Ensures-pure [] λ k. ground arith
  all_lines-Ensures (suc n) first =
      Ensures-bind (lines_of-Ensures first (random_count std wh first d) 1) λ rows h.
        Ensures-bind (all_lines-Ensures n (first + 1)) λ more m.
          Ensures-pure (rows ++ more) λ k. ground (arith, line_count-append k rows more, h k, m k)

  -- What a row of the table of orders says.
  abbrev pub Counted : ℕ → List Cell → Type 0
  Counted n row =
      (oid : ℕ) × (get_or row 2 null ≡ int oid)
      × (1 ≤ oid)
      × (oid ≤ n)
      × (get_or row 5 null ≡ int (random_count std wh oid d))

  orders-Ensures : (n : ℕ) → Ensures (All (Counted n)) (load_orders std n wh d)
  unfolding load_orders order_row emit
  orders-Ensures n = for_each-Ensures (Counted n) n 1 _ λ oid lo hi.
      Ensures-bind {P = Counted n}
        (Ensures-bind (carrier_of-Ensures oid)
          λ carrier _. Ensures-pure _ (oid, refl, lo, omega arith, refl))
        λ row c. Ensures-pure (row ∷ []) (c, tt)

-- The table of order lines has as many rows of each order as the order's row says in `o_ol_cnt`,
-- whatever the two loaders drew.
pub order_lines_match :
    (std : Standard) (n wh d : ℕ) (draws draws' rest rest' : List ℕ)
    (orders lines : List (List Cell))
    → load_orders std n wh d draws ≡ some (orders, rest)
    → load_order_lines std n wh d draws' ≡ some (lines, rest')
    → All
        (λ row.
          (oid : ℕ) × (get_or row 2 null ≡ int oid)
          × (get_or row 5 null ≡ int (line_count oid lines)))
        orders
unfolding load_order_lines
order_lines_match std n wh d draws draws' rest rest' orders lines e e' =
    let lines_h = (all_lines-Ensures std wh d n 1).holds draws' e' in
    let orders_h = (orders-Ensures std wh d n).holds draws e in
    All-weaken orders
      (λ row (oid, key, lo, hi, counted).
        let lines_of : random_count std wh oid d ≡ line_count oid lines =
          ground (arith, lines_h oid) in
        (oid, key, counted ∙ ap int lines_of))
      orders_h
