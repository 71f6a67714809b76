-- ===== src/Tx/Payment.antt =====
-- src/transaction_payment.cpp, `GetPaymentTask`.
use tpcc_oceanbase_cpp.Common.{
  ℕ, Bool, true, false, ◌&&◌, List, [], ◌∷◌, ◌++◌, none, some, ◌==◌, leb, ltb, if◌then◌else◌,
  length, take,
}
use tpcc_oceanbase_cpp.Common.Int.{pos}
use tpcc_oceanbase_cpp.Tx.{
  Text, Driver, Param, p_int, p_real, p_text, Tx, finish, stop_with_error, random, query, modify,
  commit, payment_select_warehouse_for_update, payment_update_warehouse_ytd,
  payment_select_district_for_update, payment_update_district_ytd, payment_select_customer_data,
  payment_update_customer_bc, payment_update_customer, payment_insert_history,
}
use tpcc_oceanbase_cpp.Tx.Customer.{
  Customer, need, first_row, parse_customer, select_customer, get_customer_by_id,
  get_customers_by_last_name,
}
use tpcc_oceanbase_cpp.Tx.Workload.{
  random_customer_id, random_last_name, random_other_warehouse, district_low_id, district_high_id,
}

-- `text.length() > n ? text.substr(0, n) : text`.
pub clip : ℕ → Text → Text
clip n text = if ltb n (length text) then take n text else text

-- `credit == "BC"`.
unfoldable pub is_bad_credit : Text → Bool
is_bad_credit (b ∷ c ∷ []) = b == 66 && c == 67
is_bad_credit _ = false

-- Four spaces.
abbrev gap : Text
gap = 32 ∷ 32 ∷ 32 ∷ 32 ∷ []

module _ (F : Driver) where
  open F use {Row, Real, get_string, cents, format_payment}

  -- The customer by last name in sixty of a hundred draws, and by number otherwise, as `Payment` and
  -- `OrderStatus` look it up.
  unfoldable pub pick_customer : ℕ → ℕ → Bool → (Customer F → Tx Row Real) → Tx Row Real
  pick_customer warehouse district for_update k = random 1 100 λ percent.
      if leb percent 60
      then (random_last_name λ name.
          get_customers_by_last_name F (pos warehouse) (pos district) name for_update λ rows.
            need (select_customer F rows)
              λ selected. elim selected [ none ↦ stop_with_error | some customer ↦ k customer ])
      else (random_customer_id λ id.
          get_customer_by_id F (pos warehouse) (pos district) (pos id) for_update λ rows.
            first_row rows stop_with_error
              λ row. need (parse_customer F row) λ customer. k (record customer { c_id = pos id }))

  -- The customer's row: with bad credit `C_DATA` is read and rewritten too.
  unfoldable pub update_customer : ℕ → ℕ → ℕ → ℕ → Real → Customer F → Tx Row Real → Tx Row Real
  update_customer warehouse district customer_warehouse customer_district amount customer k =
      let key : List (Param Real) =
        p_int (pos customer_warehouse) ∷ p_int (pos customer_district) ∷ p_int customer.c_id ∷ [] in
      let write = λ (old : Text).
        modify payment_update_customer_bc
          (p_real amount
            ∷ p_real amount
            ∷ p_text (
                clip 500 (
                  format_payment customer.c_id (pos customer_district) (pos customer_warehouse)
                    (pos district) (pos warehouse) amount old))
            ∷ key)
          k in
      if is_bad_credit customer.c_credit
      then (query payment_select_customer_data key
          λ rows. first_row rows (write []) λ row. need (get_string row "c_data") λ old. write old)
      else modify payment_update_customer (p_real amount ∷ p_real amount ∷ key) k

  unfoldable pub payment_task : ℕ → ℕ → ℕ → Tx Row Real
  payment_task fuel warehouse warehouse_count = random district_low_id district_high_id λ district.
      random 100 500000 λ hundredths.
        let amount = cents hundredths in
        let w : Param Real = p_int (pos warehouse) in
        let d : Param Real = p_int (pos district) in
        query payment_select_warehouse_for_update (w ∷ []) λ rows.
          first_row rows stop_with_error λ row. need (get_string row "w_name") λ warehouse_name.
            modify payment_update_warehouse_ytd (p_real amount ∷ w ∷ []) (
              query payment_select_district_for_update (w ∷ d ∷ []) λ rows.
                first_row rows stop_with_error λ row.
                  need (get_string row "d_name") λ district_name.
                    modify payment_update_district_ytd (p_real amount ∷ w ∷ d ∷ []) (
                      random 1 100 λ home.
                        let pay = λ (cd cw : ℕ). pick_customer cw cd true λ customer.
                          update_customer warehouse district cw cd amount customer (
                            modify payment_insert_history
                              (p_int customer.c_id
                                ∷ p_int (pos cd)
                                ∷ p_int (pos cw)
                                ∷ d
                                ∷ w
                                ∷ p_real amount
                                ∷ p_text (clip 24 (warehouse_name ++ (gap ++ district_name)))
                                ∷ [])
                              (commit (finish true))) in
                        if leb home 85
                        then pay district warehouse
                        else (random district_low_id district_high_id λ cd.
                            random_other_warehouse fuel warehouse_count warehouse λ cw. pay cd cw)))
