-- ===== src/Store/Payment.antt =====
-- src/transaction_payment.cpp on the tables: a payment that returns true keeps the year-to-date amounts
-- and the history in balance.
use tpcc_oceanbase_cpp.Common.{
  ℕ, zero, suc, ◌≤◌, ◌≡◌, refl, Bool, true, false, ◌&&◌, List, [], ◌∷◌, Option, none, some, ltb,
  leb, ◌==◌, if◌then◌else◌,
}
use tpcc_oceanbase_cpp.Tx.{
  Driver, Tx, finish, stop_with_error, user_abort, raise, starved, random, query, modify, commit,
  rollback, suspend,
}
use tpcc_oceanbase_cpp.Tx.Run.{
  Event, End, returned, Run, at_finish, at_stop, at_abort, at_raise, at_starved, draw, answer,
  query_throws, modified, modify_throws, commits_then, commit_throws, rolls_back_then,
  rollback_throws, wakes,
}
use tpcc_oceanbase_cpp.Tx.Customer.{
  Customer, need, first_row, parse_customer, select_customer, get_customer_by_id,
  get_customers_by_last_name,
}
use tpcc_oceanbase_cpp.Tx.Workload.{random_customer_id, random_last_name, random_other_warehouse}
use tpcc_oceanbase_cpp.Tx.Payment.{pick_customer, update_customer, payment_task, is_bad_credit}
use tpcc_oceanbase_cpp.Store as S
use tpcc_oceanbase_cpp.Store.{
  Store, History, execute, stored, replay, add_warehouse_ytd, add_district_ytd,
}
use tpcc_oceanbase_cpp.Store.Books.{Balanced, copies, paid-Balanced}

-- What the property says of the store when a transaction has ended so.
abbrev pub After : (Store → Type 0) → End → Store → Type 0
After P (returned true) s = P s
After P _ s = Unit {0}

module _ {Row Real : Type 0} (hundredths : Real → ℕ) (P : Store → Type 0) where
  -- Whatever is drawn and answered, the statements before a result of true lead from the store to one
  -- that has the property.
  abbrev pub Leads : Tx Row Real → Store → Type 0
  Leads (finish true) s = P s
  Leads (finish false) s = Unit {0}
  Leads stop_with_error s = Unit {0}
  Leads user_abort s = Unit {0}
  Leads raise s = Unit {0}
  Leads starved s = Unit {0}
  Leads (random low high k) s = (n : ℕ) → low ≤ n → n ≤ high → Leads (k n) s
  Leads (query q ps k) s = (rows : List Row) → Leads (k rows) (execute q (stored hundredths ps) s)
  Leads (modify q ps t) s = Leads t (execute q (stored hundredths ps) s)
  Leads (commit t) s = Leads t s
  Leads (rollback t) s = Leads t s
  Leads (suspend ms t) s = Leads t s

  pub Run-Leads :
      {t : Tx Row Real} {tr : List (Event Real)} {e : End} (s : Store)
      → Leads t s
      → Run t tr e
      → After P e (replay hundredths tr s)
  unfolding replay
  Run-Leads s l (at_finish {b = true}) = l
  Run-Leads s l (at_finish {b = false}) = tt
  Run-Leads s l at_stop = tt
  Run-Leads s l at_abort = tt
  Run-Leads s l at_raise = tt
  Run-Leads s l at_starved = tt
  Run-Leads s l (draw n lo hi r) = Run-Leads s (l n lo hi) r
  Run-Leads s l (answer {q} {ps} rows r) = Run-Leads (execute q (stored hundredths ps) s) (l rows) r
  Run-Leads s l query_throws = tt
  Run-Leads s l (modified {q} {ps} r) = Run-Leads (execute q (stored hundredths ps) s) l r
  Run-Leads s l modify_throws = tt
  Run-Leads s l (commits_then r) = Run-Leads s l r
  Run-Leads s l commit_throws = tt
  Run-Leads s l (rolls_back_then r) = Run-Leads s l r
  Run-Leads s l rollback_throws = tt
  Run-Leads s l (wakes r) = Run-Leads s l r

  need-Leads {ℓ} :
      {A : Type ℓ} (o : Option A) (k : A → Tx Row Real) (s : Store)
      → ((a : A) → Leads (k a) s)
      → Leads (need o k) s
  need-Leads none k s h = tt
  need-Leads (some a) k s h = h a

  first_row-Leads :
      (rows : List Row) (missing : Tx Row Real) (k : Row → Tx Row Real) (s : Store)
      → Leads missing s
      → ((row : Row) → Leads (k row) s)
      → Leads (first_row rows missing k) s
  first_row-Leads [] missing k s m h = m
  first_row-Leads (row ∷ rows) missing k s m h = h row

  if-Leads :
      (b : Bool) (t u : Tx Row Real) (s : Store)
      → Leads t s
      → Leads u s
      → Leads (if b then t else u) s
  if-Leads true t u s a b = a
  if-Leads false t u s a b = b

  random_other_warehouse-Leads :
      (fuel count home : ℕ) (k : ℕ → Tx Row Real) (s : Store)
      → ((n : ℕ) → Leads (k n) s)
      → Leads (random_other_warehouse fuel count home k) s
  unfolding random_other_warehouse
  random_other_warehouse-Leads zero count home k s h = tt
  random_other_warehouse-Leads (suc fuel) count home k s h = λ id _ _.
      if-Leads (id == home && ltb 1 count) _ _ s
        (random_other_warehouse-Leads fuel count home k s h) (h id)

module _ (F : Driver) (hundredths : F.Real → ℕ) (P : Store → Type 0) where
  open F use {Row, Real, get_string}

  pick_customer-Leads :
      (warehouse district : ℕ) (k : Customer F → Tx Row Real) (s : Store)
      → ((c : Customer F) → Leads hundredths P (k c) s)
      → Leads hundredths P (pick_customer F warehouse district true k) s
  unfolding pick_customer random_last_name random_customer_id get_customer_by_id
      get_customers_by_last_name execute
  pick_customer-Leads warehouse district k s h = λ percent _ _.
      if-Leads hundredths P (leb percent 60) _ _ s
        (λ d1 _ _ d2 _ _ rows.
          need-Leads hundredths P (select_customer F rows) _ s (elim [ none ↦ tt | some c ↦ h c ]))
        (λ d1 _ _ d2 _ _ rows.
          first_row-Leads hundredths P rows _ _ s tt
            λ row. need-Leads hundredths P (parse_customer F row) _ s λ c. h _)

  update_customer-Leads :
      (w d cw cd : ℕ) (amount : Real) (c : Customer F) (k : Tx Row Real) (s : Store)
      → ((customers : List S.Customer) → Leads hundredths P k (record s { customers = customers }))
      → Leads hundredths P (update_customer F w d cw cd amount c k) s
  unfolding update_customer execute
  update_customer-Leads w d cw cd amount c k s h =
      if-Leads hundredths P (is_bad_credit c.c_credit) _ _ s
        (λ rows.
          first_row-Leads hundredths P rows _ _ s (h _)
            λ row. need-Leads hundredths P (get_string row "c_data") _ s λ old. h _)
        (h _)

any_customers :
    (s : Store) (cs : List S.Customer) → Balanced s → Balanced (record s { customers = cs })
any_customers s cs b = record {
  districts_add_up = b.districts_add_up;
  history_adds_up = b.history_adds_up;
  district_history_adds_up = b.district_history_adds_up;
}

-- Payment on tables with one row for each district of its warehouse: after a result of true the
-- year-to-date amounts are the sums of the history again, if they were before.
module _ (F : Driver) (hundredths : F.Real → ℕ) where
  open F use {Row, Real, get_string}

  payment-Leads :
      (fuel warehouse count : ℕ) (s : Store)
      → ((d : ℕ) → 1 ≤ d → d ≤ 10 → copies warehouse d s.districts ≡ 1)
      → Balanced s
      → Leads hundredths Balanced (payment_task F fuel warehouse count) s
  unfolding payment_task execute
  payment-Leads fuel warehouse count s once b = λ d lo hi n _ _ rows.
      first_row-Leads hundredths Balanced rows _ _ s tt λ row.
        need-Leads hundredths Balanced (get_string row "w_name") _ s λ wn rows'.
          first_row-Leads hundredths Balanced rows' _ _ _ tt λ row'.
            need-Leads hundredths Balanced (get_string row' "d_name") _ _ λ dn home _ _.
              if-Leads hundredths Balanced (leb home 85) _ _ _
                (pick_customer-Leads F hundredths Balanced warehouse d _ _ λ c.
                  update_customer-Leads F hundredths Balanced _ _ _ _ _ c _ _ λ cs.
                    any_customers _ cs
                      (paid-Balanced s _ warehouse d _ refl refl refl (once d lo hi) b))
                λ cd _ _.
                  random_other_warehouse-Leads hundredths Balanced fuel count warehouse _ _ λ cw.
                    pick_customer-Leads F hundredths Balanced cw cd _ _ λ c.
                      update_customer-Leads F hundredths Balanced _ _ _ _ _ c _ _ λ cs.
                        any_customers _ cs
                          (paid-Balanced s _ warehouse d _ refl refl refl (once d lo hi) b)

  pub payment_keeps_books :
      (fuel warehouse count : ℕ) (s : Store) {tr : List (Event Real)}
      → ((d : ℕ) → 1 ≤ d → d ≤ 10 → copies warehouse d s.districts ≡ 1)
      → Balanced s
      → Run (payment_task F fuel warehouse count) tr (returned true)
      → Balanced (replay hundredths tr s)
  payment_keeps_books fuel warehouse count s once b r =
      Run-Leads hundredths Balanced s (payment-Leads fuel warehouse count s once b) r
