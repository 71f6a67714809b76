-- ===== src/Check/Passes.antt =====
-- src/check.cpp and src/transaction_payment.cpp: the checks of the year-to-date amounts (3.3.2.1, 3.3.2.8
-- and 3.3.2.9) after payments.
use tpcc_oceanbase_cpp.Common.{
  ℕ, ◌≤◌, ◌≡◌, refl, Bool, true, false, not, ◌&&◌, List, [], ◌∷◌, ◌==◌, All, arith,
}
use tpcc_oceanbase_cpp.Tx.{Driver}
use tpcc_oceanbase_cpp.Tx.Run.{Event, Run, returned}
use tpcc_oceanbase_cpp.Tx.Payment.{payment_task}
use tpcc_oceanbase_cpp.Store.{Warehouse, District, Store, replay}
use tpcc_oceanbase_cpp.Store.Books.{Balanced, copies}
use tpcc_oceanbase_cpp.Store.Payment.{payment_keeps_books}
use tpcc_oceanbase_cpp.Check.{any}
use tpcc_oceanbase_cpp.Check.Conditions.{check_3321, check_3328, check_3329}

-- A query for rows that differ finds none where all rows agree.
none_differ :
    {A : Type 0} (joined : A → Bool) (f g : A → ℕ) (xs : List A)
    → All (λ x. f x ≡ g x) xs
    → any (λ x. joined x && not (f x == g x)) xs ≡ false
none_differ joined f g [] h = refl
none_differ joined f g (x ∷ xs) (h, hs) = let ih = none_differ joined f g xs hs in ground arith

pub Balanced-passes :
    (s : Store)
    → Balanced s
    → (check_3321 s ≡ false) × (check_3328 s ≡ false) × (check_3329 s ≡ false)
unfolding check_3321 check_3328 check_3329
Balanced-passes s b = (
  none_differ _ (λ (r : Warehouse). r.w_ytd) _ s.warehouses b.districts_add_up,
  none_differ _ (λ (r : Warehouse). r.w_ytd) _ s.warehouses b.history_adds_up,
  none_differ _ (λ (r : District). r.d_ytd) _ s.districts b.district_history_adds_up,
)

-- Payment on tables with exactly one row for each district of its warehouse, and with the amounts of
-- warehouses, districts and history in balance: after a result of true they are in balance again, and
-- conditions 3.3.2.1, 3.3.2.8 and 3.3.2.9 of the checker hold, whatever was drawn and answered.
pub payment_passes :
    (F : Driver) (hundredths : F.Real → ℕ) (fuel warehouse count : ℕ) (s : Store)
    {tr : List (Event F.Real)}
    → ((d : ℕ) → 1 ≤ d → d ≤ 10 → copies warehouse d s.districts ≡ 1)
    → Balanced s
    → Run (payment_task F fuel warehouse count) tr (returned true)
    → let t = replay hundredths tr s in
      Balanced t × (check_3321 t ≡ false) × (check_3328 t ≡ false) × (check_3329 t ≡ false)
payment_passes F hundredths fuel warehouse count s {tr} once b r =
    let kept = payment_keeps_books F hundredths fuel warehouse count s once b r in
    let (a, b, c) = Balanced-passes (replay hundredths tr s) kept in (kept, a, b, c)
