-- ===== src/Check/Sync.antt =====
-- src/check.cpp, `CheckSync`: which checks it runs, and what it makes of their failures.
use tpcc_oceanbase_cpp.Common.{
  ℕ, ◌+◌, ◌<◌, ◌≡◌, ◌↔◌, refl, Bool, false, List, [], ◌∷◌, ◌++◌, ◌==◌, if◌then◌else◌, All, arith,
  ltb,
}
use tpcc_oceanbase_cpp.Store.{Store}
use tpcc_oceanbase_cpp.Check.{
  base_check_warehouse, base_check_district, base_check_customer, base_check_item, base_check_stock,
  base_check_oorder, base_check_new_order, base_check_order_line, base_check_history,
}
use tpcc_oceanbase_cpp.Check.Conditions.{
  check_3321, check_3322, check_3323, window_3324, window_3325, window_3326, window_3327,
  check_3328, check_3329, window_33210, window_33211, window_33212, in_windows, post_next_order_id,
  post_warehouse_ytd, post_district_ytd, post_no_carriers, post_no_delivery_dates,
}

-- `base_failed` and `failed` are the exceptions, with `failedCount`.
pub data Verdict : Type 0 where
  nothing_to_check : Verdict
  base_failed : ℕ → Verdict
  failed : ℕ → Verdict
  all_good : Verdict

unfoldable pub base_checks : ℕ → Bool → Store → List Bool
base_checks n after_import s =
    (base_check_warehouse n s
      ∷ base_check_district n s
      ∷ base_check_customer n s
      ∷ base_check_item s
      ∷ base_check_stock n s
      ∷ [])
    ++ (if after_import
        then base_check_oorder n s
          ∷ base_check_new_order n s
          ∷ base_check_order_line n s
          ∷ base_check_history n s
          ∷ []
        else [])

unfoldable pub consistency_checks : ℕ → Bool → Store → List Bool
consistency_checks n after_import s =
    (check_3321 s
      ∷ check_3322 s
      ∷ check_3323 s
      ∷ in_windows 50 n (window_3324 s)
      ∷ in_windows 50 n (window_3325 s)
      ∷ in_windows 50 n (window_3326 s)
      ∷ in_windows 10 n (window_3327 s)
      ∷ check_3328 s
      ∷ check_3329 s
      ∷ in_windows 10 n (window_33210 s)
      ∷ in_windows 10 n (window_33212 s)
      ∷ [])
    ++ (if after_import
        then in_windows 50 n (window_33211 s)
          ∷ post_next_order_id s
          ∷ post_warehouse_ytd s
          ∷ post_district_ytd s
          ∷ post_no_carriers s
          ∷ post_no_delivery_dates s
          ∷ []
        else [])

-- `failedCount` after the checks: one that fails does not keep the next from running.
unfoldable pub failures : List Bool → ℕ
failures [] = 0
failures (b ∷ bs) = (if b then 1 else 0) + failures bs

unfoldable pub check_sync : ℕ → Bool → Store → Verdict
unfolding base_checks consistency_checks failures
check_sync n after_import s =
    if n == 0
    then nothing_to_check
    else (let base = failures (base_checks n after_import s) in
        let more = failures (consistency_checks n after_import s) in
        if ltb 0 base then base_failed base else if more == 0 then all_good else failed more)

abbrev pub AllPass : List Bool → Type 0
AllPass = All (λ b. b ≡ false)

failures-pass : (bs : List Bool) → failures bs ≡ 0 → AllPass bs
unfolding failures
failures-pass [] e = tt
failures-pass (b ∷ bs) e = (ground arith, failures-pass bs (ground arith))

pass-failures : (bs : List Bool) → AllPass bs → failures bs ≡ 0
unfolding failures
pass-failures [] h = refl
pass-failures (b ∷ bs) (h, hs) = let ih = pass-failures bs hs in ground arith

verdict_good :
    (n base more : ℕ)
    → (if n == 0
        then nothing_to_check
        else (if ltb 0 base then base_failed base else if more == 0 then all_good else failed more))
      ≡ all_good
    → (0 < n) × (base ≡ 0) × (more ≡ 0)
verdict_good n base more e = ground arith

good_verdict :
    (n base more : ℕ)
    → 0 < n
    → base ≡ 0
    → more ≡ 0
    → (if n == 0
        then nothing_to_check
        else (if ltb 0 base then base_failed base else if more == 0 then all_good else failed more))
      ≡ all_good
good_verdict n base more p e f = ground arith

-- The verdict is good exactly when there is a warehouse and no check that `CheckSync` runs fails, the
-- checks of the other list included.
all_good_iff :
    (n : ℕ) (after_import : Bool) (s : Store)
    → (check_sync n after_import s ≡ all_good) ↔ (
        (0 < n)
        × AllPass (base_checks n after_import s)
        × AllPass (consistency_checks n after_import s))
unfolding check_sync
all_good_iff n after_import s =
    let base = failures (base_checks n after_import s) in
    let more = failures (consistency_checks n after_import s) in
    (
      λ e.
          let (p, b, m) = verdict_good n base more e in
          (
            p,
            failures-pass (base_checks n after_import s) b,
            failures-pass (consistency_checks n after_import s) m,
          ),
      λ (p, b, m).
          good_verdict n base more p (pass-failures (base_checks n after_import s) b)
            (pass-failures (consistency_checks n after_import s) m),
    )
