-- ===== src/Histogram/Percentile.antt =====
-- `GetValueAtPercentile`.
use tpcc_oceanbase_cpp.Common.{
  ℕ, suc, ◌+◌, ◌≤◌, ◌<◌, ◌≡◌, ◌≢◌, ◌⊎◌, inl, inr, refl, ap, ◌∙◌, arith, Bool-cases, true, false,
  ◌||◌, List, [], ◌∷◌, ◌==◌, leb, length, take, dec_le,
}
use tpcc_oceanbase_cpp.Common.Word.{u64_mod, u64_max, add64}
use tpcc_oceanbase_cpp.Histogram.Inv.{IsValid, sum}
use tpcc_oceanbase_cpp.Histogram.{
  Histogram, ok, invalid_argument, Double, bucket_upper_bound, scan_buckets, target_count,
  value_at_percentile,
}

-- Bucket `n` is the first at which `target` values are counted, since the counts only grow.
pub record FirstReaching (bs : List ℕ) (target n : ℕ) : Type 0 where
  pub inside : n < length bs
  pub reached : target ≤ sum (take (suc n) bs)
  pub first : (n ≡ 0) ⊎ (sum (take n bs) < target)

scan_buckets_lem :
    (h : Histogram) (target i count : ℕ) (bs : List ℕ)
    → count + sum bs < u64_mod
    → target ≤ count + sum bs
    → bs ≢ []
    → (n : ℕ) × (scan_buckets h target i count bs ≡ bucket_upper_bound h (i + n))
      × (n < length bs)
      × (target ≤ count + sum (take (suc n) bs))
      × ((n ≡ 0) ⊎ (count + sum (take n bs) < target))
unfolding scan_buckets sum
scan_buckets_lem h target i count [] lt le ne = absurd (ne refl)
scan_buckets_lem h target i count (b ∷ bs) lt le ne =
    elim (Bool-cases (leb target (add64 count b))) [
      | inl hit ↦
          let z : i ≡ i + 0 = omega arith in
          (0, rw hit (ap (bucket_upper_bound h) z), omega arith, ground arith, inl refl)
      | inr miss ↦
          let below : add64 count b < target = ground arith in
          let (n, e, len, up, low) =
            scan_buckets_lem h target (i + 1) (add64 count b) bs (omega arith) (omega arith)
              (ne_of_sum bs (omega arith)) in
          let k : i + 1 + n ≡ i + suc n = omega arith in
          (
            suc n,
            rw miss (e ∙ ap (bucket_upper_bound h) k),
            omega arith,
            omega arith,
            inr (before bs below n low),
          )
    ]
  where
    ne_of_sum : (xs : List ℕ) → 0 < sum xs → xs ≢ []
    ne_of_sum [] p e = omega arith
    ne_of_sum (x ∷ xs) p e = cc

    before :
        (xs : List ℕ)
        → add64 count b < target
        → (n : ℕ) → (n ≡ 0) ⊎ (add64 count b + sum (take n xs) < target)
        → count + (b + sum (take n xs)) < target
    before xs below n (inl z) = let e = ap (λ (t : ℕ). sum (take t xs)) z in omega arith
    before xs below n (inr p) = omega arith

scan_buckets_past :
    (h : Histogram) (target i count : ℕ) (bs : List ℕ)
    → count + sum bs < u64_mod
    → count + sum bs < target
    → scan_buckets h target i count bs ≡ u64_max
unfolding scan_buckets sum
scan_buckets_past h target i count [] lt gt = refl
scan_buckets_past h target i count (b ∷ bs) lt gt = elim (Bool-cases (leb target (add64 count b))) [
  | inl hit ↦ absurd (ground arith)
  | inr miss ↦
      rw miss (scan_buckets_past h target (i + 1) (add64 count b) bs (omega arith) (omega arith))
]

module _ (F : Double) where
  open F use {D, zero_point, hundred, less}

  -- Out of the range 0 to 100 the percentile is refused, and an empty histogram answers 0.
  pub percentile_edges :
      (h : Histogram) (p : D)
      → (less p zero_point || less hundred p ≡ true → value_at_percentile F h p ≡ invalid_argument)
        × (less p zero_point || less hundred p ≡ false
            → h.total_count ≡ 0
            → value_at_percentile F h p ≡ ok 0)
  unfolding value_at_percentile
  percentile_edges h p = (λ bad. rw bad refl, λ good e. rw (good, e) refl)

  -- In range, on a valid histogram that holds fewer than 2^64 values and at least one, the answer is
  -- the upper bound of the first bucket at which the target number of values is counted, and the
  -- largest `uint64_t` if the target exceeds the number of values.
  pub percentile_lem :
      (h : Histogram) (p : D) (v : IsValid h)
      → less p zero_point || less hundred p ≡ false
      → 0 < sum h.buckets
      → sum h.buckets < u64_mod
      → let t = target_count F p h.total_count in
        ((n : ℕ) × (value_at_percentile F h p ≡ ok (bucket_upper_bound h n))
          × FirstReaching h.buckets t n)
        ⊎ ((sum h.buckets < t) × (value_at_percentile F h p ≡ ok u64_max))
  unfolding value_at_percentile
  percentile_lem h p v good pos small =
      let t = target_count F p h.total_count in
      elim (dec_le t (sum h.buckets)) [
        | yes le ↦
            let (n, e, len, up, low) =
              scan_buckets_lem h t 0 0 h.buckets (omega arith) (omega arith) filled in
            let z : 0 + n ≡ n = omega arith in
            inl (
              n,
              rw (good, counted) (ap ok (e ∙ ap (bucket_upper_bound h) z)),
              record { inside = len; reached = omega (arith, up); first = omega (arith, low) },
            )
        | no gt ↦ inr (
          omega arith,
          rw (good, counted)
              (ap ok (scan_buckets_past h t 0 0 h.buckets (omega arith) (omega arith))),
        )
      ]
    where
      counted : (h.total_count == 0) ≡ false
      counted = ground (arith, v.total)

      filled : h.buckets ≢ []
      filled e = omega (arith, ap length e, v.sized)
