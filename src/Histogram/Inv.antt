-- ===== src/Histogram/Inv.antt =====
-- The invariant of a histogram, and the constructor that establishes it.
use tpcc_oceanbase_cpp.Common.{
  ℕ, zero, suc, ◌+◌, ◌%◌, ◌^◌, ◌≤◌, ◌<◌, ◌≡◌, ◌⊎◌, ◌↔◌, refl, sym, ap, ◌∙◌, arith, true, false,
  List, [], ◌∷◌, length, All, replicate, length-replicate,
}
use tpcc_oceanbase_cpp.Common.Word.{u64_mod, u64_max, mul64}
use tpcc_oceanbase_cpp.Histogram.Layout.{
  bound, bound-zero, bound-suc, count_ranges_lem, count_ranges_diverges,
}
use tpcc_oceanbase_cpp.Histogram.{
  Histogram, ok, invalid_argument, running, exponential_bucket_count, total_buckets, bad_parameters,
  new, reset,
}

unfoldable pub sum : List ℕ → ℕ
sum [] = 0
sum (x ∷ xs) = x + sum xs

pub record IsValid (h : Histogram) : Type 0 where
  pub hdr_pos : 0 < h.hdr_till
  pub fits : h.hdr_till ≤ h.max_value
  pub small : h.max_value < 2 ^ 63
  -- The number of doubling ranges.
  pub ranges : ℕ
  pub sized : length h.buckets ≡ h.hdr_till + ranges + 1
  pub below : bound h.hdr_till ranges ≤ h.max_value
  pub above : h.max_value < bound h.hdr_till (suc ranges)
  pub counts : All (λ b. b < u64_mod) h.buckets
  pub total : h.total_count ≡ sum h.buckets % u64_mod

pub sum-replicate : (n : ℕ) → sum (replicate n 0) ≡ 0
unfolding sum
sum-replicate zero = refl
sum-replicate (suc n) = omega (arith, sum-replicate n)

pub All-replicate : (n : ℕ) → All (λ b. b < u64_mod) (replicate n 0)
All-replicate zero = tt
All-replicate (suc n) = (omega arith, All-replicate n)

total_buckets_lem :
    (fuel hdr m : ℕ)
    → 64 ≤ fuel
    → 0 < hdr
    → hdr ≤ m
    → m < 2 ^ 63
    → (c : ℕ) × (total_buckets fuel hdr m ≡ ok (hdr + c + 1))
      × (bound hdr c ≤ m)
      × (m < bound hdr (suc c))
unfolding total_buckets exponential_bucket_count
total_buckets_lem fuel hdr m f p le small =
    let b0 = bound-zero hdr in
    let b1 = bound-suc hdr 0 in
    let (c, e, lo, hi) =
      count_ranges_lem fuel hdr (mul64 hdr 2) m 0 p small (omega arith) (omega arith)
        (omega arith) in
    (c, rw e refl, lo, hi)

total_buckets_running : (fuel hdr : ℕ) → hdr ≤ u64_max → total_buckets fuel hdr u64_max ≡ running
unfolding total_buckets exponential_bucket_count
total_buckets_running fuel hdr h =
    rw (count_ranges_diverges fuel (mul64 hdr 2) 0 (omega arith)) refl

good_parameters : (hdr m : ℕ) → 0 < hdr → hdr ≤ m → bad_parameters hdr m ≡ false
unfolding bad_parameters
good_parameters hdr m p le = ground arith

bad_parameters_iff :
    (hdr m : ℕ) → (bad_parameters hdr m ≡ true) ↔ ((hdr ≡ 0) ⊎ ((m ≡ 0) ⊎ (m < hdr)))
unfolding bad_parameters
bad_parameters_iff hdr m = ground arith

-- With parameters below 2^63 that the checks pass, 64 rounds build an empty valid histogram.
pub new_lem :
    (fuel hdr m : ℕ)
    → 64 ≤ fuel
    → 0 < hdr
    → hdr ≤ m
    → m < 2 ^ 63
    → (h : Histogram) × (new fuel hdr m ≡ ok h)
      × IsValid h
      × (h.hdr_till ≡ hdr)
      × (h.max_value ≡ m)
      × (h.total_count ≡ 0)
      × (h.max_recorded ≡ 0)
      × (h.buckets ≡ replicate (length h.buckets) 0)
unfolding new
new_lem fuel hdr m f p le small =
    let (c, e, lo, hi) = total_buckets_lem fuel hdr m f p le small in
    (
      record {
        hdr_till = hdr;
        max_value = m;
        buckets = replicate (hdr + c + 1) 0;
        total_count = 0;
        max_recorded = 0;
      },
      rw (good_parameters hdr m p le, e) refl,
      record {
        hdr_pos = p;
        fits = le;
        small = small;
        ranges = c;
        sized = length-replicate (hdr + c + 1) 0;
        below = lo;
        above = hi;
        counts = All-replicate (hdr + c + 1);
        total = omega (arith, sum-replicate (hdr + c + 1));
      },
      refl,
      refl,
      refl,
      refl,
      ap (λ n. replicate n 0) (sym (length-replicate (hdr + c + 1) 0)),
    )

-- The constructor refuses the parameters that break `0 < hdrTill ≤ maxValue`, whatever the fuel.
pub new_refuses :
    (fuel hdr m : ℕ) → ((hdr ≡ 0) ⊎ ((m ≡ 0) ⊎ (m < hdr))) → new fuel hdr m ≡ invalid_argument
unfolding new
new_refuses fuel hdr m h = rw ((bad_parameters_iff hdr m).1 h) refl

-- With the largest `uint64_t` as the maximum the constructor never returns.
pub new_diverges : (fuel hdr : ℕ) → 0 < hdr → hdr ≤ u64_max → new fuel hdr u64_max ≡ running
unfolding new
new_diverges fuel hdr p le =
    rw (good_parameters hdr u64_max p le, total_buckets_running fuel hdr le) refl

pub reset-IsValid : (h : Histogram) → IsValid h → IsValid (reset h)
unfolding reset
reset-IsValid h v = record {
  hdr_pos = v.hdr_pos;
  fits = v.fits;
  small = v.small;
  ranges = v.ranges;
  sized = length-replicate (length h.buckets) 0 ∙ v.sized;
  below = v.below;
  above = v.above;
  counts = All-replicate (length h.buckets);
  total = omega (arith, sum-replicate (length h.buckets));
}
