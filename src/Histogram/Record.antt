-- ===== src/Histogram/Record.antt =====
-- `RecordValue`, `GetBucketIndex` and `GetBucketUpperBound`.
use tpcc_oceanbase_cpp.Common.{
  ℕ, zero, suc, ◌+◌, ◌-◌, ◌*◌, ◌≤◌, ◌<◌, ◌≡◌, ◌⊎◌, inl, inr, refl, sym, ap, ◌∙◌, subst, arith,
  Bool-cases, List, [], ◌∷◌, ltb, ◌==◌, length, All, get_or, set, length-set, max,
}
use tpcc_oceanbase_cpp.Common.Word.{u64_mod, add64}
use tpcc_oceanbase_cpp.Histogram.Layout.{
  bound, bound-zero, bound-suc, bound_mono, bound_pos, find_bucket_lem, grow_bound_lem,
}
use tpcc_oceanbase_cpp.Histogram.Inv.{IsValid, sum}
use tpcc_oceanbase_cpp.Histogram.{Histogram, ok, bucket_index, bucket_upper_bound, record_value}

-- Bucket `i` of a histogram with `c` doubling ranges holds the value.
abbrev pub InBucket : ℕ → ℕ → ℕ → ℕ → Type 0
InBucket hdr c i value =
    ((i < hdr) × (value ≡ i))
    ⊎ ((k : ℕ) × (i ≡ hdr + k)
        × (k ≤ c)
        × (bound hdr k ≤ value)
        × ((k ≡ c) ⊎ (value < bound hdr (suc k))))

open_range :
    (i hdr c value : ℕ)
    → (k : ℕ) × (i ≡ hdr + k)
      × (k ≤ c)
      × (bound hdr k ≤ value)
      × (k < c → value < bound hdr (suc k))
    → (k : ℕ) × (i ≡ hdr + k)
      × (k ≤ c)
      × (bound hdr k ≤ value)
      × ((k ≡ c) ⊎ (value < bound hdr (suc k)))
open_range i hdr c value (k, e, le, lo, hi) = elim (Bool-cases (ltb k c)) [
  | inl inner ↦ (k, e, le, lo, inr (hi (ground arith)))
  | inr last ↦ (k, e, le, lo, inl (ground arith))
]

pub bucket_index_lem :
    (h : Histogram) (v : IsValid h) (value : ℕ)
    → InBucket h.hdr_till v.ranges (bucket_index h value) value
unfolding bucket_index
bucket_index_lem h v value = elim (Bool-cases (ltb value h.hdr_till)) [
  | inl low ↦ rw low (inl (ground arith, refl))
  | inr high ↦
      let b0 = bound-zero h.hdr_till in
      let b1 = bound-suc h.hdr_till v.ranges in
      let last : length h.buckets - 1 ≡ h.hdr_till + v.ranges = omega (arith, v.sized) in
      rw (high, last)
        (inr (
          open_range _ h.hdr_till v.ranges value (
            find_bucket_lem (length h.buckets) h.hdr_till v.ranges value h.hdr_till h.hdr_till 0
              (omega (arith, v.small, v.below)) (omega arith) (omega arith) (omega arith)
              (omega (arith, v.sized)) (ground arith))))
]

bucket_index-lt :
    (h : Histogram) (v : IsValid h) (value : ℕ) → bucket_index h value < length h.buckets
bucket_index-lt h v value = elim (bucket_index_lem h v value) [
  | inl (low, e) ↦ omega (arith, v.sized)
  | inr (k, e, le, lo, hi) ↦ omega (arith, v.sized)
]

-- The upper bound that is reported for each bucket but the last.
unit_upper : (h : Histogram) (i : ℕ) → i < h.hdr_till → bucket_upper_bound h i ≡ i + 1
unfolding bucket_upper_bound
unit_upper h i p = ground arith

range_upper :
    (h : Histogram) (v : IsValid h) (k : ℕ)
    → k < v.ranges
    → bucket_upper_bound h (h.hdr_till + k) ≡ bound h.hdr_till (suc k)
unfolding bucket_upper_bound
range_upper h v k p = elim (Bool-cases (ltb (h.hdr_till + k) h.hdr_till)) [
  | inl low ↦ absurd (ground arith)
  | inr high ↦ elim (Bool-cases (h.hdr_till + k == length h.buckets - 1)) [
    | inl last ↦ absurd (ground (arith, v.sized))
    | inr inner ↦
        let rounds : h.hdr_till + k - h.hdr_till ≡ k = omega arith in
        let z : suc (k + 0) ≡ suc k = omega arith in
        let top = bound_mono h.hdr_till (suc (k + 0)) v.ranges (omega arith) in
        rw (high, inner, rounds)
          (grow_bound_lem k h.hdr_till h.hdr_till 0 (omega (arith, v.small, v.below))
              (sym (bound-zero h.hdr_till))
            ∙ ap (bound h.hdr_till) z)
  ]
]

last_upper :
    (h : Histogram) (v : IsValid h)
    → 0 < h.max_recorded
    → bucket_upper_bound h (h.hdr_till + v.ranges) ≡ h.max_recorded
unfolding bucket_upper_bound
last_upper h v p = ground (arith, v.sized)

sum-set :
    (xs : List ℕ) (i : ℕ) → i < length xs → (t : ℕ) → sum (set xs i t) + get_or xs i 0 ≡ sum xs + t
unfolding sum
sum-set [] i p t = absurd (omega arith)
sum-set (x ∷ xs) zero p t = omega arith
sum-set (x ∷ xs) (suc i) p t = omega (arith, sum-set xs i (omega arith) t)

All-set :
    (xs : List ℕ) (i t : ℕ)
    → t < u64_mod
    → All (λ b. b < u64_mod) xs
    → All (λ b. b < u64_mod) (set xs i t)
All-set [] i t p a = tt
All-set (x ∷ xs) zero t p a = (p, a.1)
All-set (x ∷ xs) (suc i) t p a = (a.0, All-set xs i t p a.1)

-- The histogram that a successful `RecordValue` leaves.
abbrev pub recorded : Histogram → ℕ → Histogram
recorded h value = record h {
  buckets =
      set h.buckets (bucket_index h value) (add64 (get_or h.buckets (bucket_index h value) 0) 1);
  total_count = add64 h.total_count 1;
  max_recorded = max h.max_recorded value;
}

pub record_value_ok :
    (h : Histogram) (v : IsValid h) (value : ℕ) → record_value h value ≡ ok (recorded h value)
unfolding record_value
record_value_ok h v value = ground (arith, bucket_index-lt h v value)

pub recorded-IsValid : (h : Histogram) (v : IsValid h) (value : ℕ) → IsValid (recorded h value)
recorded-IsValid h v value =
    let i = bucket_index h value in
    let n = get_or h.buckets i 0 in
    record {
      hdr_pos = v.hdr_pos;
      fits = v.fits;
      small = v.small;
      ranges = v.ranges;
      sized = length-set h.buckets i (add64 n 1) ∙ v.sized;
      below = v.below;
      above = v.above;
      counts = All-set h.buckets i (add64 n 1) (omega arith) v.counts;
      total = omega (arith, v.total, sum-set h.buckets i (bucket_index-lt h v value) (add64 n 1));
    }

-- `RecordValue` never meets its internal error: it adds one (mod 2^64) to the bucket that holds the
-- value and to the total, and keeps the invariant.
pub record_value_lem :
    (h : Histogram) (v : IsValid h) (value : ℕ)
    → (record_value h value ≡ ok (recorded h value))
      × IsValid (recorded h value)
      × InBucket h.hdr_till v.ranges (bucket_index h value) value
record_value_lem h v value =
    (record_value_ok h v value, recorded-IsValid h v value, bucket_index_lem h v value)

-- What is reported as the upper bound for a value: the next integer below `hdr`, the end of the value's
-- doubling range in the `c` ranges above, and `highest` behind them.
abbrev pub Reports : ℕ → ℕ → ℕ → ℕ → ℕ → Type 0
Reports hdr c highest value upper =
    ((value < hdr) × (upper ≡ value + 1))
    ⊎ (((k : ℕ) × (k < c)
          × (bound hdr k ≤ value)
          × (value < bound hdr (suc k))
          × (upper ≡ bound hdr (suc k))
          × (upper ≤ 2 * value))
        ⊎ ((bound hdr c ≤ value) × (upper ≡ highest)))

-- The bound that is reported for the bucket of a value up to the greatest recorded one is not below the
-- value. It is the next integer if the value is below the linear limit, the end of the value's doubling
-- range, at most twice the value, if it is in one of the ranges above, and the greatest recorded value if
-- it is behind the last range.
pub upper_bound_accuracy :
    (h : Histogram) (v : IsValid h) (value : ℕ)
    → value ≤ h.max_recorded
    → let upper = bucket_upper_bound h (bucket_index h value) in
      (value ≤ upper) × Reports h.hdr_till v.ranges h.max_recorded value upper
upper_bound_accuracy h v value seen = elim (bucket_index_lem h v value) [
  | inl (low, e) ↦
      let u = unit_upper h (bucket_index h value) low in
      (omega arith, inl (omega arith, omega arith))
  | inr (k, e, le, lo, hi) ↦ elim (Bool-cases (ltb k v.ranges)) [
    | inl inner ↦
        let p : k < v.ranges = ground arith in
        let u = ap (bucket_upper_bound h) e ∙ range_upper h v k p in
        let top : value < bound h.hdr_till (suc k) = omega arith in
        let twice : bucket_upper_bound h (bucket_index h value) ≤ 2 * value =
          omega (arith, bound-suc h.hdr_till k) in
        (omega arith, inr (inl (k, p, lo, top, u, twice)))
    | inr last ↦
        let same : k ≡ v.ranges = ground arith in
        let pos = bound_pos h.hdr_till k v.hdr_pos in
        let behind = subst (λ r. bound h.hdr_till r ≤ value) same lo in
        let u =
          ap (bucket_upper_bound h) (e ∙ ap (λ (t : ℕ). h.hdr_till + t) same)
          ∙ last_upper h v (omega arith) in
        (omega arith, inr (inr (behind, u)))
  ]
]
