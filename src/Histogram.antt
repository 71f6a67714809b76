-- ===== src/Histogram.antt =====
-- src/histogram.h and src/histogram.cpp, the class `THistogram`.
-- Counters and bounds are `uint64_t` and wrap at 2^64. A member function that writes returns the
-- new histogram, an exception is an error of `Outcome`, and a loop that may not end takes fuel.
pub mod Layout
pub mod Inv
pub mod Record
pub mod Merge
pub mod Percentile
mod Tests
use tpcc_oceanbase_cpp.Common.{
  ℕ, zero, suc, ◌+◌, ◌-◌, ◌≡◌, Bool, true, false, ◌&&◌, ◌||◌, not, List, [], ◌∷◌, ◌==◌, ltb, leb,
  if◌then◌else◌, length, get_or, set, replicate, max,
}
use tpcc_oceanbase_cpp.Common.Word.{add64, sub64, mul64, u64_max}

pub record Histogram : Type 0 where
  pub hdr_till : ℕ
  pub max_value : ℕ
  pub buckets : List ℕ
  pub total_count : ℕ
  pub max_recorded : ℕ

-- `invalid_argument` and `runtime_error` are the exceptions; `running` is a loop out of fuel.
pub data Outcome {ℓ} (A : Type ℓ) : Type ℓ where
  ok : A → Outcome A
  invalid_argument : Outcome A
  runtime_error : Outcome A
  running : Outcome A

infixl 5 ◌>>=◌
abbrev pub ◌>>=◌ {ℓ κ} : {A : Type ℓ} {B : Type κ} → Outcome A → (A → Outcome B) → Outcome B
ok a >>= f = f a
invalid_argument >>= f = invalid_argument
runtime_error >>= f = runtime_error
running >>= f = running

-- The loop of `GetExponentialBucketCount`.
pub count_ranges : ℕ → ℕ → ℕ → ℕ → Outcome ℕ
count_ranges zero range max_value count = running
count_ranges (suc fuel) range max_value count =
    let rest = count_ranges fuel (mul64 range 2) max_value (count + 1) in
    if leb range max_value then rest else ok count

pub exponential_bucket_count : ℕ → ℕ → ℕ → Outcome ℕ
exponential_bucket_count fuel hdr_till max_value = count_ranges fuel (mul64 hdr_till 2) max_value 0

pub total_buckets : ℕ → ℕ → ℕ → Outcome ℕ
total_buckets fuel hdr_till max_value =
    exponential_bucket_count fuel hdr_till max_value >>= λ count. ok (hdr_till + count + 1)

pub bad_parameters : ℕ → ℕ → Bool
bad_parameters hdr_till max_value = hdr_till == 0 || (max_value == 0 || ltb max_value hdr_till)

-- The constructor.
pub new : ℕ → ℕ → ℕ → Outcome Histogram
new fuel hdr_till max_value =
    if bad_parameters hdr_till max_value
    then invalid_argument
    else (total_buckets fuel hdr_till max_value >>= λ n. ok (record {
      hdr_till = hdr_till;
      max_value = max_value;
      buckets = replicate n 0;
      total_count = 0;
      max_recorded = 0;
    }))

-- The loop of `GetBucketIndex`; `last` is `Buckets_.size() - 1`, and the fuel is the rounds left.
pub find_bucket : ℕ → ℕ → ℕ → ℕ → ℕ → ℕ → ℕ
find_bucket zero last value start size index = last
find_bucket (suc rounds) last value start size index =
    let next = find_bucket rounds last value (add64 start size) (mul64 size 2) (index + 1) in
    if ltb index last then (if ltb value (add64 start size) then index else next) else last

pub bucket_index : Histogram → ℕ → ℕ
unfolding find_bucket
bucket_index h value =
    if ltb value h.hdr_till
    then value
    else find_bucket (length h.buckets) (length h.buckets - 1) value h.hdr_till h.hdr_till
        h.hdr_till

-- The loop of `GetBucketUpperBound`, which runs `bucketIndex - HdrTill_` rounds.
pub grow_bound : ℕ → ℕ → ℕ → ℕ
grow_bound zero start size = add64 start size
grow_bound (suc rounds) start size = grow_bound rounds (add64 start size) (mul64 size 2)

pub bucket_upper_bound : Histogram → ℕ → ℕ
unfolding grow_bound
bucket_upper_bound h index =
    if ltb index h.hdr_till
    then index + 1
    else (if index == length h.buckets - 1
        then (if ltb 0 h.max_recorded then h.max_recorded else u64_max)
        else grow_bound (index - h.hdr_till) h.hdr_till h.hdr_till)

pub record_value : Histogram → ℕ → Outcome Histogram
record_value h value =
    let index = bucket_index h value in
    if leb (length h.buckets) index
    then runtime_error
    else ok (record h {
      buckets = set h.buckets index (add64 (get_or h.buckets index 0) 1);
      total_count = add64 h.total_count 1;
      max_recorded = max h.max_recorded value;
    })

-- The loops of `Add` and `Sub`, over the indices that both vectors have.
pub zip_buckets : (ℕ → ℕ → ℕ) → List ℕ → List ℕ → List ℕ
zip_buckets f [] ys = []
zip_buckets f (x ∷ xs) [] = x ∷ xs
zip_buckets f (x ∷ xs) (y ∷ ys) = f x y ∷ zip_buckets f xs ys

pub same_layout : Histogram → Histogram → Bool
same_layout a b = a.hdr_till == b.hdr_till && a.max_value == b.max_value

pub add : Histogram → Histogram → Outcome Histogram
unfolding zip_buckets same_layout
add h other =
    if not (same_layout h other)
    then invalid_argument
    else ok (record h {
      buckets = zip_buckets add64 h.buckets other.buckets;
      total_count = add64 h.total_count other.total_count;
      max_recorded = max h.max_recorded other.max_recorded;
    })

pub sub : Histogram → Histogram → Outcome Histogram
unfolding zip_buckets same_layout
sub h other =
    if not (same_layout h other)
    then invalid_argument
    else ok (record h {
      buckets = zip_buckets sub64 h.buckets other.buckets;
      total_count = sub64 h.total_count other.total_count;
    })

pub reset : Histogram → Histogram
reset h = record h { buckets = replicate (length h.buckets) 0; total_count = 0; max_recorded = 0 }

-- What the percentile needs of `double`: its literals, comparison and arithmetic.
pub record Double : Type 1 where
  pub D : Type 0
  pub zero_point : D
  pub hundred : D
  pub less : D → D → Bool
  pub of_u64 : ℕ → D
  pub times : D → D → D
  pub divided : D → D → D
  pub ceil_u64 : D → ℕ

-- The loop of `GetValueAtPercentile`, at bucket `i` with `count` values counted.
pub scan_buckets : Histogram → ℕ → ℕ → ℕ → List ℕ → ℕ
scan_buckets h target i count [] = u64_max
scan_buckets h target i count (b ∷ bs) =
    let rest = scan_buckets h target (i + 1) (add64 count b) bs in
    if leb target (add64 count b) then bucket_upper_bound h i else rest

module _ (F : Double) where
  open F use {D, zero_point, hundred, less, of_u64, times, divided, ceil_u64}

  pub target_count : D → ℕ → ℕ
  target_count percentile total = ceil_u64 (divided (times percentile (of_u64 total)) hundred)

  pub value_at_percentile : Histogram → D → Outcome ℕ
  unfolding scan_buckets target_count
  value_at_percentile h percentile =
      if less percentile zero_point || less hundred percentile
      then invalid_argument
      else (if h.total_count == 0
          then ok 0
          else ok (scan_buckets h (target_count percentile h.total_count) 0 0 h.buckets))
