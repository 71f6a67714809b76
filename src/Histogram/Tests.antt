-- ===== src/Histogram/Tests.antt =====
-- The histogram's theorems at concrete histograms, and runs of the model.
use tpcc_oceanbase_cpp.Common.{
  ℕ, ◌+◌, ◌-◌, ◌*◌, ◌/◌, ◌≤◌, ◌<◌, ◌≡◌, refl, ◌⊎◌, ltb, [], ◌∷◌, arith, length, replicate,
}
use tpcc_oceanbase_cpp.Common.Word.{u64_max}
use tpcc_oceanbase_cpp.Histogram.Layout.{bound}
use tpcc_oceanbase_cpp.Histogram.Inv.{IsValid, sum, new_lem, new_diverges}
use tpcc_oceanbase_cpp.Histogram.Record.{
  InBucket, Reports, recorded, record_value_lem, upper_bound_accuracy,
}
use tpcc_oceanbase_cpp.Histogram.Merge.{Matches, sub-add, record_all, add_is_record_all}
use tpcc_oceanbase_cpp.Histogram.Percentile.{FirstReaching, percentile_lem}
use tpcc_oceanbase_cpp.Histogram.{
  Histogram, ok, ◌>>=◌, running, Double, new, bucket_index, bucket_upper_bound, record_value, add,
  sub, target_count, value_at_percentile,
}

-- Parameters 4 and 10: four unit buckets, one range of 4 to 7, and the rest.
abbrev fresh : Histogram
fresh = record {
  hdr_till = 4;
  max_value = 10;
  buckets = 0 ∷ 0 ∷ 0 ∷ 0 ∷ 0 ∷ 0 ∷ [];
  total_count = 0;
  max_recorded = 0;
}

abbrev used : Histogram
used = record {
  hdr_till = 4;
  max_value = 10;
  buckets = 0 ∷ 2 ∷ 0 ∷ 0 ∷ 1 ∷ 1 ∷ [];
  total_count = 4;
  max_recorded = 30;
}

fresh-IsValid : IsValid fresh
unfolding bound sum
fresh-IsValid = record {
  hdr_pos = omega arith;
  fits = omega arith;
  small = omega arith;
  ranges = 1;
  sized = refl;
  below = omega arith;
  above = omega arith;
  counts = omega arith;
  total = refl;
}

used-IsValid : IsValid used
unfolding bound sum
used-IsValid = record {
  hdr_pos = omega arith;
  fits = omega arith;
  small = omega arith;
  ranges = 1;
  sized = refl;
  below = omega arith;
  above = omega arith;
  counts = omega arith;
  total = refl;
}

used_layout : Matches used fresh
used_layout = record { hdr = refl; limit = refl; sized = refl }

used_indices : (bucket_index used 3 ≡ 3) × (bucket_index used 7 ≡ 4) × (bucket_index used 8 ≡ 5)
unfolding bucket_index
used_indices = (refl, refl, refl)

used_bounds : (bucket_upper_bound used 3 ≡ 4) × (bucket_upper_bound used 4 ≡ 8)
unfolding bucket_upper_bound
used_bounds = (refl, refl)

-- Whole numbers in place of `double`, and a division that rounds up.
abbrev whole : Double
whole = record {
  D = ℕ;
  zero_point = 0;
  hundred = 100;
  less = ltb;
  of_u64 = λ n. n;
  times = λ a b. a * b;
  divided = λ a b. (a + (b - 1)) / b;
  ceil_u64 = λ n. n;
}

new_lem_example :
    (h : Histogram) × (new 64 4 10 ≡ ok h)
    × IsValid h
    × (h.hdr_till ≡ 4)
    × (h.max_value ≡ 10)
    × (h.total_count ≡ 0)
    × (h.max_recorded ≡ 0)
    × (h.buckets ≡ replicate (length h.buckets) 0)
new_lem_example = new_lem 64 4 10 (omega arith) (omega arith) (omega arith) (omega arith)

new_diverges_example : new 1000 1 u64_max ≡ running
new_diverges_example = new_diverges 1000 1 (omega arith) (omega arith)

record_value_lem_example :
    (record_value used 7 ≡ ok (recorded used 7))
    × IsValid (recorded used 7)
    × InBucket 4 1 (bucket_index used 7) 7
unfolding used-IsValid
record_value_lem_example = record_value_lem used used-IsValid 7

upper_bound_accuracy_example :
    let upper = bucket_upper_bound used (bucket_index used 7) in
    (7 ≤ upper) × Reports 4 1 30 7 upper
unfolding used-IsValid
upper_bound_accuracy_example = upper_bound_accuracy used used-IsValid 7 (omega arith)

sub-add_example : (add used fresh >>= λ s. sub s fresh) ≡ ok used
sub-add_example = sub-add used fresh used-IsValid fresh-IsValid used_layout

add_is_record_all_example :
    (a : Histogram) × (b : Histogram) × (record_all fresh (1 ∷ 5 ∷ []) ≡ ok a)
    × (record_all fresh (30 ∷ []) ≡ ok b)
    × (add a b ≡ record_all fresh (1 ∷ 5 ∷ 30 ∷ []))
add_is_record_all_example =
    add_is_record_all fresh (1 ∷ 5 ∷ []) (30 ∷ []) fresh-IsValid refl refl refl

percentile_lem_example :
    let t = target_count whole 50 4 in
    ((n : ℕ) × (value_at_percentile whole used 50 ≡ ok (bucket_upper_bound used n))
      × FirstReaching used.buckets t n)
    ⊎ ((sum used.buckets < t) × (value_at_percentile whole used 50 ≡ ok u64_max))
unfolding sum
percentile_lem_example = percentile_lem whole used 50 used-IsValid refl (omega arith) (omega arith)
