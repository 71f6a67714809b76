-- ===== src/Histogram/Merge.antt =====
-- `Add` and `Sub`: merging the histograms of several threads, and taking one out again.
use tpcc_oceanbase_cpp.Common.{
  ℕ, zero, suc, ◌+◌, ◌-◌, ◌%◌, ◌<◌, ◌≡◌, refl, sym, ap, ap₂, ◌∙◌, arith, ltb, if◌then◌else◌,
  length-set, true, false, List, [], ◌∷◌, ◌++◌, length, All, get_or, set, replicate, max,
}
use tpcc_oceanbase_cpp.Common.Word.{u64_mod, add64, sub64}
use tpcc_oceanbase_cpp.Histogram.Inv.{IsValid, sum}
use tpcc_oceanbase_cpp.Histogram.Record.{recorded, record_value_lem}
use tpcc_oceanbase_cpp.Histogram.{
  Histogram, Outcome, ok, invalid_argument, ◌>>=◌, runtime_error, running, find_bucket,
  bucket_index, record_value, zip_buckets, same_layout, add, sub,
}

-- Two histograms of one layout: the same parameters and as many buckets.
pub record Matches (a b : Histogram) : Type 0 where
  pub hdr : a.hdr_till ≡ b.hdr_till
  pub limit : a.max_value ≡ b.max_value
  pub sized : length a.buckets ≡ length b.buckets

same_layout-Matches : (a b : Histogram) → Matches a b → same_layout a b ≡ true
unfolding same_layout
same_layout-Matches a b m = ground arith

length-zip : (f : ℕ → ℕ → ℕ) (xs ys : List ℕ) → length (zip_buckets f xs ys) ≡ length xs
unfolding zip_buckets
length-zip f [] ys = refl
length-zip f (x ∷ xs) [] = refl
length-zip f (x ∷ xs) (y ∷ ys) = ap suc (length-zip f xs ys)

zip-set :
    (xs ys : List ℕ) (i : ℕ)
    → length xs ≡ length ys
    → zip_buckets add64 xs (set ys i (add64 (get_or ys i 0) 1))
      ≡ set (zip_buckets add64 xs ys) i (add64 (get_or (zip_buckets add64 xs ys) i 0) 1)
unfolding zip_buckets
zip-set [] [] i e = refl
zip-set [] (y ∷ ys) i e = absurd (omega arith)
zip-set (x ∷ xs) [] i e = absurd (omega arith)
zip-set (x ∷ xs) (y ∷ ys) zero e = ap (λ (t : ℕ). t ∷ zip_buckets add64 xs ys) (omega arith)
zip-set (x ∷ xs) (y ∷ ys) (suc i) e = ap (λ t. add64 x y ∷ t) (zip-set xs ys i (omega arith))

zip-zero :
    (xs : List ℕ) → All (λ b. b < u64_mod) xs → zip_buckets add64 xs (replicate (length xs) 0) ≡ xs
unfolding zip_buckets
zip-zero [] a = refl
zip-zero (x ∷ xs) a = ap₂ ◌∷◌ (omega arith) (zip-zero xs a.1)

zip-sub-add :
    (xs ys : List ℕ)
    → All (λ b. b < u64_mod) xs
    → All (λ b. b < u64_mod) ys
    → zip_buckets sub64 (zip_buckets add64 xs ys) ys ≡ xs
unfolding zip_buckets
zip-sub-add [] ys a b = refl
zip-sub-add (x ∷ xs) [] a b = refl
zip-sub-add (x ∷ xs) (y ∷ ys) a b = ap₂ ◌∷◌ (omega arith) (zip-sub-add xs ys a.1 b.1)

-- The result of a merge that is not refused.
abbrev pub merged : Histogram → Histogram → Histogram
merged a b = record a {
  buckets = zip_buckets add64 a.buckets b.buckets;
  total_count = add64 a.total_count b.total_count;
  max_recorded = max a.max_recorded b.max_recorded;
}

pub add_ok : (a b : Histogram) → Matches a b → add a b ≡ ok (merged a b)
unfolding add
add_ok a b m = rw (same_layout-Matches a b m) refl

-- `Add` and `Sub` refuse histograms whose parameters differ, and change nothing then.
pub add_refuses :
    (a b : Histogram)
    → same_layout a b ≡ false
    → (add a b ≡ invalid_argument) × (sub a b ≡ invalid_argument)
unfolding add sub
add_refuses a b e = (rw e refl, rw e refl)

sub-merged :
    (a b : Histogram) (v : IsValid a) (w : IsValid b)
    → Matches a b
    → sub (merged a b) b ≡ ok (record a { max_recorded = max a.max_recorded b.max_recorded })
unfolding sub
sub-merged a b v w m =
    rw
      (same_layout-Matches (merged a b) b (record {
        hdr = m.hdr;
        limit = m.limit;
        sized = length-zip add64 a.buckets b.buckets ∙ m.sized;
      }))
      λ i. ok (record a {
        buckets = zip-sub-add a.buckets b.buckets v.counts w.counts i;
        total_count = total i;
        max_recorded = max a.max_recorded b.max_recorded;
      })
  where
    total : sub64 (add64 a.total_count b.total_count) b.total_count ≡ a.total_count
    total = omega (arith, v.total, w.total)

-- `Add`, and `Sub` of the same histogram from the result, on valid histograms of one layout: neither
-- throws, and every bucket and the total are as before, while the greatest value is that of both.
pub sub-add :
    (a b : Histogram) (v : IsValid a) (w : IsValid b)
    → Matches a b
    → (add a b >>= λ s. sub s b)
      ≡ ok (record a { max_recorded = max a.max_recorded b.max_recorded })
sub-add a b v w m = rw (add_ok a b m) (sub-merged a b v w m)

bucket_index_congr :
    (a b : Histogram) (value : ℕ) → Matches a b → bucket_index a value ≡ bucket_index b value
unfolding bucket_index
bucket_index_congr a b value m =
    ap₂ (λ (t n : ℕ). if ltb value t then value else find_bucket n (n - 1) value t t t) m.hdr
      m.sized

-- Recording into one of two histograms and merging is merging and recording.
pub merged-recorded :
    (a b : Histogram) (value : ℕ)
    → Matches a b
    → merged a (recorded b value) ≡ recorded (merged a b) value
merged-recorded a b value m =
    λ i. record a { buckets = buckets i; total_count = total i; max_recorded = highest i }
  where
    same : bucket_index (merged a b) value ≡ bucket_index b value
    same = bucket_index_congr (merged a b) b value (record {
      hdr = m.hdr;
      limit = m.limit;
      sized = length-zip add64 a.buckets b.buckets ∙ m.sized;
    })

    buckets : (merged a (recorded b value)).buckets ≡ (recorded (merged a b) value).buckets
    buckets =
        zip-set a.buckets b.buckets (bucket_index b value) m.sized
        ∙ ap
            (λ (i : ℕ).
              set (zip_buckets add64 a.buckets b.buckets) i
                (add64 (get_or (zip_buckets add64 a.buckets b.buckets) i 0) 1))
            (sym same)

    total : (merged a (recorded b value)).total_count ≡ (recorded (merged a b) value).total_count
    total = omega arith

    highest :
        (merged a (recorded b value)).max_recorded ≡ (recorded (merged a b) value).max_recorded
    highest = omega arith

sum-zip :
    (xs ys : List ℕ)
    → length xs ≡ length ys
    → sum (zip_buckets add64 xs ys) % u64_mod ≡ (sum xs + sum ys) % u64_mod
unfolding zip_buckets sum
sum-zip [] [] e = refl
sum-zip [] (y ∷ ys) e = absurd (omega arith)
sum-zip (x ∷ xs) [] e = absurd (omega arith)
sum-zip (x ∷ xs) (y ∷ ys) e = omega (arith, sum-zip xs ys (omega arith))

All-zip :
    (xs ys : List ℕ) → All (λ b. b < u64_mod) xs → All (λ b. b < u64_mod) (zip_buckets add64 xs ys)
unfolding zip_buckets
All-zip [] ys a = tt
All-zip (x ∷ xs) [] a = a
All-zip (x ∷ xs) (y ∷ ys) a = (omega arith, All-zip xs ys a.1)

pub merged-IsValid : (a b : Histogram) → IsValid a → IsValid b → Matches a b → IsValid (merged a b)
merged-IsValid a b v w m = record {
  hdr_pos = v.hdr_pos;
  fits = v.fits;
  small = v.small;
  ranges = v.ranges;
  sized = length-zip add64 a.buckets b.buckets ∙ v.sized;
  below = v.below;
  above = v.above;
  counts = All-zip a.buckets b.buckets v.counts;
  total = omega (arith, v.total, w.total, sum-zip a.buckets b.buckets m.sized);
}

-- All values of a list, in order.
pub record_all : Histogram → List ℕ → Outcome Histogram
record_all h [] = ok h
record_all h (x ∷ xs) = record_value h x >>= λ h'. record_all h' xs

record_all-merged :
    (a h : Histogram) (ys : List ℕ)
    → IsValid a
    → IsValid h
    → Matches a h
    → (b : Histogram) × (record_all h ys ≡ ok b)
      × IsValid b
      × Matches a b
      × (record_all (merged a h) ys ≡ ok (merged a b))
unfolding record_all
record_all-merged a h [] v w m = (h, refl, w, m, refl)
record_all-merged a h (y ∷ ys) v w m =
    let (e, w', _) = record_value_lem h w y in
    let (f, _, _) = record_value_lem (merged a h) (merged-IsValid a h v w m) y in
    let (b, g, wb, mb, r) =
      record_all-merged a (recorded h y) ys v w' (record {
        hdr = m.hdr;
        limit = m.limit;
        sized = m.sized ∙ sym (length-set h.buckets _ _);
      }) in
    (b, rw e g, wb, mb, rw (f, ← merged-recorded a h y m) r)

append_after :
    (r : Outcome Histogram) (xs ys : List ℕ)
    → ((h : Histogram) → record_all h (xs ++ ys) ≡ (record_all h xs >>= λ h'. record_all h' ys))
    → (r >>= λ h'. record_all h' (xs ++ ys))
      ≡ ((r >>= λ h'. record_all h' xs) >>= λ h'. record_all h' ys)
append_after (ok h) xs ys ih = ih h
append_after invalid_argument xs ys ih = refl
append_after runtime_error xs ys ih = refl
append_after running xs ys ih = refl

record_all-append :
    (h : Histogram) (xs ys : List ℕ)
    → record_all h (xs ++ ys) ≡ (record_all h xs >>= λ h'. record_all h' ys)
unfolding record_all
record_all-append h [] ys = refl
record_all-append h (x ∷ xs) ys =
    append_after (record_value h x) xs ys (λ h'. record_all-append h' xs ys)

merged_zero :
    (a e : Histogram)
    → IsValid a
    → Matches a e
    → e.total_count ≡ 0
    → e.max_recorded ≡ 0
    → e.buckets ≡ replicate (length e.buckets) 0
    → merged a e ≡ a
merged_zero a e v m t h z =
    λ i. record a { buckets = buckets i; total_count = total i; max_recorded = highest i }
  where
    buckets : zip_buckets add64 a.buckets e.buckets ≡ a.buckets
    buckets =
        ap (zip_buckets add64 a.buckets) (z ∙ ap (λ n. replicate n 0) (sym m.sized))
        ∙ zip-zero a.buckets v.counts

    total : add64 a.total_count e.total_count ≡ a.total_count
    total = omega (arith, v.total)

    highest : max a.max_recorded e.max_recorded ≡ a.max_recorded
    highest = omega arith

-- Merging loses nothing: two threads that record their values into histograms of their own, which
-- `Add` joins, leave what one thread leaves that records all of them.
pub add_is_record_all :
    (e : Histogram) (xs ys : List ℕ)
    → IsValid e
    → e.total_count ≡ 0
    → e.max_recorded ≡ 0
    → e.buckets ≡ replicate (length e.buckets) 0
    → (a : Histogram) × (b : Histogram) × (record_all e xs ≡ ok a)
      × (record_all e ys ≡ ok b)
      × (add a b ≡ record_all e (xs ++ ys))
add_is_record_all e xs ys v t h z =
    let self : Matches e e = record { hdr = refl; limit = refl; sized = refl } in
    let (a, f, va, ma, _) = record_all-merged e e xs v v self in
    let back : Matches a e = record {
      hdr = sym ma.hdr;
      limit = sym ma.limit;
      sized = sym ma.sized;
    } in
    let (b, g, _, mb, r) = record_all-merged a e ys va v back in
    (
      a,
      b,
      f,
      g,
      add_ok a b mb
          ∙ sym r
          ∙ ap (λ x. record_all x ys) (merged_zero a e va back t h z)
          ∙ sym (record_all-append e xs ys ∙ ap (λ o. o >>= λ x. record_all x ys) f),
    )
