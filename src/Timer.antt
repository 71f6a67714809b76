-- ===== src/Timer.antt =====
-- src/timer_queue.h, the timer wheel `TBinnedTimerQueue<T>`.
-- `V` is the payload `T`. A time point is the number of ticks after `TTimePoint::min()`, and
-- `TTimePoint::max()` is `time_max`. `std::sort` is a parameter with the laws that its documentation gives.
pub mod View
pub mod Order
pub mod Bounds
pub mod Chain
pub mod Search
pub mod Refine
pub mod Sorted
pub mod PriorityQueue
pub mod Deadline
pub mod Drain
pub mod InsertionSort
mod Tests
use tpcc_oceanbase_cpp.Common.{
  ℕ, zero, suc, ◌+◌, ◌-◌, ◌%◌, ◌^◌, ◌≤◌, Bool, true, false, List, [], ◌∷◌, ◌++◌, none, some, ltb,
  leb, ◌==◌, if◌then◌else◌, length, get_or, get_elem?, set, take, drop, replicate, min, max,
}
use mathlib.Core.List.{Perm}

abbrev pub time_max : ℕ
time_max = 2 ^ 64 - 1

pub record Item {ℓ} (V : Type ℓ) : Type ℓ where
  pub deadline : ℕ
  pub value : V

-- `TBucket`.
pub record Bucket {ℓ} (V : Type ℓ) : Type ℓ where
  pub items : List (Item V)
  pub min_deadline : ℕ
  pub max_deadline : ℕ
  pub is_sorted : Bool

-- `TBinnedTimerQueue`; `total` is `Size_`, and the cursor counts the items of the current bucket
-- that have been popped.
pub record Timer {ℓ} (V : Type ℓ) : Type ℓ where
  pub buckets : List (Bucket V)
  pub soft_limit : ℕ
  pub total : ℕ
  pub current : ℕ
  pub cursor : ℕ

-- `runtime_error` is the exception; `out_of_range` an access behind the end of a vector.
pub data Outcome {ℓ} (A : Type ℓ) : Type ℓ where
  ok : A → Outcome A
  runtime_error : Outcome A
  out_of_range : Outcome A

module _ {ℓ} {V : Type ℓ} where
  -- A sequence of items by rising deadline.
  abbrev pub Rising : List (Item V) → Type 0
  Rising [] = Unit {0}
  Rising (x ∷ []) = Unit {0}
  Rising (x ∷ y ∷ xs) = (x.deadline ≤ y.deadline) × Rising (y ∷ xs)

-- What `std::sort` promises: a permutation of its input, by rising deadline.
pub record Sorter {ℓ} (V : Type ℓ) : Type ℓ where
  pub sort : List (Item V) → List (Item V)
  pub sort_perm : (xs : List (Item V)) → Perm (sort xs) xs
  pub sort_rising : (xs : List (Item V)) → Rising (sort xs)

module _ {ℓ} {V : Type ℓ} where
  pub empty_bucket : Bucket V
  empty_bucket = record { items = []; min_deadline = time_max; max_deadline = 0; is_sorted = true }

  -- `Items.back().Deadline < deadline` is not the test: it is whether `deadline` is the smaller.
  pub back_after : List (Item V) → ℕ → Bool
  back_after [] deadline = false
  back_after (x ∷ []) deadline = ltb deadline x.deadline
  back_after (x ∷ y ∷ xs) deadline = back_after (y ∷ xs) deadline

  pub add_back : Bucket V → Item V → Bucket V
  unfolding back_after
  add_back b item = record {
    items = b.items ++ item ∷ [];
    min_deadline = min b.min_deadline item.deadline;
    max_deadline = max b.max_deadline item.deadline;
    is_sorted = if back_after b.items item.deadline then false else b.is_sorted;
  }

  -- `std::upper_bound` and `insert`: before the first item with a later deadline.
  pub insert_upper : Item V → List (Item V) → List (Item V)
  insert_upper item [] = item ∷ []
  insert_upper item (x ∷ xs) =
      if ltb item.deadline x.deadline then item ∷ x ∷ xs else x ∷ insert_upper item xs

  pub add_sorted : Bucket V → Item V → ℕ → Bucket V
  unfolding insert_upper
  add_sorted b item from = if leb b.max_deadline item.deadline then add_back b item else record b {
    items = take from b.items ++ insert_upper item (drop from b.items);
    min_deadline = min b.min_deadline item.deadline;
    max_deadline = max b.max_deadline item.deadline;
  }

  -- `Buckets[i]`; the indices are below the number of buckets, by the invariant.
  abbrev pub bucket_at : Timer V → ℕ → Bucket V
  bucket_at q i = get_or q.buckets i empty_bucket

  abbrev pub current_bucket : Timer V → Bucket V
  current_bucket q = bucket_at q q.current

  abbrev pub next_index : Timer V → ℕ → ℕ
  next_index q i = (i + 1) % length q.buckets

  -- The constructor's fields before its call of `Resize`.
  pub blank : Timer V
  blank = record { buckets = []; soft_limit = 0; total = 0; current = 0; cursor = 0 }

  pub resize_buckets : List (Bucket V) → ℕ → List (Bucket V)
  unfolding empty_bucket
  resize_buckets bs n = take n bs ++ replicate (n - length bs) empty_bucket

  pub resize : Timer V → ℕ → ℕ → Outcome (Timer V)
  unfolding resize_buckets
  resize q bucket_count soft_limit =
      if q.total == 0
      then ok (record q {
        buckets = resize_buckets q.buckets (max 2 bucket_count);
        soft_limit = max 1 soft_limit;
      })
      else runtime_error

  -- The loop of `ComputeBucket`, with `rounds` rounds left of `i = 0, …`.
  pub search_bucket : Timer V → ℕ → ℕ → ℕ → ℕ
  search_bucket q deadline zero i = (q.current + length q.buckets - 1) % length q.buckets
  search_bucket q deadline (suc rounds) i =
      let index = (i + q.current) % length q.buckets in
      let bucket = bucket_at q index in
      let next = search_bucket q deadline rounds (i + 1) in
      if leb deadline bucket.max_deadline
      then index
      else (if leb deadline (bucket_at q (next_index q index)).min_deadline
          then (if leb q.soft_limit (length bucket.items) then next_index q index else index)
          else next)

  pub compute_bucket : Timer V → ℕ → ℕ
  unfolding search_bucket
  compute_bucket q deadline = search_bucket q deadline (length q.buckets) 0

  -- `Add`, with `deadline = now + delay`.
  pub add : Timer V → ℕ → ℕ → V → Timer V
  unfolding add_back add_sorted
  add q now delay value =
      let item : Item V = record { deadline = now + delay; value = value } in
      let index = compute_bucket q (now + delay) in
      record q {
        buckets = set q.buckets index (
            if index == q.current
            then add_sorted (bucket_at q index) item q.cursor
            else add_back (bucket_at q index) item);
        total = q.total + 1;
      }

  -- `GetNextDeadline`.
  pub next_deadline : Timer V → Outcome ℕ
  next_deadline q =
      if q.total == 0 then ok time_max else elim (get_elem? (current_bucket q).items q.cursor) [
        | some item ↦ ok item.deadline
        | none ↦ elim (get_elem? (bucket_at q (next_index q q.current)).items 0) [
          | some item ↦ ok item.deadline
          | none ↦ out_of_range
        ]
      ]

  pub size : Timer V → ℕ
  size q = q.total

module _ {ℓ} {V : Type ℓ} (S : Sorter V) where
  pub sort_bucket : Bucket V → Bucket V
  sort_bucket b = if b.is_sorted then b else record b { items = S.sort b.items; is_sorted = true }

  -- `Advance`: the current bucket is cleared and the next one becomes current, sorted.
  pub advance : Timer V → Timer V
  unfolding sort_bucket empty_bucket
  advance q =
      let cleared = set q.buckets q.current empty_bucket in
      let next = next_index q q.current in
      record q {
        buckets = set cleared next (sort_bucket (get_or cleared next empty_bucket));
        current = next;
        cursor = 0;
      }

  -- `PopFront`, whose first guard and decrement are `--Size_`.
  pub pop_front : Timer V → Outcome (Item V × Timer V)
  unfolding advance
  pop_front q =
      if q.total == 0
      then runtime_error
      else (let p : Timer V = record q { total = q.total - 1 } in
          elim (get_elem? (current_bucket p).items p.cursor) [
            | some item ↦ ok (item, record p { cursor = p.cursor + 1 })
            | none ↦
                let a : Timer V = advance p in
                elim (get_elem? (current_bucket a).items a.cursor) [
                  | some item ↦ ok (item, record a { cursor = a.cursor + 1 })
                  | none ↦ runtime_error
                ]
          ])
