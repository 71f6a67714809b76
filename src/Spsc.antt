-- ===== src/Spsc.antt =====
-- src/spsc_circular_queue.h, the single-producer single-consumer queue `TSpscCircularQueue<T>`.
-- An atomic member is a number; a member function that stores returns the new queue. `A` is `T`
-- and `d` its value-initialised element `T{}`. All indices are `uint64_t` and wrap at 2^64.
pub mod Fifo
pub mod Capacity
pub mod Inv
pub mod Window
pub mod Refine
mod Tests
use tpcc_oceanbase_cpp.Common.{
  ℕ, zero, suc, ◌+◌, ◌-◌, ◌*◌, ◌≡◌, Bool, true, false, List, [], ◌∷◌, ◌++◌, Option, none, some,
  bit_and, ◌==◌, leb, if◌then◌else◌, length, get_or, set, take, replicate,
}
use tpcc_oceanbase_cpp.Common.Word.{add64, sub64}

-- `ProducerState` and `ConsumerState` are flattened into the record.
pub record Spsc {ℓ} (A : Type ℓ) : Type ℓ where
  pub queue : List A
  pub capacity : ℕ
  pub capacity_mask : ℕ
  pub head : ℕ
  pub cached_tail : ℕ
  pub tail : ℕ
  pub cached_head : ℕ

-- `std::bit_ceil`: the least power of two that is not below `n`, for `n` up to 2^63.
pub bit_ceil_from : ℕ → ℕ → ℕ → ℕ
bit_ceil_from zero p n = p
bit_ceil_from (suc fuel) p n =
    let rest = bit_ceil_from fuel (2 * p) n in if leb n p then p else rest

pub bit_ceil : ℕ → ℕ
unfolding bit_ceil_from
bit_ceil n = bit_ceil_from 63 1 n

module _ {ℓ} {A : Type ℓ} where
  -- The default constructor.
  pub new : Spsc A
  new = record {
    queue = [];
    capacity = 0;
    capacity_mask = 0;
    head = 0;
    cached_tail = 0;
    tail = 0;
    cached_head = 0;
  }

  pub size : Spsc A → ℕ
  size q = sub64 q.head q.tail

  pub empty : Spsc A → Bool
  unfolding size
  empty q = size q == 0

  pub is_full : Spsc A → Bool
  unfolding size
  is_full q = if q.capacity == 0 then false else size q == q.capacity

  -- The write to the slot and the release store of `Head`.
  pub store : Spsc A → A → Spsc A
  store q item = record q {
    queue = set q.queue (bit_and q.head q.capacity_mask) item;
    head = add64 q.head 1;
  }

  pub try_push : Spsc A → A → Bool × Spsc A
  unfolding store
  try_push q item =
      if sub64 q.head q.cached_tail == q.capacity
      then (let q' : Spsc A = record q { cached_tail = q.tail } in
          if sub64 q'.head q'.cached_tail == q'.capacity
          then (false, q')
          else (true, store q' item))
      else (true, store q item)

module _ {ℓ} {A : Type ℓ} (d : A) where
  -- `std::vector::resize`.
  pub vector_resize : List A → ℕ → List A
  vector_resize xs n = take n xs ++ replicate (n - length xs) d

  pub resize : Spsc A → ℕ → Spsc A
  unfolding vector_resize
  resize q capacity =
      let cap : ℕ = if capacity == 0 then 0 else bit_ceil capacity in
      record {
        queue = vector_resize q.queue cap;
        capacity = cap;
        capacity_mask = if cap == 0 then 0 else cap - 1;
        head = 0;
        cached_tail = 0;
        tail = 0;
        cached_head = 0;
      }

  -- The slot that is moved from keeps its value here; it is written before it is read again.
  pub load : Spsc A → Option A × Spsc A
  load q =
      (some (get_or q.queue (bit_and q.tail q.capacity_mask) d), record q { tail = add64 q.tail 1 })

  -- `none` is the result `false`, on which `item` is left alone.
  pub try_pop : Spsc A → Option A × Spsc A
  unfolding load
  try_pop q =
      if q.capacity == 0
      then (none, q)
      else (if q.tail == q.cached_head
          then (let q' : Spsc A = record q { cached_head = q.head } in
              if q'.tail == q'.cached_head then (none, q') else load q')
          else load q)
