-- ===== src/Spsc/Inv.antt =====
-- The representation invariant of the queue: counters that may have wrapped, stale caches, and
-- storage of a power-of-two size.
use tpcc_oceanbase_cpp.Common.{
  ℕ, ◌-◌, ◌≤◌, ◌<◌, ◌≡◌, refl, ◌∙◌, ◌⊎◌, inl, inr, true, false, none, arith, ◌==◌, Bool-cases,
  length, length-set, bit_and,
}
use tpcc_oceanbase_cpp.Common.Word.{sub64, u64_mod}
use tpcc_oceanbase_cpp.Spsc.Capacity.{IsCapacity, capacity-le}
use tpcc_oceanbase_cpp.Spsc.{Spsc, new, size, store, try_push, load, try_pop}

pub record IsValid {ℓ} {A : Type ℓ} (q : Spsc A) : Type ℓ where
  pub shape : IsCapacity q.capacity
  pub mask : q.capacity_mask ≡ q.capacity - 1
  pub stored : length q.queue ≡ q.capacity
  pub head_lt : q.head < u64_mod
  pub tail_lt : q.tail < u64_mod
  pub cached_tail_lt : q.cached_tail < u64_mod
  pub cached_head_lt : q.cached_head < u64_mod
  pub bounded : sub64 q.head q.tail ≤ q.capacity
  -- `CachedTail` lags behind `Tail`, and `CachedHead` behind `Head`.
  pub tail_lag : sub64 q.head q.tail ≤ sub64 q.head q.cached_tail
  pub cached_bounded : sub64 q.head q.cached_tail ≤ q.capacity
  pub head_lag : sub64 q.cached_head q.tail ≤ sub64 q.head q.tail

module _ {ℓ} {A : Type ℓ} where
  pub new-IsValid : IsValid (new {A = A})
  unfolding new
  new-IsValid = record {
    shape = inl refl;
    mask = refl;
    stored = refl;
    head_lt = omega arith;
    tail_lt = omega arith;
    cached_tail_lt = omega arith;
    cached_head_lt = omega arith;
    bounded = omega arith;
    tail_lag = omega arith;
    cached_bounded = omega arith;
    head_lag = omega arith;
  }

  pub store-IsValid :
      (q : Spsc A) (x : A)
      → IsValid q
      → sub64 q.head q.cached_tail < q.capacity
      → IsValid (store q x)
  unfolding store
  store-IsValid q x v h = record {
    shape = v.shape;
    mask = v.mask;
    stored = length-set q.queue (bit_and q.head q.capacity_mask) x ∙ v.stored;
    head_lt = omega arith;
    tail_lt = v.tail_lt;
    cached_tail_lt = v.cached_tail_lt;
    cached_head_lt = v.cached_head_lt;
    bounded = omega (arith, capacity-le v.shape);
    tail_lag = omega (arith, capacity-le v.shape);
    cached_bounded = omega (arith, capacity-le v.shape);
    head_lag = omega (arith, capacity-le v.shape);
  }

-- The queue after the producer has read `Tail`, and after the consumer has read `Head`.
abbrev pub refresh_tail {ℓ} : {A : Type ℓ} → Spsc A → Spsc A
refresh_tail q = record q { cached_tail = q.tail }

abbrev pub refresh_head {ℓ} : {A : Type ℓ} → Spsc A → Spsc A
refresh_head q = record q { cached_head = q.head }

module _ {ℓ} {A : Type ℓ} (q : Spsc A) (v : IsValid q) where
  refresh_tail-IsValid : IsValid (refresh_tail q)
  refresh_tail-IsValid = record {
    shape = v.shape;
    mask = v.mask;
    stored = v.stored;
    head_lt = v.head_lt;
    tail_lt = v.tail_lt;
    cached_tail_lt = v.tail_lt;
    cached_head_lt = v.cached_head_lt;
    bounded = v.bounded;
    tail_lag = omega arith;
    cached_bounded = v.bounded;
    head_lag = v.head_lag;
  }

  refresh_head-IsValid : IsValid (refresh_head q)
  refresh_head-IsValid = record {
    shape = v.shape;
    mask = v.mask;
    stored = v.stored;
    head_lt = v.head_lt;
    tail_lt = v.tail_lt;
    cached_tail_lt = v.cached_tail_lt;
    cached_head_lt = v.head_lt;
    bounded = v.bounded;
    tail_lag = v.tail_lag;
    cached_bounded = v.cached_bounded;
    head_lag = omega arith;
  }

  -- A push fails on a full queue only. Otherwise it stores, perhaps after a look at `Tail`.
  pub try_push_cases :
      (x : A)
      → ((size q ≡ q.capacity)
          × (try_push q x ≡ (false, refresh_tail q))
          × IsValid (refresh_tail q))
        ⊎ ((c : ℕ) × (let p : Spsc A = record q { cached_tail = c } in
              (try_push q x ≡ (true, store p x))
              × (size q < q.capacity)
              × IsValid p
              × (sub64 q.head c < q.capacity)))
  unfolding try_push size
  try_push_cases x = elim (Bool-cases (sub64 q.head q.cached_tail == q.capacity)) [
    | inr room ↦ inr (q.cached_tail, (rw room, ground arith, v, ground arith))
    | inl stale ↦ elim (Bool-cases (sub64 q.head q.tail == q.capacity)) [
      | inr room ↦
          inr (q.tail, (rw (stale, room), ground arith, refresh_tail-IsValid, ground arith))
      | inl full ↦ inl (ground arith, rw (stale, full), refresh_tail-IsValid)
    ]
  ]

  -- A pop fails on an empty queue only. Otherwise it loads, perhaps after a look at `Head`.
  pub try_pop_cases :
      (d : A)
      → ((size q ≡ 0)
          × ((try_pop d q).0 ≡ none)
          × IsValid (try_pop d q).1
          × (size (try_pop d q).1 ≡ 0)
          × ((try_pop d q).1.capacity ≡ q.capacity))
        ⊎ ((c : ℕ) × (let p : Spsc A = record q { cached_head = c } in
              (try_pop d q ≡ load d p)
              × (0 < size q)
              × IsValid p
              × (0 < q.capacity)
              × (0 < sub64 c q.tail)))
  unfolding try_pop size
  try_pop_cases d = elim (Bool-cases (q.capacity == 0)) [
    | inl zero_cap ↦ inl (ground arith, ground arith, rw zero_cap v, ground arith, ground arith)
    | inr pos_cap ↦ elim (Bool-cases (q.tail == q.cached_head)) [
      | inr room ↦
          inr (q.cached_head, (rw (pos_cap, room), ground arith, v, ground arith, ground arith))
      | inl stale ↦ elim (Bool-cases (q.tail == q.head)) [
        | inr room ↦ inr (
          q.head,
          (
            rw (pos_cap, stale, room),
            ground arith,
            refresh_head-IsValid,
            ground arith,
            ground arith,
          ),
        )
        | inl empty ↦ inl (
          ground arith,
          ground arith,
          rw (pos_cap, stale, empty) refresh_head-IsValid,
          ground arith,
          ground arith,
        )
      ]
    ]
  ]

  pub load-IsValid :
      (d : A) → 0 < q.capacity → 0 < sub64 q.cached_head q.tail → IsValid (load d q).1
  unfolding load
  load-IsValid d p h = record {
    shape = v.shape;
    mask = v.mask;
    stored = v.stored;
    head_lt = v.head_lt;
    tail_lt = omega arith;
    cached_tail_lt = v.cached_tail_lt;
    cached_head_lt = v.cached_head_lt;
    bounded = omega (arith, capacity-le v.shape);
    tail_lag = omega (arith, capacity-le v.shape);
    cached_bounded = omega (arith, capacity-le v.shape);
    head_lag = omega (arith, capacity-le v.shape);
  }
