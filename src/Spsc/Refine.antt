-- ===== src/Spsc/Refine.antt =====
-- A valid queue behaves as the bounded FIFO of the items between `Tail` and `Head`, whatever its
-- caches hold and wherever its counters stand.
use native.Mathlib.Nat.{mod-lt, pow-suc}
use tpcc_oceanbase_cpp.Common.{
  zero, ◌+◌, ◌-◌, ◌%◌, ◌≤◌, ◌<◌, ◌≡◌, Bool, Option, refl, sym, ap, ap₂, suc, ℕ, set, get_or, ◌∙◌,
  inl, inr, true, List, [], ◌∷◌, ◌++◌, some, arith, ◌==◌, length, length-append, length-replicate,
  length-take, replicate, take, bit_and, ◌^◌, ◌*◌, ◌⊎◌, dec_le, if◌then◌else◌, Bool-cases,
}
use tpcc_oceanbase_cpp.Common.Word.{add64, sub64, u64_mod}
use tpcc_oceanbase_cpp.Spsc.Capacity.{IsCapacity, slot_lem, slot-add64, capacity-le, bit_ceil_lem}
use tpcc_oceanbase_cpp.Spsc.Window.{window, window-set, window_nonempty, length-window}
use tpcc_oceanbase_cpp.Spsc.Inv.{
  IsValid, try_push_cases, try_pop_cases, store-IsValid, load-IsValid,
}
use tpcc_oceanbase_cpp.Spsc.Fifo.{
  Op, push, pop, ask_size, Reply, pushed, popped, sized, fifo_push, fifo_pop, fifo_run,
  fifo_push_full, fifo_push_room,
}
use tpcc_oceanbase_cpp.Spsc.{
  Spsc, size, empty, store, try_push, load, try_pop, vector_resize, resize, bit_ceil,
}

module _ {ℓ} {A : Type ℓ} (d : A) where
  -- The queued items, oldest first.
  abbrev pub contents : Spsc A → List A
  contents q = window d q.queue q.capacity (q.tail % q.capacity) (sub64 q.head q.tail)

  pub length-contents : (q : Spsc A) → length (contents q) ≡ size q
  unfolding size
  length-contents q = length-window d q.queue q.capacity (q.tail % q.capacity) (sub64 q.head q.tail)

  pub empty-contents : (q : Spsc A) → empty q ≡ (length (contents q) == 0)
  unfolding empty
  empty-contents q = ap (λ (n : ℕ). n == 0) (sym (length-contents q))

  contents-store :
      (q : Spsc A) (x : A)
      → IsValid q
      → size q < q.capacity
      → contents (store q x) ≡ contents q ++ x ∷ []
  unfolding store size
  contents-store q x v h = ap (window d buf cap h₀) count ∙ wrote
    where
      cap : ℕ
      cap = q.capacity

      h₀ : ℕ
      h₀ = q.tail % q.capacity

      n : ℕ
      n = sub64 q.head q.tail

      buf : List A
      buf = set q.queue (bit_and q.head q.capacity_mask) x

      count : sub64 (add64 q.head 1) q.tail ≡ suc n
      count = omega (arith, capacity-le v.shape)

      back : q.head ≡ (q.tail + n) % u64_mod
      back = omega arith

      slot : bit_and q.head q.capacity_mask ≡ (h₀ + n) % cap
      slot =
          slot_lem cap q.capacity_mask q.head v.shape (omega arith) v.mask
          ∙ ap (λ (t : ℕ). t % cap) back
          ∙ slot-add64 cap q.tail n v.shape (omega arith)

      wrote : window d buf cap h₀ (suc n) ≡ contents q ++ x ∷ []
      wrote =
          window-set d q.queue cap x n h₀ (bit_and q.head q.capacity_mask) (omega arith)
            (mod-lt q.tail (omega arith)) h slot

  contents-load :
      (q : Spsc A)
      → IsValid q
      → 0 < size q
      → (0 < q.capacity)
      → let (out, q') = load d q in (y : A) × (out ≡ some y) × (contents q ≡ y ∷ contents q')
  unfolding load size
  contents-load q v h p =
      (get_or q.queue (bit_and q.tail q.capacity_mask) d, refl, first ∙ ap₂ ◌∷◌ here rest)
    where
      n : ℕ
      n = sub64 q.head q.tail

      first :
          contents q
          ≡ get_or q.queue (q.tail % q.capacity) d
            ∷ window d q.queue q.capacity ((q.tail % q.capacity + 1) % q.capacity) (n - 1)
      first = window_nonempty d q.queue q.capacity (q.tail % q.capacity) n h

      here :
          get_or q.queue (q.tail % q.capacity) d ≡ get_or q.queue (bit_and q.tail q.capacity_mask) d
      here =
          ap (λ t. get_or q.queue t d)
            (sym (slot_lem q.capacity q.capacity_mask q.tail v.shape p v.mask))

      rest :
          window d q.queue q.capacity ((q.tail % q.capacity + 1) % q.capacity) (n - 1)
          ≡ contents (record q { tail = add64 q.tail 1 })
      rest =
          ap₂ (window d q.queue q.capacity) (sym (slot-add64 q.capacity q.tail 1 v.shape p))
            (omega arith)

  capacity-store : (q : Spsc A) (x : A) → (store q x).capacity ≡ q.capacity
  unfolding store
  capacity-store q x = refl

  capacity-load : (q : Spsc A) → (load d q).1.capacity ≡ q.capacity
  unfolding load
  capacity-load q = refl

  -- `TryPush` answers as the FIFO does and leaves the queue holding the FIFO's items.
  pub try_push_refines :
      (q : Spsc A) (x : A)
      → IsValid q
      → let (done, q') = try_push q x in
        ((done, contents q') ≡ fifo_push q.capacity (contents q) x)
        × IsValid q'
        × (q'.capacity ≡ q.capacity)
  unfolding size
  try_push_refines q x v = elim (try_push_cases q v x) [
    | inl (full, e, v') ↦
        rw e (sym (fifo_push_full q.capacity (contents q) x (length-contents q ∙ full)), v', refl)
    | inr (c, (e, room, v', h)) ↦
        let p : Spsc A = record q { cached_tail = c } in
        rw e (
          ap (λ ys. (true, ys)) (contents-store p x v' room)
              ∙ sym (fifo_push_room q.capacity (contents q) x (omega (arith, length-contents q))),
          store-IsValid p x v' h,
          capacity-store p x,
        )
  ]

  contents_empty : (q : Spsc A) → size q ≡ 0 → contents q ≡ []
  unfolding size
  contents_empty q e = ap (window d q.queue q.capacity (q.tail % q.capacity)) e

  -- `TryPop` answers as the FIFO does and leaves the queue holding the FIFO's items.
  pub try_pop_refines :
      (q : Spsc A)
      → IsValid q
      → let (out, q') = try_pop d q in
        ((out, contents q') ≡ fifo_pop (contents q)) × IsValid q' × (q'.capacity ≡ q.capacity)
  unfolding fifo_pop size
  try_pop_refines q v = elim (try_pop_cases q v d) [
    | inl (none_left, e, v', empty', cap) ↦ (
      ap₂ (λ o xs. (o, xs)) e (contents_empty (try_pop d q).1 empty')
          ∙ sym (ap fifo_pop (contents_empty q none_left)),
      v',
      cap,
    )
    | inr (c, (e, some_left, v', pos, h)) ↦
        let p : Spsc A = record q { cached_head = c } in
        let (y, out, rest) = contents-load p v' some_left pos in
        rw e (
          ap (λ o. (o, contents (load d p).1)) out ∙ sym (ap fifo_pop rest),
          load-IsValid p v' d pos h,
          capacity-load p,
        )
  ]

  -- The answers of the queue to a client's calls in order.
  unfoldable pub run : Spsc A → List (Op A) → List (Reply A)
  run q [] = []
  run q (push x ∷ ops) = let (done, q') = try_push q x in pushed done ∷ run q' ops
  run q (pop ∷ ops) = let (out, q') = try_pop d q in popped out ∷ run q' ops
  run q (ask_size ∷ ops) = sized (size q) ∷ run q ops

  -- No sequence of calls tells a valid queue from the bounded FIFO of its contents.
  pub run_refines :
      (ops : List (Op A)) (q : Spsc A)
      → IsValid q
      → run q ops ≡ fifo_run q.capacity (contents q) ops
  unfolding run fifo_run
  run_refines [] q v = refl
  run_refines (push x ∷ ops) q v =
      let (e, v', cap) = try_push_refines q x v in
      ap (λ r. pushed (try_push q x).0 ∷ r)
        (run_refines ops (try_push q x).1 v'
          ∙ ap (λ (c : ℕ). fifo_run c (contents (try_push q x).1) ops) cap)
      ∙ ap (λ (p : Bool × List A). pushed p.0 ∷ fifo_run q.capacity p.1 ops) e
  run_refines (pop ∷ ops) q v =
      let (e, v', cap) = try_pop_refines q v in
      ap (λ r. popped (try_pop d q).0 ∷ r)
        (run_refines ops (try_pop d q).1 v'
          ∙ ap (λ (c : ℕ). fifo_run c (contents (try_pop d q).1) ops) cap)
      ∙ ap (λ (p : Option A × List A). popped p.0 ∷ fifo_run q.capacity p.1 ops) e
  run_refines (ask_size ∷ ops) q v =
      ap₂ (λ n r. sized n ∷ r) (sym (length-contents q)) (run_refines ops q v)

  length-vector_resize : (xs : List A) (n : ℕ) → length (vector_resize d xs n) ≡ n
  unfolding vector_resize
  length-vector_resize xs n = omega (
    arith,
    length-append (take n xs) (replicate (n - length xs) d),
    length-take n xs,
    length-replicate (n - length xs) d,
  )

  -- What `Resize` makes of a request: no slot, or the least power of two that is enough.
  abbrev pub Rounded : ℕ → ℕ → Type 0
  Rounded n cap = IsCapacity cap × (n ≤ cap) × (((n ≡ 0) × (cap ≡ 0)) ⊎ (cap < 2 * n))

  rounded : (n : ℕ) → n ≤ 2 ^ 63 → Rounded n (if n == 0 then 0 else bit_ceil n)
  rounded n h = elim (Bool-cases (n == 0)) [
    | inl z ↦ rw z (inl refl, ground arith, inl (ground arith, refl))
    | inr pos ↦
        let (k, le, e, up, least) = bit_ceil_lem n h in
        rw pos (inr (k, le, e), omega arith, inr (omega (arith, tight n k (ground arith) least)))
  ]
    where
      tight : (n k : ℕ) → 0 < n → ((i : ℕ) → n ≤ 2 ^ i → k ≤ i) → 2 ^ k < 2 * n
      tight n zero p least = omega arith
      tight n (suc j) p least = elim (dec_le n (2 ^ j)) [
        | yes le ↦ absurd (omega (arith, least j le))
        | no gt ↦ omega (arith, pow-suc 2 j)
      ]

  -- `Resize` empties the queue. Its capacity is zero for a request of zero, and otherwise the power of
  -- two that is at least the request and below twice the request.
  pub resize-IsValid :
      (q : Spsc A) (n : ℕ)
      → n ≤ 2 ^ 63
      → let q' = resize d q n in IsValid q' × (contents q' ≡ []) × Rounded n q'.capacity
  unfolding resize
  resize-IsValid q n h = (
    record {
      shape = (rounded n h).0;
      mask = ground arith;
      stored = length-vector_resize q.queue (resize d q n).capacity;
      head_lt = omega arith;
      tail_lt = omega arith;
      cached_tail_lt = omega arith;
      cached_head_lt = omega arith;
      bounded = omega arith;
      tail_lag = omega arith;
      cached_bounded = omega arith;
      head_lag = omega arith;
    },
    refl,
    rounded n h,
  )
