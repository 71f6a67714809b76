-- ===== src/TaskQueue/Inflight.antt =====
-- src/task_queue.cpp: the limit on the transactions in flight and the handles that wait for a slot.
use tpcc_oceanbase_cpp.Common.{
  ℕ, zero, suc, ◌+◌, ◌≤◌, ◌<◌, ◌≡◌, refl, ap, sym, ◌∙◌, subst, ◌⊎◌, inl, inr, Bool, true, false,
  not, ◌&&◌, List, [], ◌∷◌, ◌++◌, some, ◌==◌, leb, if◌then◌else◌, length, arith, append_assoc,
  append-nil, Bool-cases, length-append,
}
use tpcc_oceanbase_cpp.Spsc as Q
use tpcc_oceanbase_cpp.Spsc.{Spsc, try_push, try_pop}
use tpcc_oceanbase_cpp.Spsc.Inv.{IsValid}
use tpcc_oceanbase_cpp.Spsc.Fifo.{fifo_pop, fifo_push_room}
use tpcc_oceanbase_cpp.Spsc.Refine.{
  contents, length-contents, empty-contents, try_push_refines, try_pop_refines,
}
use tpcc_oceanbase_cpp.TaskQueue.{
  Context, Others, counter, fetch_add, fetch_sub, make_ready, take_waiting, inflight_loop,
  process_inflight,
}

-- The handles that are worth resuming.
abbrev pub live : (ℕ → Bool) → List ℕ → List ℕ
live finished [] = []
live finished (h ∷ hs) =
    if not (h == 0) && not (finished h) then h ∷ live finished hs else live finished hs

live-append : (f : ℕ → Bool) (xs ys : List ℕ) → live f (xs ++ ys) ≡ live f xs ++ live f ys
live-append f [] ys = refl
live-append f (x ∷ xs) ys = elim (Bool-cases (not (x == 0) && not (f x))) [
  | inl y ↦ rw y (ap (λ l. x ∷ l) (live-append f xs ys))
  | inr n ↦ rw n (live-append f xs ys)
]

-- The two queues are valid, hold the handles `w` and `r`, and the ready one has `cap` slots.
pub record Holds (c : Context) (w r : List ℕ) (cap : ℕ) : Type 0 where
  pub waiting_valid : IsValid c.waiting
  pub ready_valid : IsValid c.ready
  pub waiting_items : contents 0 c.waiting ≡ w
  pub ready_items : contents 0 c.ready ≡ r
  pub ready_capacity : c.ready.capacity ≡ cap

popped :
    (s : Spsc ℕ) (h : ℕ) (w : List ℕ)
    → IsValid s
    → contents 0 s ≡ h ∷ w
    → ((try_pop 0 s).0 ≡ some h) × (contents 0 (try_pop 0 s).1 ≡ w) × IsValid (try_pop 0 s).1
unfolding fifo_pop
popped s h w v e =
    let (f, v', _) = try_pop_refines 0 s v in
    let g = f ∙ ap fifo_pop e in (ap (λ p. p.0) g, ap (λ p. p.1) g, v')

pushed :
    (s : Spsc ℕ) (h : ℕ) (r : List ℕ) (cap : ℕ)
    → IsValid s
    → contents 0 s ≡ r
    → s.capacity ≡ cap
    → length r < cap
    → (contents 0 (try_push s h).1 ≡ r ++ h ∷ [])
      × IsValid (try_push s h).1
      × ((try_push s h).1.capacity ≡ cap)
pushed s h r cap v e c l =
    let (f, v', k) = try_push_refines 0 s h v in
    let g = f ∙ fifo_push_room s.capacity (contents 0 s) h (omega (arith, ap length e)) in
    (ap (λ p. p.1) g ∙ ap (λ l. l ++ h ∷ []) e, v', k ∙ c)

take_waiting-Holds :
    (f : ℕ → Bool) (c : Context) (h : ℕ) (w r : List ℕ) (cap : ℕ)
    → Holds c (h ∷ w) r cap
    → length r < cap
    → Holds (take_waiting f c) w (r ++ live f (h ∷ [])) cap
unfolding take_waiting make_ready
take_waiting-Holds f c h w r cap v l =
    let (out, rest, valid) = popped c.waiting h w v.waiting_valid v.waiting_items in
    subst (λ o. Holds (make_ready f c o (try_pop 0 c.waiting).1) w (r ++ live f (h ∷ [])) cap)
      (sym out)
      (elim (Bool-cases (not (h == 0) && not (f h))) [
        | inl y ↦
            let (items, ok, k) =
              pushed c.ready h r cap v.ready_valid v.ready_items v.ready_capacity l in
            rw y (record {
              waiting_valid = valid;
              ready_valid = ok;
              waiting_items = rest;
              ready_items = items;
              ready_capacity = k;
            })
        | inr n ↦ rw n (record {
          waiting_valid = valid;
          ready_valid = v.ready_valid;
          waiting_items = rest;
          ready_items = v.ready_items ∙ sym (append-nil r);
          ready_capacity = v.ready_capacity;
        })
      ])

-- What the loop has done when it ends with the context `c'` and has added `n'` to the counter, where it
-- started in round `k` and had added `n`. The counter is that of the moment that is named.
pub record Moved (f : ℕ → Bool) (limit : ℕ) (others : Others) (w r : List ℕ) (cap k n : ℕ)
    (c' : Context) (n' : ℕ) : Type 0 where
  pub taken : List ℕ
  pub left : List ℕ
  pub split : w ≡ taken ++ left
  pub queues : Holds c' left (r ++ live f taken) cap
  pub counted : n' ≡ n + length taken
  -- The counter was below the limit whenever a slot was counted and kept.
  pub limited : (j : ℕ) → j < length taken → counter (others.at_add (k + j)) (n + j) < limit
  -- No handle waits, or `load` or `fetch_add` has found the limit reached.
  pub complete :
      (left ≡ [])
      ⊎ ((limit ≤ counter (others.at_load (k + length taken)) n')
          ⊎ (limit ≤ counter (others.at_add (k + length taken)) n'))

module _ (f : ℕ → Bool) (limit : ℕ) (others : Others) where
  -- The loop is at its end in round `k` with `n` added.
  abbrev AtEnd : List ℕ → ℕ → ℕ → Type 0
  AtEnd w n k =
      (w ≡ []) ⊎ ((limit ≤ counter (others.at_load k) n) ⊎ (limit ≤ counter (others.at_add k) n))

  -- Nothing is moved.
  none-Moved :
      (w r : List ℕ) (cap k n : ℕ) (c : Context)
      → Holds c w r cap
      → AtEnd w n k
      → Moved f limit others w r cap k n c n
  none-Moved w r cap k n c v over = record {
    taken = [];
    left = w;
    split = refl;
    queues = subst (λ l. Holds c w l cap) (sym (append-nil r)) v;
    counted = omega arith;
    limited = λ j p. absurd (omega arith);
    complete = let here : k ≡ k + 0 = omega arith in subst (AtEnd w n) here over;
  }

  -- The slots that the rest of the loop counts, after one.
  later_limited :
      (k n m : ℕ)
      → counter (others.at_add k) n < limit
      → ((j : ℕ) → j < m → counter (others.at_add (k + 1 + j)) (n + 1 + j) < limit)
      → (j : ℕ) → j < suc m
      → counter (others.at_add (k + j)) (n + j) < limit
  later_limited k n m low later zero p =
      let here : k ≡ k + 0 = omega arith in
      let first : n ≡ n + 0 = omega arith in
      subst (λ x. counter (others.at_add x) (n + 0) < limit) here
        (subst (λ x. counter (others.at_add k) x < limit) first low)
  later_limited k n m low later (suc j) p =
      let there : k + 1 + j ≡ k + suc j = omega arith in
      let next : n + 1 + j ≡ n + suc j = omega arith in
      subst (λ x. counter (others.at_add x) (n + suc j) < limit) there
        (subst (λ x. counter (others.at_add (k + 1 + j)) x < limit) next (later j (omega arith)))

  -- One handle is moved, and then as many as the rest of the loop moves.
  one-Moved :
      (h : ℕ) (w r : List ℕ) (cap k n : ℕ) (c' : Context) (n' : ℕ)
      → counter (others.at_add k) n < limit
      → Moved f limit others w (r ++ live f (h ∷ [])) cap (k + 1) (n + 1) c' n'
      → Moved f limit others (h ∷ w) r cap k n c' n'
  one-Moved h w r cap k n c' n' low m = record {
    taken = h ∷ m.taken;
    left = m.left;
    split = ap (λ l. h ∷ l) m.split;
    queues =
        subst (λ l. Holds c' m.left l cap)
          (append_assoc r (live f (h ∷ [])) (live f m.taken)
            ∙ ap (λ l. r ++ l) (sym (live-append f (h ∷ []) m.taken)))
          m.queues;
    counted = omega (arith, m.counted);
    limited = later_limited k n (length m.taken) low m.limited;
    complete =
        let there : k + 1 + length m.taken ≡ k + suc (length m.taken) = omega arith in
        subst (AtEnd m.left n') there m.complete;
  }

  length-live : (h : ℕ) → length (live f (h ∷ [])) ≤ 1
  length-live h = ground arith

  inflight_loop-Moved :
      (fuel k : ℕ) (c : Context) (n : ℕ) (w r : List ℕ) (cap : ℕ)
      → Holds c w r cap
      → length r + length w ≤ cap
      → length w ≤ fuel
      → let (c', n') = inflight_loop f limit others fuel k c n in
        Moved f limit others w r cap k n c' n'
  unfolding inflight_loop
  inflight_loop-Moved zero k c n [] r cap v l e = none-Moved [] r cap k n c v (inl refl)
  inflight_loop-Moved zero k c n (h ∷ w) r cap v l e = absurd (omega (arith, e))
  inflight_loop-Moved (suc fuel) k c n [] r cap v l e =
      let none_waits : Q.empty c.waiting ≡ true =
        ground (arith, empty-contents 0 c.waiting, v.waiting_items) in
      rw none_waits (none-Moved [] r cap k n c v (inl refl))
  inflight_loop-Moved (suc fuel) k c n (h ∷ w) r cap v l e =
      let some_wait : Q.empty c.waiting ≡ false =
        ground (arith, empty-contents 0 c.waiting, v.waiting_items) in
      rw some_wait (elim (Bool-cases (leb limit (counter (others.at_load k) n))) [
        | inl y ↦ rw y (none-Moved (h ∷ w) r cap k n c v (inr (inl (ground arith))))
        | inr a ↦ elim (Bool-cases (leb limit (counter (others.at_add k) n))) [
          | inl y ↦
              let undone : n ≡ fetch_sub (fetch_add n) = omega arith in
              rw (a, y)
                (subst (λ m. Moved f limit others (h ∷ w) r cap k n c m) undone
                  (none-Moved (h ∷ w) r cap k n c v (inr (inr (ground arith)))))
          | inr b ↦
              rw (a, b)
                (one-Moved h w r cap k n _ _ (ground arith) (
                  inflight_loop-Moved fuel (k + 1) (take_waiting f c) (n + 1) w
                    (r ++ live f (h ∷ [])) cap (take_waiting-Holds f c h w r cap v (omega arith))
                    (omega (arith, length-append r (live f (h ∷ [])), length-live h))
                    (omega arith)))
        ]
      ])

  -- `ProcessInflightQueue` with a limit, on valid queues where the ready one has room for all that waits,
  -- whatever other threads add to the counter meanwhile: it takes handles from the front of the waiting
  -- queue, has counted one slot for each when it ends, and puts those that are worth resuming behind the
  -- ready ones in the same order. Whenever it counts a slot that it keeps, the counter is below the limit,
  -- and it ends only when no handle waits or it finds the limit reached.
  pub process_inflight-Moved :
      (c : Context) (w r : List ℕ) (cap : ℕ)
      → 0 < limit
      → Holds c w r cap
      → length r + length w ≤ cap
      → let (c', n') = process_inflight f limit others c in Moved f limit others w r cap 0 0 c' n'
  unfolding process_inflight
  process_inflight-Moved c w r cap p v l = elim (Bool-cases (limit == 0)) [
    | inl z ↦ absurd (ground arith)
    | inr k ↦ rw k (
        inflight_loop-Moved (Q.size c.waiting) 0 c 0 w r cap v l
          (omega (arith, length-contents 0 c.waiting, ap length v.waiting_items)))
  ]
