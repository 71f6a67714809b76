-- ===== src/TaskQueue/Limit.antt =====
-- src/task_queue.cpp, `IncInflight`: who gets a slot and who waits.
use tpcc_oceanbase_cpp.Common.{
  ℕ, ◌≤◌, ◌<◌, ◌≡◌, ◌^◌, refl, ap, ◌∙◌, ◌⊎◌, inl, inr, true, false, ◌||◌, List, [], ◌∷◌, ◌++◌, ◌==◌,
  ltb, length, arith, Bool-cases,
}
use tpcc_oceanbase_cpp.Common.Word.{add64, sub64}
use tpcc_oceanbase_cpp.Spsc.{Spsc, try_push}
use tpcc_oceanbase_cpp.Spsc.Inv.{IsValid}
use tpcc_oceanbase_cpp.Spsc.Fifo.{fifo_push}
use tpcc_oceanbase_cpp.Spsc.Refine.{contents, try_push_refines}
use tpcc_oceanbase_cpp.TaskQueue.{
  TaskQueue, returns, throws, queue_full, context_at, put_context, wait_for_slot, count_up,
  count_down, inc_inflight,
}

fifo_push_cases :
    (cap : ℕ) (xs : List ℕ) (h : ℕ)
    → ((length xs ≡ cap) × (fifo_push cap xs h ≡ (false, xs)))
      ⊎ (fifo_push cap xs h ≡ (true, xs ++ h ∷ []))
unfolding fifo_push
fifo_push_cases cap xs h = elim (Bool-cases (length xs == cap)) [
  | inl y ↦ inl (ground arith, rw y refl)
  | inr n ↦ inr (rw n refl)
]

-- The queue with the handle behind the others, or a full one as it was.
abbrev pub Appended : Spsc ℕ → ℕ → Spsc ℕ → Type 0
Appended w h s = contents 0 s ≡ contents 0 w ++ h ∷ []

abbrev pub Full : Spsc ℕ → Spsc ℕ → Type 0
Full w s = (length (contents 0 w) ≡ w.capacity) × (contents 0 s ≡ contents 0 w)

wait_for_slot_lem :
    (q : TaskQueue) (h hint : ℕ)
    → IsValid (context_at q hint).waiting
    → let c = context_at q hint in
      (s : Spsc ℕ) × (((wait_for_slot q hint (try_push c.waiting h)
            ≡ returns true (put_context q hint (record c { waiting = s })))
          × Appended c.waiting h s)
        ⊎ ((wait_for_slot q hint (try_push c.waiting h)
              ≡ throws queue_full (put_context q hint (record c { waiting = s })))
            × Full c.waiting s))
unfolding wait_for_slot
wait_for_slot_lem q h hint v =
    let c = context_at q hint in
    let s = (try_push c.waiting h).1 in
    let (e, _, _) = try_push_refines 0 c.waiting h v in
    (
      s,
      elim (fifo_push_cases c.waiting.capacity (contents 0 c.waiting) h) [
        | inl (full, f) ↦ inr (
          ap (λ d. wait_for_slot q hint (d, s)) (ap (λ p. p.0) (e ∙ f)),
          (full, ap (λ p. p.1) (e ∙ f)),
        )
        | inr f ↦
            inl
              (ap (λ d. wait_for_slot q hint (d, s)) (ap (λ p. p.0) (e ∙ f)), ap (λ p. p.1) (e ∙ f))
      ],
    )

back : (q : TaskQueue) → q.running < 2 ^ 64 → count_down (count_up q) ≡ q
unfolding count_up count_down
back q h = ap (λ (n : ℕ). record q { running = n }) (sub-add q.running h)
  where
    sub-add : (n : ℕ) → n < 2 ^ 64 → sub64 (add64 n 1) 1 ≡ n
    sub-add n h = omega arith

-- `IncInflight` where the thread's waiting queue is valid: without a limit or below it the handle goes on
-- and the counter is one more; at the limit nothing is counted, and the handle is behind the others in the
-- waiting queue, or that queue is full and the call throws.
pub inc_inflight_lem :
    (q : TaskQueue) (h hint : ℕ)
    → q.running < 2 ^ 64
    → IsValid (context_at q hint).waiting
    → let c = context_at q hint in
      let r = inc_inflight q h hint in
      (((q.max_running ≡ 0) ⊎ (q.running < q.max_running))
        × (r ≡ returns false (record q { running = add64 q.running 1 })))
      ⊎ ((0 < q.max_running)
          × (q.max_running ≤ q.running)
          × ((s : Spsc ℕ) × (((r ≡ returns true (put_context q hint (record c { waiting = s })))
                  × Appended c.waiting h s)
                ⊎ ((r ≡ throws queue_full (put_context q hint (record c { waiting = s })))
                    × Full c.waiting s))))
unfolding inc_inflight count_up
inc_inflight_lem q h hint b v =
    elim (Bool-cases (q.max_running == 0 || ltb q.running q.max_running)) [
      | inl y ↦ inl (ground arith, rw y refl)
      | inr n ↦
          let e : inc_inflight q h hint
              ≡ wait_for_slot q hint (try_push (context_at q hint).waiting h) =
            rw n (
              ap (λ p. wait_for_slot p hint (try_push (context_at q hint).waiting h)) (back q b)) in
          let (s, r) = wait_for_slot_lem q h hint v in
          inr (
            ground arith,
            ground arith,
            (s, elim r [ inl (f, a) ↦ inl (e ∙ f, a) | inr (f, a) ↦ inr (e ∙ f, a) ]),
          )
    ]
