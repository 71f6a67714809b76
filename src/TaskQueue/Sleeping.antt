-- ===== src/TaskQueue/Sleeping.antt =====
-- src/task_queue.cpp, `ProcessSleepingTasks`: which of the sleeping handles are awakened.
use tpcc_oceanbase_cpp.Common.{
  ℕ, zero, suc, ◌+◌, ◌≤◌, ◌<◌, ◌≡◌, refl, sym, ap, ◌∙◌, ◌⊎◌, inl, inr, Bool, true, false, ◌||◌,
  List, [], ◌∷◌, ◌++◌, arith, leb, ltb, ◌==◌, length, length-append, map, append-nil, append_assoc,
  Bool-cases,
}
use tpcc_oceanbase_cpp.Spsc.{Spsc, try_push}
use tpcc_oceanbase_cpp.Spsc.Inv as Ready
use tpcc_oceanbase_cpp.Spsc.Refine.{contents, try_push_refines}
use tpcc_oceanbase_cpp.Spsc.Fifo.{fifo_push_room}
use tpcc_oceanbase_cpp.Timer as T
use tpcc_oceanbase_cpp.Timer.{Item, Timer, Sorter, Rising, next_deadline, pop_front}
use tpcc_oceanbase_cpp.Timer.View.{stored}
use tpcc_oceanbase_cpp.Timer.Order.{count, NotAfter, Rising-cons}
use tpcc_oceanbase_cpp.Timer.Refine.{IsValid}
use tpcc_oceanbase_cpp.Timer.Sorted.{NotBefore-count, count-NotBefore, length-count}
use tpcc_oceanbase_cpp.Timer.PriorityQueue.{pop_front_lem}
use tpcc_oceanbase_cpp.Timer.Deadline.{next_deadline_lem, no_earlier, size_lem}
use tpcc_oceanbase_cpp.TaskQueue.{Context, returns, push_or_throw, wake_loop, process_sleeping}

-- The items `xs` have been awakened: they are the first to be due, in order, each of them due unless
-- nothing may sleep, and they are behind the ready handles; what is left is not due as far as
-- `GetNextDeadline` tells.
pub record Awakened (never_sleep : Bool) (now : ℕ) (c d : Context) (xs : List (Item ℕ))
    : Type 0 where
  pub wheel_valid : IsValid d.sleeping
  pub ready_valid : Ready.IsValid d.ready
  pub handles : contents 0 d.ready ≡ contents 0 c.ready ++ map (λ x. x.value) xs
  pub counts :
      (p : Item ℕ → Bool) → count p (stored c.sleeping) ≡ count p xs + count p (stored d.sleeping)
  pub in_order : Rising xs
  pub due : (never_sleep ≡ true) ⊎ NotAfter now xs
  pub rest :
      (d.sleeping.total ≡ 0)
      ⊎ ((never_sleep ≡ false) × (n : ℕ) × (next_deadline d.sleeping ≡ T.ok n) × (now < n))

first_due :
    (ns : Bool) (now : ℕ) (x y : Item ℕ) (xs : List (Item ℕ))
    → (leb y.deadline now || ns) ≡ true
    → x.deadline ≤ y.deadline
    → (ns ≡ true) ⊎ NotAfter now xs
    → (ns ≡ true) ⊎ NotAfter now (x ∷ xs)
first_due true now x y xs go h d = inl refl
first_due false now x y xs go h (inl e) = absurd (ground arith)
first_due false now x y xs go h (inr d) = inr (ground arith, d)

push_ready :
    (s : Spsc ℕ) (h : ℕ)
    → Ready.IsValid s
    → length (contents 0 s) < s.capacity
    → (t : Spsc ℕ) × (push_or_throw s h ≡ returns tt t)
      × Ready.IsValid t
      × (contents 0 t ≡ contents 0 s ++ h ∷ [])
      × (t.capacity ≡ s.capacity)
unfolding push_or_throw
push_ready s h v l =
    let (f, v', k) = try_push_refines 0 s h v in
    let g = f ∙ fifo_push_room s.capacity (contents 0 s) h l in
    let done = ap (λ p. p.0) g in ((try_push s h).1, rw done refl, v', ap (λ p. p.1) g, k)

wake_loop_lem :
    (S : Sorter ℕ) (never_sleep : Bool) (now fuel : ℕ) (c : Context)
    → IsValid c.sleeping
    → Ready.IsValid c.ready
    → c.sleeping.total ≤ fuel
    → length (contents 0 c.ready) + c.sleeping.total < c.ready.capacity + 1
    → (d : Context) × (xs : List (Item ℕ)) × (wake_loop S never_sleep now fuel c ≡ returns tt d)
      × Awakened never_sleep now c d xs
unfolding wake_loop
wake_loop_lem S ns now zero c v r h room = (
  c,
  [],
  refl,
  record {
    wheel_valid = v;
    ready_valid = r;
    handles = sym (append-nil (contents 0 c.ready));
    counts = λ p. omega arith;
    in_order = tt;
    due = inr tt;
    rest = inl (omega arith);
  },
)
wake_loop_lem S ns now (suc fuel) c v r h room = elim (Bool-cases (T.size c.sleeping == 0)) [
  | inl none_left ↦ (
    c,
    [],
    rw none_left refl,
    record {
      wheel_valid = v;
      ready_valid = r;
      handles = sym (append-nil (contents 0 c.ready));
      counts = λ p. omega arith;
      in_order = tt;
      due = inr tt;
      rest = inl (ground (arith, size_lem c.sleeping));
    },
  )
  | inr some_left ↦
      let more : 0 < c.sleeping.total = ground (arith, size_lem c.sleeping) in
      let (y, e, s) = next_deadline_lem c.sleeping v more in
      elim (Bool-cases (leb y.deadline now || ns)) [
        | inr late ↦ (
          c,
          [],
          rw (some_left, e) (rw late refl),
          record {
            wheel_valid = v;
            ready_valid = r;
            handles = sym (append-nil (contents 0 c.ready));
            counts = λ p. omega arith;
            in_order = tt;
            due = inr tt;
            rest = inr (ground arith, y.deadline, e, ground arith);
          },
        )
        | inl go ↦
            let (x, t, f, k) = pop_front_lem S c.sleeping v more in
            let (u, g, r', items, size) =
              push_ready c.ready x.value r (omega (arith, more, room)) in
            let one = k.counts (λ z. true) in
            let fewer : c.sleeping.total ≡ 1 + t.total = omega (
              arith,
              v.counted,
              k.valid.counted,
              one,
              length-count (stored c.sleeping),
              length-count (stored t),
            ) in
            let longer = ap length items ∙ length-append (contents 0 c.ready) (x.value ∷ []) in
            let (d, xs, i, a) =
              wake_loop_lem S ns now fuel (record c { sleeping = t; ready = u }) k.valid r'
                (omega (arith, h, fewer)) (omega (arith, room, fewer, longer, size)) in
            (
              d,
              x ∷ xs,
              rw (some_left, e) (rw go (rw f (rw g i))),
              record {
                wheel_valid = a.wheel_valid;
                ready_valid = a.ready_valid;
                handles =
                    a.handles
                    ∙ (ap (λ l. l ++ map (λ (z : Item ℕ). z.value) xs) items
                        ∙ append_assoc (contents 0 c.ready) (x.value ∷ [])
                            (map (λ (z : Item ℕ). z.value) xs));
                counts = λ p. let m = k.counts p in let n = a.counts p in omega (arith, m, n);
                in_order =
                    Rising-cons x xs
                      (count-NotBefore x.deadline xs (
                        let m = a.counts (λ z. ltb z.deadline x.deadline) in
                        let n = NotBefore-count x.deadline (stored t) k.least in
                        omega (arith, m, n)))
                      a.in_order;
                due = first_due ns now x y xs go (no_earlier c.sleeping t x y k s) a.due;
                rest = a.rest;
              },
            )
      ]
]

-- `ProcessSleepingTasks` at the time `now`, where the wheel and the ready queue are valid and the latter
-- has room for all that sleep: it does not throw, and never awakens a handle early. It takes items from
-- the wheel in the order of their deadlines, each of them due unless nothing may sleep, and puts their
-- handles behind the ready ones; it ends when none sleeps or `GetNextDeadline` answers a later time.
pub process_sleeping-Awakened :
    (S : Sorter ℕ) (never_sleep : Bool) (now : ℕ) (c : Context)
    → IsValid c.sleeping
    → Ready.IsValid c.ready
    → length (contents 0 c.ready) + c.sleeping.total ≤ c.ready.capacity
    → (d : Context) × (xs : List (Item ℕ)) × (process_sleeping S never_sleep now c ≡ returns tt d)
      × Awakened never_sleep now c d xs
unfolding process_sleeping
process_sleeping-Awakened S never_sleep now c v r room =
    wake_loop_lem S never_sleep now (T.size c.sleeping) c v r (omega (arith, size_lem c.sleeping))
      (omega (arith, room))
