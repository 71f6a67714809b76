-- ===== src/Spsc/Tests.antt =====
-- The queue's theorems at concrete queues, and runs of the model.
use tpcc_oceanbase_cpp.Common.{
  ℕ, ◌-◌, ◌^◌, ◌≡◌, refl, inr, true, false, List, [], ◌∷◌, some, none, arith,
}
use tpcc_oceanbase_cpp.Spsc.Fifo.{
  Op, push, pop, ask_size, pushed, popped, sized, fifo_push, fifo_run,
}
use tpcc_oceanbase_cpp.Spsc.Inv.{IsValid}
use tpcc_oceanbase_cpp.Spsc.Refine.{
  contents, run, Rounded, resize-IsValid, try_push_refines, run_refines,
}
use tpcc_oceanbase_cpp.Spsc.{Spsc, size, try_push, try_pop, resize}

-- Four slots, the counters about to wrap, and both caches stale: 7 and 8 are queued.
abbrev wrapping : Spsc ℕ
wrapping = record {
  queue = 0 ∷ 0 ∷ 7 ∷ 8 ∷ [];
  capacity = 4;
  capacity_mask = 3;
  head = 0;
  cached_tail = 2 ^ 64 - 4;
  tail = 2 ^ 64 - 2;
  cached_head = 2 ^ 64 - 2;
}

wrapping-IsValid : IsValid wrapping
wrapping-IsValid = record {
  shape = inr (2, omega arith, refl);
  mask = refl;
  stored = refl;
  head_lt = omega arith;
  tail_lt = omega arith;
  cached_tail_lt = omega arith;
  cached_head_lt = omega arith;
  bounded = omega arith;
  tail_lag = omega arith;
  cached_bounded = omega arith;
  head_lag = omega arith;
}

abbrev script : List (Op ℕ)
script = push 9 ∷ pop ∷ push 10 ∷ push 11 ∷ push 12 ∷ ask_size ∷ pop ∷ pop ∷ pop ∷ pop ∷ pop ∷ []

run-wrapping :
    run 0 wrapping script
    ≡ pushed true
      ∷ popped (some 7)
      ∷ pushed true
      ∷ pushed true
      ∷ pushed false
      ∷ sized 4
      ∷ popped (some 8)
      ∷ popped (some 9)
      ∷ popped (some 10)
      ∷ popped (some 11)
      ∷ popped none
      ∷ []
unfolding run try_push try_pop size
run-wrapping = refl

resize-IsValid_example :
    let q = resize 0 wrapping 5 in IsValid q × (contents 0 q ≡ []) × Rounded {A = ℕ} 0 5 q.capacity
resize-IsValid_example = resize-IsValid 0 wrapping 5 (omega arith)

try_push_refines_example :
    let (done, q) = try_push wrapping 9 in
    ((done, contents 0 q) ≡ fifo_push 4 (contents 0 wrapping) 9) × IsValid q × (q.capacity ≡ 4)
try_push_refines_example = try_push_refines 0 wrapping 9 wrapping-IsValid

run_refines_example : run 0 wrapping script ≡ fifo_run 4 (contents 0 wrapping) script
run_refines_example = run_refines 0 script wrapping wrapping-IsValid
