-- ===== src/TaskQueue/Tests.antt =====
-- The theorems on src/task_queue.cpp at a concrete state.
use tpcc_oceanbase_cpp.Common.{
  List, length, replicate, ℕ, ◌≤◌, ◌<◌, ◌≡◌, refl, inr, ◌⊎◌, true, false, [], ◌∷◌, arith, ◌==◌,
  if◌then◌else◌,
}
use tpcc_oceanbase_cpp.Common.Word.{add64}
use tpcc_oceanbase_cpp.Spsc.{Spsc}
use tpcc_oceanbase_cpp.Spsc.Inv.{IsValid}
use tpcc_oceanbase_cpp.Spsc.Refine.{contents}
use tpcc_oceanbase_cpp.Timer.{Item, Timer, blank, empty_bucket, add}
use tpcc_oceanbase_cpp.Timer.InsertionSort.{insertion_sorter}
use tpcc_oceanbase_cpp.Timer.Refine as Wheel
use tpcc_oceanbase_cpp.Timer.PriorityQueue.{add_lem, total-add}
use tpcc_oceanbase_cpp.Timer.Drain.{emptied, emptied-IsValid}
use tpcc_oceanbase_cpp.TaskQueue.Sleeping.{Awakened, process_sleeping-Awakened}
use tpcc_oceanbase_cpp.TaskQueue.{
  Context, TaskQueue, Others, process_inflight, inc_inflight, process_sleeping, returns, throws,
  queue_full, context_at, put_context,
}
use tpcc_oceanbase_cpp.TaskQueue.Inflight.{Holds, Moved, process_inflight-Moved}
use tpcc_oceanbase_cpp.TaskQueue.Limit.{Appended, Full, inc_inflight_lem}

-- Four slots of which `n` are taken, by 5, 6 and 7 at most.
abbrev slots : ℕ → Spsc ℕ
slots n = record {
  queue = 5 ∷ 6 ∷ 7 ∷ 0 ∷ [];
  capacity = 4;
  capacity_mask = 3;
  head = n;
  cached_tail = 0;
  tail = 0;
  cached_head = 0;
}

slots-IsValid : (n : ℕ) → n ≤ 3 → IsValid (slots n)
slots-IsValid n h = record {
  shape = inr (2, omega arith, refl);
  mask = refl;
  stored = refl;
  head_lt = omega arith;
  tail_lt = omega arith;
  cached_tail_lt = omega arith;
  cached_head_lt = omega arith;
  bounded = omega arith;
  tail_lag = omega arith;
  cached_bounded = omega arith;
  head_lag = omega arith;
}

abbrev context : Context
context = record { sleeping = blank; ready = slots 1; waiting = slots 3; external = slots 0 }

context-Holds : Holds context (5 ∷ 6 ∷ 7 ∷ []) (5 ∷ []) 4
context-Holds = record {
  waiting_valid = slots-IsValid 3 (omega arith);
  ready_valid = slots-IsValid 1 (omega arith);
  waiting_items = refl;
  ready_items = refl;
  ready_capacity = refl;
}

-- Others have counted eight slots, and nine when the loop counts its second one.
abbrev busy : Others
busy = record { at_load = λ n. 8; at_add = λ n. if n == 1 then 9 else 8 }

-- Handle 6 is done, and two slots of ten are free at first.
process_inflight-Moved_example :
    let (c, n) = process_inflight (λ h. h == 6) 10 busy context in
    Moved (λ h. h == 6) 10 busy (5 ∷ 6 ∷ 7 ∷ []) (5 ∷ []) 4 0 0 c n
process_inflight-Moved_example =
    process_inflight-Moved (λ h. h == 6) 10 busy context (5 ∷ 6 ∷ 7 ∷ []) (5 ∷ []) 4 (omega arith)
      context-Holds (omega arith)

abbrev at_limit : TaskQueue
at_limit = record {
  max_running = 10;
  running = 10;
  never_sleep = false;
  contexts = context ∷ context ∷ [];
}

inc_inflight_lem_example :
    let c = context_at at_limit 3 in
    let r = inc_inflight at_limit 9 3 in
    (((at_limit.max_running ≡ 0) ⊎ (at_limit.running < at_limit.max_running))
      × (r ≡ returns false (record at_limit { running = add64 at_limit.running 1 })))
    ⊎ ((0 < at_limit.max_running)
        × (at_limit.max_running ≤ at_limit.running)
        × ((s : Spsc ℕ) × (((r ≡ returns true (put_context at_limit 3 (record c { waiting = s })))
                × Appended c.waiting 9 s)
              ⊎ ((r ≡ throws queue_full (put_context at_limit 3 (record c { waiting = s })))
                  × Full c.waiting s))))
inc_inflight_lem_example =
    inc_inflight_lem at_limit 9 3 (omega arith) (slots-IsValid 3 (omega arith))

-- Handles 8 and 9 sleep until 10 and 20, and the ready queue has one handle and three slots left.
abbrev eight_sleeps : Timer ℕ
eight_sleeps = add (emptied (replicate 3 empty_bucket) 1) 4 6 8

abbrev asleep : Context
asleep = record context { sleeping = add eight_sleeps 5 15 9 }

asleep-IsValid : Wheel.IsValid asleep.sleeping
asleep-IsValid =
    (add_lem eight_sleeps 5 15 9
      (add_lem (emptied (replicate 3 empty_bucket) 1) 4 6 8
        (emptied-IsValid 3 1 (omega arith) (omega arith)).0 (omega arith)).0
      (omega arith)).0

two_sleep : asleep.sleeping.total ≡ 2
unfolding emptied
two_sleep = omega (
  arith,
  total-add {V = ℕ} eight_sleeps 5 15 9,
  total-add {V = ℕ} (emptied (replicate 3 empty_bucket) 1) 4 6 8,
)

one_ready : length (contents 0 (slots 1)) ≡ 1
one_ready = refl

process_sleeping-Awakened_example :
    (d : Context) × (xs : List (Item ℕ)) × (process_sleeping insertion_sorter false 12 asleep
      ≡ returns tt d)
    × Awakened false 12 asleep d xs
process_sleeping-Awakened_example =
    process_sleeping-Awakened insertion_sorter false 12 asleep asleep-IsValid
      (slots-IsValid 1 (omega arith)) (omega (arith, two_sleep, one_ready))
