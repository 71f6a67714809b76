-- ===== src/Async/Tests.antt =====
-- The theorems on src/future.h, src/thread_pool.h and src/spinlock.h at concrete runs.
use tpcc_oceanbase_cpp.Common.{
  ℕ, ◌+◌, ◌≤◌, ◌≡◌, ◌⊎◌, refl, none, some, true, false, List, [], ◌∷◌, ◌++◌, arith,
}
use tpcc_oceanbase_cpp.Async.Counting.{count}
use tpcc_oceanbase_cpp.Async.SharedState as F
use tpcc_oceanbase_cpp.Async.Callbacks as C
use tpcc_oceanbase_cpp.Async.ThreadPool as P
use tpcc_oceanbase_cpp.Async.ThreadPool.Join as J
use tpcc_oceanbase_cpp.Async.SpinLock as L

-- A pool of one worker, which waits: a task is submitted, `Join` stops the pool, and neither call has
-- notified anybody.
abbrev stopping : P.System
stopping = record {
  pool = record { tasks = 7 ∷ []; stopped = true };
  idle = 0;
  asleep = 1;
  running = [];
  left = 0;
  notifying = 1;
  announcing = true;
  started = [];
  before = 7 ∷ [];
  late = [];
}

stopping-Reach : P.Reach (P.init 1) stopping
unfolding P.init P.submitted P.submit P.joined P.stop P.wake
stopping-Reach =
    P.next (P.next (P.next P.here (P.works (P.waits 0 refl refl refl))) (P.submits 7 refl))
      (P.joins refl)

abbrev woken : P.System
woken = record stopping { idle = 1; asleep = 0; announcing = false }

abbrev running : P.System
running = record woken {
  pool = record { tasks = []; stopped = true };
  idle = 0;
  running = 7 ∷ [];
  started = 7 ∷ [];
}

abbrev done : P.System
done = record running { idle = 0; running = []; left = 1 }

to_woken : P.Work stopping woken
unfolding P.notify_all
to_woken = P.announces refl refl

to_running : P.Work woken running
unfolding P.wake
to_running = P.starts 7 0 (record { tasks = []; stopped = true }) refl refl refl

done-Reach : P.Reach (P.init 1) done
unfolding P.wake
done-Reach =
    P.next
      (P.next (P.next (P.next stopping-Reach (P.works to_woken)) (P.works to_running))
        (P.works (P.finishes [] 7 [] refl refl)))
      (P.works (P.returns 0 refl refl refl))

join_drains_example : (done.running ≡ []) × ((zs : List ℕ) × (done.started ≡ done.before ++ zs))
join_drains_example = J.join_drains done-Reach (omega arith) refl

join_returns_example :
    (2 ≤ P.measure stopping) × ((running.left ≡ 1) ⊎ ((u : P.System) × P.Work running u))
join_returns_example =
    J.join_returns stopping-Reach refl (P.one_more (P.one_more P.none_yet to_woken) to_running)

abbrev held : L.System
held = record { val = true; holders = 5 ∷ []; spinning = [] }

held-Reach : L.Reach held
unfolding L.try_acquire
held-Reach = L.next (L.next L.here (L.enters 5 refl)) (L.acquires [] 5 [] true refl refl refl)

mutual_exclusion_example :
    ((held.val ≡ false) × (held.holders ≡ []))
    ⊎ ((held.val ≡ true) × ((i : ℕ) × (held.holders ≡ i ∷ [])))
mutual_exclusion_example = L.mutual_exclusion held-Reach

-- A callback is added, the value is set, the callback is called.
abbrev waiting : F.Shared ℕ ℕ
waiting = record { value = none; exception = none; is_set = false; callbacks = 3 ∷ [] }

abbrev nine : F.Shared ℕ ℕ
nine = record { value = some 9; exception = none; is_set = true; callbacks = [] }

abbrev answered : C.System ℕ ℕ
answered = record { shared = nine; taken = 3 ∷ []; called = []; added = 3 ∷ [] }

answered-Reach : C.Reach (C.init {A = ℕ} {E = ℕ}) answered
unfolding C.init F.new F.set_value F.add_callback
answered-Reach =
    C.next (C.next C.here (C.adds 3 waiting [] refl refl)) (C.sets 9 nine (3 ∷ []) refl refl)

abbrev finished : C.System ℕ ℕ
finished = record answered { taken = []; called = 3 ∷ [] }

finish : C.Step answered finished
finish = C.calls [] 3 [] refl refl

callbacks_once_example :
    (count 3 finished.called + (count 3 finished.taken + count 3 finished.shared.callbacks)
      ≡ count 3 finished.added)
    × ((finished.shared.is_set ≡ false)
        ⊎ (count 3 finished.called + count 3 finished.taken ≡ count 3 finished.added))
callbacks_once_example = C.callbacks_once (C.next answered-Reach finish) 3

get_answers_example :
    ((answered.shared.is_set ≡ false) × (F.get answered.shared ≡ F.waits))
    ⊎ ((answered.shared.is_set ≡ true)
        × (((a : ℕ) × (F.get answered.shared ≡ F.returned a))
            ⊎ ((e : ℕ) × (F.get answered.shared ≡ F.rethrown e))))
get_answers_example = C.get_answers answered-Reach
