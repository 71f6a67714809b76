-- ===== src/TaskQueue.antt =====
-- src/task_queue.cpp, `TTaskQueue`: the queues of each thread and the calls that move handles between them.
-- A handle is a number and 0 the null handle; the times at which handles were queued are left out. Each
-- call is one step, but for `ProcessInflightQueue`, during which other threads may move the counter, and an
-- exception leaves the state that the call had reached.
pub mod Inflight
pub mod Limit
pub mod Sleeping
mod Tests
use tpcc_oceanbase_cpp.Common.{
  ℕ, zero, suc, ◌+◌, ◌-◌, ◌/◌, ◌%◌, Bool, true, false, not, ◌&&◌, ◌||◌, List, [], ◌∷◌, ◌++◌, Option,
  none, some, ◌==◌, ltb, leb, if◌then◌else◌, length, get_or, set, replicate,
}
use tpcc_oceanbase_cpp.Common.Word.{add64, sub64}
use tpcc_oceanbase_cpp.Spsc as Q
use tpcc_oceanbase_cpp.Spsc.{Spsc, try_push, try_pop}
use tpcc_oceanbase_cpp.Timer as T
use tpcc_oceanbase_cpp.Timer.{Timer, Sorter, add, next_deadline, pop_front}

-- `TPerThreadContext`, without its statistics.
pub record Context : Type 0 where
  pub sleeping : Timer ℕ
  pub ready : Spsc ℕ
  pub waiting : Spsc ℕ
  pub external : Spsc ℕ

-- `TTaskQueue`; `running` is `RunningInternalCount`.
pub record TaskQueue : Type 0 where
  pub max_running : ℕ
  pub running : ℕ
  pub never_sleep : Bool
  pub contexts : List Context

pub data Fault : Type 0 where
  queue_full : Fault
  timer_fault : Fault

pub data Result (S A : Type 0) : Type 0 where
  returns : A → S → Result S A
  throws : Fault → S → Result S A

abbrev pub idle_context : Context
idle_context = record { sleeping = T.blank; ready = Q.new; waiting = Q.new; external = Q.new }

abbrev pub context_index : TaskQueue → ℕ → ℕ
context_index q hint = hint % length q.contexts

abbrev pub context_at : TaskQueue → ℕ → Context
context_at q hint = get_or q.contexts (context_index q hint) idle_context

abbrev pub put_context : TaskQueue → ℕ → Context → TaskQueue
put_context q hint c = record q { contexts = set q.contexts (context_index q hint) c }

-- One context of the constructor. A timer without items takes any size.
unfoldable pub new_context : ℕ → ℕ → Context
new_context max_ready max_external = record {
  sleeping = elim (T.resize {V = ℕ} T.blank ((max_ready + 100 - 1) / 100) 100) [
    | T.ok t ↦ t
    | T.runtime_error ↦ T.blank
    | T.out_of_range ↦ T.blank
  ];
  ready = Q.resize 0 Q.new max_ready;
  waiting = Q.resize 0 Q.new max_ready;
  external = Q.resize 0 Q.new max_external;
}

unfoldable pub new : ℕ → ℕ → ℕ → ℕ → Option TaskQueue
unfolding new_context
new threads max_running max_ready max_external =
    if threads == 0
    then none
    else some (record {
      max_running = max_running;
      running = 0;
      never_sleep = false;
      contexts = replicate threads (new_context max_ready max_external);
    })

unfoldable pub wakeup_and_never_sleep : TaskQueue → TaskQueue
wakeup_and_never_sleep q = record q { never_sleep = true }

-- `TryPush`, and `HandleQueueFull` where it fails.
unfoldable pub push_or_throw : Spsc ℕ → ℕ → Result (Spsc ℕ) Unit
push_or_throw s handle =
    let (done, s') = try_push s handle in if done then returns tt s' else throws queue_full s'

unfoldable pub in_context :
    {A : Type 0} → TaskQueue → ℕ → (Spsc ℕ → Context) → Result (Spsc ℕ) A → Result TaskQueue A
in_context q hint f (returns a s) = returns a (put_context q hint (f s))
in_context q hint f (throws e s) = throws e (put_context q hint (f s))

unfoldable pub task_ready : TaskQueue → ℕ → ℕ → Result TaskQueue Unit
unfolding push_or_throw in_context
task_ready q handle hint =
    let c = context_at q hint in
    in_context q hint (λ s. record c { ready = s }) (push_or_throw c.ready handle)

unfoldable pub task_ready_thread_safe : TaskQueue → ℕ → ℕ → Result TaskQueue Unit
unfolding push_or_throw in_context
task_ready_thread_safe q handle hint =
    let c = context_at q hint in
    in_context q hint (λ s. record c { external = s }) (push_or_throw c.external handle)

-- `AsyncSleep` at the time `now`.
unfoldable pub async_sleep : TaskQueue → ℕ → ℕ → ℕ → ℕ → TaskQueue
async_sleep q handle hint now delay =
    let c = context_at q hint in
    put_context q hint (record c { sleeping = add c.sleeping now delay handle })

-- `RunningInternalCount.fetch_add(1)` and `fetch_sub(1)`.
unfoldable pub count_up : TaskQueue → TaskQueue
count_up q = record q { running = add64 q.running 1 }

unfoldable pub count_down : TaskQueue → TaskQueue
count_down q = record q { running = sub64 q.running 1 }

-- The end of `IncInflight` at the limit, with the result of `TryPush`.
unfoldable pub wait_for_slot : TaskQueue → ℕ → Bool × Spsc ℕ → Result TaskQueue Bool
wait_for_slot q hint (done, s) =
    let q' = put_context q hint (record (context_at q hint) { waiting = s }) in
    if done then returns true q' else throws queue_full q'

-- `IncInflight`: whether the handle has to wait.
unfoldable pub inc_inflight : TaskQueue → ℕ → ℕ → Result TaskQueue Bool
unfolding count_up count_down wait_for_slot
inc_inflight q handle hint =
    if q.max_running == 0 || ltb q.running q.max_running
    then returns false (count_up q)
    else wait_for_slot (count_down (count_up q)) hint (try_push (context_at q hint).waiting handle)

unfoldable pub dec_inflight : TaskQueue → TaskQueue
unfolding count_down
dec_inflight q = count_down q

-- A handle, if there was one, that was taken out of the waiting queue, which is `w` now. `finished` says
-- which coroutines are done. The result of `TryPush` is not looked at.
unfoldable pub make_ready : (ℕ → Bool) → Context → Option ℕ → Spsc ℕ → Context
make_ready finished c none w = record c { waiting = w }
make_ready finished c (some handle) w =
    if not (handle == 0) && not (finished handle)
    then record c { waiting = w; ready = (try_push c.ready handle).1 }
    else record c { waiting = w }

-- The body of the loop of `ProcessInflightQueue` after the slot is counted.
unfoldable pub take_waiting : (ℕ → Bool) → Context → Context
unfolding make_ready
take_waiting finished c = make_ready finished c (try_pop 0 c.waiting).0 (try_pop 0 c.waiting).1

-- What other threads have added to `RunningInternalCount`, all in all, when the loop reads it in its
-- `n`-th round: in `load`, in `fetch_add`.
pub record Others : Type 0 where
  pub at_load : ℕ → ℕ
  pub at_add : ℕ → ℕ

-- The counter, where this thread has added `own` to it.
abbrev pub counter : ℕ → ℕ → ℕ
counter others own = add64 others own

-- `fetch_add(1)` and `fetch_sub(1)` of this thread.
abbrev pub fetch_add : ℕ → ℕ
fetch_add own = own + 1

abbrev pub fetch_sub : ℕ → ℕ
fetch_sub own = own - 1

-- The loop in its round `round`, with its context and what this thread has added to the counter.
unfoldable pub inflight_loop : (ℕ → Bool) → ℕ → Others → ℕ → ℕ → Context → ℕ → Context × ℕ
unfolding take_waiting
inflight_loop finished max_running others zero round c own = (c, own)
inflight_loop finished max_running others (suc fuel) round c own =
    let rest =
      inflight_loop finished max_running others fuel (round + 1) (take_waiting finished c)
        (fetch_add own) in
    let running_count = counter (others.at_add round) own in
    if Q.empty c.waiting || leb max_running (counter (others.at_load round) own)
    then (c, own)
    else (if leb max_running running_count then (c, fetch_sub (fetch_add own)) else rest)

-- `ProcessInflightQueue`, with what this thread adds to the counter. Each round takes one handle, so the
-- number of waiting ones is enough fuel.
unfoldable pub process_inflight : (ℕ → Bool) → ℕ → Others → Context → Context × ℕ
unfolding inflight_loop
process_inflight finished max_running others c =
    if max_running == 0
    then (c, 0)
    else inflight_loop finished max_running others (Q.size c.waiting) 0 c 0

-- `ProcessSleepingTasks`; each round takes one item, so the number of sleeping ones is enough fuel.
module _ (S : Sorter ℕ) where
  unfoldable pub wake_loop : Bool → ℕ → ℕ → Context → Result Context Unit
  unfolding push_or_throw
  wake_loop never_sleep now zero c = returns tt c
  wake_loop never_sleep now (suc fuel) c =
      if T.size c.sleeping == 0 then returns tt c else elim (next_deadline c.sleeping) [
        | T.ok deadline ↦
            if leb deadline now || never_sleep
            then elim (pop_front S c.sleeping) [
              | T.ok (item, t) ↦ elim (push_or_throw c.ready item.value) [
                | returns u s ↦
                    wake_loop never_sleep now fuel (record c { sleeping = t; ready = s })
                | throws e s ↦ throws e (record c { sleeping = t; ready = s })
              ]
              | T.runtime_error ↦ throws timer_fault c
              | T.out_of_range ↦ throws timer_fault c
            ]
            else returns tt c
        | T.runtime_error ↦ throws timer_fault c
        | T.out_of_range ↦ throws timer_fault c
      ]

  unfoldable pub process_sleeping : Bool → ℕ → Context → Result Context Unit
  unfolding wake_loop
  process_sleeping never_sleep now c = wake_loop never_sleep now (T.size c.sleeping) c

-- The loop of `RunThread` that empties the external queue under its lock, oldest first.
unfoldable pub drain : ℕ → Spsc ℕ → List ℕ × Spsc ℕ
drain zero s = ([], s)
drain (suc fuel) s =
    let (out, s') = try_pop 0 s in
    let (rest, t) = drain fuel s' in elim out [ none ↦ ([], s') | some handle ↦ (handle ∷ rest, t) ]
