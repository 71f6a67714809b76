-- ===== src/Async/ThreadPool.antt =====
-- src/thread_pool.h, `TThreadPool`: the queue of tasks under its lock, the condition variable, and the
-- workers around them. A task is a number, and its call is taken to return. What a lock guards is one step,
-- and a notification another one. `std::condition_variable` is as documented: a worker that waits on it
-- goes on when it is notified, or spuriously.
pub mod Invariant
pub mod Join
use tpcc_oceanbase_cpp.Common.{
  ℕ, suc, ◌+◌, ◌-◌, ◌*◌, ◌<◌, ◌≤◌, dec_lt, ◌≡◌, refl, ap, sym, ◌∙◌, subst, Bool-cases, ◌⊎◌, inl,
  inr, Bool, true, false, List, [], ◌∷◌, ◌++◌, arith, if◌then◌else◌, ◌==◌, length, length-append,
  append_assoc, append-nil,
}

pub record Pool : Type 0 where
  pub tasks : List ℕ
  pub stopped : Bool

-- What a worker finds when it has the lock: it has to wait for the condition, returns, or has a task.
pub data Wake : Type 0 where
  sleeps : Wake
  leaves : Wake
  takes : ℕ → Pool → Wake

-- `Submit` up to the notification.
unfoldable pub submit : Pool → ℕ → Pool
submit p t = record p { tasks = p.tasks ++ t ∷ [] }

-- `Join` up to the notification, under the lock.
unfoldable pub stop : Pool → Pool
stop p = if p.stopped then p else record p { stopped = true }

unfoldable pub wake : Pool → Wake
wake p = elim p.tasks [
  | [] ↦ if p.stopped then leaves else sleeps
  | t ∷ ts ↦ takes t (record p { tasks = ts })
]

-- The pool with its workers: how many are at the lock and will look at the condition, how many wait on `CV`,
-- what the others run, and how many have returned; how many calls of `Submit` have still to notify one
-- worker, and whether `Join` has still to notify all; the tasks in the order in which they were started,
-- and those submitted before `Join` and after it.
pub record System : Type 0 where
  pub pool : Pool
  pub idle : ℕ
  pub asleep : ℕ
  pub running : List ℕ
  pub left : ℕ
  pub notifying : ℕ
  pub announcing : Bool
  pub started : List ℕ
  pub before : List ℕ
  pub late : List ℕ

unfoldable pub init : ℕ → System
init n = record {
  pool = record { tasks = []; stopped = false };
  idle = n;
  asleep = 0;
  running = [];
  left = 0;
  notifying = 0;
  announcing = false;
  started = [];
  before = [];
  late = [];
}

-- A call of `Submit` before its notification.
unfoldable pub submitted : System → ℕ → System
submitted s t =
    if s.pool.stopped
    then record s { pool = submit s.pool t; notifying = suc s.notifying; late = s.late ++ t ∷ [] }
    else record s {
      pool = submit s.pool t;
      notifying = suc s.notifying;
      before = s.before ++ t ∷ [];
    }

-- A call of `Join` before its notification; a second call returns at once.
unfoldable pub joined : System → System
joined s = if s.pool.stopped then s else record s { pool = stop s.pool; announcing = true }

-- One of the workers that wait, if any, goes to the lock.
unfoldable pub wake_one : System → System
wake_one s = if s.asleep == 0 then s else record s { asleep = s.asleep - 1; idle = suc s.idle }

-- `CV.notify_one` of a call of `Submit`.
unfoldable pub notify_one : System → System
notify_one s = record (wake_one s) { notifying = s.notifying - 1 }

-- `CV.notify_all` of `Join`.
unfoldable pub notify_all : System → System
notify_all s = record s { asleep = 0; idle = s.idle + s.asleep; announcing = false }

-- A turn of a worker's loop, or the notification of a call.
pub data Work (s t : System) : Type 0 where
  starts :
      (x k : ℕ) (p : Pool)
      → s.idle ≡ suc k
      → wake s.pool ≡ takes x p
      → t ≡ record s { pool = p; idle = k; running = x ∷ s.running; started = s.started ++ x ∷ [] }
      → Work s t
  finishes :
      (xs : List ℕ) (x : ℕ) (ys : List ℕ)
      → s.running ≡ xs ++ x ∷ ys
      → t ≡ record s { idle = suc s.idle; running = xs ++ ys }
      → Work s t
  returns :
      (k : ℕ)
      → s.idle ≡ suc k
      → wake s.pool ≡ leaves
      → t ≡ record s { idle = k; left = suc s.left }
      → Work s t
  waits :
      (k : ℕ)
      → s.idle ≡ suc k
      → wake s.pool ≡ sleeps
      → t ≡ record s { idle = k; asleep = suc s.asleep }
      → Work s t
  notifies : (k : ℕ) → s.notifying ≡ suc k → t ≡ notify_one s → Work s t
  announces : s.announcing ≡ true → t ≡ notify_all s → Work s t

-- A worker goes on although nobody has notified it.
pub data Spurious (s t : System) : Type 0 where
  awakes : (k : ℕ) → s.asleep ≡ suc k → t ≡ wake_one s → Spurious s t

pub data Step (s t : System) : Type 0 where
  submits : (x : ℕ) → t ≡ submitted s x → Step s t
  joins : t ≡ joined s → Step s t
  works : Work s t → Step s t
  disturbs : Spurious s t → Step s t

pub data Reach (s : System) : System → Type 0 where
  here : Reach s s
  next : {t u : System} → Reach s t → Step t u → Reach s u

-- One for a flag that is up.
abbrev pub raised : Bool → ℕ
raised b = if b then 1 else 0

-- What is left to do, once the pool is stopped, until every worker has returned.
abbrev pub measure : System → ℕ
measure s =
    3 * length s.pool.tasks
    + (2 * length s.running + (s.idle + (2 * s.asleep + (s.notifying + raised s.announcing))))

-- A run of turns, notifications and spurious wakeups, with no other step between them.
pub data Works (s : System) : ℕ → System → Type 0 where
  none_yet : Works s 0 s
  one_more : {k : ℕ} {t u : System} → Works s k t → Work t u → Works s (suc k) u
  disturbed : {k : ℕ} {t u : System} → Works s k t → Spurious t u → Works s (suc k) u
