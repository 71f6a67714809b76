-- ===== src/Async/ThreadPool/Join.antt =====
-- src/thread_pool.h: the order of the tasks, and what `Join` waits for.
use tpcc_oceanbase_cpp.Common.{
  ℕ, suc, ◌+◌, ◌-◌, ◌<◌, ◌≤◌, dec_lt, ◌≡◌, refl, ap, ◌∙◌, ◌⊎◌, inl, inr, true, List, [], ◌∷◌, ◌++◌,
  arith, length, length-append,
}
use tpcc_oceanbase_cpp.Async.ThreadPool.{
  wake, System, init, wake_one, notify_one, notify_all, Work, starts, finishes, returns, waits,
  notifies, announces, Spurious, awakes, Reach, raised, measure, Works, none_yet, one_more,
  disturbed,
}
use tpcc_oceanbase_cpp.Async.ThreadPool.Invariant.{
  Sound, no_items, case_of, Work-Sound, Spurious-Sound, Reach-Sound,
}

notify_one-measure : (s : System) (k : ℕ) → s.notifying ≡ suc k → measure (notify_one s) < measure s
unfolding notify_one wake_one
notify_one-measure s k e = ground arith

Work-measure : {s t : System} → s.pool.stopped ≡ true → Work s t → measure t < measure s
unfolding wake notify_one notify_all
Work-measure {s} y (starts x k p i e f) =
    let took : s.pool.tasks ≡ x ∷ p.tasks = ground arith in
    omega (arith, ap measure f, ap length took)
Work-measure y (finishes xs x ys e f) =
    omega (arith, ap measure f, length-append xs (x ∷ ys), length-append xs ys, ap length e)
Work-measure y (returns k i e f) = omega (arith, ap measure f)
Work-measure y (waits k i e f) = absurd (ground arith)
Work-measure {s} y (notifies k i f) = omega (arith, ap measure f, notify_one-measure s k i)
Work-measure {s} y (announces i f) = omega (arith, ap measure f, ap raised i)

Spurious-measure : {s t : System} → Spurious s t → measure t < measure s
unfolding wake_one
Spurious-measure {s} (awakes k e f) =
    let grown : measure (wake_one s) < measure s = ground arith in omega (arith, ap measure f)

wake_one-stopped : (s : System) → (wake_one s).pool.stopped ≡ s.pool.stopped
unfolding wake_one
wake_one-stopped s = ground arith

Work-stopped : {s t : System} → Work s t → s.pool.stopped ≡ true → t.pool.stopped ≡ true
unfolding wake notify_one notify_all
Work-stopped (starts x k p i e f) y = ground arith
Work-stopped (finishes xs x ys e f) y = ground arith
Work-stopped (returns k i e f) y = ground arith
Work-stopped (waits k i e f) y = ground arith
Work-stopped {s} (notifies k i f) y = ground (arith, wake_one-stopped s)
Work-stopped (announces i f) y = ground arith

Works-stopped : {s t : System} {k : ℕ} → Works s k t → s.pool.stopped ≡ true → t.pool.stopped ≡ true
Works-stopped none_yet y = y
Works-stopped (one_more w v) y = Work-stopped v (Works-stopped w y)
Works-stopped (disturbed {t} w (awakes k e f)) y =
    ap (λ u. u.pool.stopped) f ∙ wake_one-stopped t ∙ Works-stopped w y

Works-measure :
    {s t : System} {k : ℕ} → s.pool.stopped ≡ true → Works s k t → k + measure t ≤ measure s
Works-measure y none_yet = omega arith
Works-measure y (one_more w v) =
    omega (arith, Works-measure y w, Work-measure (Works-stopped w y) v)
Works-measure y (disturbed w v) = omega (arith, Works-measure y w, Spurious-measure v)

Works-Sound : {n : ℕ} {s t : System} {k : ℕ} → Works s k t → Sound n s → Sound n t
Works-Sound none_yet v = v
Works-Sound {n} (one_more {t} {u} w x) v = Work-Sound n t u (Works-Sound w v) x
Works-Sound {n} (disturbed {t} {u} w x) v = Spurious-Sound n t u (Works-Sound w v) x

-- A worker at the lock of a stopped pool has something to do.
at_lock_goes_on : {s : System} → s.pool.stopped ≡ true → 0 < s.idle → (t : System) × Work s t
unfolding wake
at_lock_goes_on {s} y l = elim (case_of s.pool.tasks) [
  | inl f ↦ (_, returns (s.idle - 1) (omega arith) (ground arith) refl)
  | inr (x, (xs, f)) ↦
      (_, starts x (s.idle - 1) (record s.pool { tasks = xs }) (omega arith) (ground arith) refl)
]

worker_goes_on :
    {n : ℕ} {s : System}
    → Sound n s
    → s.pool.stopped ≡ true
    → (s.left ≡ n) ⊎ ((t : System) × Work s t)
worker_goes_on {n} {s} v y = elim (case_of s.running) [
  | inr (x, (xs, e)) ↦ inr (_, finishes [] x xs e refl)
  | inl e ↦ elim (dec_lt 0 s.idle) [
    | yes l ↦ inr (at_lock_goes_on y l)
    | no m ↦ elim v.alert [
      | inl going ↦ absurd (cc)
      | inr (inl z) ↦ inl (omega (arith, v.workers, ap length e))
      | inr (inr a) ↦ inr (_, announces a refl)
    ]
  ]
]

-- In every reachable state the tasks that workers have taken and those that wait are the submitted ones in
-- order, those from before `Join` first, and every worker is at the lock, waits, runs a task or has
-- returned.
pool_fifo :
    {n : ℕ} {s : System}
    → Reach (init n) s
    → (s.started ++ s.pool.tasks ≡ s.before ++ s.late)
      × (s.idle + (s.asleep + (length s.running + s.left)) ≡ n)
pool_fifo r = ((Reach-Sound r).order, (Reach-Sound r).workers)

-- Once all workers have returned, of which there is one at least, no task runs and every task submitted
-- before `Join` has been started, before any other.
pub join_drains :
    {n : ℕ} {s : System}
    → Reach (init n) s
    → 0 < n
    → s.left ≡ n
    → (s.running ≡ []) × ((zs : List ℕ) × (s.started ≡ s.before ++ zs))
join_drains {n} {s} r p l =
    let v = Reach-Sound r in
    (
      no_items s.running (omega (arith, v.workers)),
      elim v.rest [ inl z ↦ absurd (omega arith) | inr (zs, (e, d)) ↦ (zs, e) ],
    )

-- Once `Join` has stopped the pool, no run of the workers' turns, of the notifications that `Join` and the
-- calls of `Submit` have still to give, and of spurious wakeups is longer than the measure of the state;
-- at its end all workers have returned, or one of these turns and notifications is possible, without
-- any spurious wakeup.
pub join_returns :
    {n k : ℕ} {s t : System}
    → Reach (init n) s
    → s.pool.stopped ≡ true
    → Works s k t
    → (k ≤ measure s) × ((t.left ≡ n) ⊎ ((u : System) × Work t u))
join_returns r y w = (
  omega (arith, Works-measure y w),
  worker_goes_on (Works-Sound w (Reach-Sound r)) (Works-stopped w y),
)
