-- ===== src/Db/Errors.antt =====
-- src/db/errors.h, and the retry loop of `TTerminal::Run` in src/terminal.cpp that the classes steer.
use tpcc_oceanbase_cpp.Common.{
  ℕ, zero, suc, ◌+◌, ◌≤◌, ◌<◌, ◌≡◌, ◌⊎◌, inl, inr, refl, Bool, true, false, ◌&&◌, ◌||◌, arith, ap,
  sym, subst, ℕ_discrete, ◌==◌, ltb, if◌then◌else◌, Bool-cases,
}

-- `DbErrorKind`.
pub data DbErrorKind : Type 0 where
  other deadlock lock_wait_timeout serialization_failure transaction_invalidated : DbErrorKind
  connection_lost shutdown : DbErrorKind

-- `ClassifyDbError`, which does not read the message. Codes are not negative.
unfoldable pub classify_db_error : ℕ → DbErrorKind
classify_db_error code =
    if code == 1213
    then deadlock
    else (if code == 1205
        then lock_wait_timeout
        else (if code == 6235
            then serialization_failure
            else (if code == 6002
                then transaction_invalidated
                else (if code == 1317
                    then shutdown
                    else (if code == 2006 || code == 2013 then connection_lost else other)))))

unfoldable pub is_retryable_tx_error : DbErrorKind → Bool
is_retryable_tx_error deadlock = true
is_retryable_tx_error lock_wait_timeout = true
is_retryable_tx_error serialization_failure = true
is_retryable_tx_error transaction_invalidated = true
is_retryable_tx_error _ = false

-- A `DbError` is its native code.
unfoldable pub retryable : ℕ → Bool
unfolding is_retryable_tx_error classify_db_error
retryable code = is_retryable_tx_error (classify_db_error code)

-- Exactly four codes are retried: deadlock, lock wait timeout, serialization failure and an invalidated
-- transaction.
retryable_codes :
    (code : ℕ) → retryable code ≡ (code == 1213 || (code == 1205 || (code == 6235 || code == 6002)))
unfolding retryable is_retryable_tx_error classify_db_error
retryable_codes code = ground arith

-- What one attempt at a transaction does: its coroutine returns, or one of the handlers runs.
pub data Attempt : Type 0 where
  result : Bool → Attempt
  user_aborted : Attempt
  db_error : ℕ → Attempt
  exception : Attempt

-- The counters that the loop moves, and its verdict.
pub record Tally : Type 0 where
  pub ok : ℕ
  pub failed : ℕ
  pub user_aborts : ℕ
  pub attempts : ℕ
  pub fatal : Bool

unfoldable pub is_shutdown : DbErrorKind → Bool
is_shutdown shutdown = true
is_shutdown _ = false

-- The attempt's effect, and whether `shouldRetry` is set.
unfoldable pub after_attempt : Bool → ℕ → Tally → Attempt → Tally × Bool
after_attempt stop left t (result true) = (record t { ok = t.ok + 1 }, false)
after_attempt stop left t (result false) = (record t { failed = t.failed + 1 }, false)
after_attempt stop left t user_aborted = (record t { user_aborts = t.user_aborts + 1 }, false)
after_attempt stop left t (db_error code) =
    if stop || is_shutdown (classify_db_error code)
    then (t, false)
    else (if retryable code && ltb 0 left
        then (t, true)
        else (if retryable code
            then (record t { failed = t.failed + 1 }, false)
            else (record t { fatal = true }, false)))
after_attempt stop left t exception =
    if stop then (t, false) else (record t { fatal = true }, false)

-- `if (!shouldRetry) break;`
abbrev pub next_attempt : Tally × Bool → (Tally → Tally) → Tally
next_attempt (u, true) more = more u
next_attempt (u, false) more = u

-- `for (attempt = 0; attempt <= MaxRetries; ++attempt)`, with `left` attempts after this one. `run n`
-- is what attempt number `n` does, and `stop n` what the stop token says then.
unfoldable pub attempt_loop : (ℕ → Attempt) → (ℕ → Bool) → ℕ → Tally → Tally
attempt_loop run stop zero t =
    (after_attempt (stop t.attempts) 0 (record t { attempts = t.attempts + 1 }) (run t.attempts)).0
attempt_loop run stop (suc left) t =
    next_attempt
      (after_attempt (stop t.attempts) (suc left) (record t { attempts = t.attempts + 1 })
        (run t.attempts))
      (attempt_loop run stop left)

abbrev pub max_retries : ℕ
max_retries = 3

unfoldable pub run_transaction : (ℕ → Attempt) → (ℕ → Bool) → Tally
run_transaction run stop =
    attempt_loop run stop max_retries
      (record { ok = 0; failed = 0; user_aborts = 0; attempts = 0; fatal = false })

-- The outcomes that were counted, and the fatal verdict.
abbrev pub verdicts : Tally → ℕ
verdicts t = t.ok + (t.failed + (t.user_aborts + (if t.fatal then 1 else 0)))

-- The attempt failed with an error that is worth a retry.
abbrev pub IsRetryable : Attempt → Type 0
IsRetryable a = (code : ℕ) × (a ≡ db_error code) × (retryable code ≡ true)

-- What an attempt does to a tally that has no verdict yet.
abbrev Judged : Tally → Attempt → Tally × Bool → Type 0
Judged t a (u, again) =
    ((again ≡ true) × (u ≡ t) × IsRetryable a)
    ⊎ ((again ≡ false) × (u.attempts ≡ t.attempts) × (verdicts u ≤ 1))

after_attempt_lem :
    (stop : Bool) (left : ℕ) (t : Tally) (a : Attempt)
    → verdicts t ≡ 0
    → Judged t a (after_attempt stop left t a)
unfolding after_attempt
after_attempt_lem stop left t (result true) h = inr (refl, refl, omega arith)
after_attempt_lem stop left t (result false) h = inr (refl, refl, omega arith)
after_attempt_lem stop left t user_aborted h = inr (refl, refl, omega arith)
after_attempt_lem stop left t (db_error code) h =
    elim (Bool-cases (stop || is_shutdown (classify_db_error code))) [
      | inl ends ↦ rw ends (inr (refl, refl, omega arith))
      | inr on ↦ elim (Bool-cases (retryable code && ltb 0 left)) [
        | inl again ↦ rw (on, again) (inl (refl, refl, (code, refl, ground arith)))
        | inr last ↦ elim (Bool-cases (retryable code)) [
          | inl yes_retry ↦ rw (on, last, yes_retry) (inr (refl, refl, omega arith))
          | inr no_retry ↦ rw (on, last, no_retry) (inr (refl, refl, ground arith))
        ]
      ]
    ]
after_attempt_lem true left t exception h = inr (refl, refl, omega arith)
after_attempt_lem false left t exception h = inr (refl, refl, ground arith)

-- What the loop leaves when it starts with attempt number `first`.
record Looped (run : ℕ → Attempt) (first left : ℕ) (u : Tally) : Type 0 where
  pub some_attempt : first < u.attempts
  pub bounded : u.attempts ≤ first + left + 1
  pub counted : verdicts u ≤ 1
  pub retried : (n : ℕ) → first ≤ n → n + 1 < u.attempts → IsRetryable (run n)

Looped-again :
    (run : ℕ → Attempt) (first left : ℕ) (u : Tally)
    → IsRetryable (run first)
    → Looped run (first + 1) left u
    → Looped run first (suc left) u
Looped-again run first left u r l = record {
  some_attempt = omega (arith, l.some_attempt);
  bounded = omega (arith, l.bounded);
  counted = l.counted;
  retried = λ n lo hi. elim (ℕ_discrete n first) [
    | yes e ↦ subst (λ m. IsRetryable (run m)) (sym e) r
    | no ne ↦ l.retried n (omega arith) hi
  ];
}

Looped-step :
    (run : ℕ → Attempt) (first left : ℕ) (u : Tally) (p : Tally × Bool) (more : Tally → Tally)
    → u.attempts ≡ first + 1
    → Judged u (run first) p
    → Looped run u.attempts left (more u)
    → Looped run first (suc left) (next_attempt p more)
Looped-step run first left u (v, true) more e (inl (_, same, r)) l =
    rw same (Looped-again run first left (more u) r (subst (λ m. Looped run m left (more u)) e l))
Looped-step run first left u (v, true) more e (inr (f, _, _)) l = cc
Looped-step run first left u (v, false) more e (inl (f, _, _)) l = cc
Looped-step run first left u (v, false) more e (inr (_, same, c)) l = record {
  some_attempt = omega arith;
  bounded = omega arith;
  counted = c;
  retried = λ n lo hi. absurd (omega arith);
}

attempt_loop_lem :
    (run : ℕ → Attempt) (stop : ℕ → Bool) (left : ℕ) (t : Tally)
    → verdicts t ≡ 0
    → Looped run t.attempts left (attempt_loop run stop left t)
unfolding attempt_loop
attempt_loop_lem run stop zero t h =
    let u : Tally = record t { attempts = t.attempts + 1 } in
    elim (after_attempt_lem (stop t.attempts) 0 u (run t.attempts) h) [
      | inl (e, same, r) ↦ record {
        some_attempt = omega (arith, ap (λ (v : Tally). v.attempts) same);
        bounded = omega (arith, ap (λ (v : Tally). v.attempts) same);
        counted = omega (arith, ap verdicts same);
        retried = λ n lo hi. absurd (omega (arith, ap (λ (v : Tally). v.attempts) same));
      }
      | inr (e, same, c) ↦ record {
        some_attempt = omega arith;
        bounded = omega arith;
        counted = c;
        retried = λ n lo hi. absurd (omega arith);
      }
    ]
attempt_loop_lem run stop (suc left) t h =
    Looped-step run t.attempts left (record t { attempts = t.attempts + 1 })
      (after_attempt (stop t.attempts) (suc left) (record t { attempts = t.attempts + 1 })
        (run t.attempts))
      (attempt_loop run stop left) refl
      (after_attempt_lem (stop t.attempts) (suc left) (record t { attempts = t.attempts + 1 })
        (run t.attempts) h)
      (attempt_loop_lem run stop left (record t { attempts = t.attempts + 1 }) h)

-- A transaction makes between one and four attempts, and at most one outcome is counted for it.
pub run_transaction_bounds :
    (run : ℕ → Attempt) (stop : ℕ → Bool)
    → let t = run_transaction run stop in
      (1 ≤ t.attempts) × (t.attempts ≤ max_retries + 1) × (verdicts t ≤ 1)
unfolding run_transaction
run_transaction_bounds run stop =
    let l = attempt_loop_lem run stop max_retries _ refl in
    (omega (arith, l.some_attempt), omega (arith, l.bounded), l.counted)

-- Every attempt but the last failed with an error that is worth a retry.
retried_only :
    (run : ℕ → Attempt) (stop : ℕ → Bool) (n : ℕ)
    → n + 1 < (run_transaction run stop).attempts
    → IsRetryable (run n)
unfolding run_transaction
retried_only run stop n h = (attempt_loop_lem run stop max_retries _ refl).retried n (omega arith) h
