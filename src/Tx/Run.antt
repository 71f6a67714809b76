-- ===== src/Tx/Run.antt =====
-- The executions of a transaction: the draws and the database choose the branches, and any
-- statement may throw instead of answering.
use tpcc_oceanbase_cpp.Common.{ℕ, suc, ◌≤◌, ◌≡◌, ◌≢◌, refl, Bool, true, false, List, [], ◌∷◌}
use tpcc_oceanbase_cpp.Tx.{
  Param, QueryId, Tx, finish, stop_with_error, user_abort, raise, starved, random, query, modify,
  commit, rollback, suspend,
}

-- What the session has done.
pub data Event (Real : Type 0) : Type 0 where
  statement : QueryId → List (Param Real) → Event Real
  committed : Event Real
  rolled_back : Event Real

-- How the coroutine ends: `threw` is an exception other than `TUserAbortedException`, and `starving`
-- a rejection loop that is still drawing.
pub data End : Type 0 where
  returned : Bool → End
  aborted : End
  threw : End
  starving : End

pub data Run {Row Real : Type 0} : Tx Row Real → List (Event Real) → End → Type 0 where
  at_finish : {b : Bool} → Run (finish b) [] (returned b)
  at_stop : Run stop_with_error [] (returned false)
  at_abort : Run user_abort [] aborted
  at_raise : Run raise [] threw
  at_starved : Run starved [] starving
  draw :
      {low high : ℕ} {k : ℕ → Tx Row Real} {tr : List (Event Real)} {e : End} (n : ℕ)
      → low ≤ n
      → n ≤ high
      → Run (k n) tr e
      → Run (random low high k) tr e
  answer :
      {q : QueryId} {ps : List (Param Real)} {k : List Row → Tx Row Real} {tr : List (Event Real)}
      {e : End} (rows : List Row)
      → Run (k rows) tr e
      → Run (query q ps k) (statement q ps ∷ tr) e
  query_throws :
      {q : QueryId} {ps : List (Param Real)} {k : List Row → Tx Row Real}
      → Run (query q ps k) [] threw
  modified :
      {q : QueryId} {ps : List (Param Real)} {t : Tx Row Real} {tr : List (Event Real)} {e : End}
      → Run t tr e
      → Run (modify q ps t) (statement q ps ∷ tr) e
  modify_throws :
      {q : QueryId} {ps : List (Param Real)} {t : Tx Row Real} → Run (modify q ps t) [] threw
  commits_then :
      {t : Tx Row Real} {tr : List (Event Real)} {e : End}
      → Run t tr e
      → Run (commit t) (committed ∷ tr) e
  commit_throws : {t : Tx Row Real} → Run (commit t) [] threw
  rolls_back_then :
      {t : Tx Row Real} {tr : List (Event Real)} {e : End}
      → Run t tr e
      → Run (rollback t) (rolled_back ∷ tr) e
  rollback_throws : {t : Tx Row Real} → Run (rollback t) [] threw
  wakes :
      {ms : ℕ} {t : Tx Row Real} {tr : List (Event Real)} {e : End}
      → Run t tr e
      → Run (suspend ms t) tr e

module _ {Real : Type 0} where
  abbrev pub commits : List (Event Real) → ℕ
  commits [] = 0
  commits (committed ∷ tr) = suc (commits tr)
  commits (rolled_back ∷ tr) = commits tr
  commits (statement q ps ∷ tr) = commits tr

  abbrev pub rollbacks : List (Event Real) → ℕ
  rollbacks [] = 0
  rollbacks (committed ∷ tr) = rollbacks tr
  rollbacks (rolled_back ∷ tr) = suc (rollbacks tr)
  rollbacks (statement q ps ∷ tr) = rollbacks tr

  -- A result of `true` has one commit behind it, a user abort one rollback, and no other end has any.
  abbrev pub Settled : List (Event Real) → End → Type 0
  Settled tr (returned true) = (commits tr ≡ 1) × (rollbacks tr ≡ 0)
  Settled tr (returned false) = (commits tr ≡ 0) × (rollbacks tr ≡ 0)
  Settled tr aborted = (commits tr ≡ 0) × (rollbacks tr ≡ 1)
  Settled tr threw = (commits tr ≡ 0) × (rollbacks tr ≡ 0)
  Settled tr starving = (commits tr ≡ 0) × (rollbacks tr ≡ 0)

  Settled-statement :
      (q : QueryId) (ps : List (Param Real)) (tr : List (Event Real)) (e : End)
      → Settled tr e
      → Settled (statement q ps ∷ tr) e
  Settled-statement q ps tr (returned true) s = s
  Settled-statement q ps tr (returned false) s = s
  Settled-statement q ps tr aborted s = s
  Settled-statement q ps tr threw s = s
  Settled-statement q ps tr starving s = s

module _ {Row Real : Type 0} where
  abbrev IsSuccess : Tx Row Real → Type 0
  IsSuccess (finish true) = Unit {0}
  IsSuccess _ = ⊥

  abbrev IsAbort : Tx Row Real → Type 0
  IsAbort user_abort = Unit {0}
  IsAbort _ = ⊥

  -- On every branch a commit is the last step before success, a rollback the last before the abort,
  -- and neither end is reached otherwise; the abort is reached only if `aborts`.
  abbrev pub IsAtomic : Bool → Tx Row Real → Type 0
  IsAtomic aborts (finish true) = ⊥
  IsAtomic aborts (finish false) = Unit {0}
  IsAtomic aborts stop_with_error = Unit {0}
  IsAtomic aborts user_abort = ⊥
  IsAtomic aborts raise = Unit {0}
  IsAtomic aborts starved = Unit {0}
  IsAtomic aborts (random low high k) = (n : ℕ) → IsAtomic aborts (k n)
  IsAtomic aborts (query q ps k) = (rows : List Row) → IsAtomic aborts (k rows)
  IsAtomic aborts (modify q ps t) = IsAtomic aborts t
  IsAtomic aborts (commit t) = IsSuccess t
  IsAtomic aborts (rollback t) = IsAbort t × (aborts ≡ true)
  IsAtomic aborts (suspend ms t) = IsAtomic aborts t

  Settled-commit :
      (t : Tx Row Real) {tr : List (Event Real)} {e : End}
      → IsSuccess t
      → Run t tr e
      → Settled (committed ∷ tr) e
  Settled-commit (finish true) a at_finish = (refl, refl)
  Settled-commit (finish false) a r = absurd a
  Settled-commit stop_with_error a r = absurd a
  Settled-commit user_abort a r = absurd a
  Settled-commit raise a r = absurd a
  Settled-commit starved a r = absurd a
  Settled-commit (random low high k) a r = absurd a
  Settled-commit (query q ps k) a r = absurd a
  Settled-commit (modify q ps t) a r = absurd a
  Settled-commit (commit t) a r = absurd a
  Settled-commit (rollback t) a r = absurd a
  Settled-commit (suspend ms t) a r = absurd a

  Settled-rollback :
      (t : Tx Row Real) {tr : List (Event Real)} {e : End}
      → IsAbort t
      → Run t tr e
      → Settled (rolled_back ∷ tr) e
  Settled-rollback user_abort a at_abort = (refl, refl)
  Settled-rollback (finish b) a r = absurd a
  Settled-rollback stop_with_error a r = absurd a
  Settled-rollback raise a r = absurd a
  Settled-rollback starved a r = absurd a
  Settled-rollback (random low high k) a r = absurd a
  Settled-rollback (query q ps k) a r = absurd a
  Settled-rollback (modify q ps t) a r = absurd a
  Settled-rollback (commit t) a r = absurd a
  Settled-rollback (rollback t) a r = absurd a
  Settled-rollback (suspend ms t) a r = absurd a

  pub Run-Settled :
      (aborts : Bool) {t : Tx Row Real} {tr : List (Event Real)} {e : End}
      → IsAtomic aborts t
      → Run t tr e
      → Settled tr e
  Run-Settled b a (at_finish {b = true}) = absurd a
  Run-Settled b a (at_finish {b = false}) = (refl, refl)
  Run-Settled b a at_stop = (refl, refl)
  Run-Settled b a at_abort = absurd a
  Run-Settled b a at_raise = (refl, refl)
  Run-Settled b a at_starved = (refl, refl)
  Run-Settled b a (draw n lo hi r) = Run-Settled b (a n) r
  Run-Settled b a (answer {q} {ps} {k} {tr} {e} rows r) =
      Settled-statement q ps tr e (Run-Settled b (a rows) r)
  Run-Settled b a query_throws = (refl, refl)
  Run-Settled b a (modified {q} {ps} {t} {tr} {e} r) =
      Settled-statement q ps tr e (Run-Settled b a r)
  Run-Settled b a modify_throws = (refl, refl)
  Run-Settled b a (commits_then {t} r) = Settled-commit t a r
  Run-Settled b a commit_throws = (refl, refl)
  Run-Settled b a (rolls_back_then {t} r) = Settled-rollback t a.0 r
  Run-Settled b a rollback_throws = (refl, refl)
  Run-Settled b a (wakes r) = Run-Settled b a r

  success-ne-aborted :
      (t : Tx Row Real) {tr : List (Event Real)} {e : End} → IsSuccess t → Run t tr e → e ≢ aborted
  success-ne-aborted (finish b) a at_finish = λ p. cc
  success-ne-aborted stop_with_error a r = absurd a
  success-ne-aborted user_abort a r = absurd a
  success-ne-aborted raise a r = absurd a
  success-ne-aborted starved a r = absurd a
  success-ne-aborted (random low high k) a r = absurd a
  success-ne-aborted (query q ps k) a r = absurd a
  success-ne-aborted (modify q ps t) a r = absurd a
  success-ne-aborted (commit t) a r = absurd a
  success-ne-aborted (rollback t) a r = absurd a
  success-ne-aborted (suspend ms t) a r = absurd a

  -- A transaction that has no abort ends otherwise.
  pub Run-ne-aborted :
      {t : Tx Row Real} {tr : List (Event Real)} {e : End}
      → IsAtomic false t
      → Run t tr e
      → e ≢ aborted
  Run-ne-aborted a at_finish = λ p. cc
  Run-ne-aborted a at_stop = λ p. cc
  Run-ne-aborted a at_abort = absurd a
  Run-ne-aborted a at_raise = λ p. cc
  Run-ne-aborted a at_starved = λ p. cc
  Run-ne-aborted a (draw n lo hi r) = Run-ne-aborted (a n) r
  Run-ne-aborted a (answer rows r) = Run-ne-aborted (a rows) r
  Run-ne-aborted a query_throws = λ p. cc
  Run-ne-aborted a (modified r) = Run-ne-aborted a r
  Run-ne-aborted a modify_throws = λ p. cc
  Run-ne-aborted a (commits_then {t} r) = success-ne-aborted t a r
  Run-ne-aborted a commit_throws = λ p. cc
  Run-ne-aborted a (rolls_back_then r) = absurd (cc a.1)
  Run-ne-aborted a rollback_throws = λ p. cc
  Run-ne-aborted a (wakes r) = Run-ne-aborted a r
