-- ===== src/Db/Session.antt =====
-- src/db/session.h and src/db/session.cpp, `ObSession`: the transaction that a session opens lazily,
-- and what the tasks that it submits to the executor do to it.
-- The connection to the server is a parameter, `Connection`; a task's exception is `threw`, and the
-- promise receives the outcome.
use tpcc_oceanbase_cpp.Common.{
  inl, inr, refl, sym, subst, ◌∙◌, Bool-cases, Option-cases, Bool, List, Option, [], arith, false,
  if◌then◌else◌, leb, length, none, some, true, ℕ, ◌&&◌, ◌++◌, ◌==◌, ◌∷◌, ◌≡◌, ◌⊎◌,
}

-- `ObConnection`, with `S` the state of the server. A call may fail; `rollback` never throws.
pub record Connection : Type 1 where
  pub S : Type 0
  pub Command : Type 0
  pub Answer : Type 0
  pub begin_tx : S → Bool × S
  pub run_command : Command → S → Option Answer × S
  pub run_simple : Command → S → Option Answer × S
  pub commit_tx : S → Bool × S
  pub rollback_tx : S → S

abbrev pub bulk_batch_rows : ℕ
bulk_batch_rows = 200

module _ (C : Connection) where
  open C use {S, Command, Answer, begin_tx, run_command, run_simple, commit_tx, rollback_tx}

  -- A session with a connection.
  pub record Session : Type 0 where
    pub server : S
    pub in_txn : Bool
    pub shutdown_flag : Bool

  pub data Outcome : Type 0 where
    value : Answer → Outcome
    done : Outcome
    threw : Outcome

  -- `ResetTxnOnError`.
  pub reset_txn_on_error : Session → Session
  reset_txn_on_error s =
      if s.in_txn then record s { server = rollback_tx s.server; in_txn = false } else s

  -- `EnsureTxn`: `false` if `START TRANSACTION` throws, which leaves the flag alone.
  pub ensure_txn : Session → Bool × Session
  ensure_txn s =
      if s.in_txn
      then (true, s)
      else (let (started, server) = begin_tx s.server in
          (started, record s { server = server; in_txn = started }))

  -- The statement of a task in which a transaction is open.
  pub in_transaction : Command → Session → Outcome × Session
  in_transaction c s =
      let (answer, server) = run_command c s.server in
      elim answer [
        | some a ↦ (value a, record s { server = server })
        | none ↦ (threw, reset_txn_on_error (record s { server = server }))
      ]

  -- `ExecuteQuery` and `ExecuteModify`, by identifier and by text.
  pub execute : Command → Session → Outcome × Session
  unfolding reset_txn_on_error ensure_txn in_transaction
  execute c s =
      if s.shutdown_flag
      then (threw, reset_txn_on_error s)
      else (let (started, s') = ensure_txn s in
          if started then in_transaction c s' else (threw, reset_txn_on_error s'))

  -- The state of a bulk insert: the rows of `batch`, and the session.
  pub record Bulk (Row : Type 0) : Type 0 where
    pub batch : List Row
    pub session : Session

  module _ {Row : Type 0} (width : Row → ℕ) (columns : ℕ) (insert : List Row → Command) where
    -- `row.size() != columns.size()` for no row.
    pub rows_fit : List Row → Bool
    rows_fit [] = true
    rows_fit (row ∷ rows) = width row == columns && rows_fit rows

    -- `flush`: `false` where it throws, with the batch as it was.
    pub flush : Bulk Row → Bool × Bulk Row
    unfolding rows_fit
    flush b = elim b.batch [
      | [] ↦ (true, b)
      | row ∷ rows ↦
          if rows_fit (row ∷ rows)
          then (let (answer, server) = run_command (insert (row ∷ rows)) b.session.server in
              let s : Session = record b.session { server = server } in
              elim answer [
                | some a ↦ (true, record { batch = []; session = s })
                | none ↦ (false, record b { session = s })
              ])
          else (false, b)
    ]

    -- The rows that the writer hands over, one by one, and the flush at the end.
    pub write_rows : List Row → Bulk Row → Bool × Bulk Row
    unfolding flush
    write_rows [] b = flush b
    write_rows (row ∷ rows) b =
        let b' : Bulk Row = record b { batch = b.batch ++ row ∷ [] } in
        if leb bulk_batch_rows (length b'.batch)
        then (let (written, b'') = flush b' in
            if written then write_rows rows b'' else (false, b''))
        else write_rows rows b'

    -- `ExecuteBulk`, with the rows that its writer produces; the writer does not throw.
    pub execute_bulk : List Row → Session → Outcome × Session
    unfolding reset_txn_on_error ensure_txn write_rows
    execute_bulk rows s =
        if s.shutdown_flag
        then (threw, reset_txn_on_error s)
        else (let (started, s') = ensure_txn s in
            if started
            then (let (finished, b) = write_rows rows (record { batch = []; session = s' }) in
                if finished then (done, b.session) else (threw, reset_txn_on_error b.session))
            else (threw, reset_txn_on_error s'))

  -- `Commit`.
  pub commit : Session → Outcome × Session
  commit s =
      if s.shutdown_flag
      then (threw, record s { in_txn = false })
      else (if s.in_txn
          then (let (ok, server) = commit_tx s.server in
              (if ok then done else threw, record s { server = server; in_txn = false }))
          else (done, s))

  -- `Rollback`.
  pub rollback : Session → Outcome × Session
  rollback s =
      if s.in_txn
      then (done, record s { server = rollback_tx s.server; in_txn = false })
      else (done, s)

  -- `ExecuteNonTx`, which neither looks at the shutdown flag nor opens a transaction.
  pub execute_non_tx : Command → Session → Outcome × Session
  execute_non_tx c s =
      let s' : Session =
        if s.in_txn then record s { server = rollback_tx s.server; in_txn = false } else s in
      let (answer, server) = run_simple c s'.server in
      (elim answer [ some a ↦ value a | none ↦ threw ], record s' { server = server })

  -- `ReleaseConnection` and the destructor: an open transaction is rolled back.
  pub release_connection : Session → Session
  release_connection s =
      if s.in_txn then record s { server = rollback_tx s.server; in_txn = false } else s

  -- What the server is taken to do: `is_open` says whether the connection has a transaction open.
  pub record Transactional : Type 0 where
    pub is_open : S → Bool
    pub begin_opens : (s : S) → (begin_tx s).0 ≡ true → is_open (begin_tx s).1 ≡ true
    pub begin_refused :
        (s : S) → is_open s ≡ false → (begin_tx s).0 ≡ false → is_open (begin_tx s).1 ≡ false
    pub rollback_closes : (s : S) → is_open (rollback_tx s) ≡ false

  -- The flag of a session and its server agree that a transaction is open, or not.
  abbrev pub Agrees : Transactional → Bool → Session → Type 0
  Agrees t b s = (s.in_txn ≡ b) × (t.is_open s.server ≡ b)

  reset-Agrees :
      (t : Transactional) (s : Session)
      → (s.in_txn ≡ false → t.is_open s.server ≡ false)
      → Agrees t false (reset_txn_on_error s)
  unfolding reset_txn_on_error
  reset-Agrees t s h = ground (arith, t.rollback_closes s.server)

  ensure-Agrees :
      (t : Transactional) (s : Session)
      → s.in_txn ≡ t.is_open s.server
      → let (started, s') = ensure_txn s in Agrees t started s'
  unfolding ensure_txn
  ensure-Agrees t s h = ground (arith, t.begin_opens s.server, t.begin_refused s.server)

  -- A transaction is open after an answer, and none after an exception.
  abbrev pub Ends : Transactional → Outcome × Session → Type 0
  Ends t r =
      ((a : Answer) × (r.0 ≡ value a) × Agrees t true r.1) ⊎ ((r.0 ≡ threw) × Agrees t false r.1)

  in_transaction-Agrees :
      (t : Transactional) (c : Command) (s : Session)
      → ((u : S) (a : Answer)
          → t.is_open u ≡ true
          → (run_command c u).0 ≡ some a
          → t.is_open (run_command c u).1 ≡ true)
      → Agrees t true s
      → Ends t (in_transaction c s)
  unfolding in_transaction
  in_transaction-Agrees t c s keeps (flag, open_now) =
      let failed : Session = record s { server = (run_command c s.server).1 } in
      let reset = reset-Agrees t failed (λ n. absurd (cc)) in
      elim (Option-cases (run_command c s.server).0) [
        | inl e ↦ rw (e, in_transaction) (inr (refl, reset))
        | inr (a, e) ↦ rw (e, in_transaction) (inl (a, refl, (flag, keeps s.server a open_now e)))
      ]

  execute_runs :
      (c : Command) (s : Session)
      → s.shutdown_flag ≡ false
      → execute c s ≡ (
          let (started, s') = ensure_txn s in
          if started then in_transaction c s' else (threw, reset_txn_on_error s'))
  unfolding execute
  execute_runs c s n = ground arith

  -- A statement on a session whose flag says whether its server has a transaction open, where a statement
  -- that is answered does not end the transaction: if it succeeds the transaction is open, at the session
  -- and at the server, and if it throws, for whatever reason, none is open at either.
  pub execute_in_txn :
      (t : Transactional) (c : Command) (s : Session)
      → ((u : S) (a : Answer)
          → t.is_open u ≡ true
          → (run_command c u).0 ≡ some a
          → t.is_open (run_command c u).1 ≡ true)
      → s.in_txn ≡ t.is_open s.server
      → Ends t (execute c s)
  execute_in_txn t c s keeps h =
      let early = reset-Agrees t s (λ n. sym h ∙ n) in
      let (flag, open_now) = ensure-Agrees t s h in
      let s' = (ensure_txn s).1 in
      elim (Bool-cases s.shutdown_flag) [
        | inl y ↦
            let e : execute c s ≡ (threw, reset_txn_on_error s) = unfold execute in rw y refl in
            subst (Ends t) (sym e) (inr (refl, early))
        | inr n ↦ subst (Ends t) (sym (execute_runs c s n)) (elim (Bool-cases (ensure_txn s).0) [
          | inl b ↦ rw b (in_transaction-Agrees t c s' keeps (flag ∙ b, open_now ∙ b))
          | inr b ↦ rw b (inr (refl, reset-Agrees t s' (λ m. open_now ∙ b)))
        ])
      ]

  -- After `Commit`, `Rollback`, `ExecuteNonTx` and `ReleaseConnection` no transaction is open.
  end_of_txn :
      (c : Command) (s : Session)
      → ((commit s).1.in_txn ≡ false)
        × ((rollback s).1.in_txn ≡ false)
        × ((execute_non_tx c s).1.in_txn ≡ false)
        × ((release_connection s).in_txn ≡ false)
  unfolding commit rollback execute_non_tx release_connection
  end_of_txn c s = (ground arith, ground arith, ground arith, ground arith)

  module _ {Row : Type 0} (width : Row → ℕ) (columns : ℕ) (insert : List Row → Command) where
    flush-in_txn :
        (batch : List Row) (s : Session)
        → (flush width columns insert (record { batch = batch; session = s })).1.session.in_txn
          ≡ s.in_txn
    unfolding flush
    flush-in_txn [] s = refl
    flush-in_txn (row ∷ rows) s = ground arith

    write_rows-in_txn :
        (rows batch : List Row) (s : Session)
        → s.in_txn ≡ true
        → (write_rows width columns insert rows
            (record { batch = batch; session = s })).1.session.in_txn
          ≡ true
    unfolding write_rows
    write_rows-in_txn [] batch s h = flush-in_txn batch s ∙ h
    write_rows-in_txn (row ∷ rows) batch s h =
        let b : Bulk Row = record { batch = batch ++ row ∷ []; session = s } in
        let (written, f) = flush width columns insert b in
        let kept : f.session.in_txn ≡ true = flush-in_txn (batch ++ row ∷ []) s ∙ h in
        let full = write_rows-in_txn rows f.batch f.session kept in
        let more = write_rows-in_txn rows (batch ++ row ∷ []) s h in
        elim (Bool-cases (leb bulk_batch_rows (length (batch ++ row ∷ [])))) [
          | inl e ↦ elim (Bool-cases written) [ inl y ↦ rw (e, y) full | inr n ↦ rw (e, n) kept ]
          | inr e ↦ rw e more
        ]

    -- A bulk insert that succeeds leaves its transaction open, and one that throws, for whatever
    -- reason, leaves none.
    execute_bulk_in_txn :
        (rows : List Row) (s : Session)
        → let (o, s') = execute_bulk width columns insert rows s in
          ((o ≡ done) × (s'.in_txn ≡ true)) ⊎ ((o ≡ threw) × (s'.in_txn ≡ false))
    unfolding execute_bulk
    execute_bulk_in_txn rows s =
        let (started, s') = ensure_txn s in let kept = write_rows-in_txn rows [] s' in ground arith
