-- ===== src/Db/Tests.antt =====
-- The theorems of the database layer at concrete inputs, and runs of the model.
use tpcc_oceanbase_cpp.Common.{
  List, ℕ, All, ◌+◌, ◌<◌, ◌≡◌, ◌≤◌, ◌⊎◌, refl, Bool, true, false, [], ◌∷◌, some, none, arith, ◌==◌,
  ltb, if◌then◌else◌,
}
use tpcc_oceanbase_cpp.Db.Errors.{
  Attempt, result, db_error, retryable, run_transaction, verdicts, run_transaction_bounds,
  max_retries, attempt_loop, after_attempt, is_shutdown,
}
use tpcc_oceanbase_cpp.Db.Session.{
  Connection, Session, execute, Transactional, Ends, execute_in_txn,
}
use tpcc_oceanbase_cpp.Db.Statements.{
  Use, Answers, calls, clears, no_statements, run, run_fails, places,
}
use tpcc_oceanbase_cpp.Common.{Option, ◌*◌, ◌/◌, ◌%◌, ◌-◌, leb, ◌&&◌}
use tpcc_oceanbase_cpp.Common.Int.{ℤ, pos, negsuc}
use tpcc_oceanbase_cpp.Db.ConnectionString.{
  Bytes, Config, defaults, trim_front, trim_back, parse, quote_ident,
}
use tpcc_oceanbase_cpp.Db.RoundTrip.{IsPrintable, print, parse-print}
use tpcc_oceanbase_cpp.Db.Handles.{IsUse, handles_once}
use tpcc_oceanbase_cpp.Async.Counting.{count}
use tpcc_oceanbase_cpp.Db.Pool.{new, acquire_session, release_session, cancel_all}
use tpcc_oceanbase_cpp.Db.Lending.{
  System, Reach, here, next, acquires, releases, opened, pool_lends_once,
}

-- Two deadlocks, then success.
abbrev attempts : ℕ → Attempt
attempts n = if ltb n 2 then db_error 1213 else result true

third_time : (run_transaction attempts (λ _. false)).attempts ≡ 3
unfolding run_transaction attempt_loop after_attempt retryable is_shutdown
third_time = refl

run_transaction_bounds_example :
    let t = run_transaction attempts (λ _. false) in
    (1 ≤ t.attempts) × (t.attempts ≤ max_retries + 1) × (verdicts t ≤ 1)
run_transaction_bounds_example = run_transaction_bounds attempts (λ _. false)

-- A server that knows whether a transaction is open and fails on command 9.
abbrev server : Connection
server = record {
  S = Bool;
  Command = ℕ;
  Answer = ℕ;
  begin_tx = λ s. (true, true);
  run_command = λ c s. (if c == 9 then none else some c, s);
  run_simple = λ c s. (some c, s);
  commit_tx = λ s. (true, false);
  rollback_tx = λ s. false;
}

abbrev transactional : Transactional server
transactional = record {
  is_open = λ s. s;
  begin_opens = λ s e. refl;
  begin_refused = λ s e f. f;
  rollback_closes = λ s. refl;
}

abbrev idle : Session server
idle = record { server = false; in_txn = false; shutdown_flag = false }

execute_in_txn_example : Ends server transactional (execute server 9 idle)
execute_in_txn_example = execute_in_txn server transactional 9 idle (λ u a e f. e) refl

abbrev bulk_rows : List ℕ
bulk_rows = 5 ∷ 6 ∷ 7 ∷ []

-- Three connections, of which two have been acquired and the second handed back.
abbrev one_out : System
one_out = record {
  pool = record { free = 3 ∷ 2 ∷ []; checked_out = 1 ∷ []; shutdown = false; cancelled = false };
  held = 1 ∷ [];
}

one_out-Reach : Reach (opened (1 ∷ 2 ∷ 3 ∷ [])) one_out
unfolding new acquire_session release_session
one_out-Reach =
    next (next (next here (acquires 1 _ refl refl)) (acquires 2 _ refl refl))
      (releases [] 2 (1 ∷ []) refl refl)

distinct : (c : ℕ) → count c (1 ∷ 2 ∷ 3 ∷ []) ≤ 1
distinct c = ground arith

pool_lends_once_example :
    (count 1 one_out.pool.free + count 1 one_out.held ≡ count 1 (1 ∷ 2 ∷ 3 ∷ []))
    × (count 1 (cancel_all one_out.pool).1 ≡ count 1 one_out.held)
pool_lends_once_example = pool_lends_once (1 ∷ 2 ∷ 3 ∷ []) distinct one_out-Reach 1

abbrev granted : Answers
granted = record { inits = true; prepares = true; binds = true; executes = true }

abbrev refused : Answers
refused = record { inits = true; prepares = false; binds = true; executes = true }

-- Statement 3 cannot be prepared at first, and its handle is lost; statement 5 is used twice.
abbrev statement_uses : List (Use ℕ)
statement_uses =
    calls 3 refused (7 ∷ [])
    ∷ calls 3 granted (7 ∷ [])
    ∷ calls 5 granted []
    ∷ clears
    ∷ calls 5 granted []
    ∷ calls 5 granted (1 ∷ [])
    ∷ []

three_opened : 2 < (run statement_uses no_statements).opened
unfolding run no_statements
three_opened = omega arith

in_enumeration : All IsUse statement_uses
unfolding IsUse
in_enumeration = (omega arith, (omega arith, (omega arith, (tt, (omega arith, (omega arith, tt))))))

handles_once_example :
    (places 2 (run statement_uses no_statements) ≡ 1)
    ⊎ ((places 2 (run statement_uses no_statements) ≡ 0)
        × (run_fails statement_uses no_statements ≡ true))
handles_once_example = handles_once statement_uses 2 in_enumeration three_opened

-- The first handle is nowhere: nothing closes it.
first_lost : places 0 (run statement_uses no_statements) ≡ 0
unfolding run no_statements
first_lost = refl

-- A port of four digits is written and read.
abbrev port_text : ℤ → Bytes
port_text (pos n) =
    (48 + n / 1000 % 10) ∷ (48 + n / 100 % 10) ∷ (48 + n / 10 % 10) ∷ (48 + n % 10) ∷ []
port_text (negsuc n) = []

abbrev read_digits : ℕ → Bytes → Option ℤ
read_digits n [] = some (pos n)
read_digits n (c ∷ cs) =
    let rest = read_digits (n * 10 + (c - 48)) cs in if leb 48 c && leb c 57 then rest else none

-- A password with a space and `=` inside, and no path.
abbrev remote : Config
remote = record {
  host = b'd' ∷ b'b' ∷ b'1' ∷ [];
  port = pos 3306;
  user = b'm' ∷ b'e' ∷ [];
  password = b'a' ∷ b' ' ∷ b'=' ∷ b'b' ∷ [];
  database = b't' ∷ [];
  path = [];
}

remote-IsPrintable : IsPrintable port_text remote
unfolding trim_front trim_back
remote-IsPrintable = record {
  plain_host = record { no_separator = refl; front = refl; back = refl };
  plain_port = record { no_separator = refl; front = refl; back = refl };
  plain_user = record { no_separator = refl; front = refl; back = refl };
  plain_password = record { no_separator = refl; front = refl; back = refl };
  plain_database = record { no_separator = refl; front = refl; back = refl };
  plain_path = record { no_separator = refl; front = refl; back = refl };
}

parse-print_example : parse (read_digits 0) (print port_text remote) ≡ some remote
parse-print_example = parse-print (read_digits 0) port_text remote refl remote-IsPrintable

-- Spaces separate the settings where there is no `;`, and other keys are skipped.
parse_spaces :
    parse (read_digits 0) (b'd' ∷ b'b' ∷ b'=' ∷ b'x' ∷ b' ' ∷ b' ' ∷ b'q' ∷ b'=' ∷ b'y' ∷ [])
    ≡ some (record defaults { database = b'x' ∷ [] })
unfolding parse
parse_spaces = refl

-- A port that is no number is an exception.
parse_no_port : parse (read_digits 0) (b'p' ∷ b'o' ∷ b'r' ∷ b't' ∷ b'=' ∷ b'x' ∷ []) ≡ none
unfolding parse
parse_no_port = refl

quoted : quote_ident (b't' ∷ b'_' ∷ b'1' ∷ []) ≡ some (b'`' ∷ b't' ∷ b'_' ∷ b'1' ∷ b'`' ∷ [])
unfolding quote_ident
quoted = refl
