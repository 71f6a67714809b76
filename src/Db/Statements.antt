-- ===== src/Db/Statements.antt =====
-- src/db/prepared_statement.cpp, `ObStatementCache`: the prepared statements of a connection.
-- An id is its number in `QueryId`. The handles that `mysql_stmt_init` gives are numbered in order. What
-- the client library answers to a call is a parameter of the call.
use tpcc_oceanbase_cpp.Common.{
  ℕ, ◌+◌, Bool, true, false, not, ◌&&◌, ◌||◌, List, [], ◌∷◌, ◌++◌, Option, none, some, ◌==◌,
  if◌then◌else◌, get_or, set, map, replicate,
}
use tpcc_oceanbase_cpp.Async.Counting.{count}

-- `StmtEntry`, with the parameters that are bound.
pub record Entry {ℓ} (A : Type ℓ) : Type ℓ where
  pub handle : Option ℕ
  pub prepared : Bool
  pub bound : List A

-- The entries, the number of handles that were opened, and those that were closed.
pub record Cache {ℓ} (A : Type ℓ) : Type ℓ where
  pub entries : List (Entry A)
  pub opened : ℕ
  pub closed : List ℕ

-- Whether `mysql_stmt_init`, `mysql_stmt_prepare`, `mysql_stmt_bind_param` and `mysql_stmt_execute`
-- succeed.
pub record Answers : Type 0 where
  pub inits : Bool
  pub prepares : Bool
  pub binds : Bool
  pub executes : Bool

abbrev pub query_count : ℕ
query_count = 34

module _ {ℓ} {A : Type ℓ} where
  abbrev pub blank : Entry A
  blank = record { handle = none; prepared = false; bound = [] }

  unfoldable pub no_statements : Cache A
  no_statements = record { entries = replicate query_count blank; opened = 0; closed = [] }

  abbrev pub entry : ℕ → Cache A → Entry A
  entry i c = get_or c.entries i blank

  -- `Prepare`, which answers whether it returns.
  unfoldable pub prepare : ℕ → Answers → Cache A → Bool × Cache A
  prepare i a c =
      if (entry i c).prepared
      then (true, c)
      else if not a.inits
      then (false, record c { entries = set c.entries i (record (entry i c) { handle = none }) })
      else (
        a.prepares,
        record c {
          entries =
              set c.entries i
                (record (entry i c) { handle = some c.opened; prepared = a.prepares });
          opened = c.opened + 1;
        },
      )

  -- `Query` and `Execute`.
  unfoldable pub call : ℕ → Answers → List A → Cache A → Bool × Cache A
  unfolding prepare
  call i a params c =
      let (returns, after) = prepare i a c in
      if returns
      then (
        a.binds && a.executes,
        record after { entries = set after.entries i (record (entry i after) { bound = params }) },
      )
      else (false, after)

  abbrev pub handles : List (Entry A) → List ℕ
  handles [] = []
  handles (e ∷ es) = elim e.handle [ none ↦ handles es | some h ↦ h ∷ handles es ]

  -- `Clear`, which the destructor calls too.
  unfoldable pub clear_statements : Cache A → Cache A
  clear_statements c = record c {
    entries = map (λ e. blank) c.entries;
    closed = c.closed ++ handles c.entries;
  }

-- What a connection does with its cache.
pub data Use {ℓ} (A : Type ℓ) : Type ℓ where
  calls : ℕ → Answers → List A → Use A
  clears : Use A

module _ {ℓ} {A : Type ℓ} where
  unfoldable pub use_statements : Use A → Cache A → Cache A
  unfolding call clear_statements
  use_statements (calls i a params) c = (call i a params c).1
  use_statements clears c = clear_statements c

  -- Whether a statement had to be prepared and could not be.
  unfoldable pub fails_to_prepare : Use A → Cache A → Bool
  fails_to_prepare (calls i a params) c = not (entry i c).prepared && not (a.inits && a.prepares)
  fails_to_prepare clears c = false

  unfoldable pub run : List (Use A) → Cache A → Cache A
  unfolding use_statements
  run [] c = c
  run (u ∷ us) c = run us (use_statements u c)

  unfoldable pub run_fails : List (Use A) → Cache A → Bool
  unfolding use_statements fails_to_prepare
  run_fails [] c = false
  run_fails (u ∷ us) c = fails_to_prepare u c || run_fails us (use_statements u c)

  -- How often a handle stands in the entries.
  abbrev pub in_entry : ℕ → Entry A → ℕ
  in_entry h e = elim e.handle [ none ↦ 0 | some g ↦ if g == h then 1 else 0 ]

  abbrev pub occurs : ℕ → List (Entry A) → ℕ
  occurs h [] = 0
  occurs h (e ∷ es) = in_entry h e + occurs h es

  abbrev pub places : ℕ → Cache A → ℕ
  places h c = occurs h c.entries + count h c.closed
