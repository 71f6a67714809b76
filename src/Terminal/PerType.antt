-- ===== src/Terminal/PerType.antt =====
-- src/terminal.h, `TTerminalStats`: the statistics of all types of transactions, by the number of the type.
use tpcc_oceanbase_cpp.Common.{ℕ, zero, suc, Bool, true, List, [], ◌∷◌, if◌then◌else◌, map}
use tpcc_oceanbase_cpp.Histogram.{Outcome, ok, ◌>>=◌}
use tpcc_oceanbase_cpp.Terminal.{
  Stats, AreValid, AreMatching, collect, clear, count_ok, inc_failed, inc_user_aborted,
}

pub record TerminalStats : Type 0 where
  pub per_type : List Stats
  pub was_cleared : Bool

-- `Collect` on each type, from this array to the other.
unfoldable pub collect_types : List Stats → List Stats → Outcome (List Stats)
collect_types [] dst = ok dst
collect_types (s ∷ ss) [] = ok []
collect_types (s ∷ ss) (d ∷ ds) = do t ← collect s d; ts ← collect_types ss ds; ok (t ∷ ts)

unfoldable pub collect_all : TerminalStats → TerminalStats → Outcome TerminalStats
unfolding collect_types
collect_all s dst = do ts ← collect_types s.per_type dst.per_type; ok (record dst { per_type = ts })

pub clear_all : TerminalStats → TerminalStats
clear_all s = record s { per_type = map clear s.per_type }

-- `ClearOnce`, whose exchange is one step.
pub clear_once : TerminalStats → TerminalStats
unfolding clear_all
clear_once s = if s.was_cleared then s else clear_all (record s { was_cleared = true })

-- A change of the statistics of one type.
abbrev pub on_type : (Stats → Outcome Stats) → ℕ → List Stats → Outcome (List Stats)
on_type f i [] = ok []
on_type f zero (s ∷ ss) = f s >>= λ t. ok (t ∷ ss)
on_type f (suc i) (s ∷ ss) = on_type f i ss >>= λ ts. ok (s ∷ ts)

unfoldable pub add_ok_of : TerminalStats → ℕ → ℕ → ℕ → ℕ → Outcome TerminalStats
add_ok_of s type latency_ms full_ms pure_us = do
  ts ← on_type (λ t. count_ok t latency_ms full_ms pure_us) type s.per_type
  ok (record s { per_type = ts })

unfoldable pub inc_failed_of : TerminalStats → ℕ → Outcome TerminalStats
inc_failed_of s type = do
  ts ← on_type (λ t. ok (inc_failed t)) type s.per_type
  ok (record s { per_type = ts })

unfoldable pub inc_user_aborted_of : TerminalStats → ℕ → Outcome TerminalStats
inc_user_aborted_of s type = do
  ts ← on_type (λ t. ok (inc_user_aborted t)) type s.per_type
  ok (record s { per_type = ts })

-- Two arrays of one length, with valid histograms of the same layouts at each type.
pub data Fitting : List Stats → List Stats → Type 0 where
  no_types : Fitting [] []
  fits :
      {s d : Stats} {ss ds : List Stats}
      → AreValid s
      → AreValid d
      → AreMatching s d
      → Fitting ss ds
      → Fitting (s ∷ ss) (d ∷ ds)
