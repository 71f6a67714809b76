-- ===== src/Terminal.antt =====
-- src/terminal.h, `TTransactionStats`: the counters and latency histograms of the transactions that a
-- terminal has run. A lock makes each member function one step; `size_t` counters wrap at 2^64.
-- What a histogram throws is an error of `Outcome`, which does not keep the counters moved before it.
pub mod PerType
pub mod Collecting
mod Tests
use tpcc_oceanbase_cpp.Common.{ℕ, ◌/◌}
use tpcc_oceanbase_cpp.Common.Word.{add64}
use tpcc_oceanbase_cpp.Histogram.{Histogram, Outcome, ok, record_value, add, reset, ◌>>=◌}
use tpcc_oceanbase_cpp.Histogram.Inv.{IsValid}
use tpcc_oceanbase_cpp.Histogram.Merge.{Matches}

-- `TTransactionStats`.
pub record Stats : Type 0 where
  pub succeeded : ℕ
  pub failed : ℕ
  pub user_aborted : ℕ
  pub latency : Histogram
  pub latency_full : Histogram
  pub latency_pure : Histogram

-- `TTransactionStats::Collect`, which returns the new `dst`.
unfoldable pub collect : Stats → Stats → Outcome Stats
collect s dst = do
  latency ← add dst.latency s.latency
  latency_full ← add dst.latency_full s.latency_full
  latency_pure ← add dst.latency_pure s.latency_pure
  ok (record {
    succeeded = add64 dst.succeeded s.succeeded;
    failed = add64 dst.failed s.failed;
    user_aborted = add64 dst.user_aborted s.user_aborted;
    latency = latency;
    latency_full = latency_full;
    latency_pure = latency_pure;
  })

-- `TTransactionStats::Clear`.
pub clear : Stats → Stats
clear s = record {
  succeeded = 0;
  failed = 0;
  user_aborted = 0;
  latency = reset s.latency;
  latency_full = reset s.latency_full;
  latency_pure = reset s.latency_pure;
}

-- `AddOK`, for the statistics of the transaction's type; the pure latency is in microseconds.
unfoldable pub count_ok : Stats → ℕ → ℕ → ℕ → Outcome Stats
count_ok s latency_ms latency_full_ms latency_pure_us = do
  latency ← record_value s.latency latency_ms
  latency_full ← record_value s.latency_full latency_full_ms
  latency_pure ← record_value s.latency_pure (latency_pure_us / 1000)
  ok (record s {
    succeeded = add64 s.succeeded 1;
    latency = latency;
    latency_full = latency_full;
    latency_pure = latency_pure;
  })

-- `IncFailed` and `IncUserAborted`.
unfoldable pub inc_failed : Stats → Stats
inc_failed s = record s { failed = add64 s.failed 1 }

unfoldable pub inc_user_aborted : Stats → Stats
inc_user_aborted s = record s { user_aborted = add64 s.user_aborted 1 }

-- The three histograms are valid.
pub record AreValid (s : Stats) : Type 0 where
  pub valid : IsValid s.latency
  pub valid_full : IsValid s.latency_full
  pub valid_pure : IsValid s.latency_pure

-- The three histograms of one have the layouts of the other's.
pub record AreMatching (s dst : Stats) : Type 0 where
  pub matches : Matches dst.latency s.latency
  pub matches_full : Matches dst.latency_full s.latency_full
  pub matches_pure : Matches dst.latency_pure s.latency_pure
