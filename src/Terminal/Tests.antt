-- ===== src/Terminal/Tests.antt =====
-- The theorems on the terminal's statistics at concrete statistics.
use tpcc_oceanbase_cpp.Common.{ℕ, ◌≡◌, refl, true, List, [], ◌∷◌, arith}
use tpcc_oceanbase_cpp.Histogram.{Histogram, ok, ◌>>=◌}
use tpcc_oceanbase_cpp.Histogram.Layout.{bound}
use tpcc_oceanbase_cpp.Histogram.Inv.{IsValid, sum}
use tpcc_oceanbase_cpp.Terminal.{Stats, AreValid, AreMatching}
use tpcc_oceanbase_cpp.Terminal.PerType.{TerminalStats, Fitting, fits, no_types, collect_all}
use tpcc_oceanbase_cpp.Terminal.Collecting.{
  Counted, success, failure, count_events, collect-count_events,
}

abbrev one_value : Histogram
one_value = record {
  hdr_till = 2;
  max_value = 4;
  buckets = 0 ∷ 1 ∷ 0 ∷ 0 ∷ [];
  total_count = 1;
  max_recorded = 1;
}

one_value-IsValid : IsValid one_value
unfolding bound sum
one_value-IsValid = record {
  hdr_pos = omega arith;
  fits = omega arith;
  small = omega arith;
  ranges = 1;
  sized = refl;
  below = omega arith;
  above = omega arith;
  counts = omega arith;
  total = refl;
}

abbrev one_success : Stats
one_success = record {
  succeeded = 1;
  failed = 2;
  user_aborted = 0;
  latency = one_value;
  latency_full = one_value;
  latency_pure = one_value;
}

one_success-AreValid : AreValid one_success
one_success-AreValid = record {
  valid = one_value-IsValid;
  valid_full = one_value-IsValid;
  valid_pure = one_value-IsValid;
}

-- Two types of transactions.
abbrev two_types : TerminalStats
two_types = record { per_type = one_success ∷ one_success ∷ []; was_cleared = true }

one_success-AreMatching : AreMatching one_success one_success
one_success-AreMatching = record {
  matches = record { hdr = refl; limit = refl; sized = refl };
  matches_full = record { hdr = refl; limit = refl; sized = refl };
  matches_pure = record { hdr = refl; limit = refl; sized = refl };
}

two_types-Fitting : Fitting two_types.per_type two_types.per_type
two_types-Fitting =
    fits one_success-AreValid one_success-AreValid one_success-AreMatching
      (fits one_success-AreValid one_success-AreValid one_success-AreMatching no_types)

-- A success and a failure of the first type, and a failure of the second one.
abbrev results : List (ℕ × Counted)
results = (0, success 3 4 2000) ∷ (1, failure) ∷ (0, failure) ∷ []

collect-count_events_example :
    (u : TerminalStats) × ((count_events two_types results >>= λ t. collect_all t two_types) ≡ ok u)
    × ((collect_all two_types two_types >>= λ t. count_events t results) ≡ ok u)
collect-count_events_example = collect-count_events results two_types two_types two_types-Fitting
