-- ===== src/Runner/Tests.antt =====
-- The theorems on src/runner.cpp at concrete configurations.
use tpcc_oceanbase_cpp.Common.{
  ℕ, ◌+◌, ◌*◌, ◌≤◌, ◌<◌, ◌≡◌, refl, Bool, true, false, List, [], ◌∷◌, map, All, arith,
}
use tpcc_oceanbase_cpp.Import.Rows.{up_from}
use tpcc_oceanbase_cpp.Runner.{
  RunConfig, Phase, thread_count, all_terminals, first_phase, start_terminals, main_loop, reached,
}
use tpcc_oceanbase_cpp.Runner.Phases.{measured_long_enough}
use tpcc_oceanbase_cpp.Runner.Sizing.{terminal, all_terminals_lem}

abbrev config : RunConfig
config = record {
  warehouse_count = 2500;
  max_inflight = 100;
  config_io_threads = 0;
  config_thread_count = 0;
  cpu_count = 16;
}

-- Three threads are recommended, and made four.
config_threads : thread_count config ≡ 4
unfolding thread_count
config_threads = refl

all_terminals_lem_example :
    (all_terminals 4 3 1 ≡ map (terminal 4) (up_from 0 (3 * 10)))
    × All (λ t. t.thread_index < 4) (all_terminals 4 3 1)
all_terminals_lem_example = all_terminals_lem 4 3 (omega arith)

-- The warmup ends at 130, a round late, and the run of 50 ticks at 185.
abbrev rounds : List (Bool × ℕ)
rounds = (false, 120) ∷ (false, 130) ∷ (false, 179) ∷ (false, 185) ∷ (false, 190) ∷ []

abbrev at_end : Phase
at_end = record { warmup_done = true; warmup_end = 130; run_end = 180 }

run_ends :
    main_loop 50 rounds (start_terminals 50 (105 ∷ 110 ∷ []) (first_phase false 100 101 25 50))
    ≡ (reached 185, at_end)
unfolding main_loop start_terminals first_phase
run_ends = refl

measured_long_enough_example : (at_end.warmup_done ≡ true) × (at_end.warmup_end + 50 ≤ 185)
measured_long_enough_example =
    measured_long_enough false 100 101 25 50 185 (105 ∷ 110 ∷ []) rounds at_end run_ends
