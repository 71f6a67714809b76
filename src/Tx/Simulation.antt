-- ===== src/Tx/Simulation.antt =====
-- src/transaction_simulation.cpp, `GetSimulationTask`.
use tpcc_oceanbase_cpp.Common.{ℕ, zero, suc, true, [], ◌∷◌, ◌==◌, if◌then◌else◌}
use tpcc_oceanbase_cpp.Common.Int.{pos}
use tpcc_oceanbase_cpp.Tx.{
  p_int, Tx, finish, random, query, commit, suspend, simulation_select_cast_int,
}
use tpcc_oceanbase_cpp.Tx.Workload.{district_low_id, district_high_id}

module _ {Row Real : Type 0} where
  -- The draws, whose results are not used.
  unfoldable pub idle_draws : ℕ → Tx Row Real → Tx Row Real
  idle_draws zero k = k
  idle_draws (suc n) k = random district_low_id district_high_id λ _. idle_draws n k

  unfoldable pub select_ones : ℕ → Tx Row Real → Tx Row Real
  select_ones zero k = k
  select_ones (suc n) k = query simulation_select_cast_int (p_int (pos 1) ∷ []) λ _. select_ones n k

  -- The simulation's parameters are not negative.
  unfoldable pub simulation_task : ℕ → ℕ → Tx Row Real
  simulation_task ms select1 =
      idle_draws 10
        (if ms == 0 then select_ones select1 (commit (finish true)) else suspend ms (finish true))
