-- ===== src/Runner.antt =====
-- src/runner.cpp, `RunSync`: the sizes that it computes, the terminals, and the phases of a run.
-- Times are numbers of clock ticks. The display, the log and the printed rates are left out.
pub mod Sizing
pub mod Phases
mod Tests
use tpcc_oceanbase_cpp.Common.{
  ℕ, zero, suc, ◌+◌, ◌-◌, ◌*◌, ◌/◌, ◌%◌, ◌^◌, Bool, true, false, not, ◌&&◌, List, [], ◌∷◌, ◌++◌,
  ◌==◌, leb, ltb, if◌then◌else◌, min, max,
}

-- `TRunConfig`, with the result of `NumberOfMyCpus`.
pub record RunConfig : Type 0 where
  pub warehouse_count : ℕ
  pub max_inflight : ℕ
  pub config_io_threads : ℕ
  pub config_thread_count : ℕ
  pub cpu_count : ℕ

abbrev pub terminals_per_warehouse : ℕ
terminals_per_warehouse = 10

abbrev pub warehouses_per_cpu_core : ℕ
warehouses_per_cpu_core = 1000

unfoldable pub terminal_count : RunConfig → ℕ
terminal_count c = c.warehouse_count * terminals_per_warehouse

unfoldable pub pool_size : RunConfig → ℕ
unfolding terminal_count
pool_size c = min (terminal_count c) c.max_inflight

unfoldable pub io_threads : RunConfig → ℕ
unfolding pool_size
io_threads c =
    max (if c.config_io_threads == 0 then c.max_inflight else c.config_io_threads) (pool_size c)

unfoldable pub reserved_for_io : RunConfig → ℕ
unfolding io_threads
reserved_for_io c = min (io_threads c) (max (c.cpu_count / 4) 1)

-- `maxTerminalThreadCountAvailable`.
unfoldable pub max_available : RunConfig → ℕ
unfolding reserved_for_io
max_available c = if ltb (reserved_for_io c) c.cpu_count then c.cpu_count - reserved_for_io c else 1

unfoldable pub recommended : RunConfig → ℕ
recommended c = (c.warehouse_count + warehouses_per_cpu_core - 1) / warehouses_per_cpu_core

-- An odd number is made even while there is room.
abbrev pub even_out : ℕ → ℕ → ℕ
even_out n available = if not (n % 2 == 0) && ltb n available then n + 1 else n

unfoldable pub thread_count : RunConfig → ℕ
unfolding max_available recommended terminal_count
thread_count c =
    max
      (if c.config_thread_count == 0
        then even_out (min (min (max_available c) (terminal_count c)) (recommended c))
            (max_available c)
        else min c.config_thread_count (max_available c))
      1

-- What `TTerminal` is constructed with.
pub record Terminal : Type 0 where
  pub terminal_id : ℕ
  pub warehouse_id : ℕ
  pub thread_index : ℕ

-- The inner loop, with `n` rounds left of `t`, and the outer one, with `n` left of `wh`.
unfoldable pub warehouse_terminals : ℕ → ℕ → ℕ → ℕ → List Terminal
warehouse_terminals threads wh zero t = []
warehouse_terminals threads wh (suc n) t =
    let id : ℕ = (wh - 1) * terminals_per_warehouse + t in
    record { terminal_id = id; warehouse_id = wh; thread_index = id % threads }
    ∷ warehouse_terminals threads wh n (t + 1)

unfoldable pub all_terminals : ℕ → ℕ → ℕ → List Terminal
unfolding warehouse_terminals
all_terminals threads zero wh = []
all_terminals threads (suc n) wh =
    warehouse_terminals threads wh terminals_per_warehouse 0 ++ all_terminals threads n (wh + 1)

-- The least number of seconds of warmup, a `uint32_t`.
unfoldable pub min_warmup : RunConfig → ℕ
unfolding terminal_count
min_warmup c = (terminal_count c * 1 / 1000 + 1) % 2 ^ 32

abbrev pub adaptive_warmup : ℕ → ℕ
adaptive_warmup warehouses =
    if leb warehouses 10
    then 30
    else if leb warehouses 100
    then 5 * 60
    else if leb warehouses 1000
    then 10 * 60
    else 30 * 60

-- `warmupSeconds`, where `requested` is `WarmupDuration`.
unfoldable pub warmup_seconds : RunConfig → Bool → ℕ → ℕ
unfolding min_warmup
warmup_seconds c skip requested =
    if skip
    then 0
    else if requested == 0
    then max (adaptive_warmup c.warehouse_count) (min_warmup c)
    else (let asked : ℕ = requested % 2 ^ 32 in
        if ltb asked (min_warmup c) then min_warmup c else asked)

-- The variables of the main loop that say where the run stands.
pub record Phase : Type 0 where
  pub warmup_done : Bool
  pub warmup_end : ℕ
  pub run_end : ℕ

-- At the time `start`; with no warmup the clock is read again, as `later`.
unfoldable pub first_phase : Bool → ℕ → ℕ → ℕ → ℕ → Phase
first_phase skip start later warmup duration =
    if skip
    then record { warmup_done = true; warmup_end = later; run_end = later + duration }
    else record {
      warmup_done = false;
      warmup_end = start + warmup;
      run_end = start + warmup + duration;
    }

-- The first part of `maybeUpdateDisplay`.
unfoldable pub tick : ℕ → ℕ → Phase → Phase
tick duration now p =
    if not p.warmup_done && leb p.warmup_end now
    then record { warmup_done = true; warmup_end = now; run_end = now + duration }
    else p

-- The loop that starts the terminals: the clock after each start.
unfoldable pub start_terminals : ℕ → List ℕ → Phase → Phase
unfolding tick
start_terminals duration [] p = p
start_terminals duration (now ∷ nows) p = start_terminals duration nows (tick duration now p)

-- How the main loop ends, or that the given rounds do not end it.
pub data LoopEnd : Type 0 where
  reached : ℕ → LoopEnd
  interrupted : LoopEnd
  running : LoopEnd

-- A round is the answer of the stop token and the clock.
unfoldable pub main_loop : ℕ → List (Bool × ℕ) → Phase → LoopEnd × Phase
unfolding tick
main_loop duration [] p = (running, p)
main_loop duration ((stop, now) ∷ rounds) p =
    let rest = main_loop duration rounds (tick duration now p) in
    if stop
    then (interrupted, p)
    else if p.warmup_done && leb p.run_end now
    then (reached now, p)
    else rest
