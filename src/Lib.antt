-- ===== src/Lib.antt =====
-- A verification library for the TPC-C benchmark for OceanBase: models of its data structures and
-- of the logic that drives the benchmark, with the theorems that make them correct.
--
-- Terminals run transactions on sessions that a pool lends out; worker threads resume the coroutines
-- of the terminals from queues of ready tasks and a timer wheel, and count latencies in histograms.
--
-- Queue of ready coroutines: `Spsc` models src/spsc_circular_queue.h (`TSpscCircularQueue`): its
-- member functions are `resize`, `try_push`, `try_pop`, `size`, `empty` and `is_full`. Its contract
-- is the bounded FIFO of `Spsc/Fifo`.
-- Latency statistics: `Histogram` models src/histogram.h and src/histogram.cpp (`THistogram`).
-- `GetExponentialBucketCount` may not end, so its loop takes fuel; 64 rounds are enough for maxima
-- below 2^63. The floating-point operations of `GetValueAtPercentile` are a parameter, `Double`.
-- Terminal statistics: `Terminal` models `TTransactionStats` of src/terminal.h, the statistics of one type
-- of transaction, and `Terminal/PerType` `TTerminalStats`, those of all types; `Terminal/Collecting` has the
-- results that they count.
-- Sleeping coroutines: `Timer` models src/timer_queue.h (`TBinnedTimerQueue`). `std::sort` is a
-- parameter, `Sorter`. `Timer/View` has the buckets in the order of the wheel, `Timer/Refine` the invariant,
-- and `Timer/PriorityQueue` and `Timer/Drain` the contract, a priority queue of deadlines.
-- Task queue: `TaskQueue` models src/task_queue.cpp (`TTaskQueue`) over the two: `TaskQueue/Inflight` has
-- `ProcessInflightQueue`, `TaskQueue/Sleeping` `ProcessSleepingTasks` and `TaskQueue/Limit` `IncInflight`.
-- The fuel of a loop is the number of queued items. In `ProcessInflightQueue` other threads may count at any
-- time: what they have added to the counter is a parameter, `Others`.
-- Transactions: `Tx` models src/transaction_*.cpp and src/common_queries.cpp. A coroutine is a tree
-- of requests; `Tx/Run` says how a tree runs, with every answer and every failure of the database.
-- `Tx/Workload` has the draws of src/util.h, `Tx/Customer` the lookups of customers, and one file each
-- has `NewOrder`, `Payment`, `Delivery`, `OrderStatus`, `StockLevel` and `Simulation`. The fuel is the
-- number of rounds of the loops that draw another warehouse, and a run that needs more is `starving`.
-- Result rows and `double` are a parameter, `Driver`.
-- Tables: `Store` has the rows of the tables and what the statements of src/db/queries.cpp that change
-- them do, with the statements of a transaction replayed in order; `Store/Payment` is about those of Payment.
-- Consistency checks: `Check` models the checks of the row counts in src/check.cpp over these tables,
-- `Check/Conditions` the consistency conditions, `Check/Windows` their loops over warehouses and
-- `Check/Sync` `CheckSync`.
-- Database layer: `Db/Errors` models src/db/errors.h and the retry loop of `TTerminal::Run` in
-- src/terminal.cpp, `Db/Session` src/db/session.cpp (`ObSession`) and `Db/Pool`
-- src/db/connection_pool.cpp (`ObConnectionPool`), with the sessions that hold its connections in
-- `Db/Lending`; `Db/Statements` models the statement cache of
-- src/db/prepared_statement.cpp (`ObStatementCache`), and `Db/ConnectionString` the connection strings of
-- src/db/connection.cpp, where `std::stoi` is a parameter. The server is a parameter, `Connection`, and
-- what is assumed of its transactions is `Transactional`.
-- Concurrency: `Async/SharedState` models src/future.h (`TSharedState`), with the interleavings of its
-- callers in `Async/Callbacks`; `Async/ThreadPool` src/thread_pool.h and `Async/SpinLock` src/spinlock.h.
-- What a lock guards is one step, and a notification of the pool's condition variable another one; a worker
-- waits until it is notified or wakes up spuriously. A callback and a task are numbers.
-- Data loading: `Import` models src/import.cpp: `Import/Rows` and `Import/Load` have the rows of the nine
-- tables over a list of draws, `Import/Schema` the columns of src/init.cpp, and `Import/Split` the threads
-- and the counters of progress. `std::hash`, `std::mt19937` and `std::shuffle` are a parameter, `Standard`.
-- Random numbers: `Random` models `TFastRng`, `BoundedRandom` and `RandomNumber` of src/util.h. The fuel
-- is the number of draws that may be rejected, which the code does not bound.
-- Runner: `Runner` models `RunSync` of src/runner.cpp: the sizes, the terminals, the warmup and the main
-- loop over any readings of the clock. The result of `NumberOfMyCpus` is a field of the configuration.
-- Log capture: `Log` models `TLogCapture` of src/log_backend.cpp.
--
-- Integers are the native numbers, and 64-bit wrap-around is written out (`Common/Word`).
-- Not modelled: memory orders of the atomics, sums that a C++ program may not overflow, the client
-- library and the answers of the server to selections, the columns of texts and dates that no other
-- statement reads, the display, the sinks of the log, and the resumption of coroutines by the task
-- queue's threads.
pub mod Common
pub mod Spsc
pub mod Histogram
pub mod Timer
pub mod Tx
pub mod Db
pub mod Terminal
pub mod Import
pub mod Async
pub mod TaskQueue
pub mod Store
pub mod Check
pub mod Log
pub mod Random
pub mod Runner
