-- ===== src/Async.antt =====
-- Concurrency: src/future.h, src/thread_pool.h and src/spinlock.h. What runs under one lock is one step,
-- and threads interleave in any order.
pub mod Counting
pub mod SharedState
pub mod Callbacks
pub mod ThreadPool
pub mod SpinLock
mod Tests
