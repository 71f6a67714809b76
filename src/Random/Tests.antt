-- ===== src/Random/Tests.antt =====
-- `RandomNumber` of src/util.h at a concrete state.
use tpcc_oceanbase_cpp.Common.{ℕ, ◌≤◌, ◌<◌, ◌≡◌, ◌⊎◌, none, some, arith}
use tpcc_oceanbase_cpp.Common.Word.{add64, sub64}
use tpcc_oceanbase_cpp.Random.{next, random_number}
use tpcc_oceanbase_cpp.Random.Bounds.{threshold, AllRejected, random_number_lem}

random_number_lem_example :
    ((n after : ℕ) × ((random_number 2 1 10 12345 ≡ some (n, after)) × (1 ≤ n) × (n ≤ 10)))
    ⊎ ((random_number 2 1 10 12345 ≡ none)
        × AllRejected 2 (add64 (sub64 10 1) 1) (next 12345).0 (next 12345).1
        × (threshold (add64 (sub64 10 1) 1) < add64 (sub64 10 1) 1))
random_number_lem_example = random_number_lem 2 1 10 12345 (omega arith) (omega arith)
