-- ===== src/Async/Counting.antt =====
-- How often a number stands in a list.
use tpcc_oceanbase_cpp.Common.{ℕ, ◌+◌, ◌≡◌, List, [], ◌∷◌, ◌++◌, arith, ◌==◌, if◌then◌else◌}

abbrev pub count : ℕ → List ℕ → ℕ
count n [] = 0
count n (m ∷ ms) = count n ms + (if m == n then 1 else 0)

-- The two lists count apart.
pub append_counts : (ms os : List ℕ) (n : ℕ) → count n ms + count n os ≡ count n (ms ++ os)
append_counts [] os n = omega arith
append_counts (m ∷ ms) os n = let ih = append_counts ms os n in omega (arith, ih)
