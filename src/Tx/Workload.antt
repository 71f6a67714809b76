-- ===== src/Tx/Workload.antt =====
-- src/util.h and src/constants.h: the draws of the transactions, and the loop that draws another
-- warehouse.
use native.Mathlib.Nat.{mod-lt}
use tpcc_oceanbase_cpp.Common.{
  ℕ, zero, suc, ◌+◌, ◌-◌, ◌/◌, ◌%◌, ◌≤◌, ◌&&◌, List, [], ◌∷◌, ◌++◌, arith, bit_or, ◌==◌, ltb,
  if◌then◌else◌, get_or,
}
use tpcc_oceanbase_cpp.Tx.{Text, Tx, random, starved}

abbrev pub district_low_id : ℕ
district_low_id = 1

abbrev pub district_high_id : ℕ
district_high_id = 10

abbrev pub customers_per_district : ℕ
customers_per_district = 3000

abbrev pub item_count : ℕ
item_count = 100000

abbrev pub c_id_c : ℕ
c_id_c = 259

abbrev pub ol_i_id_c : ℕ
ol_i_id_c = 7911

abbrev pub c_last_run_c : ℕ
c_last_run_c = 223

-- The number that `NonUniformRandom` makes of its two draws.
unfoldable pub non_uniform : ℕ → ℕ → ℕ → ℕ → ℕ → ℕ
non_uniform c low high draw draw2 = (bit_or draw draw2 + c) % (high - low + 1) + low

-- It lies in the range that was asked for, whatever was drawn.
non_uniform_bounds :
    (c low high draw draw2 : ℕ)
    → low ≤ high
    → (low ≤ non_uniform c low high draw draw2) × (non_uniform c low high draw draw2 ≤ high)
unfolding non_uniform
non_uniform_bounds c low high draw draw2 h =
    let lt = mod-lt (bit_or draw draw2 + c) {m = high - low + 1} (omega arith) in
    (omega arith, omega arith)

-- `NameTokens`, as bytes.
unfoldable pub name_tokens : List Text
name_tokens =
    (66 ∷ 65 ∷ 82 ∷ [])
    ∷ (79 ∷ 85 ∷ 71 ∷ 72 ∷ 84 ∷ [])
    ∷ (65 ∷ 66 ∷ 76 ∷ 69 ∷ [])
    ∷ (80 ∷ 82 ∷ 73 ∷ [])
    ∷ (80 ∷ 82 ∷ 69 ∷ 83 ∷ [])
    ∷ (69 ∷ 83 ∷ 69 ∷ [])
    ∷ (65 ∷ 78 ∷ 84 ∷ 73 ∷ [])
    ∷ (67 ∷ 65 ∷ 76 ∷ 76 ∷ 89 ∷ [])
    ∷ (65 ∷ 84 ∷ 73 ∷ 79 ∷ 78 ∷ [])
    ∷ (69 ∷ 73 ∷ 78 ∷ 71 ∷ [])
    ∷ []

-- `GetLastName`, for numbers below 1000.
unfoldable pub last_name : ℕ → Text
unfolding name_tokens
last_name n =
    get_or name_tokens (n / 100) []
    ++ (get_or name_tokens (n / 10 % 10) [] ++ get_or name_tokens (n % 10) [])

module _ {Row Real : Type 0} where
  -- `NonUniformRandom(A, C, min, max)`.
  unfoldable pub non_uniform_random : ℕ → ℕ → ℕ → ℕ → (ℕ → Tx Row Real) → Tx Row Real
  non_uniform_random a c low high k =
      random 0 a λ draw. random low high λ draw2. k (non_uniform c low high draw draw2)

  unfoldable pub random_customer_id : (ℕ → Tx Row Real) → Tx Row Real
  unfolding non_uniform_random
  random_customer_id = non_uniform_random 1023 c_id_c 1 customers_per_district

  unfoldable pub random_item_id : (ℕ → Tx Row Real) → Tx Row Real
  unfolding non_uniform_random
  random_item_id = non_uniform_random 8191 ol_i_id_c 1 item_count

  -- `GetNonUniformRandomLastNameForRun`.
  unfoldable pub random_last_name : (Text → Tx Row Real) → Tx Row Real
  unfolding non_uniform_random
  random_last_name k = non_uniform_random 255 c_last_run_c 0 999 λ n. k (last_name n)

  -- `do { id = RandomNumber(1, count); } while (id == home && count > 1);`
  unfoldable pub random_other_warehouse : ℕ → ℕ → ℕ → (ℕ → Tx Row Real) → Tx Row Real
  random_other_warehouse zero count home k = starved
  random_other_warehouse (suc fuel) count home k = random 1 count λ id.
      let again = random_other_warehouse fuel count home k in
      if id == home && ltb 1 count then again else k id
