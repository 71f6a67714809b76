-- ===== src/Import/Rows.antt =====
-- src/import.cpp: the rows that each loader emits. The constants of src/constants.h that are loop bounds
-- are written out, a literal loop bound is a number, and `Cell(double)` is a quotient.
use tpcc_oceanbase_cpp.Common.{
  ℕ, zero, suc, ◌+◌, ◌-◌, ◌*◌, ◌%◌, ◌^◌, ◌≤◌, List, [], ◌∷◌, ◌++◌, ltb, leb, if◌then◌else◌, get_or,
  bit_xor,
}
use mathlib.Core.List.{Perm}
use tpcc_oceanbase_cpp.Tx.Workload.{last_name, non_uniform}
use tpcc_oceanbase_cpp.Import.Gen.{Gen, pure, ◌>>=◌, random_number, draw_text}
use tpcc_oceanbase_cpp.Import.Schema.{Cell, null, int, double, negative, text}

-- What the loaders take from the standard library: `std::hash<int>`, the number from 5 to 15 that
-- `std::mt19937` and `std::uniform_int_distribution` make of a seed, `std::shuffle`, and the time.
pub record Standard : Type 0 where
  pub hash_int : ℕ → ℕ
  pub five_to_fifteen : ℕ → ℕ
  pub five_to_fifteen_bounds : (seed : ℕ) → (5 ≤ five_to_fifteen seed) × (five_to_fifteen seed ≤ 15)
  pub shuffle : List ℕ → List ℕ
  pub shuffle_perm : (xs : List ℕ) → Perm (shuffle xs) xs
  pub current_timestamp : List ℕ

abbrev pub customers : ℕ
customers = 3000

abbrev pub first_unprocessed : ℕ
first_unprocessed = 2101

-- `RandomStringBenchbase`: one character less than asked for.
unfoldable pub random_string : ℕ → ℕ → Gen (List ℕ)
random_string base n = if ltb 1 n then draw_text (n - 1) 25 (λ d. base + d) else pure []

-- `RandomAlphaString` and `RandomUpperAlphaString`.
unfoldable pub random_alpha : ℕ → ℕ → ℕ → Gen (List ℕ)
unfolding random_string
random_alpha base low high = do n ← random_number low high; random_string base n

unfoldable pub random_numeric : ℕ → Gen (List ℕ)
random_numeric n = draw_text n 9 (λ d. 48 + d)

-- "ORIGINAL".
abbrev pub original : List ℕ
original = 79 ∷ 82 ∷ 73 ∷ 71 ∷ 73 ∷ 78 ∷ 65 ∷ 76 ∷ []

-- The text of `i_data` and of `s_data`.
unfoldable pub random_data : Gen (List ℕ)
unfolding random_string
random_data = do
  percent ← random_number 1 100
  len ← random_number 26 50
  if ltb 10 percent then random_string 97 len else (do
    start ← random_number 2 (len - 8)
    before ← random_string 97 start
    after ← random_string 97 (len - start - 8)
    pure (before ++ (original ++ after)))

-- "123456789".
abbrev pub zip_code : List ℕ
zip_code = 49 ∷ 50 ∷ 51 ∷ 52 ∷ 53 ∷ 54 ∷ 55 ∷ 56 ∷ 57 ∷ []

-- The body of the loop of `LoadItems`.
unfoldable pub item_row : ℕ → Gen (List Cell)
unfolding random_data random_alpha
item_row i = do
  i_data ← random_data
  name ← random_alpha 97 14 24
  price ← random_number 100 10000
  image ← random_number 1 10000
  pure (int i ∷ text name ∷ double price 100 ∷ text i_data ∷ int image ∷ [])

unfoldable pub warehouse_row : ℕ → Gen (List Cell)
unfolding random_alpha
warehouse_row wh = do
  tax ← random_number 0 2000
  name ← random_alpha 97 6 10
  street_1 ← random_alpha 97 10 20
  street_2 ← random_alpha 97 10 20
  city ← random_alpha 97 10 20
  state ← random_alpha 65 3 3
  pure (
      int wh
      ∷ double (30000 * 10) 1
      ∷ double tax 10000
      ∷ text name
      ∷ text street_1
      ∷ text street_2
      ∷ text city
      ∷ text state
      ∷ text zip_code
      ∷ [])

unfoldable pub district_row : ℕ → ℕ → Gen (List Cell)
unfolding random_alpha
district_row wh d = do
  tax ← random_number 0 2000
  name ← random_alpha 97 6 10
  street_1 ← random_alpha 97 10 20
  street_2 ← random_alpha 97 10 20
  city ← random_alpha 97 10 20
  state ← random_alpha 65 3 3
  pure (
      int wh
      ∷ int d
      ∷ double 30000 1
      ∷ double tax 10000
      ∷ int (customers + 1)
      ∷ text name
      ∷ text street_1
      ∷ text street_2
      ∷ text city
      ∷ text state
      ∷ text zip_code
      ∷ [])

unfoldable pub stock_row : ℕ → ℕ → Gen (List Cell)
unfolding random_data random_string
stock_row wh i = do
  s_data ← random_data
  quantity ← random_number 10 100
  dist_01 ← random_string 97 24
  dist_02 ← random_string 97 24
  dist_03 ← random_string 97 24
  dist_04 ← random_string 97 24
  dist_05 ← random_string 97 24
  dist_06 ← random_string 97 24
  dist_07 ← random_string 97 24
  dist_08 ← random_string 97 24
  dist_09 ← random_string 97 24
  dist_10 ← random_string 97 24
  pure (
      int wh
      ∷ int i
      ∷ int quantity
      ∷ double 0 1
      ∷ int 0
      ∷ int 0
      ∷ text s_data
      ∷ text dist_01
      ∷ text dist_02
      ∷ text dist_03
      ∷ text dist_04
      ∷ text dist_05
      ∷ text dist_06
      ∷ text dist_07
      ∷ text dist_08
      ∷ text dist_09
      ∷ text dist_10
      ∷ [])

-- `NonUniformRandom(255, C_LAST_LOAD_C, 0, 999)` and `GetLastName`.
unfoldable pub random_last_name_for_load : Gen (List ℕ)
random_last_name_for_load = do
  a ← random_number 0 255
  b ← random_number 0 999
  pure (last_name (non_uniform 157 0 999 a b))

unfoldable pub customer_last : ℕ → Gen (List ℕ)
unfolding random_last_name_for_load
customer_last cid = if leb cid 1000 then pure (last_name (cid - 1)) else random_last_name_for_load

-- "BC" or "GC".
unfoldable pub credit : ℕ → List ℕ
credit percent = if leb percent 10 then 66 ∷ 67 ∷ [] else 71 ∷ 67 ∷ []

unfoldable pub customer_row : Standard → ℕ → ℕ → ℕ → Gen (List Cell)
unfolding customer_last random_alpha random_numeric
customer_row std wh district_id cid = do
  last ← customer_last cid
  percent ← random_number 1 100
  discount ← random_number 1 5000
  first ← random_alpha 97 8 16
  street_1 ← random_alpha 97 10 20
  street_2 ← random_alpha 97 10 20
  city ← random_alpha 97 10 20
  state ← random_alpha 65 3 3
  zip ← random_numeric 4
  phone ← random_numeric 16
  c_data ← random_alpha 97 300 500
  pure (
      int wh
      ∷ int district_id
      ∷ int cid
      ∷ double discount 10000
      ∷ text (credit percent)
      ∷ text last
      ∷ text first
      ∷ double 50000 1
      ∷ negative 10 1
      ∷ double 10 1
      ∷ int 1
      ∷ int 0
      ∷ text street_1
      ∷ text street_2
      ∷ text city
      ∷ text state
      ∷ text (zip ++ 49 ∷ 49 ∷ 49 ∷ 49 ∷ 49 ∷ [])
      ∷ text phone
      ∷ text std.current_timestamp
      ∷ text (79 ∷ 69 ∷ [])
      ∷ text c_data
      ∷ [])

unfoldable pub history_row : Standard → ℕ → ℕ → ℕ → Gen (List Cell)
unfolding random_alpha
history_row std wh district_id cid = do
  h_data ← random_alpha 97 10 24
  pure (
      int cid
      ∷ int district_id
      ∷ int wh
      ∷ int district_id
      ∷ int wh
      ∷ text std.current_timestamp
      ∷ double 10 1
      ∷ text h_data
      ∷ [])

-- `HashCustomer`, on 64 bits.
unfoldable pub hash_customer : Standard → ℕ → ℕ → ℕ → ℕ
hash_customer std wh district_id cid =
    bit_xor (bit_xor (std.hash_int wh) (std.hash_int district_id * 2 % 2 ^ 64))
      (std.hash_int cid * 4 % 2 ^ 64)

-- `GetRandomCount(warehouseId, customerId, districtId)`.
unfoldable pub random_count : Standard → ℕ → ℕ → ℕ → ℕ
unfolding hash_customer
random_count std wh cid district_id = std.five_to_fifteen (hash_customer std wh district_id cid)

-- `1, …, n`.
unfoldable pub up_from : ℕ → ℕ → List ℕ
up_from first zero = []
up_from first (suc n) = first ∷ up_from (first + 1) n

unfoldable pub carrier_of : ℕ → Gen Cell
carrier_of oid =
    if ltb oid first_unprocessed then (do c ← random_number 1 10; pure (int c)) else pure null

unfoldable pub order_row : Standard → List ℕ → ℕ → ℕ → ℕ → Gen (List Cell)
unfolding carrier_of random_count
order_row std ids wh district_id oid = do
  carrier ← carrier_of oid
  pure (
      int wh
      ∷ int district_id
      ∷ int oid
      ∷ int (get_or ids (oid - 1) 0)
      ∷ carrier
      ∷ int (random_count std wh oid district_id)
      ∷ int 1
      ∷ text std.current_timestamp
      ∷ [])

unfoldable pub order_line_row : Standard → ℕ → ℕ → ℕ → ℕ → Gen (List Cell)
unfolding random_string
order_line_row std wh district_id oid line = do
  i ← random_number 1 100000
  amount ← (if ltb oid first_unprocessed then pure 0 else random_number 1 999999)
  dist_info ← random_string 97 24
  pure (
      int wh
      ∷ int district_id
      ∷ int oid
      ∷ int line
      ∷ int i
      ∷ (if ltb oid first_unprocessed then text std.current_timestamp else null)
      ∷ double amount 100
      ∷ int wh
      ∷ double 5 1
      ∷ text dist_info
      ∷ [])
