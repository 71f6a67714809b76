-- ===== src/Import/Texts.antt =====
-- How long the generated texts are, and how large the generated numbers.
use mathlib.Core.Logic.Or
use mathlib.Core.List.{Mem, mem-cons, mem-cons_self, mem-cons_of_mem, not-mem-nil}
use mathlib.Core.List.Perm
use native.Mathlib.Bridge.{le_prop}
use tpcc_oceanbase_cpp.Common.{
  ℕ, zero, suc, if◌then◌else◌, ◌%◌, ◌/◌, ◌+◌, ◌-◌, ◌≤◌, ◌<◌, ◌≡◌, List, [], ◌∷◌, ◌++◌, arith, ltb,
  leb, length, length-append, get_or, All,
}
use tpcc_oceanbase_cpp.Tx.Workload.{last_name, non_uniform, name_tokens}
use tpcc_oceanbase_cpp.Import.Gen.{
  pure, Ensures-if, Ensures-weaken, Ensures, Ensures-pure, Ensures-bind, random_number,
  random_number-Ensures, draw_text-Ensures,
}
use tpcc_oceanbase_cpp.Import.Schema.{null, int, Suits, int_type, nullable}
use tpcc_oceanbase_cpp.Import.Rows.{
  Standard, up_from, original, customers, first_unprocessed, random_string, random_alpha,
  random_numeric, random_data, random_last_name_for_load, customer_last, credit, carrier_of,
  random_count,
}

pub random_string-Ensures : (base n : ℕ) → Ensures (λ t. length t ≤ n - 1) (random_string base n)
unfolding random_string
random_string-Ensures base n =
    Ensures-if (ltb 1 n)
      (λ _. Ensures-weaken (λ t e. omega arith) (draw_text-Ensures (n - 1) 25 (λ d. base + d)))
      (λ _. Ensures-pure [] (omega arith))

pub random_alpha-Ensures :
    (base low high : ℕ) → Ensures (λ t. length t ≤ high - 1) (random_alpha base low high)
unfolding random_alpha
random_alpha-Ensures base low high =
    Ensures-bind (random_number-Ensures low high)
      λ n b. Ensures-weaken (λ t e. omega arith) (random_string-Ensures base n)

pub random_numeric-Ensures : (n : ℕ) → Ensures (λ t. length t ≡ n) (random_numeric n)
unfolding random_numeric
random_numeric-Ensures n = draw_text-Ensures n 9 (λ d. 48 + d)

pub random_data-Ensures : Ensures (λ t. length t ≤ 50) random_data
unfolding random_data
random_data-Ensures = Ensures-bind (random_number-Ensures 1 100) λ percent _.
    Ensures-bind (random_number-Ensures 26 50) λ len l.
      Ensures-if (ltb 10 percent)
        (λ _. Ensures-weaken (λ t e. omega arith) (random_string-Ensures 97 len))
        (λ _. Ensures-bind (random_number-Ensures 2 (len - 8)) λ start s.
          Ensures-bind (random_string-Ensures 97 start) λ before b.
            Ensures-bind (random_string-Ensures 97 (len - start - 8)) λ after a. Ensures-pure _ (
              omega
                (arith, length-append before (original ++ after), length-append original after)))

pub get_or-le :
    (xs : List (List ℕ)) (b i : ℕ) → All (λ t. length t ≤ b) xs → length (get_or xs i []) ≤ b
get_or-le [] b i h = omega arith
get_or-le (x ∷ xs) b zero h = h.0
get_or-le (x ∷ xs) b (suc i) h = get_or-le xs b i h.1

pub name_tokens-le : (i : ℕ) → length (get_or name_tokens i []) ≤ 5
unfolding name_tokens
name_tokens-le i = get_or-le name_tokens 5 i (omega arith)

pub last_name-le : (n : ℕ) → length (last_name n) ≤ 16
unfolding last_name
last_name-le n = omega (
  arith,
  name_tokens-le (n / 100),
  name_tokens-le (n / 10 % 10),
  name_tokens-le (n % 10),
  length-append (get_or name_tokens (n / 100) [])
      (get_or name_tokens (n / 10 % 10) [] ++ get_or name_tokens (n % 10) []),
  length-append (get_or name_tokens (n / 10 % 10) []) (get_or name_tokens (n % 10) []),
)

pub customer_last-Ensures : (cid : ℕ) → Ensures (λ t. length t ≤ 16) (customer_last cid)
unfolding customer_last random_last_name_for_load
customer_last-Ensures cid =
    Ensures-if (leb cid 1000) (λ _. Ensures-pure _ (last_name-le (cid - 1)))
      λ _. Ensures-bind (random_number-Ensures 0 255) λ a _.
        Ensures-bind (random_number-Ensures 0 999)
          λ b _. Ensures-pure _ (last_name-le (non_uniform 157 0 999 a b))

pub credit-le : (percent : ℕ) → length (credit percent) ≤ 2
unfolding credit
credit-le percent = ground arith

pub le-mem-up_from : {a : ℕ} (n first b : ℕ) → first + n ≤ suc b → Mem a (up_from first n) → a ≤ b
unfolding up_from
le-mem-up_from zero first b h m = absurd (not-mem-nil m)
le-mem-up_from (suc n) first b h m =
    Or.elim le_prop (mem-cons.0 m) (λ e. omega arith) (le-mem-up_from n (first + 1) b (omega arith))

pub le_get_or : (ids : List ℕ) (i b : ℕ) → ((a : ℕ) → Mem a ids → a ≤ b) → get_or ids i 0 ≤ b
le_get_or [] i b h = omega arith
le_get_or (x ∷ xs) zero b h = h x mem-cons_self
le_get_or (x ∷ xs) (suc i) b h = le_get_or xs i b λ a m. h a (mem-cons_of_mem x m)

pub customer_ids-le :
    (std : Standard) (i : ℕ) → get_or (std.shuffle (up_from 1 customers)) i 0 ≤ customers
customer_ids-le std i = le_get_or (std.shuffle (up_from 1 customers)) i customers λ a m.
    le-mem-up_from customers 1 customers (omega arith)
      ((Perm.mem_iff (std.shuffle_perm (up_from 1 customers))).0 m)

pub random_count-le :
    (std : Standard) (wh cid d : ℕ)
    → (5 ≤ random_count std wh cid d) × (random_count std wh cid d ≤ 15)
unfolding random_count
random_count-le std wh cid d = std.five_to_fifteen_bounds _

pub carrier_of-Ensures : (oid : ℕ) → Ensures (Suits (nullable int_type)) (carrier_of oid)
unfolding carrier_of
carrier_of-Ensures oid =
    Ensures-if (ltb oid first_unprocessed)
      (λ _. Ensures-bind (random_number-Ensures 1 10) λ c b. Ensures-pure (int c) (omega arith))
      (λ _. Ensures-pure null tt)

pub amount-Ensures :
    (oid : ℕ)
    → Ensures
        (λ n. n < 1000000)
        (if ltb oid first_unprocessed then pure 0 else random_number 1 999999)
amount-Ensures oid =
    Ensures-if (ltb oid first_unprocessed) (λ _. Ensures-pure 0 (omega arith))
      (λ _. Ensures-weaken (λ n b. omega arith) (random_number-Ensures 1 999999))
