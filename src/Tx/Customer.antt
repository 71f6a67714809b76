-- ===== src/Tx/Customer.antt =====
-- src/common_queries.h and src/common_queries.cpp: customers and how they are looked up.
use tpcc_oceanbase_cpp.Common.{
  ℕ, ◌+◌, ◌-◌, ◌/◌, ◌%◌, ◌<◌, ◌≡◌, Bool, ◌&&◌, List, [], ◌∷◌, Option, none, some, arith, ◌==◌, ltb,
  if◌then◌else◌, length, get_elem?,
}
use tpcc_oceanbase_cpp.Common.Int.{ℤ, pos}
use tpcc_oceanbase_cpp.Tx.{
  Text, Driver, p_int, p_text, Tx, query, raise, customer_select_by_id,
  customer_select_by_id_for_update, customer_select_by_last_name,
  customer_select_by_last_name_for_update,
}

infixl 5 ◌>>=◌
abbrev pub ◌>>=◌ {ℓ κ} : {A : Type ℓ} {B : Type κ} → Option A → (A → Option B) → Option B
none >>= f = none
some a >>= f = f a

-- The value of a getter, or the exception that it throws.
abbrev pub need {ℓ} : {Row Real : Type 0} {A : Type ℓ} → Option A → (A → Tx Row Real) → Tx Row Real
need none k = raise
need (some a) k = k a

-- `if (!result.TryNextRow())`, on a result that has not been read yet.
abbrev pub first_row :
    {Row Real : Type 0} → List Row → Tx Row Real → (Row → Tx Row Real) → Tx Row Real
first_row [] missing k = missing
first_row (row ∷ rows) missing k = k row

-- A lookup: what follows if the entry is missing, and if it is there.
abbrev pub found {ℓ} :
    {Row Real : Type 0} {A : Type ℓ} → Option A → Tx Row Real → (A → Tx Row Real) → Tx Row Real
found none missing k = missing
found (some a) missing k = k a

-- `n / 2` rounded up, counted from 1, as an index.
pub median_index : ℕ → ℕ
median_index n = if n % 2 == 0 && ltb 0 (n / 2) then n / 2 - 1 else n / 2

-- The position that TPC-C 2.5.2.2 asks for: `n / 2` rounded up to the next integer, counted from 1.
-- It exists whenever there is a customer.
median_index_lem : (n : ℕ) → 0 < n → (median_index n + 1 ≡ (n + 1) / 2) × (median_index n < n)
unfolding median_index
median_index_lem n h = ground arith

module _ (F : Driver) where
  open F use {Row, Real, get_int32, get_double, get_string, get_optional_int32, get_optional_string}

  pub record Customer : Type 0 where
    pub c_id : ℤ
    pub c_first : Text
    pub c_middle : Text
    pub c_last : Text
    pub c_street_1 : Text
    pub c_street_2 : Text
    pub c_city : Text
    pub c_state : Text
    pub c_zip : Text
    pub c_phone : Text
    pub c_credit : Text
    pub c_data : Text
    pub c_credit_lim : Real
    pub c_discount : Real
    pub c_balance : Real
    pub c_ytd_payment : Real
    pub c_payment_cnt : ℤ
    pub c_since : Text

  unfoldable pub parse_customer : Row → Option Customer
  parse_customer row = do
    first ← get_string row "c_first"
    middle ← get_string row "c_middle"
    street_1 ← get_string row "c_street_1"
    street_2 ← get_string row "c_street_2"
    city ← get_string row "c_city"
    state ← get_string row "c_state"
    zip ← get_string row "c_zip"
    phone ← get_string row "c_phone"
    credit ← get_string row "c_credit"
    credit_lim ← get_double row "c_credit_lim"
    discount ← get_double row "c_discount"
    balance ← get_double row "c_balance"
    ytd_payment ← get_double row "c_ytd_payment"
    payment_cnt ← get_int32 row "c_payment_cnt"
    since ← get_string row "c_since"
    some (record {
      c_id = pos 0;
      c_first = first;
      c_middle = middle;
      c_last = [];
      c_street_1 = street_1;
      c_street_2 = street_2;
      c_city = city;
      c_state = state;
      c_zip = zip;
      c_phone = phone;
      c_credit = credit;
      c_data = [];
      c_credit_lim = credit_lim;
      c_discount = discount;
      c_balance = balance;
      c_ytd_payment = ytd_payment;
      c_payment_cnt = payment_cnt;
      c_since = since;
    })

  abbrev or_else {ℓ} : {A : Type ℓ} → Option A → A → A
  or_else none a = a
  or_else (some b) a = b

  -- The body of the loop of `SelectCustomerFromResultSet`.
  pub read_customer : Row → Option Customer
  unfolding parse_customer
  read_customer row = do
    customer ← parse_customer row
    id ← get_optional_int32 row "c_id"
    last ← get_optional_string row "c_last"
    some
        (record customer { c_id = or_else id customer.c_id; c_last = or_else last customer.c_last })

  pub read_customers : List Row → Option (List Customer)
  read_customers [] = some []
  read_customers (row ∷ rows) = do
    customer ← read_customer row
    customers ← read_customers rows
    some (customer ∷ customers)

  -- The inner option is the one that the code returns.
  pub select_customer : List Row → Option (Option Customer)
  unfolding median_index read_customers
  select_customer rows = do
    customers ← read_customers rows
    some (get_elem? customers (median_index (length customers)))

  unfoldable pub get_customer_by_id : ℤ → ℤ → ℤ → Bool → (List Row → Tx Row Real) → Tx Row Real
  get_customer_by_id warehouse district customer for_update =
      query (if for_update then customer_select_by_id_for_update else customer_select_by_id)
        (p_int warehouse ∷ p_int district ∷ p_int customer ∷ [])

  unfoldable pub get_customers_by_last_name :
      ℤ → ℤ → Text → Bool → (List Row → Tx Row Real) → Tx Row Real
  get_customers_by_last_name warehouse district last_name for_update =
      query
        (if for_update
          then customer_select_by_last_name_for_update
          else customer_select_by_last_name)
        (p_int warehouse ∷ p_int district ∷ p_text last_name ∷ [])
