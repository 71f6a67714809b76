-- ===== src/Import/Schema.antt =====
-- The column types of the tables of src/init.cpp (`BuildCreateStatements`), and what a cell of a bulk
-- row must be to be stored in a column of each type.
use Prim.Native.String.{String}
use package.text.Mathlib.Text.{◌==◌}
use tpcc_oceanbase_cpp.Common.{
  ℕ, ◌*◌, ◌%◌, ◌^◌, ◌≤◌, ◌<◌, ◌≡◌, List, [], ◌∷◌, Option, none, some, if◌then◌else◌, length,
}

-- A text is its bytes. `double n d` is the `double` n / d, and `negative n d` is -(n / d).
pub data Cell : Type 0 where
  null : Cell
  int : ℕ → Cell
  double : ℕ → ℕ → Cell
  negative : ℕ → ℕ → Cell
  text : List ℕ → Cell

-- `timestamp` columns take texts; `nullable` ones have no NOT NULL.
pub data ColumnType : Type 0 where
  int_type : ColumnType
  decimal : ℕ → ℕ → ColumnType
  char : ℕ → ColumnType
  varchar : ℕ → ColumnType
  timestamp : ColumnType
  nullable : ColumnType → ColumnType

-- The magnitude n / d has at most `s` decimals, and at most `p` digits with them.
abbrev pub IsDecimal : ℕ → ℕ → ℕ → ℕ → Type 0
IsDecimal p s n d = (0 < d) × (n * 10 ^ s % d ≡ 0) × (n * 10 ^ s < 10 ^ p * d)

abbrev pub Suits : ColumnType → Cell → Type 0
Suits int_type (int n) = n < 2 ^ 31
Suits int_type _ = ⊥
Suits (decimal p s) (double n d) = IsDecimal p s n d
Suits (decimal p s) (negative n d) = IsDecimal p s n d
Suits (decimal p s) (int n) = IsDecimal p s n 1
Suits (decimal p s) _ = ⊥
Suits (char n) (text t) = length t ≤ n
Suits (char n) _ = ⊥
Suits (varchar n) (text t) = length t ≤ n
Suits (varchar n) _ = ⊥
Suits timestamp (text t) = Unit {0}
Suits timestamp _ = ⊥
Suits (nullable c) null = Unit {0}
Suits (nullable c) (int n) = Suits c (int n)
Suits (nullable c) (double n d) = Suits c (double n d)
Suits (nullable c) (negative n d) = Suits c (negative n d)
Suits (nullable c) (text t) = Suits c (text t)

-- As many cells as columns, and each cell suits its column.
abbrev pub Conforms : List (Option ColumnType) → List Cell → Type 0
Conforms [] [] = Unit {0}
Conforms (some c ∷ cs) (x ∷ xs) = Suits c x × Conforms cs xs
Conforms _ _ = ⊥

pub data Table : Type 0 where
  warehouse item stock district customer history oorder new_order order_line : Table

-- The columns of the table. The surrogate key of `history` is left out: the server fills it in.
unfoldable pub columns : Table → List (String × ColumnType)
columns warehouse =
    ("w_id", int_type)
    ∷ ("w_ytd", decimal 12 2)
    ∷ ("w_tax", decimal 4 4)
    ∷ ("w_name", varchar 10)
    ∷ ("w_street_1", varchar 20)
    ∷ ("w_street_2", varchar 20)
    ∷ ("w_city", varchar 20)
    ∷ ("w_state", char 2)
    ∷ ("w_zip", char 9)
    ∷ []
columns item =
    ("i_id", int_type)
    ∷ ("i_name", varchar 24)
    ∷ ("i_price", decimal 5 2)
    ∷ ("i_data", varchar 50)
    ∷ ("i_im_id", int_type)
    ∷ []
columns stock =
    ("s_w_id", int_type)
    ∷ ("s_i_id", int_type)
    ∷ ("s_quantity", int_type)
    ∷ ("s_ytd", decimal 8 2)
    ∷ ("s_order_cnt", int_type)
    ∷ ("s_remote_cnt", int_type)
    ∷ ("s_data", varchar 50)
    ∷ ("s_dist_01", char 24)
    ∷ ("s_dist_02", char 24)
    ∷ ("s_dist_03", char 24)
    ∷ ("s_dist_04", char 24)
    ∷ ("s_dist_05", char 24)
    ∷ ("s_dist_06", char 24)
    ∷ ("s_dist_07", char 24)
    ∷ ("s_dist_08", char 24)
    ∷ ("s_dist_09", char 24)
    ∷ ("s_dist_10", char 24)
    ∷ []
columns district =
    ("d_w_id", int_type)
    ∷ ("d_id", int_type)
    ∷ ("d_ytd", decimal 12 2)
    ∷ ("d_tax", decimal 4 4)
    ∷ ("d_next_o_id", int_type)
    ∷ ("d_name", varchar 10)
    ∷ ("d_street_1", varchar 20)
    ∷ ("d_street_2", varchar 20)
    ∷ ("d_city", varchar 20)
    ∷ ("d_state", char 2)
    ∷ ("d_zip", char 9)
    ∷ []
columns customer =
    ("c_w_id", int_type)
    ∷ ("c_d_id", int_type)
    ∷ ("c_id", int_type)
    ∷ ("c_discount", decimal 4 4)
    ∷ ("c_credit", char 2)
    ∷ ("c_last", varchar 16)
    ∷ ("c_first", varchar 16)
    ∷ ("c_credit_lim", decimal 12 2)
    ∷ ("c_balance", decimal 12 2)
    ∷ ("c_ytd_payment", decimal 12 2)
    ∷ ("c_payment_cnt", int_type)
    ∷ ("c_delivery_cnt", int_type)
    ∷ ("c_street_1", varchar 20)
    ∷ ("c_street_2", varchar 20)
    ∷ ("c_city", varchar 20)
    ∷ ("c_state", char 2)
    ∷ ("c_zip", char 9)
    ∷ ("c_phone", char 16)
    ∷ ("c_since", timestamp)
    ∷ ("c_middle", char 2)
    ∷ ("c_data", varchar 500)
    ∷ []
columns history =
    ("h_c_id", int_type)
    ∷ ("h_c_d_id", int_type)
    ∷ ("h_c_w_id", int_type)
    ∷ ("h_d_id", int_type)
    ∷ ("h_w_id", int_type)
    ∷ ("h_date", timestamp)
    ∷ ("h_amount", decimal 6 2)
    ∷ ("h_data", varchar 24)
    ∷ []
columns oorder =
    ("o_w_id", int_type)
    ∷ ("o_d_id", int_type)
    ∷ ("o_id", int_type)
    ∷ ("o_c_id", int_type)
    ∷ ("o_carrier_id", nullable int_type)
    ∷ ("o_ol_cnt", int_type)
    ∷ ("o_all_local", int_type)
    ∷ ("o_entry_d", timestamp)
    ∷ []
columns new_order = ("no_w_id", int_type) ∷ ("no_d_id", int_type) ∷ ("no_o_id", int_type) ∷ []
columns order_line =
    ("ol_w_id", int_type)
    ∷ ("ol_d_id", int_type)
    ∷ ("ol_o_id", int_type)
    ∷ ("ol_number", int_type)
    ∷ ("ol_i_id", int_type)
    ∷ ("ol_delivery_d", nullable timestamp)
    ∷ ("ol_amount", decimal 6 2)
    ∷ ("ol_supply_w_id", int_type)
    ∷ ("ol_quantity", decimal 6 2)
    ∷ ("ol_dist_info", char 24)
    ∷ []

unfoldable pub column_type : List (String × ColumnType) → String → Option ColumnType
column_type [] name = none
column_type ((other, c) ∷ cs) name = if name == other then some c else column_type cs name

unfoldable pub column_types : List (String × ColumnType) → List String → List (Option ColumnType)
unfolding column_type
column_types cs [] = []
column_types cs (name ∷ names) = column_type cs name ∷ column_types cs names
