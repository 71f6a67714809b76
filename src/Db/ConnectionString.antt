-- ===== src/Db/ConnectionString.antt =====
-- src/db/connection.cpp: connection strings, the database that is meant, and quoted identifiers.
-- A text is its bytes. `std::isspace` and `std::isalnum` are those of the C locale; `std::stoi` is a
-- parameter, whose exceptions are `none`.
use tpcc_oceanbase_cpp.Common.{
  ℕ, Bool, true, false, ◌&&◌, ◌||◌, List, [], ◌∷◌, ◌++◌, Option, none, some, ◌==◌, leb,
  if◌then◌else◌,
}
use tpcc_oceanbase_cpp.Common.Int.{ℤ, pos}

abbrev pub Bytes : Type 0
Bytes = List ℕ

abbrev pub is_space : ℕ → Bool
is_space c = c == b' ' || leb b'\t' c && leb c b'\r'

-- The two loops of `Trim`.
unfoldable pub trim_front : Bytes → Bytes
trim_front [] = []
trim_front (c ∷ cs) = if is_space c then trim_front cs else c ∷ cs

abbrev pub keep_back : ℕ → Bytes → Bytes
keep_back c [] = if is_space c then [] else c ∷ []
keep_back c (d ∷ ds) = c ∷ d ∷ ds

unfoldable pub trim_back : Bytes → Bytes
trim_back [] = []
trim_back (c ∷ cs) = keep_back c (trim_back cs)

unfoldable pub trim : Bytes → Bytes
unfolding trim_front trim_back
trim cs = trim_back (trim_front cs)

-- `ObConnectionConfig`.
pub record Config : Type 0 where
  pub host : Bytes
  pub port : ℤ
  pub user : Bytes
  pub password : Bytes
  pub database : Bytes
  pub path : Bytes

abbrev pub defaults : Config
defaults = record {
  host = b'1' ∷ b'2' ∷ b'7' ∷ b'.' ∷ b'0' ∷ b'.' ∷ b'0' ∷ b'.' ∷ b'1' ∷ [];
  port = pos 2881;
  user = b'r' ∷ b'o' ∷ b'o' ∷ b't' ∷ b'@' ∷ b't' ∷ b'e' ∷ b's' ∷ b't' ∷ [];
  password = [];
  database = b't' ∷ b'p' ∷ b'c' ∷ b'c' ∷ [];
  path = [];
}

abbrev pub eq_bytes : Bytes → Bytes → Bool
eq_bytes [] [] = true
eq_bytes [] (d ∷ ds) = false
eq_bytes (c ∷ cs) [] = false
eq_bytes (c ∷ cs) (d ∷ ds) = c == d && eq_bytes cs ds

-- The keys.
abbrev pub k_host : Bytes
k_host = b'h' ∷ b'o' ∷ b's' ∷ b't' ∷ []

abbrev pub k_hostname : Bytes
k_hostname = b'h' ∷ b'o' ∷ b's' ∷ b't' ∷ b'n' ∷ b'a' ∷ b'm' ∷ b'e' ∷ []

abbrev pub k_port : Bytes
k_port = b'p' ∷ b'o' ∷ b'r' ∷ b't' ∷ []

abbrev pub k_user : Bytes
k_user = b'u' ∷ b's' ∷ b'e' ∷ b'r' ∷ []

abbrev pub k_uid : Bytes
k_uid = b'u' ∷ b'i' ∷ b'd' ∷ []

abbrev pub k_password : Bytes
k_password = b'p' ∷ b'a' ∷ b's' ∷ b's' ∷ b'w' ∷ b'o' ∷ b'r' ∷ b'd' ∷ []

abbrev pub k_pwd : Bytes
k_pwd = b'p' ∷ b'w' ∷ b'd' ∷ []

abbrev pub k_passwd : Bytes
k_passwd = b'p' ∷ b'a' ∷ b's' ∷ b's' ∷ b'w' ∷ b'd' ∷ []

abbrev pub k_database : Bytes
k_database = b'd' ∷ b'a' ∷ b't' ∷ b'a' ∷ b'b' ∷ b'a' ∷ b's' ∷ b'e' ∷ []

abbrev pub k_db : Bytes
k_db = b'd' ∷ b'b' ∷ []

abbrev pub k_dbname : Bytes
k_dbname = b'd' ∷ b'b' ∷ b'n' ∷ b'a' ∷ b'm' ∷ b'e' ∷ []

abbrev pub k_path : Bytes
k_path = b'p' ∷ b'a' ∷ b't' ∷ b'h' ∷ []

-- `connection.find(c) != npos`.
abbrev pub has : ℕ → Bytes → Bool
has c [] = false
has c (d ∷ ds) = c == d || has c ds

-- The texts before and behind the first `c`.
unfoldable pub cut : ℕ → Bytes → Option (Bytes × Bytes)
cut c [] = none
cut c (d ∷ ds) =
    if d == c then some ([], ds) else elim (cut c ds) [ none ↦ none | some p ↦ some (d ∷ p.0, p.1) ]

-- The texts that `std::getline` reads with a separator: none behind a separator at the end.
abbrev pub push_front : ℕ → List Bytes → List Bytes
push_front c [] = (c ∷ []) ∷ []
push_front c (t ∷ ts) = (c ∷ t) ∷ ts

unfoldable pub split : ℕ → Bytes → List Bytes
split sep [] = []
split sep (c ∷ cs) = if c == sep then [] ∷ split sep cs else push_front c (split sep cs)

-- `EffectiveDatabase`.
unfoldable pub effective_database : Config → Bytes
effective_database cfg = elim cfg.path [ [] ↦ cfg.database | c ∷ cs ↦ c ∷ cs ]

abbrev pub is_identifier_byte : ℕ → Bool
is_identifier_byte c =
    leb b'a' c && leb c b'z' || leb b'A' c && leb c b'Z' || leb b'0' c && leb c b'9' || c == b'_'

abbrev pub all_identifier : Bytes → Bool
all_identifier [] = true
all_identifier (c ∷ cs) = is_identifier_byte c && all_identifier cs

-- `QuoteIdent`, whose exceptions are `none`.
unfoldable pub quote_ident : Bytes → Option Bytes
quote_ident [] = none
quote_ident (c ∷ cs) = if all_identifier (c ∷ cs) then some (b'`' ∷ (c ∷ cs) ++ b'`' ∷ []) else none

module _ (stoi : Bytes → Option ℤ) where
  -- `SetKv`.
  unfoldable pub set_kv : Config → Bytes → Bytes → Option Config
  set_kv cfg key value =
      if eq_bytes key k_host || eq_bytes key k_hostname
      then some (record cfg { host = value })
      else if eq_bytes key k_port
      then (elim (stoi value) [ none ↦ none | some n ↦ some (record cfg { port = n }) ])
      else if eq_bytes key k_user || eq_bytes key k_uid
      then some (record cfg { user = value })
      else if eq_bytes key k_password || eq_bytes key k_pwd || eq_bytes key k_passwd
      then some (record cfg { password = value })
      else if eq_bytes key k_database || eq_bytes key k_db || eq_bytes key k_dbname
      then some (record cfg { database = value })
      else if eq_bytes key k_path
      then some (record cfg { path = value })
      else some cfg

  -- A round of the loop. A text that is empty or without `=` is skipped.
  unfoldable pub read_token : Bytes → Config → Option Config
  unfolding trim cut set_kv
  read_token token cfg = elim (cut b'=' (trim token)) [
    | none ↦ some cfg
    | some p ↦ set_kv cfg (trim p.0) (trim p.1)
  ]

  unfoldable pub read_tokens : List Bytes → Config → Option Config
  unfolding read_token
  read_tokens [] cfg = some cfg
  read_tokens (t ∷ ts) cfg = elim (read_token t cfg) [ none ↦ none | some c ↦ read_tokens ts c ]

  -- `ParseConnectionString`.
  unfoldable pub parse : Bytes → Option Config
  unfolding read_tokens split
  parse connection =
      read_tokens (split (if has b';' connection then b';' else b' ') connection) defaults
