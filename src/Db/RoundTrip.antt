-- ===== src/Db/RoundTrip.antt =====
-- src/db/connection.cpp: `ParseConnectionString` reads what is written as a connection string.
use tpcc_oceanbase_cpp.Common.{
  ℕ, ◌≡◌, refl, ap, ap₂, ◌∙◌, true, false, List, [], ◌∷◌, ◌++◌, Option, none, some, ◌==◌,
  if◌then◌else◌, All, arith,
}
use tpcc_oceanbase_cpp.Common.Int.{ℤ}
use tpcc_oceanbase_cpp.Db.ConnectionString.{
  Bytes, is_space, trim_front, keep_back, trim_back, trim, Config, defaults, k_host, k_port, k_user,
  k_password, k_database, k_path, has, cut, push_front, split, set_kv, read_token, read_tokens,
  parse,
}

-- A text that can stand behind a key: without `;`, and without spaces at its ends.
pub record Plain (v : Bytes) : Type 0 where
  pub no_separator : has b';' v ≡ false
  pub front : trim_front v ≡ v
  pub back : trim_back v ≡ v

-- Behind any bytes that are no spaces, nothing more is trimmed.
back_append :
    (ks v : Bytes)
    → All (λ c. is_space c ≡ false) ks
    → trim_back v ≡ v
    → trim_back (ks ++ v) ≡ ks ++ v
unfolding trim_back
back_append [] v h e = e
back_append (k ∷ ks) v (h, hs) e = ap (keep_back k) (back_append ks v hs e) ∙ kept (ks ++ v)
  where
    kept : (cs : Bytes) → keep_back k cs ≡ k ∷ cs
    kept [] = rw h refl
    kept (c ∷ cs) = refl

split_last : (c : ℕ) (cs : Bytes) → has b';' (c ∷ cs) ≡ false → split b';' (c ∷ cs) ≡ (c ∷ cs) ∷ []
unfolding split
split_last c [] h = let away : (c == b';') ≡ false = ground arith in rw away refl
split_last c (d ∷ ds) h =
    let away : (c == b';') ≡ false = ground arith in
    rw away (ap (push_front c) (split_last d ds (ground arith)))

split_more :
    (cs ds : Bytes) → has b';' cs ≡ false → split b';' (cs ++ b';' ∷ ds) ≡ cs ∷ split b';' ds
unfolding split
split_more [] ds h = refl
split_more (c ∷ cs) ds h =
    let away : (c == b';') ≡ false = ground arith in
    rw away (ap (push_front c) (split_more cs ds (ground arith)))

has_separator : (cs ds : Bytes) → has b';' (cs ++ b';' ∷ ds) ≡ true
has_separator [] ds = refl
has_separator (c ∷ cs) ds = let ih = has_separator cs ds in ground arith

cut_key : (key v : Bytes) → has b'=' key ≡ false → cut b'=' (key ++ b'=' ∷ v) ≡ some (key, v)
unfolding cut
cut_key [] v h = refl
cut_key (k ∷ ks) v h =
    let away : (k == b'=') ≡ false = ground arith in rw (away, cut_key ks v (ground arith)) refl

front_append :
    (ks v : Bytes) → All (λ c. is_space c ≡ false) ks → trim_front (ks ++ b'=' ∷ v) ≡ ks ++ b'=' ∷ v
unfolding trim_front
front_append [] v h = refl
front_append (k ∷ ks) v (h, hs) = rw h refl

-- A key: without spaces and `=`.
record Key (key : Bytes) : Type 0 where
  pub no_spaces : All (λ c. is_space c ≡ false) key
  pub no_equals : has b'=' key ≡ false
  pub trimmed : trim key ≡ key

-- A key of small letters, `=`, and the value.
abbrev pub setting : Bytes → Bytes → Bytes
setting key value = key ++ b'=' ∷ value

-- The string with all six settings, where `text` writes the port.
abbrev pub print : (ℤ → Bytes) → Config → Bytes
print text c =
    setting k_host c.host
    ++ (b';'
        ∷ (setting k_port (text c.port)
            ++ (b';'
                ∷ (setting k_user c.user
                    ++ (b';'
                        ∷ (setting k_password c.password
                            ++ (b';'
                                ∷ (setting k_database c.database
                                    ++ (b';' ∷ setting k_path c.path)))))))))

module _ (stoi : Bytes → Option ℤ) where
  read_setting :
      (key v : Bytes) (c : Config)
      → Key key
      → Plain v
      → read_token stoi (setting key v) c ≡ set_kv stoi c key v
  unfolding read_token trim
  read_setting key v c k p =
      let whole : trim (setting key v) ≡ setting key v =
        ap trim_back (front_append key v k.no_spaces)
        ∙ back_append key (b'=' ∷ v) k.no_spaces (back_append (b'=' ∷ []) v (refl, tt) p.back) in
      let value : trim v ≡ v = ap trim_back p.front ∙ p.back in
      ap (λ t. elim (cut b'=' t) [ none ↦ some c | some q ↦ set_kv stoi c (trim q.0) (trim q.1) ])
        whole
      ∙ (ap (λ o. elim o [ none ↦ some c | some q ↦ set_kv stoi c (trim q.0) (trim q.1) ])
            (cut_key key v k.no_equals)
          ∙ ap₂ (set_kv stoi c) k.trimmed value)

  -- A setting that is read goes on with the rest.
  next_setting :
      (key v : Bytes) (ts : List Bytes) (c d : Config)
      → Key key
      → Plain v
      → set_kv stoi c key v ≡ some d
      → read_tokens stoi (setting key v ∷ ts) c ≡ read_tokens stoi ts d
  unfolding read_tokens
  next_setting key v ts c d k p e =
      ap (λ o. elim o [ none ↦ none | some x ↦ read_tokens stoi ts x ])
        (read_setting key v c k p ∙ e)

k_host-Key : Key k_host
unfolding trim trim_front trim_back
k_host-Key = record {
  no_spaces = (refl, (refl, (refl, (refl, tt))));
  no_equals = refl;
  trimmed = refl;
}

k_port-Key : Key k_port
unfolding trim trim_front trim_back
k_port-Key = record {
  no_spaces = (refl, (refl, (refl, (refl, tt))));
  no_equals = refl;
  trimmed = refl;
}

k_user-Key : Key k_user
unfolding trim trim_front trim_back
k_user-Key = record {
  no_spaces = (refl, (refl, (refl, (refl, tt))));
  no_equals = refl;
  trimmed = refl;
}

k_path-Key : Key k_path
unfolding trim trim_front trim_back
k_path-Key = record {
  no_spaces = (refl, (refl, (refl, (refl, tt))));
  no_equals = refl;
  trimmed = refl;
}

k_password-Key : Key k_password
unfolding trim trim_front trim_back
k_password-Key = record {
  no_spaces = (refl, (refl, (refl, (refl, (refl, (refl, (refl, (refl, tt))))))));
  no_equals = refl;
  trimmed = refl;
}

k_database-Key : Key k_database
unfolding trim trim_front trim_back
k_database-Key = record {
  no_spaces = (refl, (refl, (refl, (refl, (refl, (refl, (refl, (refl, tt))))))));
  no_equals = refl;
  trimmed = refl;
}

-- The texts of a configuration can be written.
pub record IsPrintable (text : ℤ → Bytes) (c : Config) : Type 0 where
  pub plain_host : Plain c.host
  pub plain_port : Plain (text c.port)
  pub plain_user : Plain c.user
  pub plain_password : Plain c.password
  pub plain_database : Plain c.database
  pub plain_path : Plain c.path

split-print :
    (text : ℤ → Bytes) (c : Config)
    → IsPrintable text c
    → split b';' (print text c)
      ≡ setting k_host c.host
        ∷ setting k_port (text c.port)
        ∷ setting k_user c.user
        ∷ setting k_password c.password
        ∷ setting k_database c.database
        ∷ setting k_path c.path
        ∷ []
split-print text c p =
    split_more (setting k_host c.host) _ p.plain_host.no_separator
    ∙ ap (◌∷◌ (setting k_host c.host)) (
        split_more (setting k_port (text c.port)) _ p.plain_port.no_separator
        ∙ ap (◌∷◌ (setting k_port (text c.port))) (
            split_more (setting k_user c.user) _ p.plain_user.no_separator
            ∙ ap (◌∷◌ (setting k_user c.user)) (
                split_more (setting k_password c.password) _ p.plain_password.no_separator
                ∙ ap (◌∷◌ (setting k_password c.password)) (
                    split_more (setting k_database c.database) _ p.plain_database.no_separator
                    ∙ ap (◌∷◌ (setting k_database c.database)) (
                        split_last b'p' (b'a' ∷ b't' ∷ b'h' ∷ b'=' ∷ c.path)
                          p.plain_path.no_separator)))))

-- A configuration whose texts have no `;` and no spaces at their ends, written as a connection string
-- with all its six settings, is read back, where `std::stoi` reads the text of its port.
pub parse-print :
    (stoi : Bytes → Option ℤ) (text : ℤ → Bytes) (c : Config)
    → stoi (text c.port) ≡ some c.port
    → IsPrintable text c
    → parse stoi (print text c) ≡ some c
unfolding parse set_kv read_tokens
parse-print stoi text c e p =
    let semicolon = has_separator (setting k_host c.host) _ in
    let six = setting k_path c.path ∷ [] in
    let five = setting k_database c.database ∷ six in
    let four = setting k_password c.password ∷ five in
    let three = setting k_user c.user ∷ four in
    let two = setting k_port (text c.port) ∷ three in
    let with_host = record defaults { host = c.host } in
    let with_port = record with_host { port = c.port } in
    let with_user = record with_port { user = c.user } in
    let with_password = record with_user { password = c.password } in
    let with_database = record with_password { database = c.database } in
    ap (λ b. read_tokens stoi (split (if b then b';' else b' ') (print text c)) defaults) semicolon
    ∙ (ap (λ ts. read_tokens stoi ts defaults) (split-print text c p)
        ∙ (next_setting stoi k_host c.host two defaults with_host k_host-Key p.plain_host refl
            ∙ (next_setting stoi k_port (text c.port) three with_host with_port k_port-Key
                  p.plain_port
                  (ap (λ o. elim o [ none ↦ none | some n ↦ some (record with_host { port = n }) ])
                    e)
                ∙ (next_setting stoi k_user c.user four with_port with_user k_user-Key p.plain_user
                      refl
                    ∙ (next_setting stoi k_password c.password five with_user with_password
                          k_password-Key p.plain_password refl
                        ∙ (next_setting stoi k_database c.database six with_password with_database
                              k_database-Key p.plain_database refl
                            ∙ next_setting stoi k_path c.path [] with_database c k_path-Key
                                p.plain_path refl))))))
