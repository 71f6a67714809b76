-- ===== src/Db/Lending.antt =====
-- src/db/connection_pool.cpp, `ObConnectionPool`, with the sessions that hold its connections: each call is
-- one step, and a session is given up by `ReleaseSession`, as `SessionGuard` does.
use tpcc_oceanbase_cpp.Common.{
  ℕ, ◌+◌, ◌≤◌, ◌≡◌, refl, sym, subst, ap, List, [], ◌∷◌, ◌++◌, arith, ◌==◌, if◌then◌else◌,
  Bool-cases, inl, inr,
}
use tpcc_oceanbase_cpp.Async.Counting.{count, append_counts}
use tpcc_oceanbase_cpp.Db.Pool.{
  Pool, new, session, take_free, acquire_session, erase_all, release_session, cancel_all,
}

-- The pool, and the connections of the sessions that are out.
pub record System : Type 0 where
  pub pool : Pool
  pub held : List ℕ

pub data Step (s t : System) : Type 0 where
  acquires :
      (conn : ℕ) (q : Pool)
      → acquire_session s.pool ≡ session conn q
      → t ≡ record { pool = q; held = conn ∷ s.held }
      → Step s t
  releases :
      (xs : List ℕ) (conn : ℕ) (ys : List ℕ)
      → s.held ≡ xs ++ conn ∷ ys
      → t ≡ record { pool = release_session s.pool conn; held = xs ++ ys }
      → Step s t
  cancels : t ≡ record s { pool = (cancel_all s.pool).0 } → Step s t

pub data Reach (s : System) : System → Type 0 where
  here : Reach s s
  next : {t u : System} → Reach s t → Step t u → Reach s u

-- The pool that has opened `conns`, before any call.
abbrev pub opened : List ℕ → System
opened conns = record { pool = new conns; held = [] }

-- Each connection is free or held, and those that the pool lists as lent are those that are held.
pub record Lent (conns : List ℕ) (s : System) : Type 0 where
  pub everywhere : (c : ℕ) → count c s.pool.free + count c s.held ≡ count c conns
  pub listed : (c : ℕ) → count c s.pool.checked_out ≡ count c s.held

count-erase :
    (c d : ℕ) (xs : List ℕ) → count c (erase_all d xs) ≡ (if d == c then 0 else count c xs)
unfolding erase_all
count-erase c d [] = ground arith
count-erase c d (x ∷ xs) = ground (arith, count-erase c d xs)

taken :
    (p q : Pool) (conn c : ℕ) (fs : List ℕ)
    → take_free p fs ≡ session conn q
    → (count c fs ≡ count c q.free + count c (conn ∷ []))
      × (count c q.checked_out ≡ count c p.checked_out + count c (conn ∷ []))
unfolding take_free
taken p q conn c [] e = elim (Bool-cases p.shutdown) [ inl y ↦ ground arith | inr n ↦ ground arith ]
taken p q conn c (f ∷ fs) e =
    let first : f ≡ conn = cc in
    let rest : fs ≡ q.free = cc in
    let out : p.checked_out ++ f ∷ [] ≡ q.checked_out = cc in
    let sum = append_counts p.checked_out (f ∷ []) c in
    (
      omega (arith, ap (count c) rest, ap (λ x. count c (x ∷ [])) first),
      omega (arith, sum, ap (count c) out, ap (λ x. count c (x ∷ [])) first),
    )

Step-Lent :
    (conns : List ℕ) (s t : System)
    → ((c : ℕ) → count c conns ≤ 1)
    → Lent conns s
    → Step s t
    → Lent conns t
unfolding acquire_session release_session cancel_all
Step-Lent conns s t once v (acquires conn q e f) = subst (Lent conns) (sym f) (record {
  everywhere = λ c. omega (arith, v.everywhere c, (taken s.pool q conn c s.pool.free e).0);
  listed = λ c. omega (arith, v.listed c, (taken s.pool q conn c s.pool.free e).1);
})
Step-Lent conns s t once v (releases xs conn ys e f) = subst (Lent conns) (sym f) (record {
  everywhere = λ c. omega (
    arith,
    v.everywhere c,
    ap (count c) e,
    append_counts xs (conn ∷ ys) c,
    append_counts xs ys c,
    append_counts s.pool.free (conn ∷ []) c,
  );
  listed = λ c. ground (
    arith,
    v.everywhere c,
    v.listed c,
    once c,
    ap (count c) e,
    append_counts xs (conn ∷ ys) c,
    append_counts xs ys c,
    count-erase c conn s.pool.checked_out,
  );
})
Step-Lent conns s t once v (cancels f) =
    subst (Lent conns) (sym f) (record { everywhere = v.everywhere; listed = v.listed })

Reach-Lent :
    (conns : List ℕ) {s : System}
    → ((c : ℕ) → count c conns ≤ 1)
    → Reach (opened conns) s
    → Lent conns s
unfolding new
Reach-Lent conns once here = record { everywhere = λ c. omega arith; listed = λ c. refl }
Reach-Lent conns once (next {t} {u} r st) = Step-Lent conns t u once (Reach-Lent conns once r) st

-- In every state that calls of `AcquireSession`, `ReleaseSession` and `CancelAll` can reach from a pool of
-- distinct connections, each connection is free or held by exactly one session, no other connection is, and
-- `CancelAll` kills the queries of exactly the connections that are held.
pub pool_lends_once :
    (conns : List ℕ) {s : System}
    → ((c : ℕ) → count c conns ≤ 1)
    → Reach (opened conns) s
    → (c : ℕ)
    → (count c s.pool.free + count c s.held ≡ count c conns)
      × (count c (cancel_all s.pool).1 ≡ count c s.held)
unfolding cancel_all
pool_lends_once conns once r c =
    ((Reach-Lent conns once r).everywhere c, (Reach-Lent conns once r).listed c)
