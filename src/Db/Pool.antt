-- ===== src/Db/Pool.antt =====
-- src/db/connection_pool.h and src/db/connection_pool.cpp, `ObConnectionPool`. A connection is a
-- number. The mutex makes each member function one step; a caller that would wait for `cv_` is `waits`.
use tpcc_oceanbase_cpp.Common.{ℕ, Bool, true, false, List, [], ◌∷◌, ◌++◌, ◌==◌, if◌then◌else◌}

pub record Pool : Type 0 where
  -- `free_`, oldest first, and `checkedOut_`.
  pub free : List ℕ
  pub checked_out : List ℕ
  pub shutdown : Bool
  -- `*shutdownFlag_`, which the sessions share.
  pub cancelled : Bool

-- The constructor, with the connections that it has opened.
unfoldable pub new : List ℕ → Pool
new conns = record { free = conns; checked_out = []; shutdown = false; cancelled = false }

pub data Acquired : Type 0 where
  session : ℕ → Pool → Acquired
  shutting_down : Acquired
  waits : Acquired

unfoldable pub take_free : Pool → List ℕ → Acquired
take_free p [] = if p.shutdown then shutting_down else waits
take_free p (conn ∷ rest) =
    session conn (record p { free = rest; checked_out = p.checked_out ++ conn ∷ [] })

-- `AcquireSession`.
unfoldable pub acquire_session : Pool → Acquired
unfolding take_free
acquire_session p = take_free p p.free

-- `std::erase`: every occurrence.
unfoldable pub erase_all : ℕ → List ℕ → List ℕ
erase_all c [] = []
erase_all c (x ∷ xs) = let rest = erase_all c xs in if x == c then rest else x ∷ rest

-- `ReleaseSession` of a session that holds a connection.
unfoldable pub release_session : Pool → ℕ → Pool
unfolding erase_all
release_session p conn = record p {
  free = p.free ++ conn ∷ [];
  checked_out = erase_all conn p.checked_out;
}

-- `CancelAll`: the flag, and the connections whose queries are killed.
unfoldable pub cancel_all : Pool → Pool × List ℕ
cancel_all p = (record p { cancelled = true }, p.checked_out)

-- The destructor: nobody may wait any more, and the free connections are closed.
pub destroy : Pool → Pool
destroy p = record p { free = []; shutdown = true }
