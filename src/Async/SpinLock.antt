-- ===== src/Async/SpinLock.antt =====
-- src/spinlock.h, `TSpinLock`: an atomic flag that threads exchange. One atomic access is one step; the
-- order of the other memory accesses around it is not modelled.
use tpcc_oceanbase_cpp.Common.{
  ℕ, ◌≡◌, refl, sym, ◌∙◌, subst, ◌⊎◌, inl, inr, Bool, true, false, not, List, [], ◌∷◌, ◌++◌, arith,
}

unfoldable pub is_locked : Bool → Bool
is_locked val = val

-- `Val_.exchange(1)`: whether the lock is now the caller's, and the flag.
unfoldable pub try_acquire : Bool → Bool × Bool
try_acquire val = (not val, true)

unfoldable pub release : Bool → Bool
release val = false

-- The flag, the threads that hold the lock, and those in `Acquire`.
pub record System : Type 0 where
  pub val : Bool
  pub holders : List ℕ
  pub spinning : List ℕ

abbrev pub init : System
init = record { val = false; holders = []; spinning = [] }

-- A thread enters `Acquire`, gets the lock or fails in one exchange, reads the flag in its loop, or
-- releases the lock that it holds.
pub data Step (s t : System) : Type 0 where
  enters : (i : ℕ) → t ≡ record s { spinning = i ∷ s.spinning } → Step s t
  acquires :
      (xs : List ℕ) (i : ℕ) (ys : List ℕ) (v : Bool)
      → s.spinning ≡ xs ++ i ∷ ys
      → try_acquire s.val ≡ (true, v)
      → t ≡ record s { val = v; holders = i ∷ s.holders; spinning = xs ++ ys }
      → Step s t
  fails : (v : Bool) → try_acquire s.val ≡ (false, v) → t ≡ record s { val = v } → Step s t
  releases :
      (xs : List ℕ) (i : ℕ) (ys : List ℕ)
      → s.holders ≡ xs ++ i ∷ ys
      → t ≡ record s { val = release s.val; holders = xs ++ ys }
      → Step s t

pub data Reach : System → Type 0 where
  here : Reach init
  next : {s t : System} → Reach s → Step s t → Reach t

abbrev Exclusive : System → Type 0
Exclusive s =
    ((s.val ≡ false) × (s.holders ≡ [])) ⊎ ((s.val ≡ true) × ((i : ℕ) × (s.holders ≡ i ∷ [])))

only_one : (xs : List ℕ) (i : ℕ) (ys : List ℕ) (j : ℕ) → xs ++ i ∷ ys ≡ j ∷ [] → xs ++ ys ≡ []
only_one [] i ys j e = ground arith
only_one (x ∷ []) i ys j e = absurd (ground arith)
only_one (x ∷ y ∷ xs) i ys j e = absurd (ground arith)

not_empty : (xs : List ℕ) (i : ℕ) (ys : List ℕ) → xs ++ i ∷ ys ≡ [] → ⊥
not_empty [] i ys e = absurd (ground arith)
not_empty (x ∷ xs) i ys e = absurd (ground arith)

Step-Exclusive : {s t : System} → Exclusive s → Step s t → Exclusive t
unfolding try_acquire release
Step-Exclusive x (enters i f) = subst Exclusive (sym f) x
Step-Exclusive (inl (v, h)) (acquires xs i ys w sp e f) =
    subst Exclusive (sym f) (inr (ground arith))
Step-Exclusive (inr (v, h)) (acquires xs i ys w sp e f) = absurd (ground arith)
Step-Exclusive (inl (v, h)) (fails w e f) = absurd (ground arith)
Step-Exclusive {s} (inr (v, h)) (fails w e f) = subst Exclusive (sym f) (inr (ground arith, h))
Step-Exclusive (inl (v, h)) (releases xs i ys e f) = absurd (not_empty xs i ys (sym e ∙ h))
Step-Exclusive (inr (v, (j, h))) (releases xs i ys e f) =
    subst Exclusive (sym f) (inl (refl, only_one xs i ys j (sym e ∙ h)))

-- In every state that threads can reach, the flag is down and no thread holds the lock, or it is up and
-- exactly one thread holds it.
pub mutual_exclusion :
    {s : System}
    → Reach s
    → ((s.val ≡ false) × (s.holders ≡ [])) ⊎ ((s.val ≡ true) × ((i : ℕ) × (s.holders ≡ i ∷ [])))
mutual_exclusion here = inl (refl, refl)
mutual_exclusion (next r st) = Step-Exclusive (mutual_exclusion r) st
