-- ===== src/Runner/Phases.antt =====
-- src/runner.cpp: the run is measured for as long as it was asked to be.
use tpcc_oceanbase_cpp.Common.{
  ℕ, ◌+◌, ◌≤◌, ◌≡◌, refl, Bool, true, false, ◌&&◌, List, [], ◌∷◌, leb, arith, Bool-cases, inl, inr,
}
use tpcc_oceanbase_cpp.Runner.{Phase, first_phase, tick, start_terminals, reached, main_loop}

-- The end of the run is the duration after the end of the warmup.
pub record Timed (duration : ℕ) (p : Phase) : Type 0 where
  pub ends : p.run_end ≡ p.warmup_end + duration

first_phase-Timed :
    (skip : Bool) (start later warmup duration : ℕ)
    → Timed duration (first_phase skip start later warmup duration)
unfolding first_phase
first_phase-Timed true start later warmup duration = record { ends = refl }
first_phase-Timed false start later warmup duration = record { ends = refl }

tick-Timed :
    (duration now : ℕ) (p : Phase) → Timed duration p → Timed duration (tick duration now p)
unfolding tick
tick-Timed duration now p v = ground arith

start_terminals-Timed :
    (duration : ℕ) (nows : List ℕ) (p : Phase)
    → Timed duration p
    → Timed duration (start_terminals duration nows p)
unfolding start_terminals
start_terminals-Timed duration [] p v = v
start_terminals-Timed duration (now ∷ nows) p v =
    start_terminals-Timed duration nows (tick duration now p) (tick-Timed duration now p v)

main_loop-Timed :
    (duration now : ℕ) (rounds : List (Bool × ℕ)) (p q : Phase)
    → Timed duration p
    → main_loop duration rounds p ≡ (reached now, q)
    → (q.warmup_done ≡ true) × (q.warmup_end + duration ≤ now)
unfolding main_loop
main_loop-Timed duration now [] p q v e = cc
main_loop-Timed duration now ((true, clock) ∷ rounds) p q v e = cc
main_loop-Timed duration now ((false, clock) ∷ rounds) p q v e =
    elim (Bool-cases (p.warmup_done && leb p.run_end clock)) [
      | inl y ↦ ground arith
      | inr n ↦
          main_loop-Timed duration now rounds (tick duration clock p) q
            (tick-Timed duration clock p v) (rw n at e)
    ]

-- A run that ends because its time is reached, and not by an interrupt, has ended its warmup, and from
-- there to the end have passed at least as many ticks as the configured duration, whatever the clock
-- showed while the terminals started and in the main loop.
pub measured_long_enough :
    (skip : Bool) (start later warmup duration now : ℕ) (starts : List ℕ) (rounds : List (Bool × ℕ))
    (q : Phase)
    → main_loop duration rounds
        (start_terminals duration starts (first_phase skip start later warmup duration))
      ≡ (reached now, q)
    → (q.warmup_done ≡ true) × (q.warmup_end + duration ≤ now)
measured_long_enough skip start later warmup duration now starts rounds q e =
    main_loop-Timed duration now rounds _ q
      (start_terminals-Timed duration starts _ (first_phase-Timed skip start later warmup duration))
      e

-- A clock that passes the end of the warmup and, a round later, the duration after it ends the loop.
pub main_loop_ends :
    (duration first last : ℕ) (p : Phase)
    → p.warmup_done ≡ false
    → p.warmup_end ≤ first
    → first + duration ≤ last
    → main_loop duration ((false, first) ∷ (false, last) ∷ []) p ≡ (
      reached last,
      record { warmup_done = true; warmup_end = first; run_end = first + duration },
    )
unfolding main_loop tick
main_loop_ends duration first last p w h k = ground arith
