-- ===== src/Random/Bounds.antt =====
-- src/util.h: the range of `BoundedRandom` and `RandomNumber`.
use native.Mathlib.Nat.{mod-lt}
use tpcc_oceanbase_cpp.Common.{
  ℕ, true, false, zero, suc, ◌+◌, ◌*◌, ◌/◌, ◌%◌, ◌≤◌, ◌<◌, ◌≡◌, refl, ap, Option, none, some, ◌==◌,
  ltb, arith, ltb→lt, ◌⊎◌, Bool-cases, inl, inr,
}
use tpcc_oceanbase_cpp.Common.Word.{u64_mod, add64, sub64}
use tpcc_oceanbase_cpp.Random.{next, accept, bounded_random, add_low, random_number}

-- The high half of a product with a 64-bit number is below the other factor.
high_half : (x range : ℕ) → x < u64_mod → 0 < range → x * range / u64_mod < range
high_half x range h p =
    let below : x * range < u64_mod * range = grind arith in omega (arith, below)

next_lt : (state : ℕ) → (next state).0 < u64_mod
unfolding next
next_lt state = omega arith

-- The threshold of rejection, and that the draw `x` and the `fuel` draws after it are all below it.
abbrev pub threshold : ℕ → ℕ
threshold range = sub64 0 range % range

abbrev pub AllRejected : ℕ → ℕ → ℕ → ℕ → Type 0
AllRejected zero range x state = x * range % u64_mod < threshold range
AllRejected (suc fuel) range x state =
    (x * range % u64_mod < threshold range) × AllRejected fuel range (next state).0 (next state).1

-- A number below the range, or draws that are all rejected.
abbrev Drawn : ℕ → Option (ℕ × ℕ) → Type 0 → Type 0
Drawn range r Rejected =
    ((n after : ℕ) × ((r ≡ some (n, after)) × (n < range))) ⊎ ((r ≡ none) × Rejected)

accept_lem :
    (fuel range x state : ℕ)
    → x < u64_mod
    → 0 < range
    → Drawn range (accept fuel range (threshold range) x state) (AllRejected fuel range x state)
unfolding accept
accept_lem zero range x state h p =
    elim (Bool-cases (ltb (x * range % u64_mod) (threshold range))) [
      | inl y ↦ rw y (inr (refl, ltb→lt _ _ y))
      | inr n ↦ rw n (inl (x * range / u64_mod, state, (refl, high_half x range h p)))
    ]
accept_lem (suc fuel) range x state h p =
    elim (Bool-cases (ltb (x * range % u64_mod) (threshold range))) [
      | inl y ↦ rw y (elim (accept_lem fuel range (next state).0 (next state).1 (next_lt state) p) [
        | inl d ↦ inl d
        | inr (e, r) ↦ inr (e, (ltb→lt _ _ y, r))
      ])
      | inr n ↦ rw n (inl (x * range / u64_mod, state, (refl, high_half x range h p)))
    ]

bounded_random_lem :
    (fuel range state : ℕ)
    → 0 < range
    → Drawn range
        (bounded_random fuel range state)
        (AllRejected fuel range (next state).0 (next state).1)
unfolding bounded_random
bounded_random_lem fuel range state p =
    let some_range : (range == 0) ≡ false = ground arith in
    let x = (next state).0 in
    let after = (next state).1 in
    rw some_range (elim (Bool-cases (ltb (x * range % u64_mod) range)) [
      | inl y ↦ rw y (accept_lem fuel range x after (next_lt state) p)
      | inr n ↦ rw n (inl (x * range / u64_mod, after, (refl, high_half x range (next_lt state) p)))
    ])

-- The range of all 64-bit numbers wraps to 0, and the answer is `low`, which is 0.
whole_range :
    (fuel range state low : ℕ)
    → (range == 0) ≡ true
    → low < u64_mod
    → add_low low (bounded_random fuel range state) ≡ some (low, state)
unfolding bounded_random
whole_range fuel range state low z h = rw z (ap (λ m. some (m, state)) (omega arith))

-- `RandomNumber(low, high)` answers a number from `low` to `high`, both included, unless the draws run
-- out of fuel, and then the first draw and the `fuel` ones after it were all below the threshold of
-- rejection, which is less than the size of the range.
pub random_number_lem :
    (fuel low high state : ℕ)
    → low ≤ high
    → high < u64_mod
    → ((n after : ℕ) × ((random_number fuel low high state ≡ some (n, after))
          × (low ≤ n)
          × (n ≤ high)))
      ⊎ ((random_number fuel low high state ≡ none)
          × AllRejected fuel (add64 (sub64 high low) 1) (next state).0 (next state).1
          × (threshold (add64 (sub64 high low) 1) < add64 (sub64 high low) 1))
unfolding random_number
random_number_lem fuel low high state h k =
    let range : ℕ = add64 (sub64 high low) 1 in
    elim (Bool-cases (range == 0)) [
      | inl z ↦ inl (low, state, (whole_range fuel range state low z (omega arith), omega arith, h))
      | inr p ↦
          let pos_range : 0 < range = ground arith in
          elim (bounded_random_lem fuel range state pos_range) [
            | inl (n, after, (e, lt)) ↦ inl (
              low + n,
              after,
              (rw e (ap (λ m. some (m, after)) (omega arith)), omega arith, omega arith),
            )
            | inr (e, r) ↦ inr (rw e refl, r, mod-lt (sub64 0 range) pos_range)
          ]
    ]
