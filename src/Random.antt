-- ===== src/Random.antt =====
-- src/util.h, the generator `TFastRng` and `BoundedRandom`, from which `RandomNumber` draws.
-- A state is 64 bits; `x ^ y` is `bit_xor`.
pub mod Bounds
mod Tests
use tpcc_oceanbase_cpp.Common.{
  ℕ, zero, suc, ◌+◌, ◌-◌, ◌*◌, ◌/◌, ◌%◌, ◌^◌, Bool, Option, none, some, bit_xor, ◌==◌, ltb,
  if◌then◌else◌,
}
use tpcc_oceanbase_cpp.Common.Word.{u64_mod, add64, sub64, mul64}

-- The constructor's state for the two 32-bit numbers of the random device.
unfoldable pub seed : ℕ → ℕ → ℕ
seed high low =
    let s : ℕ = (high * 2 ^ 32 % u64_mod + low) % u64_mod in
    if s == 0 then 0x9E3779B97F4A7C15 else s

-- The three steps of `Next` on the state.
unfoldable pub scramble : ℕ → ℕ
scramble x =
    let a = bit_xor x (x / 2 ^ 12) in
    let b = bit_xor a (a * 2 ^ 25 % u64_mod) in bit_xor b (b / 2 ^ 27)

-- `Next`: the number and the next state.
unfoldable pub next : ℕ → ℕ × ℕ
unfolding scramble
next state = let x = scramble state in (mul64 x 0x2545F4914F6CDD1D, x)

-- The loop `while (l < t)` for a draw `x`; the draws may be rejected without end, so it takes fuel.
unfoldable pub accept : ℕ → ℕ → ℕ → ℕ → ℕ → Option (ℕ × ℕ)
unfolding next
accept zero range t x state =
    if ltb (x * range % u64_mod) t then none else some (x * range / u64_mod, state)
accept (suc fuel) range t x state =
    let (y, after) = next state in
    let rest = accept fuel range t y after in
    if ltb (x * range % u64_mod) t then rest else some (x * range / u64_mod, state)

-- `BoundedRandom`.
unfoldable pub bounded_random : ℕ → ℕ → ℕ → Option (ℕ × ℕ)
unfolding accept
bounded_random fuel range state =
    if range == 0
    then some (0, state)
    else (let (x, after) = next state in
        if ltb (x * range % u64_mod) range
        then accept fuel range (sub64 0 range % range) x after
        else some (x * range / u64_mod, after))

-- `RandomNumber`, whose last step adds `from`.
abbrev pub add_low : ℕ → Option (ℕ × ℕ) → Option (ℕ × ℕ)
add_low low none = none
add_low low (some (n, after)) = some (add64 low n, after)

unfoldable pub random_number : ℕ → ℕ → ℕ → ℕ → Option (ℕ × ℕ)
unfolding bounded_random
random_number fuel low high state =
    add_low low (bounded_random fuel (add64 (sub64 high low) 1) state)
