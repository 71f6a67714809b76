-- ===== src/Common/Bits.antt =====
-- `x & (2^k - 1)` is `x % 2^k`, for every `k`, from the digit recursion of the native operation.
use Prim.Native.Nat.{
  ℕ, zero, suc, ◌+◌, ◌-◌, ◌*◌, ◌/◌, ◌%◌, ◌^◌, ◌≤◌, ◌<◌, min, bit_and, digits, bit_and-bitwise,
}
use mathlib.Core.Path.{◌≡◌, sym, ap, ◌∙◌}
use native.Mathlib.Nat.{pow-suc, mod-lt, mod-eq_of_lt, mul-add-mod_self_right, div-add-mod'}
use native.Mathlib.Omega.{arith}
use native.Mathlib.Decide.{dec_le}

pub pow_pos : (k : ℕ) → 0 < 2 ^ k
pow_pos zero = omega arith
pow_pos (suc k) = omega (arith, pow-suc 2 k, pow_pos k)

pub pow-le : (k n : ℕ) → k ≤ n → 2 ^ k ≤ 2 ^ n
pow-le k zero h = let e : k ≡ 0 = omega arith in omega (arith, ap (λ (t : ℕ). 2 ^ t) e)
pow-le k (suc n) h = elim (dec_le k n) [
  | no m ↦ let e' : k ≡ suc n = omega arith in omega (arith, ap (λ (t : ℕ). 2 ^ t) e')
  | yes m ↦ omega (arith, pow-suc 2 n, pow-le k n (omega arith))
]

pub pow_add : (a b : ℕ) → 2 ^ (b + a) ≡ 2 ^ b * 2 ^ a
pow_add a zero = let e : zero + a ≡ a = omega arith in omega (arith, ap (λ (t : ℕ). 2 ^ t) e)
pow_add a (suc b) =
    let e : suc b + a ≡ suc (b + a) = omega arith in
    omega (
      arith,
      ap (λ (t : ℕ). 2 ^ t) e,
      pow-suc 2 (b + a),
      pow-suc 2 b,
      ap (λ (t : ℕ). 2 * t) (pow_add a b),
      ap (λ (t : ℕ). t * 2 ^ a) (pow-suc 2 b),
    )

-- A remainder is known from any decomposition.
pub mod_of_decomp : (a q m r : ℕ) → a ≡ q * m + r → r < m → a % m ≡ r
mod_of_decomp a q m r e h = rw e (rw (mul-add-mod_self_right q m r) (mod-eq_of_lt h))

mod_double : (a p : ℕ) → 0 < p → a % (2 * p) ≡ (a / 2) % p * 2 + a % 2
mod_double a p h =
    mod_of_decomp a (a / 2 / p) (2 * p) ((a / 2) % p * 2 + a % 2)
      (omega (arith, div-add-mod' (a / 2) p, ap (λ (t : ℕ). t * 2) (div-add-mod' (a / 2) p)))
      (omega (arith, mod-lt (a / 2) h))

mask_digit :
    (d a p q : ℕ) → 0 < p → q ≡ 2 * p → d ≡ (a / 2) % p → d * 2 + min (a % 2) ((q - 1) % 2) ≡ a % q
mask_digit d a p q h e s = rw e (omega (arith, mod_double a p h))

-- The digit recursion meets a mask of `k` ones; the fuel bounds the number.
masked : (fuel k a : ℕ) → a ≤ fuel → digits (λ _. 0) min fuel a (2 ^ k - 1) ≡ a % 2 ^ k
masked zero k zero h = sym (mod-eq_of_lt (pow_pos k))
masked zero k (suc a) h = absurd (omega arith)
masked (suc n) k zero h = sym (mod-eq_of_lt (pow_pos k))
masked (suc n) zero (suc a) h = omega (arith, masked n zero (suc a / 2) (omega arith))
masked (suc n) (suc k) (suc a) h =
    let half : (2 ^ suc k - 1) / 2 ≡ 2 ^ k - 1 = omega (arith, pow-suc 2 k, pow_pos k) in
    mask_digit _ (suc a) (2 ^ k) (2 ^ suc k) (pow_pos k) (omega (arith, pow-suc 2 k)) (
      ap (λ (m : ℕ). digits (λ _. 0) min n (suc a / 2) m) half
      ∙ masked n k (suc a / 2) (omega arith))

pub bit_and-mask : (k a : ℕ) → bit_and a (2 ^ k - 1) ≡ a % 2 ^ k
bit_and-mask k a = bit_and-bitwise a (2 ^ k - 1) ∙ masked a k a (omega arith)
