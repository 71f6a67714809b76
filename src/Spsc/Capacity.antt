-- ===== src/Spsc/Capacity.antt =====
-- Capacities: the powers of two that `std::bit_ceil` gives, and the slots of 64-bit indices.
use native.Mathlib.Nat.{pow-suc, mul-add-mod_self_right, mod-add-mod, div-add-mod'}
use tpcc_oceanbase_cpp.Common.{
  ℕ, zero, suc, ◌+◌, ◌-◌, ◌*◌, ◌/◌, ◌%◌, ◌^◌, ◌≤◌, ◌<◌, ◌≡◌, refl, sym, ap, ◌∙◌, ◌⊎◌, inl, inr,
  false, arith, leb, Bool-cases, bit_and, bit_and-mask, pow-le, pow_add,
}
use tpcc_oceanbase_cpp.Common.Word.{u64_mod}
use tpcc_oceanbase_cpp.Spsc.{bit_ceil_from, bit_ceil}

-- A capacity is zero or a power of two that a `uint64_t` can hold.
abbrev pub IsCapacity : ℕ → Type 0
IsCapacity c = (c ≡ 0) ⊎ ((k : ℕ) × (k ≤ 63) × (c ≡ 2 ^ k))

pub capacity-le : {c : ℕ} → IsCapacity c → c ≤ 2 ^ 63
capacity-le (inl e) = omega arith
capacity-le (inr (k, h, e)) = omega (arith, pow-le k 63 h)

-- Reduction by 2^w does not change the remainder by a smaller power of two.
pub mod-mod-pow : (k w x : ℕ) → k ≤ w → x % 2 ^ w % 2 ^ k ≡ x % 2 ^ k
mod-mod-pow k w x h = sym (
    ap (λ (t : ℕ). t % 2 ^ k) split
    ∙ mul-add-mod_self_right (x / 2 ^ w * 2 ^ (w - k)) (2 ^ k) (x % 2 ^ w))
  where
    whole : 2 ^ w ≡ 2 ^ (w - k) * 2 ^ k
    whole = let e : w ≡ (w - k) + k = omega arith in ap (λ (t : ℕ). 2 ^ t) e ∙ pow_add k (w - k)

    split : x ≡ x / 2 ^ w * 2 ^ (w - k) * 2 ^ k + x % 2 ^ w
    split = omega (arith, div-add-mod' x (2 ^ w), ap (λ (t : ℕ). x / 2 ^ w * t) whole)

bit_ceil_from_lem :
    (fuel j p n : ℕ)
    → p ≡ 2 ^ j
    → n ≤ 2 ^ (j + fuel)
    → ((i : ℕ) → n ≤ 2 ^ i → j ≤ i)
    → (k : ℕ) × (k ≤ j + fuel)
      × (bit_ceil_from fuel p n ≡ 2 ^ k)
      × (n ≤ 2 ^ k)
      × ((i : ℕ) → n ≤ 2 ^ i → k ≤ i)
unfolding bit_ceil_from
bit_ceil_from_lem zero j p n e h low =
    let e' : j + 0 ≡ j = omega arith in
    (j, omega arith, e, omega (arith, ap (λ (t : ℕ). 2 ^ t) e'), low)
bit_ceil_from_lem (suc fuel) j p n e h low = elim (Bool-cases (leb n p)) [
  | inl fits ↦ (j, omega arith, rw fits e, ground arith, low)
  | inr small ↦
      let e' : j + suc fuel ≡ suc j + fuel = omega arith in
      let (k, le, eq, up, least) =
        bit_ceil_from_lem fuel (suc j) (2 * p) n (omega (arith, e, pow-suc 2 j))
          (omega (arith, ap (λ (t : ℕ). 2 ^ t) e')) (above small) in
      (k, omega arith, rw small eq, up, least)
]
  where
    above : leb n p ≡ false → (i : ℕ) → n ≤ 2 ^ i → suc j ≤ i
    above small i q = elim (Bool-cases (leb i j)) [
      | inl le ↦ absurd (ground (arith, pow-le i j))
      | inr gt ↦ ground arith
    ]

-- `std::bit_ceil` of a capacity that fits is the least power of two that is not below it.
pub bit_ceil_lem :
    (n : ℕ)
    → n ≤ 2 ^ 63
    → (k : ℕ) × (k ≤ 63) × (bit_ceil n ≡ 2 ^ k) × (n ≤ 2 ^ k) × ((i : ℕ) → n ≤ 2 ^ i → k ≤ i)
unfolding bit_ceil
bit_ceil_lem n h = bit_ceil_from_lem 63 0 1 n refl h (λ i q. omega arith)

-- The slot of an index is its remainder by the capacity.
pub slot_lem : (c m i : ℕ) → IsCapacity c → 0 < c → m ≡ c - 1 → bit_and i m ≡ i % c
slot_lem c m i (inl z) p e = absurd (omega arith)
slot_lem c m i (inr (k, h, z)) p e =
    ap (bit_and i) (omega arith) ∙ bit_and-mask k i ∙ ap (λ (t : ℕ). i % t) (sym z)

-- The wrap of the counters at 2^64 is not seen by the slots.
pub slot-add64 : (c i n : ℕ) → IsCapacity c → 0 < c → (i + n) % u64_mod % c ≡ (i % c + n) % c
slot-add64 c i n (inl z) p = absurd (omega arith)
slot-add64 c i n (inr (k, h, z)) p =
    ap (λ (t : ℕ). (i + n) % u64_mod % t) z
    ∙ mod-mod-pow k 64 (i + n) (omega arith)
    ∙ ap (λ (t : ℕ). (i + n) % t) (sym z)
    ∙ sym (mod-add-mod i c n)
