-- ===== src/Histogram/Layout.antt =====
-- The bounds of the buckets: unit buckets below `HdrTill_`, then doubling ranges, then the rest.
use native.Mathlib.Nat.{pow-suc}
use tpcc_oceanbase_cpp.Common.{
  ℕ, zero, suc, ◌+◌, ◌*◌, ◌^◌, ◌≤◌, ◌<◌, ◌≡◌, inl, inr, refl, ap, ◌∙◌, arith, ltb, leb, Bool-cases,
  pow-le, pow_pos,
}
use tpcc_oceanbase_cpp.Common.Word.{add64, mul64, u64_mod, u64_max}
use tpcc_oceanbase_cpp.Histogram.{ok, running, count_ranges, find_bucket, grow_bound}

-- The lower bound of the `j`-th doubling range.
unfoldable pub bound : ℕ → ℕ → ℕ
bound hdr j = hdr * 2 ^ j

pub bound-zero : (hdr : ℕ) → bound hdr 0 ≡ hdr
unfolding bound
bound-zero hdr = omega arith

pub bound-suc : (hdr j : ℕ) → bound hdr (suc j) ≡ 2 * bound hdr j
unfolding bound
bound-suc hdr j = omega (arith, ap (λ (t : ℕ). hdr * t) (pow-suc 2 j))

pub bound_mono : (hdr i j : ℕ) → i ≤ j → bound hdr i ≤ bound hdr j
unfolding bound
bound_mono hdr i j h = grind (arith, pow-le i j h)

pub bound_pos : (hdr j : ℕ) → 0 < hdr → 0 < bound hdr j
unfolding bound
bound_pos hdr j h = grind (arith, pow_pos j)

bound-ge : (hdr j : ℕ) → 0 < hdr → 2 ^ j ≤ bound hdr j
unfolding bound
bound-ge hdr j h = grind arith

bound-add-one : (hdr j : ℕ) → bound hdr (j + 1) ≡ 2 * bound hdr j
bound-add-one hdr j = let e : j + 1 ≡ suc j = omega arith in ap (bound hdr) e ∙ bound-suc hdr j

-- The doubling loop counts the ranges whose bound is at most the maximum, and 64 rounds are enough
-- for it where the maximum is below 2^63.
pub count_ranges_lem :
    (fuel hdr range m j : ℕ)
    → 0 < hdr
    → m < 2 ^ 63
    → range ≡ bound hdr (suc j)
    → bound hdr j ≤ m
    → 64 ≤ fuel + j
    → (c : ℕ) × (count_ranges fuel range m j ≡ ok c) × (bound hdr c ≤ m) × (m < bound hdr (suc c))
unfolding count_ranges
count_ranges_lem zero hdr range m j p h e low f =
    absurd (omega (arith, bound_mono hdr 64 j (omega arith), bound-ge hdr 64 p))
count_ranges_lem (suc fuel) hdr range m j p h e low f = elim (Bool-cases (leb range m)) [
  | inl more ↦
      let le : range ≤ m = ground arith in
      let b1 = bound-add-one hdr j in
      let b2 = bound-suc hdr (j + 1) in
      let b0 = bound-suc hdr j in
      rw more (
        count_ranges_lem fuel hdr (mul64 range 2) m (j + 1) p h (omega arith) (omega arith)
          (omega arith))
  | inr done ↦ (j, rw done, low, ground arith)
]

-- A doubling loop whose maximum is the largest `uint64_t` does not end, whatever the fuel.
pub count_ranges_diverges :
    (fuel range j : ℕ) → range ≤ u64_max → count_ranges fuel range u64_max j ≡ running
unfolding count_ranges
count_ranges_diverges zero range j h = refl
count_ranges_diverges (suc fuel) range j h = elim (Bool-cases (leb range u64_max)) [
  | inl more ↦ rw more (count_ranges_diverges fuel (mul64 range 2) (j + 1) (omega arith))
  | inr done ↦ absurd (ground arith)
]

-- The search ends in the range that holds the value, the last one being open above.
pub find_bucket_lem :
    (rounds hdr c value start index j : ℕ)
    → bound hdr (suc c) < u64_mod
    → start ≡ bound hdr j
    → index ≡ hdr + j
    → j ≤ c
    → c ≤ rounds + j
    → start ≤ value
    → (k : ℕ) × (find_bucket rounds (hdr + c) value start start index ≡ hdr + k)
      × (k ≤ c)
      × (bound hdr k ≤ value)
      × (k < c → value < bound hdr (suc k))
unfolding find_bucket
find_bucket_lem zero hdr c value start index j top e i le f low =
    let e' : j ≡ c = omega arith in
    (c, refl, omega arith, omega (arith, ap (bound hdr) e'), λ h. absurd (omega arith))
find_bucket_lem (suc rounds) hdr c value start index j top e i le f low =
    elim (Bool-cases (ltb index (hdr + c))) [
      | inr last ↦
          let e' : j ≡ c = ground arith in
          (c, rw last, omega arith, omega (arith, ap (bound hdr) e'), λ h. absurd (omega arith))
      | inl more ↦
          let lt : j < c = ground arith in
          let b1 = bound-suc hdr j in
          let b3 = bound_mono hdr (suc j) (suc c) (omega arith) in
          elim (Bool-cases (ltb value (add64 start start))) [
            | inl found ↦ (j, rw (more, found) i, omega arith, omega arith, λ h. ground arith)
            | inr on ↦
                let b2 = bound-add-one hdr j in
                let d : mul64 start 2 ≡ add64 start start = omega arith in
                rw (more, on, d)
                  (find_bucket_lem rounds hdr c value (add64 start start) (index + 1) (j + 1) top
                    (omega arith) (omega arith) (omega arith) (omega arith) (ground arith))
          ]
    ]

pub grow_bound_lem :
    (rounds hdr start j : ℕ)
    → bound hdr (suc (rounds + j)) < u64_mod
    → start ≡ bound hdr j
    → grow_bound rounds start start ≡ bound hdr (suc (rounds + j))
unfolding grow_bound
grow_bound_lem zero hdr start j top e =
    let i : suc (zero + j) ≡ suc j = omega arith in omega (arith, ap (bound hdr) i, bound-suc hdr j)
grow_bound_lem (suc rounds) hdr start j top e =
    let i : suc (rounds + (j + 1)) ≡ suc (suc rounds + j) = omega arith in
    let b1 = bound-add-one hdr j in
    let b2 = bound_mono hdr (j + 1) (suc (suc rounds + j)) (omega arith) in
    let d : mul64 start 2 ≡ add64 start start = omega arith in
    rw d (
      grow_bound_lem rounds hdr (add64 start start) (j + 1) (omega (arith, ap (bound hdr) i))
        (omega arith)
      ∙ ap (bound hdr) i)
