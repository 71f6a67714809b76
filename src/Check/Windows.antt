-- ===== src/Check/Windows.antt =====
-- src/check.cpp: the loops `for (startWh = 1; startWh <= n; startWh += size)` with
-- `endWh = min(startWh + size - 1, n)`.
use tpcc_oceanbase_cpp.Common.{
  ℕ, zero, suc, ◌+◌, ◌-◌, ◌≤◌, ◌<◌, ◌≡◌, refl, ap, ◌∙◌, sym, Bool, false, ◌&&◌, ◌||◌, List, [], ◌∷◌,
  leb, if◌then◌else◌, min, arith, Bool-cases, inl, inr,
}
use tpcc_oceanbase_cpp.Check.{any}

-- Each round moves the start, so the number of warehouses is enough fuel.
unfoldable pub windows : ℕ → ℕ → ℕ → ℕ → List (ℕ × ℕ)
windows zero size start last = []
windows (suc fuel) size start last =
    let rest = windows fuel size (start + size) last in
    if leb start last then (start, min (start + size - 1) last) ∷ rest else []

-- `col >= start AND col <= end`.
abbrev pub within : ℕ × ℕ → ℕ → Bool
within (a, b) x = leb a x && leb x b

any_none : {A : Type 0} (xs : List A) → any (λ x. false) xs ≡ false
any_none [] = refl
any_none (x ∷ xs) = any_none xs

any_or :
    {A : Type 0} (p q : A → Bool) (xs : List A) → any (λ x. p x || q x) xs ≡ (any p xs || any q xs)
any_or p q [] = refl
any_or p q (x ∷ xs) = let ih = any_or p q xs in ground (arith, ih)

any_ext : {A : Type 0} (p q : A → Bool) (xs : List A) → ((x : A) → p x ≡ q x) → any p xs ≡ any q xs
any_ext p q [] e = refl
any_ext p q (x ∷ xs) e = let ih = any_ext p q xs e in ground (arith, e x, ih)

-- The rows of the windows are those from the first start to the last warehouse.
window_or :
    (size start last x : ℕ) (f : Bool)
    → 0 < size
    → start ≤ last
    → ((f && within (start, min (start + size - 1) last) x) || (f && within (start + size, last) x))
      ≡ (f && within (start, last) x)
window_or size start last x f p h = ground arith

window_empty : (start last x : ℕ) (f : Bool) → last < start → (f && within (start, last) x) ≡ false
window_empty start last x f h = ground arith

windows_lem :
    {A : Type 0} (fuel size start last : ℕ) (key : A → ℕ) (f : A → Bool) (xs : List A)
    → 0 < size
    → last < start + fuel
    → any (λ w. any (λ x. f x && within w (key x)) xs) (windows fuel size start last)
      ≡ any (λ x. f x && within (start, last) (key x)) xs
unfolding windows
windows_lem zero size start last key f xs p h =
    sym (any_none xs)
    ∙ any_ext _ _ xs (λ x. sym (window_empty start last (key x) (f x) (omega arith)))
windows_lem (suc fuel) size start last key f xs p h = elim (Bool-cases (leb start last)) [
  | inl y ↦ rw y (
      ap (λ b. any (λ x. f x && within (start, min (start + size - 1) last) (key x)) xs || b)
        (windows_lem fuel size (start + size) last key f xs p (omega arith))
      ∙ sym (any_or _ _ xs)
      ∙ any_ext _ _ xs (λ x. window_or size start last (key x) (f x) p (ground arith)))
  | inr n ↦ rw n (
      sym (any_none xs)
      ∙ any_ext _ _ xs (λ x. sym (window_empty start last (key x) (f x) (ground arith))))
]

-- A query that is split over windows of warehouses returns a row in one of them exactly when the same
-- query over the warehouses 1, …, n returns one: no warehouse is left out.
pub windows_complete :
    {A : Type 0} (size n : ℕ) (key : A → ℕ) (f : A → Bool) (xs : List A)
    → 0 < size
    → any (λ w. any (λ x. f x && within w (key x)) xs) (windows n size 1 n)
      ≡ any (λ x. f x && within (1, n) (key x)) xs
windows_complete size n key f xs p = windows_lem n size 1 n key f xs p (omega arith)
