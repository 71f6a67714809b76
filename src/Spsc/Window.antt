-- ===== src/Spsc/Window.antt =====
-- The items between two indices of a circular array.
use native.Mathlib.Nat.{mod-add-mod, mod-eq_of_lt, mod-eq-sub-mod, add-zero, mod-lt}
use tpcc_oceanbase_cpp.Common.{
  ℕ, zero, suc, ◌+◌, ◌-◌, ◌%◌, ◌≤◌, ◌<◌, ◌≡◌, ◌≢◌, refl, sym, ap, ap₂, ◌∙◌, List, [], ◌∷◌, ◌++◌,
  arith, dec_lt, length, get_or, set, get_or-set_self, get_or-set_ne,
}

module _ {ℓ} {A : Type ℓ} (d : A) where
  -- The `n` items from slot `h` on, going round at `cap`.
  abbrev pub window : List A → ℕ → ℕ → ℕ → List A
  window buf cap h zero = []
  window buf cap h (suc n) = get_or buf h d ∷ window buf cap ((h + 1) % cap) n

  pub length-window : (buf : List A) (cap h n : ℕ) → length (window buf cap h n) ≡ n
  length-window buf cap h zero = refl
  length-window buf cap h (suc n) = ap suc (length-window buf cap ((h + 1) % cap) n)

  pub window_nonempty :
      (buf : List A) (cap h n : ℕ)
      → 0 < n
      → window buf cap h n ≡ get_or buf h d ∷ window buf cap ((h + 1) % cap) (n - 1)
  window_nonempty buf cap h zero p = absurd (omega arith)
  window_nonempty buf cap h (suc n) p = ap (λ k. window buf cap h (suc k)) (omega arith)

-- Fewer than `cap` steps round the array do not come back to the start.
pub turn-ne : (cap h k : ℕ) → h < cap → suc k < cap → (h + suc k) % cap ≢ h
turn-ne cap h k hh hk = elim (dec_lt (h + suc k) cap) [
  | yes p ↦ omega (arith, mod-eq_of_lt p)
  | no p ↦
      let e = mod-eq-sub-mod {n = h + suc k} {m = cap} (omega arith) in
      let e' = mod-eq_of_lt {n = h + suc k - cap} {m = cap} (omega arith) in omega (arith, e, e')
]

-- A write to the slot just behind the window adds the item at its end.
pub window-set {ℓ} :
    {A : Type ℓ} (d : A) (buf : List A) (cap : ℕ) (x : A) (n h i : ℕ)
    → cap ≤ length buf
    → h < cap
    → n < cap
    → i ≡ (h + n) % cap
    → window d (set buf i x) cap h (suc n) ≡ window d buf cap h n ++ (x ∷ [])
window-set d buf cap x zero h i hs hh hn e =
    rw (e, add-zero, mod-eq_of_lt hh, get_or-set_self buf h x d (omega arith))
window-set d buf cap x (suc n) h i hs hh hn e =
    ap₂ ◌∷◌ (get_or-set_ne buf i h x d (rw e (turn-ne cap h n hh hn))) (
      window-set d buf cap x n ((h + 1) % cap) i hs (mod-lt (h + 1) (omega arith)) (omega arith)
        (e ∙ sym (mod-add-mod (h + 1) cap n ∙ ap (λ (m : ℕ). m % cap) (omega arith))))
