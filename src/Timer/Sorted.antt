-- ===== src/Timer/Sorted.antt =====
-- src/timer_queue.h, `Sort` and `Advance`: what sorting a bucket keeps, and what an emptied bucket behind
-- the others changes.
use mathlib.Core.List.{Perm, Permᴰ}
use mathlib.Core.Logic.{∥∥₁_elim}
use native.Mathlib.Nat.{ℕ_set}
use tpcc_oceanbase_cpp.Common.{
  ℕ, zero, suc, ◌+◌, ◌<◌, ◌≡◌, refl, sym, ap, ap₂, ltb, ◌∙◌, subst, Bool, true, List, [], ◌∷◌, ◌++◌,
  some, arith, if◌then◌else◌, length, get_elem?, drop, Bool-cases, inl, inr,
}
use tpcc_oceanbase_cpp.Timer.{Item, Bucket, Sorter, Rising, empty_bucket, sort_bucket}
use tpcc_oceanbase_cpp.Timer.View.{all_items}
use tpcc_oceanbase_cpp.Timer.Order.{
  count, count-append, NotBefore, NotAfter, NotBefore-weaken, NotBefore-append,
}
use tpcc_oceanbase_cpp.Timer.Bounds.{Bounded, Bounded-weaken}
use tpcc_oceanbase_cpp.Timer.Chain.{AllEmpty, Chain, end, link}

module _ {ℓ} {V : Type ℓ} where
  count-permᴰ : (p : Item V → Bool) {xs ys : List (Item V)} → Permᴰ xs ys → count p xs ≡ count p ys
  count-permᴰ p Permᴰ.nil = refl
  count-permᴰ p (Permᴰ.cons e d) =
      let ih = count-permᴰ p d in ap₂ (λ x (n : ℕ). (if p x then 1 else 0) + n) e ih
  count-permᴰ p (Permᴰ.swap {l = l} e f) =
      ap₂ (λ x y. (if p x then 1 else 0) + ((if p y then 1 else 0) + count p l)) e f ∙ omega arith
  count-permᴰ p (Permᴰ.trans d e) = count-permᴰ p d ∙ count-permᴰ p e

  count-perm : (p : Item V → Bool) {xs ys : List (Item V)} → Perm xs ys → count p xs ≡ count p ys
  count-perm p h = ∥∥₁_elim h (ℕ_set _ _) (count-permᴰ p)

  -- No item is early when none is counted.
  pub NotBefore-count :
      (low : ℕ) (xs : List (Item V)) → NotBefore low xs → count (λ x. ltb x.deadline low) xs ≡ 0
  NotBefore-count low [] h = refl
  NotBefore-count low (x ∷ xs) (h, hs) = let ih = NotBefore-count low xs hs in ground arith

  pub count-NotBefore :
      (low : ℕ) (xs : List (Item V)) → count (λ x. ltb x.deadline low) xs ≡ 0 → NotBefore low xs
  count-NotBefore low [] h = tt
  count-NotBefore low (x ∷ xs) h = (ground arith, count-NotBefore low xs (ground arith))

  NotAfter-count :
      (high : ℕ) (xs : List (Item V)) → NotAfter high xs → count (λ x. ltb high x.deadline) xs ≡ 0
  NotAfter-count high [] h = refl
  NotAfter-count high (x ∷ xs) (h, hs) = let ih = NotAfter-count high xs hs in ground arith

  count-NotAfter :
      (high : ℕ) (xs : List (Item V)) → count (λ x. ltb high x.deadline) xs ≡ 0 → NotAfter high xs
  count-NotAfter high [] h = tt
  count-NotAfter high (x ∷ xs) h = (ground arith, count-NotAfter high xs (ground arith))

  pub length-count : (xs : List (Item V)) → length xs ≡ count (λ x. true) xs
  length-count [] = refl
  length-count (x ∷ xs) = let ih = length-count xs in omega (arith, ih)

  -- A bucket of a chain that becomes current: sorted, and with the items and the bounds that it had.
  pub record Ready (b c : Bucket V) : Type ℓ where
    pub bounded : Bounded 0 c
    pub high : c.max_deadline ≡ b.max_deadline
    pub rising : Rising c.items
    pub counts : (p : Item V → Bool) → count p c.items ≡ count p b.items

  pub sorted-Ready :
      (S : Sorter V) (low : ℕ) (b : Bucket V)
      → Bounded low b
      → (b.is_sorted ≡ true → Rising b.items)
      → Ready b (sort_bucket S b)
  unfolding sort_bucket
  sorted-Ready S low b v f = elim (Bool-cases b.is_sorted) [
    | inl y ↦
        subst
          (λ s. Ready b (if s then b else record b { items = S.sort b.items; is_sorted = true }))
          (sym y)
          (record {
            bounded = Bounded-weaken low 0 b (omega arith) v;
            high = refl;
            rising = f y;
            counts = λ p. refl;
          })
    | inr n ↦
        let same = λ (p : Item V → Bool). count-perm p (S.sort_perm b.items) in
        subst
          (λ s. Ready b (if s then b else record b { items = S.sort b.items; is_sorted = true }))
          (sym n)
          (record {
            bounded = record {
              nonempty =
                  let a = length-count (S.sort b.items) in
                  let c = length-count b.items in
                  let e = same (λ x. true) in omega (arith, a, c, e, v.nonempty);
              above_low = omega arith;
              in_order = v.in_order;
              lowest = count-NotBefore b.min_deadline (S.sort b.items) (
                  same (λ x. ltb x.deadline b.min_deadline)
                  ∙ NotBefore-count b.min_deadline b.items v.lowest);
              highest = count-NotAfter b.max_deadline (S.sort b.items) (
                  same (λ x. ltb b.max_deadline x.deadline)
                  ∙ NotAfter-count b.max_deadline b.items v.highest);
            };
            high = refl;
            rising = S.sort_rising b.items;
            counts = same;
          })
  ]

  -- The emptied bucket comes last.
  pub Chain-emptied :
      (low : ℕ) (bs : List (Bucket V)) → Chain low bs → Chain low (bs ++ empty_bucket ∷ [])
  Chain-emptied low bs (end e) = end (all bs e)
    where
      all : (bs : List (Bucket V)) → AllEmpty bs → AllEmpty (bs ++ empty_bucket ∷ [])
      all [] e = (refl, tt)
      all (b ∷ bs) (e, es) = (e, all bs es)
  Chain-emptied low (b ∷ bs) (link v f c) = link v f (Chain-emptied b.max_deadline bs c)

  pub count-emptied :
      (p : Item V → Bool) (bs : List (Bucket V))
      → count p (all_items (bs ++ empty_bucket ∷ [])) ≡ count p (all_items bs)
  unfolding empty_bucket
  count-emptied p [] = refl
  count-emptied p (b ∷ bs) =
      count-append p b.items (all_items (bs ++ empty_bucket ∷ []))
      ∙ omega (arith, count-emptied p bs, count-append p b.items (all_items bs))

  -- All that follows is no earlier.
  pub empty_items : (bs : List (Bucket V)) → AllEmpty bs → all_items bs ≡ []
  unfolding empty_bucket
  empty_items [] e = refl
  empty_items (b ∷ bs) (e, es) =
      ap (λ (c : Bucket V). c.items ++ all_items bs) e ∙ empty_items bs es

  pub Chain-NotBefore :
      (low : ℕ) (bs : List (Bucket V)) → Chain low bs → NotBefore low (all_items bs)
  Chain-NotBefore low bs (end e) = subst (NotBefore low) (sym (empty_items bs e)) tt
  Chain-NotBefore low (b ∷ bs) (link v f c) =
      NotBefore-append low b.items (all_items bs)
        (NotBefore-weaken b.min_deadline low b.items v.above_low v.lowest)
        (NotBefore-weaken b.max_deadline low (all_items bs) (omega (arith, v.above_low, v.in_order))
          (Chain-NotBefore b.max_deadline bs c))

  first_from :
      (n : ℕ) (xs : List (Item V))
      → n < length xs
      → (x : Item V) × (get_elem? xs n ≡ some x) × (drop n xs ≡ x ∷ drop (suc n) xs)
  first_from n [] h = absurd (omega arith)
  first_from zero (x ∷ xs) h = (x, refl, refl)
  first_from (suc n) (x ∷ xs) h = first_from n xs (omega arith)

  -- The item at the cursor is the first of those from there on.
  pub at_cursor :
      (n : ℕ) (xs : List (Item V))
      → n < length xs
      → (x : Item V) × (get_elem? xs n ≡ some x) × (drop n xs ≡ x ∷ drop (n + 1) xs)
  at_cursor n xs h =
      let (x, e, d) = first_from n xs h in
      let more : suc n ≡ n + 1 = omega arith in (x, e, d ∙ ap (λ (k : ℕ). x ∷ drop k xs) more)
