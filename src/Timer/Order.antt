-- ===== src/Timer/Order.antt =====
-- src/timer_queue.h: the order of the items in a bucket and of the buckets.
use tpcc_oceanbase_cpp.Common.{
  ℕ, zero, suc, ◌+◌, ◌≤◌, ◌≡◌, refl, Bool, false, List, [], ◌∷◌, ◌++◌, arith, ltb, if◌then◌else◌,
  drop, inl, inr, Bool-cases,
}
use tpcc_oceanbase_cpp.Timer.{Item, Rising, back_after, insert_upper}

module _ {ℓ} {V : Type ℓ} where
  -- The items that a test accepts, whose number tells how often each one is there.
  abbrev pub count : (Item V → Bool) → List (Item V) → ℕ
  count p [] = 0
  count p (x ∷ xs) = (if p x then 1 else 0) + count p xs

  pub count-append :
      (p : Item V → Bool) (xs ys : List (Item V)) → count p (xs ++ ys) ≡ count p xs + count p ys
  count-append p [] ys = omega arith
  count-append p (x ∷ xs) ys = let ih = count-append p xs ys in omega (arith, ih)

  -- No item is due before `low`, and none after `high`.
  abbrev pub NotBefore : ℕ → List (Item V) → Type 0
  NotBefore low [] = Unit {0}
  NotBefore low (x ∷ xs) = (low ≤ x.deadline) × NotBefore low xs

  abbrev pub NotAfter : ℕ → List (Item V) → Type 0
  NotAfter high [] = Unit {0}
  NotAfter high (x ∷ xs) = (x.deadline ≤ high) × NotAfter high xs

  pub NotBefore-weaken :
      (low low' : ℕ) (xs : List (Item V)) → low' ≤ low → NotBefore low xs → NotBefore low' xs
  NotBefore-weaken low low' [] l h = tt
  NotBefore-weaken low low' (x ∷ xs) l (h, hs) = (omega arith, NotBefore-weaken low low' xs l hs)

  pub NotAfter-weaken :
      (high high' : ℕ) (xs : List (Item V)) → high ≤ high' → NotAfter high xs → NotAfter high' xs
  NotAfter-weaken high high' [] l h = tt
  NotAfter-weaken high high' (x ∷ xs) l (h, hs) = (omega arith, NotAfter-weaken high high' xs l hs)

  pub NotBefore-append :
      (low : ℕ) (xs ys : List (Item V))
      → NotBefore low xs
      → NotBefore low ys
      → NotBefore low (xs ++ ys)
  NotBefore-append low [] ys h k = k
  NotBefore-append low (x ∷ xs) ys (h, hs) k = (h, NotBefore-append low xs ys hs k)

  pub NotAfter-append :
      (high : ℕ) (xs ys : List (Item V))
      → NotAfter high xs
      → NotAfter high ys
      → NotAfter high (xs ++ ys)
  NotAfter-append high [] ys h k = k
  NotAfter-append high (x ∷ xs) ys (h, hs) k = (h, NotAfter-append high xs ys hs k)

  -- The head of a rising sequence is its least item.
  pub Rising-NotBefore :
      (x : Item V) (xs : List (Item V)) → Rising (x ∷ xs) → NotBefore x.deadline xs
  Rising-NotBefore x [] r = tt
  Rising-NotBefore x (y ∷ ys) (h, r) =
      (h, NotBefore-weaken y.deadline x.deadline ys h (Rising-NotBefore y ys r))

  pub Rising-tail : (x : Item V) (xs : List (Item V)) → Rising (x ∷ xs) → Rising xs
  Rising-tail x [] r = tt
  Rising-tail x (y ∷ ys) (h, r) = r

  pub Rising-cons :
      (x : Item V) (xs : List (Item V)) → NotBefore x.deadline xs → Rising xs → Rising (x ∷ xs)
  Rising-cons x [] h r = tt
  Rising-cons x (y ∷ ys) (h, hs) r = (h, r)

  pub Rising-drop : (n : ℕ) (xs : List (Item V)) → Rising xs → Rising (drop n xs)
  Rising-drop zero xs r = r
  Rising-drop (suc n) [] r = tt
  Rising-drop (suc n) (x ∷ xs) r = Rising-drop n xs (Rising-tail x xs r)

  -- A late item goes to the end.
  pub Rising-back :
      (xs : List (Item V)) (x : Item V) → Rising xs → NotAfter x.deadline xs → Rising (xs ++ x ∷ [])
  Rising-back [] x r h = tt
  Rising-back (y ∷ []) x r (h, hs) = (h, tt)
  Rising-back (y ∷ z ∷ ys) x (l, r) (h, hs) = (l, Rising-back (z ∷ ys) x r hs)

  pub back_after-Rising :
      (xs : List (Item V)) (x : Item V)
      → Rising xs
      → back_after xs x.deadline ≡ false
      → Rising (xs ++ x ∷ [])
  unfolding back_after
  back_after-Rising [] x r e = tt
  back_after-Rising (y ∷ []) x r e = (ground arith, tt)
  back_after-Rising (y ∷ z ∷ ys) x (l, r) e = (l, back_after-Rising (z ∷ ys) x r e)

  pub insert-NotBefore :
      (low : ℕ) (x : Item V) (xs : List (Item V))
      → low ≤ x.deadline
      → NotBefore low xs
      → NotBefore low (insert_upper x xs)
  unfolding insert_upper
  insert-NotBefore low x [] l h = (l, tt)
  insert-NotBefore low x (y ∷ ys) l (h, hs) = elim (Bool-cases (ltb x.deadline y.deadline)) [
    | inl e ↦ rw e (l, (h, hs))
    | inr e ↦ rw e (h, insert-NotBefore low x ys l hs)
  ]

  pub insert-NotAfter :
      (high : ℕ) (x : Item V) (xs : List (Item V))
      → x.deadline ≤ high
      → NotAfter high xs
      → NotAfter high (insert_upper x xs)
  unfolding insert_upper
  insert-NotAfter high x [] l h = (l, tt)
  insert-NotAfter high x (y ∷ ys) l (h, hs) = elim (Bool-cases (ltb x.deadline y.deadline)) [
    | inl e ↦ rw e (l, (h, hs))
    | inr e ↦ rw e (h, insert-NotAfter high x ys l hs)
  ]

  pub insert-Rising : (x : Item V) (xs : List (Item V)) → Rising xs → Rising (insert_upper x xs)
  unfolding insert_upper
  insert-Rising x [] r = tt
  insert-Rising x (y ∷ ys) r = elim (Bool-cases (ltb x.deadline y.deadline)) [
    | inl e ↦ rw e (ground arith, r)
    | inr e ↦ rw e (
        Rising-cons y (insert_upper x ys)
          (insert-NotBefore y.deadline x ys (ground arith) (Rising-NotBefore y ys r))
          (insert-Rising x ys (Rising-tail y ys r)))
  ]

  pub count-insert :
      (p : Item V → Bool) (x : Item V) (xs : List (Item V))
      → count p (insert_upper x xs) ≡ (if p x then 1 else 0) + count p xs
  unfolding insert_upper
  count-insert p x [] = refl
  count-insert p x (y ∷ ys) = elim (Bool-cases (ltb x.deadline y.deadline)) [
    | inl e ↦ rw e refl
    | inr e ↦ let ih = count-insert p x ys in rw e (omega (arith, ih))
  ]
