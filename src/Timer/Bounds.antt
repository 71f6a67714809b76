-- ===== src/Timer/Bounds.antt =====
-- src/timer_queue.h, `TBucket`: the deadlines of a bucket's items and its `MinDeadline` and `MaxDeadline`.
use tpcc_oceanbase_cpp.Common.{
  ℕ, zero, suc, ◌+◌, ◌≤◌, ◌<◌, ◌≡◌, refl, sym, ap, ◌∙◌, subst, Bool, true, List, [], ◌∷◌, ◌++◌,
  arith, ltb, leb, if◌then◌else◌, length, take, drop, min, max, inl, inr, Bool-cases, length-append,
  drop-append,
}
use tpcc_oceanbase_cpp.Timer.{Item, Bucket, Rising, back_after, add_back, insert_upper, add_sorted}
use tpcc_oceanbase_cpp.Timer.Order.{
  count, count-append, NotBefore, NotAfter, NotBefore-weaken, NotAfter-weaken, NotBefore-append,
  NotAfter-append, Rising-back, back_after-Rising, insert-NotBefore, insert-NotAfter, insert-Rising,
  count-insert,
}

-- A bucket that is not empty, whose items are all between its bounds, and no bound is below `low`.
pub record Bounded {ℓ} {V : Type ℓ} (low : ℕ) (b : Bucket V) : Type 0 where
  pub nonempty : 0 < length b.items
  pub above_low : low ≤ b.min_deadline
  pub in_order : b.min_deadline ≤ b.max_deadline
  pub lowest : NotBefore b.min_deadline b.items
  pub highest : NotAfter b.max_deadline b.items

module _ {ℓ} {V : Type ℓ} where
  pub Bounded-weaken : (low low' : ℕ) (b : Bucket V) → low' ≤ low → Bounded low b → Bounded low' b
  Bounded-weaken low low' b h v = record {
    nonempty = v.nonempty;
    above_low = omega (arith, v.above_low);
    in_order = v.in_order;
    lowest = v.lowest;
    highest = v.highest;
  }

  -- An item at the end of a bucket whose items are in its bounds.
  pub back-Bounded :
      (low : ℕ) (b : Bucket V) (x : Item V)
      → low ≤ b.min_deadline
      → low ≤ x.deadline
      → NotBefore b.min_deadline b.items
      → NotAfter b.max_deadline b.items
      → Bounded low (add_back b x)
  unfolding add_back
  back-Bounded low b x h hx l u = record {
    nonempty = omega (arith, length-append b.items (x ∷ []));
    above_low = omega arith;
    in_order = omega arith;
    lowest =
        NotBefore-append (min b.min_deadline x.deadline) b.items (x ∷ [])
          (NotBefore-weaken b.min_deadline (min b.min_deadline x.deadline) b.items (omega arith) l)
          (omega arith, tt);
    highest =
        NotAfter-append (max b.max_deadline x.deadline) b.items (x ∷ [])
          (NotAfter-weaken b.max_deadline (max b.max_deadline x.deadline) b.items (omega arith) u)
          (omega arith, tt);
  }

  pub flag-back :
      (b : Bucket V) (x : Item V)
      → (b.is_sorted ≡ true → Rising b.items)
      → (add_back b x).is_sorted ≡ true
      → Rising (add_back b x).items
  unfolding add_back
  flag-back b x f e = elim (Bool-cases (back_after b.items x.deadline)) [
    | inl y ↦ absurd (ground arith)
    | inr n ↦ back_after-Rising b.items x (f (ground arith)) n
  ]

  pub count-back :
      (p : Item V → Bool) (b : Bucket V) (x : Item V)
      → count p (add_back b x).items ≡ count p b.items + (if p x then 1 else 0)
  unfolding add_back
  count-back p b x = count-append p b.items (x ∷ []) ∙ omega arith

  NotBefore-take : (low n : ℕ) (xs : List (Item V)) → NotBefore low xs → NotBefore low (take n xs)
  NotBefore-take low zero xs h = tt
  NotBefore-take low (suc n) [] h = tt
  NotBefore-take low (suc n) (x ∷ xs) (h, hs) = (h, NotBefore-take low n xs hs)

  pub NotBefore-drop :
      (low n : ℕ) (xs : List (Item V)) → NotBefore low xs → NotBefore low (drop n xs)
  NotBefore-drop low zero xs h = h
  NotBefore-drop low (suc n) [] h = tt
  NotBefore-drop low (suc n) (x ∷ xs) (h, hs) = NotBefore-drop low n xs hs

  NotAfter-take : (high n : ℕ) (xs : List (Item V)) → NotAfter high xs → NotAfter high (take n xs)
  NotAfter-take high zero xs h = tt
  NotAfter-take high (suc n) [] h = tt
  NotAfter-take high (suc n) (x ∷ xs) (h, hs) = (h, NotAfter-take high n xs hs)

  pub NotAfter-drop :
      (high n : ℕ) (xs : List (Item V)) → NotAfter high xs → NotAfter high (drop n xs)
  NotAfter-drop high zero xs h = h
  NotAfter-drop high (suc n) [] h = tt
  NotAfter-drop high (suc n) (x ∷ xs) (h, hs) = NotAfter-drop high n xs hs

  drop-take_append : (n : ℕ) (xs ys : List (Item V)) → n ≤ length xs → drop n (take n xs ++ ys) ≡ ys
  drop-take_append zero xs ys h = refl
  drop-take_append (suc n) [] ys h = absurd (omega arith)
  drop-take_append (suc n) (x ∷ xs) ys h = drop-take_append n xs ys (omega arith)

  length-inserted :
      (n : ℕ) (x : Item V) (xs : List (Item V))
      → n ≤ length xs
      → n ≤ length (take n xs ++ insert_upper x (drop n xs))
  length-inserted zero x xs h = omega arith
  length-inserted (suc n) x [] h = absurd (omega arith)
  length-inserted (suc n) x (y ∷ xs) h =
      let ih = length-inserted n x xs (omega arith) in omega (arith, ih)

  length-insert : (x : Item V) (xs : List (Item V)) → 0 < length (insert_upper x xs)
  unfolding insert_upper
  length-insert x [] = omega arith
  length-insert x (y ∷ ys) = elim (Bool-cases (ltb x.deadline y.deadline)) [
    | inl e ↦ rw e (omega arith)
    | inr e ↦ rw e (omega arith)
  ]

  -- What an item does to a bucket that is sorted from the cursor on.
  pub record Inserted (b c : Bucket V) (x : Item V) (from : ℕ) : Type ℓ where
    pub bounded : Bounded 0 c
    pub high : c.max_deadline ≡ max b.max_deadline x.deadline
    pub room : from ≤ length c.items
    pub rising : Rising (drop from c.items)
    pub counts :
        (p : Item V → Bool)
        → count p (drop from c.items) ≡ count p (drop from b.items) + (if p x then 1 else 0)

  pub sorted-Inserted :
      (b : Bucket V) (x : Item V) (from : ℕ)
      → from ≤ length b.items
      → Rising (drop from b.items)
      → NotBefore b.min_deadline b.items
      → NotAfter b.max_deadline b.items
      → Inserted b (add_sorted b x from) x from
  unfolding add_sorted add_back
  sorted-Inserted b x from h r l u = elim (Bool-cases (leb b.max_deadline x.deadline)) [
    | inl e ↦ rw e (at_back (ground arith))
    | inr e ↦ rw e (record {
      bounded = record {
        nonempty = omega (
          arith,
          length-append (take from b.items) (insert_upper x (drop from b.items)),
          length-insert x (drop from b.items),
        );
        above_low = omega arith;
        in_order = omega arith;
        lowest =
            NotBefore-append (min b.min_deadline x.deadline) (take from b.items) _
              (NotBefore-take (min b.min_deadline x.deadline) from b.items (wider_low b.items l))
              (insert-NotBefore (min b.min_deadline x.deadline) x (drop from b.items) (omega arith)
                (NotBefore-drop (min b.min_deadline x.deadline) from b.items
                  (wider_low b.items l)));
        highest =
            NotAfter-append (max b.max_deadline x.deadline) (take from b.items) _
              (NotAfter-take (max b.max_deadline x.deadline) from b.items (wider_high b.items u))
              (insert-NotAfter (max b.max_deadline x.deadline) x (drop from b.items) (omega arith) (
                NotAfter-drop (max b.max_deadline x.deadline) from b.items (wider_high b.items u)));
      };
      high = refl;
      room = length-inserted from x b.items h;
      rising =
          subst Rising (sym (drop-take_append from b.items _ h))
            (insert-Rising x (drop from b.items) r);
      counts = λ p.
          ap (count p) (drop-take_append from b.items _ h)
          ∙ (count-insert p x (drop from b.items) ∙ omega arith);
    })
  ]
    where
      at_back : b.max_deadline ≤ x.deadline → Inserted b (add_back b x) x from
      at_back k = record {
        bounded = back-Bounded 0 b x (omega arith) (omega arith) l u;
        high = refl;
        room = omega (arith, length-append b.items (x ∷ []));
        rising = subst Rising (sym (drop-append from b.items (x ∷ []) h)) (
            Rising-back (drop from b.items) x r (
              NotAfter-drop x.deadline from b.items
                (NotAfter-weaken b.max_deadline x.deadline b.items k u)));
        counts = λ p.
            ap (count p) (drop-append from b.items (x ∷ []) h)
            ∙ (count-append p (drop from b.items) (x ∷ []) ∙ omega arith);
      }

      wider_low :
          (xs : List (Item V))
          → NotBefore b.min_deadline xs
          → NotBefore (min b.min_deadline x.deadline) xs
      wider_low xs =
          NotBefore-weaken b.min_deadline (min b.min_deadline x.deadline) xs (omega arith)

      wider_high :
          (xs : List (Item V))
          → NotAfter b.max_deadline xs
          → NotAfter (max b.max_deadline x.deadline) xs
      wider_high xs =
          NotAfter-weaken b.max_deadline (max b.max_deadline x.deadline) xs (omega arith)
