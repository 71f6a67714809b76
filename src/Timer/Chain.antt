-- ===== src/Timer/Chain.antt =====
-- src/timer_queue.h: the buckets of the wheel, each one later than those before it, and where a deadline
-- belongs among them.
use tpcc_oceanbase_cpp.Common.{
  ℕ, zero, suc, ◌+◌, ◌≤◌, ◌<◌, ◌≡◌, refl, sym, ap, ◌∙◌, subst, Bool, true, false, List, [], ◌∷◌,
  arith, leb, if◌then◌else◌, length, get_or, set, All, max, ◌⊎◌, inl, inr, Bool-cases,
}
use tpcc_oceanbase_cpp.Timer.{time_max, Item, Bucket, Rising, empty_bucket, add_back}
use tpcc_oceanbase_cpp.Timer.View.{all_items}
use tpcc_oceanbase_cpp.Timer.Order.{count, count-append, NotBefore, NotAfter}
use tpcc_oceanbase_cpp.Timer.Bounds.{Bounded, back-Bounded, flag-back, count-back}

module _ {ℓ} {V : Type ℓ} where
  abbrev pub AllEmpty : List (Bucket V) → Type ℓ
  AllEmpty = All (λ b. b ≡ empty_bucket)

  -- Buckets behind one that ends at `low`: after an empty one all are empty, and a bucket that is not
  -- marked as unsorted is sorted.
  pub data Chain : ℕ → List (Bucket V) → Type ℓ where
    end : {low : ℕ} {bs : List (Bucket V)} → AllEmpty bs → Chain low bs
    link :
        {low : ℕ} {b : Bucket V} {bs : List (Bucket V)}
        → Bounded low b
        → (b.is_sorted ≡ true → Rising b.items)
        → Chain b.max_deadline bs
        → Chain low (b ∷ bs)

  -- A later start, for a first bucket that is later still.
  pub Chain-raise :
      (low low' : ℕ) (b : Bucket V) (bs : List (Bucket V))
      → low' ≤ b.min_deadline
      → Chain low (b ∷ bs)
      → Chain low' (b ∷ bs)
  Chain-raise low low' b bs h (end e) = end e
  Chain-raise low low' b bs h (link v f c) =
      link
        (record {
          nonempty = v.nonempty;
          above_low = h;
          in_order = v.in_order;
          lowest = v.lowest;
          highest = v.highest;
        })
        f c

  pub empty_min : (b : Bucket V) → b ≡ empty_bucket → b.min_deadline ≡ time_max
  unfolding empty_bucket
  empty_min b e = ap (λ c. c.min_deadline) e

  empty_sorted : (b : Bucket V) → b ≡ empty_bucket → Rising b.items
  unfolding empty_bucket
  empty_sorted b e = subst (λ (c : Bucket V). Rising c.items) (sym e) tt

  pub empty_inside :
      (b : Bucket V)
      → b ≡ empty_bucket
      → NotBefore b.min_deadline b.items × NotAfter b.max_deadline b.items
  unfolding empty_bucket
  empty_inside b e =
      subst (λ (c : Bucket V). NotBefore c.min_deadline c.items × NotAfter c.max_deadline c.items)
        (sym e) (tt, tt)

  -- An item in the first bucket of a chain, no later than the next one begins.
  link_back :
      (low : ℕ) (b : Bucket V) (bs : List (Bucket V)) (x : Item V)
      → Bounded low b
      → (b.is_sorted ≡ true → Rising b.items)
      → low ≤ x.deadline
      → Chain (max b.max_deadline x.deadline) bs
      → Chain low (add_back b x ∷ bs)
  unfolding add_back
  link_back low b bs x v f h c =
      link (back-Bounded low b x v.above_low h v.lowest v.highest) (flag-back b x f) c

  pub first_back :
      (low : ℕ) (b : Bucket V) (bs : List (Bucket V)) (x : Item V)
      → low ≤ x.deadline
      → x.deadline ≤ time_max
      → x.deadline ≤ b.min_deadline
      → Chain low (b ∷ bs)
      → Chain low (add_back b x ∷ bs)
  first_back low b bs x h t d (end (e, es)) =
      let (l, u) = empty_inside b e in
      link (back-Bounded low b x (omega (arith, empty_min b e)) h l u)
        (flag-back b x (λ s. empty_sorted b e)) (end es)
  first_back low b bs x h t d (link v f c) =
      link_back low b bs x v f h (subst (λ (m : ℕ). Chain m bs) (omega (arith, v.in_order)) c)

  -- The place of a deadline, counted from the first of the buckets.
  unfoldable pub seek : ℕ → ℕ → List (Bucket V) → ℕ
  seek limit d [] = 0
  seek limit d (b ∷ []) = 0
  seek limit d (b ∷ c ∷ bs) =
      let rest = seek limit d (c ∷ bs) in
      if leb d b.max_deadline
      then 0
      else if leb d c.min_deadline
      then (if leb limit (length b.items) then 1 else 0)
      else suc rest

  -- The item at the end of the `k`-th bucket.
  abbrev pub put : List (Bucket V) → ℕ → Item V → List (Bucket V)
  put bs k x = set bs k (add_back (get_or bs k empty_bucket) x)

  pub seek-lt :
      (limit d : ℕ) (b : Bucket V) (bs : List (Bucket V)) → seek limit d (b ∷ bs) < length (b ∷ bs)
  unfolding seek
  seek-lt limit d b [] = omega arith
  seek-lt limit d b (c ∷ bs) = let ih = seek-lt limit d c bs in ground arith

  pub count-put :
      (p : Item V → Bool) (bs : List (Bucket V)) (k : ℕ) (x : Item V)
      → k < length bs
      → count p (all_items (put bs k x)) ≡ count p (all_items bs) + (if p x then 1 else 0)
  count-put p [] k x h = absurd (omega arith)
  count-put p (b ∷ bs) zero x h =
      count-append p (add_back b x).items (all_items bs)
      ∙ omega (arith, count-back p b x, count-append p b.items (all_items bs))
  count-put p (b ∷ bs) (suc k) x h =
      count-append p b.items (all_items (put bs k x))
      ∙ omega (arith, count-put p bs k x (omega arith), count-append p b.items (all_items bs))

  -- From a bucket that begins before the deadline on, the item goes where it keeps the chain.
  pub put-Chain :
      (limit low : ℕ) (b : Bucket V) (bs : List (Bucket V)) (x : Item V)
      → low ≤ x.deadline
      → x.deadline ≤ time_max
      → b.min_deadline < x.deadline
      → Chain low (b ∷ bs)
      → Chain low (put (b ∷ bs) (seek limit x.deadline (b ∷ bs)) x)
  unfolding seek
  put-Chain limit low b bs x h t d (end (e, es)) = absurd (omega (arith, empty_min b e))
  put-Chain limit low b [] x h t d (link v f c) = link_back low b [] x v f h (end tt)
  put-Chain limit low b (c ∷ bs) x h t d (link v f cs) =
      elim (Bool-cases (leb x.deadline b.max_deadline)) [
        | inl y ↦ rw y (
            link_back low b (c ∷ bs) x v f h
              (subst (λ (m : ℕ). Chain m (c ∷ bs)) (ground arith) cs))
        | inr n ↦ elim (Bool-cases (leb x.deadline c.min_deadline)) [
          | inl y ↦ elim (Bool-cases (leb limit (length b.items))) [
            | inl full ↦ rw n (
                rw y (
                  rw full (
                    link v f
                      (first_back b.max_deadline c bs x (ground arith) t (ground arith) cs))))
            | inr room ↦ rw n (
                rw y (
                  rw room (
                    link_back low b (c ∷ bs) x v f h (
                      Chain-raise b.max_deadline (max b.max_deadline x.deadline) c bs (ground arith)
                        cs))))
          ]
          | inr m ↦ rw n (
              rw m (
                link v f
                  (put-Chain limit b.max_deadline c bs x (ground arith) t (ground arith) cs)))
        ]
      ]

  -- Where the item goes among a current bucket and those behind it: into the current one, or behind.
  pub place :
      (limit : ℕ) (b c : Bucket V) (cs : List (Bucket V)) (x : Item V)
      → x.deadline ≤ time_max
      → b.min_deadline ≤ b.max_deadline
      → Chain b.max_deadline (c ∷ cs)
      → ((seek limit x.deadline (b ∷ c ∷ cs) ≡ 0) × Chain (max b.max_deadline x.deadline) (c ∷ cs))
        ⊎ ((k : ℕ) × (seek limit x.deadline (b ∷ c ∷ cs) ≡ suc k)
            × (k < length (c ∷ cs))
            × Chain b.max_deadline (put (c ∷ cs) k x))
  unfolding seek
  place limit b c cs x t o v = elim (Bool-cases (leb x.deadline b.max_deadline)) [
    | inl y ↦ inl (rw y refl, subst (λ (m : ℕ). Chain m (c ∷ cs)) (ground arith) v)
    | inr n ↦ elim (Bool-cases (leb x.deadline c.min_deadline)) [
      | inl y ↦ elim (Bool-cases (leb limit (length b.items))) [
        | inl full ↦ inr (
          0,
          rw n (rw y (rw full refl)),
          omega arith,
          first_back b.max_deadline c cs x (ground arith) t (ground arith) v,
        )
        | inr room ↦ inl (
          rw n (rw y (rw room refl)),
          Chain-raise b.max_deadline (max b.max_deadline x.deadline) c cs (ground arith) v,
        )
      ]
      | inr m ↦ inr (
        seek limit x.deadline (c ∷ cs),
        rw n (rw m refl),
        seek-lt limit x.deadline c cs,
        put-Chain limit b.max_deadline c cs x (ground arith) t (ground arith) v,
      )
    ]
  ]

  -- In an empty wheel every item goes into the current bucket.
  pub place_empty :
      (limit d : ℕ) (b c : Bucket V) (cs : List (Bucket V))
      → 0 < limit
      → d ≤ time_max
      → b ≡ empty_bucket
      → c ≡ empty_bucket
      → seek limit d (b ∷ c ∷ cs) ≡ 0
  unfolding seek empty_bucket
  place_empty limit d b c cs l t e f =
      let room : leb limit (length b.items) ≡ false = ground (arith, no_items b e) in
      let last : leb d c.min_deadline ≡ true = ground (arith, empty_min c f) in
      elim (Bool-cases (leb d b.max_deadline)) [
        | inl y ↦ rw y refl
        | inr n ↦ rw n (rw last (rw room refl))
      ]
    where
      no_items : (b : Bucket V) → b ≡ empty_bucket → length b.items ≡ 0
      no_items b e = ap (λ (c : Bucket V). length c.items) e ∙ none_there
        where
          none_there : length (empty_bucket {V = V}).items ≡ 0
          none_there = refl
