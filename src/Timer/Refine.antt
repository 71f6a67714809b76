-- ===== src/Timer/Refine.antt =====
-- src/timer_queue.h: the wheel as a priority queue of deadlines.
use tpcc_oceanbase_cpp.Common.{
  ℕ, suc, ◌+◌, ◌%◌, ◌≤◌, ◌<◌, ◌≡◌, refl, sym, ap, ◌∙◌, subst, Bool, true, false, List, [], ◌∷◌,
  ◌++◌, arith, ◌==◌, if◌then◌else◌, length, get_or, set, drop, max, ◌⊎◌, inl, inr, length-set,
}
use native.Mathlib.Nat.{mod-eq_of_lt, add_comm}
use tpcc_oceanbase_cpp.Spsc.Window.{turn-ne}
use tpcc_oceanbase_cpp.Timer.{
  time_max, Item, Bucket, Timer, Rising, empty_bucket, add_back, add_sorted, bucket_at,
  current_bucket, compute_bucket,
}
use tpcc_oceanbase_cpp.Timer.View.{
  all_items, following, stored, next_bucket, later_buckets, following_nonempty, following-at,
  length-following, current-set, following-set,
}
use tpcc_oceanbase_cpp.Timer.Order.{count, count-append, NotBefore, NotAfter}
use tpcc_oceanbase_cpp.Timer.Bounds.{Bounded, sorted-Inserted}
use tpcc_oceanbase_cpp.Timer.Chain.{
  AllEmpty, Chain, end, seek, put, count-put, place, place_empty, empty_min, empty_inside,
}
use tpcc_oceanbase_cpp.Timer.Search.{compute_bucket-seek}

-- The current bucket and those behind it: the whole wheel is empty, or the chain goes on from the current
-- bucket, some of whose items may have been popped.
pub data Wheel {ℓ} {V : Type ℓ} (b : Bucket V) (bs : List (Bucket V)) : Type ℓ where
  all_empty : b ≡ empty_bucket → AllEmpty bs → Wheel b bs
  turning : Bounded 0 b → Chain b.max_deadline bs → Wheel b bs

-- The invariant.
pub record IsValid {ℓ} {V : Type ℓ} (q : Timer V) : Type ℓ where
  pub two_buckets : 2 ≤ length q.buckets
  pub inside : q.current < length q.buckets
  pub some_limit : 0 < q.soft_limit
  pub cursor_inside : q.cursor ≤ length (current_bucket q).items
  pub rising : Rising (drop q.cursor (current_bucket q).items)
  pub wheel : Wheel (current_bucket q) (following q)
  pub counted : q.total ≡ length (stored q)

module _ {ℓ} {V : Type ℓ} where
  length-count : (xs : List (Item V)) → length xs ≡ count (λ x. true) xs
  length-count [] = refl
  length-count (x ∷ xs) = let ih = length-count xs in omega (arith, ih)

  -- Where the item goes, and what the wheel is then.
  unfoldable pub add_to : Timer V → ℕ → Item V → Timer V
  unfolding add_back add_sorted
  add_to q index x = record q {
    buckets = set q.buckets index (
        if index == q.current
        then add_sorted (bucket_at q index) x q.cursor
        else add_back (bucket_at q index) x);
    total = q.total + 1;
  }

  abbrev Added : Timer V → Timer V → Item V → Type ℓ
  Added q t x =
      IsValid t
      × ((p : Item V → Bool) → count p (stored t) ≡ count p (stored q) + (if p x then 1 else 0))

  -- A wheel with one item more, by its current bucket and those behind it.
  built :
      (q : Timer V) (bs : List (Bucket V)) (x : Item V) (b : Bucket V) (fs : List (Bucket V))
      → IsValid q
      → length bs ≡ length q.buckets
      → get_or bs q.current empty_bucket ≡ b
      → following (record q { buckets = bs }) ≡ fs
      → q.cursor ≤ length b.items
      → Rising (drop q.cursor b.items)
      → Wheel b fs
      → ((p : Item V → Bool)
          → count p (drop q.cursor b.items ++ all_items fs)
            ≡ count p (stored q) + (if p x then 1 else 0))
      → Added q (record q { buckets = bs; total = q.total + 1 }) x
  built q bs x b fs v size eb ef room rise w counts = (
    record {
      two_buckets = omega (arith, v.two_buckets, size);
      inside = omega (arith, v.inside, size);
      some_limit = v.some_limit;
      cursor_inside = subst (λ (c : Bucket V). q.cursor ≤ length c.items) (sym eb) room;
      rising = subst (λ (c : Bucket V). Rising (drop q.cursor c.items)) (sym eb) rise;
      wheel =
          subst (λ (c : Bucket V). Wheel c (following (record q { buckets = bs }))) (sym eb)
            (subst (Wheel b) (sym ef) w);
      counted =
          let before = length-count (stored q) in
          let after = length-count (stored (record q { buckets = bs; total = q.total + 1 })) in
          let more = same (λ x. true) in omega (arith, v.counted, before, after, more);
    },
    same,
  )
    where
      same :
          (p : Item V → Bool)
          → count p (stored (record q { buckets = bs; total = q.total + 1 }))
            ≡ count p (stored q) + (if p x then 1 else 0)
      same p =
          ap
            (λ (c : Bucket V).
              count p (drop q.cursor c.items ++ all_items (following (record q { buckets = bs }))))
            eb
          ∙ (ap (λ l. count p (drop q.cursor b.items ++ all_items l)) ef ∙ counts p)

  at_current :
      (q : Timer V) (x : Item V)
      → IsValid q
      → NotBefore (current_bucket q).min_deadline (current_bucket q).items
      → NotAfter (current_bucket q).max_deadline (current_bucket q).items
      → Chain (max (current_bucket q).max_deadline x.deadline) (following q)
      → Added q (add_to q q.current x) x
  unfolding add_to
  at_current q x v l u c =
      let i = sorted-Inserted (current_bucket q) x q.cursor v.cursor_inside v.rising l u in
      let (eb, ef) =
        current-set q v.two_buckets v.inside (add_sorted (current_bucket q) x q.cursor) in
      let here : (q.current == q.current) ≡ true = ground arith in
      rw here (
        built q (set q.buckets q.current (add_sorted (current_bucket q) x q.cursor)) x
          (add_sorted (current_bucket q) x q.cursor) (following q) v
          (length-set q.buckets q.current _) eb ef i.room i.rising
          (turning i.bounded (subst (λ (m : ℕ). Chain m (following q)) (sym i.high) c))
          (λ p.
            let e = i.counts p in
            let old =
              count-append p (drop q.cursor (current_bucket q).items) (all_items (following q)) in
            let new =
              count-append p (drop q.cursor (add_sorted (current_bucket q) x q.cursor).items)
                (all_items (following q)) in
            omega (arith, e, old, new)))

  at_following :
      (q : Timer V) (x : Item V) (k : ℕ)
      → IsValid q
      → k < length (following q)
      → Bounded 0 (current_bucket q)
      → Chain (current_bucket q).max_deadline (put (following q) k x)
      → Added q (add_to q ((q.current + suc k) % length q.buckets) x) x
  unfolding add_to
  at_following q x k v h b c =
      let index : ℕ = (q.current + suc k) % length q.buckets in
      let steps : suc k < length q.buckets =
        omega (arith, h, length-following q v.two_buckets v.inside, v.two_buckets) in
      let away : (index == q.current) ≡ false =
        ground (arith, turn-ne (length q.buckets) q.current k v.inside steps) in
      let y = add_back (bucket_at q index) x in
      let (eb, ef) = following-set q v.two_buckets v.inside y k (omega (arith, steps)) in
      rw away (
        built q (set q.buckets index y) x (current_bucket q) (put (following q) k x) v
          (length-set q.buckets index y) eb
          (ef
            ∙ ap (λ (z : Bucket V). set (following q) k (add_back z x))
                (following-at q v.two_buckets v.inside k (omega arith)))
          v.cursor_inside v.rising (turning b c)
          (λ p.
            let e = count-put p (following q) k x h in
            let old =
              count-append p (drop q.cursor (current_bucket q).items) (all_items (following q)) in
            let new =
              count-append p (drop q.cursor (current_bucket q).items)
                (all_items (put (following q) k x)) in
            omega (arith, e, old, new)))

  abbrev pub item_at : ℕ → V → Item V
  item_at d value = record { deadline = d; value = value }

  pub at_place :
      (q : Timer V) (x : Item V)
      → IsValid q
      → x.deadline ≤ time_max
      → Added q (add_to q (compute_bucket q x.deadline) x) x
  at_place q x v t = elim v.wheel [
    | all_empty e es ↦
        let (f, fs) = subst AllEmpty nonempty es in
        let (l, u) = empty_inside (current_bucket q) e in
        subst (λ (i : ℕ). Added q (add_to q i x) x)
          (sym (
            found (inr (omega (arith, t, empty_min (next_bucket q) f)))
            ∙ (ap (λ (k : ℕ). (k + q.current) % length q.buckets)
                  (place_empty q.soft_limit x.deadline (current_bucket q) (next_bucket q)
                    (later_buckets q) v.some_limit t e f)
                ∙ same_place)))
          (at_current q x v l u (end es))
    | turning b c ↦
        elim (place q.soft_limit (current_bucket q) (next_bucket q) (later_buckets q) x t b.in_order
          (subst (Chain (current_bucket q).max_deadline) nonempty c)) [
            | inl (s, d) ↦
                subst (λ (i : ℕ). Added q (add_to q i x) x)
                  (sym (
                    found (inl b.in_order)
                    ∙ (ap (λ (k : ℕ). (k + q.current) % length q.buckets) s ∙ same_place)))
                  (at_current q x v b.lowest b.highest (subst (Chain _) (sym nonempty) d))
            | inr (k, s, h, d) ↦
                subst (λ (i : ℕ). Added q (add_to q i x) x)
                  (sym (
                    found (inl b.in_order)
                    ∙ (ap (λ (k : ℕ). (k + q.current) % length q.buckets) s
                        ∙ ap (λ (m : ℕ). m % length q.buckets) (add_comm (suc k) q.current))))
                  (at_following q x k v (subst (λ l. k < length l) (sym nonempty) h) b (
                    subst (λ l. Chain (current_bucket q).max_deadline (put l k x)) (sym nonempty)
                      d))
          ]
  ]
    where
      nonempty : following q ≡ next_bucket q ∷ later_buckets q
      nonempty = following_nonempty q v.two_buckets v.inside

      found :
          ((current_bucket q).min_deadline ≤ (current_bucket q).max_deadline)
            ⊎ (x.deadline ≤ (next_bucket q).min_deadline)
          → compute_bucket q x.deadline
            ≡ (seek q.soft_limit x.deadline (current_bucket q ∷ next_bucket q ∷ later_buckets q)
                + q.current)
              % length q.buckets
      found = compute_bucket-seek q x.deadline v.two_buckets v.inside

      same_place : (0 + q.current) % length q.buckets ≡ q.current
      same_place = ap (λ (m : ℕ). m % length q.buckets) (omega arith) ∙ mod-eq_of_lt v.inside
