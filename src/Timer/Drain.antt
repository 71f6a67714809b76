-- ===== src/Timer/Drain.antt =====
-- src/timer_queue.h: a new wheel, and a wheel that is popped until it is empty.
use tpcc_oceanbase_cpp.Common.{
  ℕ, zero, suc, ◌+◌, ◌-◌, ◌%◌, ◌≤◌, ◌<◌, ◌≡◌, refl, sym, ap, ◌∙◌, subst, Bool, true, List, [], ◌∷◌,
  ◌++◌, arith, ltb, length, get_or, replicate, take, max, get_or-replicate, length-replicate,
}
use tpcc_oceanbase_cpp.Spsc.Window.{window}
use tpcc_oceanbase_cpp.Timer.{
  Item, Bucket, Timer, Sorter, Outcome, ok, runtime_error, out_of_range, Rising, empty_bucket,
  blank, resize, resize_buckets, pop_front,
}
use tpcc_oceanbase_cpp.Timer.View.{all_items, following, stored}
use tpcc_oceanbase_cpp.Timer.Order.{count, NotBefore, Rising-cons}
use tpcc_oceanbase_cpp.Timer.Chain.{AllEmpty}
use tpcc_oceanbase_cpp.Timer.Refine.{IsValid, all_empty}
use tpcc_oceanbase_cpp.Timer.Sorted.{NotBefore-count, count-NotBefore, length-count, empty_items}
use tpcc_oceanbase_cpp.Timer.PriorityQueue.{pop_front_lem}

module _ {ℓ} {V : Type ℓ} where
  slots_empty :
      (bs : List (Bucket V)) (round h k : ℕ)
      → ((i : ℕ) → get_or bs i empty_bucket ≡ empty_bucket)
      → AllEmpty (window empty_bucket bs round h k)
  slots_empty bs round h zero e = tt
  slots_empty bs round h (suc k) e = (e h, slots_empty bs round ((h + 1) % round) k e)

  -- A wheel of empty buckets.
  unfoldable pub emptied : List (Bucket V) → ℕ → Timer V
  emptied bs limit = record { buckets = bs; soft_limit = limit; total = 0; current = 0; cursor = 0 }

  pub emptied-IsValid :
      (n limit : ℕ)
      → 2 ≤ n
      → 0 < limit
      → IsValid (emptied (replicate n empty_bucket) limit)
        × (stored (emptied (replicate n empty_bucket) limit) ≡ [])
  unfolding emptied empty_bucket
  emptied-IsValid n limit two some =
      let all = get_or-replicate n 0 (empty_bucket {V = V}) in
      let behind =
        slots_empty (replicate n empty_bucket) (length (replicate n (empty_bucket {V = V}))) _ _
          (λ i. get_or-replicate n i empty_bucket) in
      let none_stored : stored (emptied (replicate n (empty_bucket {V = V})) limit) ≡ [] =
        nothing all (empty_items _ behind) in
      (
        record {
          two_buckets = omega (arith, two, length-replicate n (empty_bucket {V = V}));
          inside = omega (arith, two, length-replicate n (empty_bucket {V = V}));
          some_limit = some;
          cursor_inside = omega arith;
          rising = subst (λ (b : Bucket V). Rising b.items) (sym all) no_items;
          wheel = all_empty all behind;
          counted = sym (ap length none_stored);
        },
        none_stored,
      )
    where
      no_items : Rising (empty_bucket {V = V}).items
      no_items = tt

      nothing :
          get_or (replicate n (empty_bucket {V = V})) 0 empty_bucket ≡ empty_bucket
          → all_items (following (emptied (replicate n empty_bucket) limit)) ≡ []
          → stored (emptied (replicate n empty_bucket) limit) ≡ []
      nothing all behind =
          ap
            (λ (b : Bucket V).
              b.items ++ all_items (following (emptied (replicate n empty_bucket) limit)))
            all
          ∙ behind

  -- The constructor, with its first two arguments.
  unfoldable pub new_timer : ℕ → ℕ → Outcome (Timer V)
  unfolding resize
  new_timer bucket_count soft_limit = resize blank bucket_count soft_limit

  -- The constructor does not throw: it builds a valid wheel that holds nothing.
  pub new_timer-IsValid :
      (bucket_count soft_limit : ℕ)
      → (q : Timer V) × (new_timer bucket_count soft_limit ≡ ok q) × IsValid q × (stored q ≡ [])
  unfolding new_timer resize blank resize_buckets emptied
  new_timer-IsValid n limit =
      let (v, e) = emptied-IsValid (max 2 n) (max 1 limit) (omega arith) (omega arith) in
      (
        emptied (replicate (max 2 n) empty_bucket) (max 1 limit),
        ap (λ bs. ok (emptied bs (max 1 limit))) (fresh (max 2 n)),
        v,
        e,
      )
    where
      take_none : (m : ℕ) → ◌≡◌ {A = List (Bucket V)} (take m []) []
      take_none zero = refl
      take_none (suc m) = refl

      fresh : (m : ℕ) → resize_buckets {V = V} [] m ≡ replicate m empty_bucket
      fresh m =
          ap (λ l. l ++ replicate (m - 0) empty_bucket) (take_none m)
          ∙ ap (λ (k : ℕ). replicate k (empty_bucket {V = V})) whole
        where
          whole : m - 0 ≡ m
          whole = omega arith

  -- The items of further pops, behind the first.
  abbrev pub behind_first : Item V → Outcome (List (Item V)) → Outcome (List (Item V))
  behind_first x (ok xs) = ok (x ∷ xs)
  behind_first x runtime_error = runtime_error
  behind_first x out_of_range = out_of_range

  abbrev pub pop_then :
      (Timer V → Outcome (List (Item V))) → Outcome (Item V × Timer V) → Outcome (List (Item V))
  pop_then rest (ok (x, t)) = behind_first x (rest t)
  pop_then rest runtime_error = runtime_error
  pop_then rest out_of_range = out_of_range

  -- Popping `n` times, as long as none throws.
  unfoldable pub pops : Sorter V → ℕ → Timer V → Outcome (List (Item V))
  pops S zero q = ok []
  pops S (suc n) q = pop_then (pops S n) (pop_front S q)

  -- Popping a valid wheel as often as it has items throws never, and answers all of its items in the order
  -- of their deadlines.
  pub pops_lem :
      (S : Sorter V) (n : ℕ) (q : Timer V)
      → IsValid q
      → n ≡ q.total
      → (xs : List (Item V)) × (pops S n q ≡ ok xs)
        × Rising xs
        × ((p : Item V → Bool) → count p xs ≡ count p (stored q))
  unfolding pops
  pops_lem S zero q v e =
      ([], refl, tt, λ p. sym (ap (count p) (no_items (stored q) (omega (arith, e, v.counted)))))
    where
      no_items : (xs : List (Item V)) → length xs ≡ 0 → xs ≡ []
      no_items [] h = refl
      no_items (x ∷ xs) h = absurd (omega (arith, h))
  pops_lem S (suc n) q v e =
      let (x, t, f, k) = pop_front_lem S q v (omega (arith, e)) in
      let one = k.counts (λ y. true) in
      let left : n ≡ t.total = omega (
        arith,
        e,
        one,
        v.counted,
        k.valid.counted,
        length-count (stored q),
        length-count (stored t),
      ) in
      let (xs, g, r, same) = pops_lem S n t k.valid left in
      let later : NotBefore x.deadline xs =
        count-NotBefore x.deadline xs
          (same (λ y. ltb y.deadline x.deadline) ∙ NotBefore-count x.deadline (stored t) k.least) in
      (
        x ∷ xs,
        ap (pop_then (pops S n)) f ∙ ap (behind_first x) g,
        Rising-cons x xs later r,
        λ p. omega (arith, same p, k.counts p),
      )
