-- ===== src/Timer/PriorityQueue.antt =====
-- src/timer_queue.h: what `Add` and `PopFront` promise.
use tpcc_oceanbase_cpp.Common.{
  ℕ, ◌+◌, ◌-◌, ◌≤◌, ◌<◌, ◌≡◌, refl, sym, ap, ◌∙◌, subst, Bool, true, false, List, [], ◌∷◌, ◌++◌,
  none, some, arith, ◌==◌, if◌then◌else◌, length, get_elem?, drop, dec_lt,
}
use tpcc_oceanbase_cpp.Timer.{
  time_max, Item, Bucket, Timer, Sorter, ok, Rising, empty_bucket, current_bucket, sort_bucket, add,
  advance, pop_front,
}
use tpcc_oceanbase_cpp.Timer.View.{
  all_items, following, stored, next_bucket, later_buckets, following_nonempty, current-advance,
  following-advance, size_kept, next_inside,
}
use tpcc_oceanbase_cpp.Timer.Order.{
  count, count-append, NotBefore, NotAfter, NotBefore-weaken, NotBefore-append, Rising-NotBefore,
  Rising-tail,
}
use tpcc_oceanbase_cpp.Timer.Bounds.{NotAfter-drop}
use tpcc_oceanbase_cpp.Timer.Chain.{Chain, end, link}
use tpcc_oceanbase_cpp.Timer.Refine.{Wheel, all_empty, turning, IsValid, at_place, item_at, add_to}
use tpcc_oceanbase_cpp.Timer.Sorted.{
  length-count, Ready, sorted-Ready, Chain-emptied, count-emptied, empty_items, Chain-NotBefore,
  at_cursor,
}

-- One call of `Add` in a time that `steady_clock` can tell keeps the invariant and adds just the item,
-- however often any test finds items among those stored.
pub add_lem {ℓ} :
    {V : Type ℓ} (q : Timer V) (now delay : ℕ) (value : V)
    → IsValid q
    → now + delay ≤ time_max
    → IsValid (add q now delay value)
      × ((p : Item V → Bool)
          → count p (stored (add q now delay value))
            ≡ count p (stored q) + (if p (item_at (now + delay) value) then 1 else 0))
unfolding add add_to
add_lem q now delay value v t = at_place q (item_at (now + delay) value) v t

pub total-add {ℓ} :
    {V : Type ℓ} (q : Timer V) (now delay : ℕ) (value : V)
    → (add q now delay value).total ≡ q.total + 1
unfolding add
total-add q now delay value = refl

module _ {ℓ} {V : Type ℓ} where
  -- What a pop leaves: the item is no longer stored, and nothing that is stored was due before it.
  pub record Popped (q : Timer V) (x : Item V) (t : Timer V) : Type ℓ where
    pub valid : IsValid t
    pub counts :
        (p : Item V → Bool) → count p (stored q) ≡ (if p x then 1 else 0) + count p (stored t)
    pub least : NotBefore x.deadline (stored t)

  behind :
      (b : Bucket V) (bs : List (Bucket V)) (d : ℕ)
      → d ≤ b.max_deadline
      → Wheel b bs
      → NotBefore d (all_items bs)
  behind b bs d h (all_empty e es) = subst (NotBefore d) (sym (empty_items bs es)) tt
  behind b bs d h (turning v c) =
      NotBefore-weaken b.max_deadline d (all_items bs) h (Chain-NotBefore b.max_deadline bs c)

  within :
      (b : Bucket V) (bs : List (Bucket V))
      → 0 < length b.items
      → Wheel b bs
      → NotAfter b.max_deadline b.items
  unfolding empty_bucket
  within b bs h (all_empty e es) =
      absurd (omega (arith, h, ap (λ (c : Bucket V). length c.items) e))
  within b bs h (turning v c) = v.highest

  -- The item at the cursor, where there is one.
  take_here :
      (q : Timer V)
      → 2 ≤ length q.buckets
      → q.current < length q.buckets
      → 0 < q.soft_limit
      → q.cursor < length (current_bucket q).items
      → Rising (drop q.cursor (current_bucket q).items)
      → Wheel (current_bucket q) (following q)
      → q.total + 1 ≡ length (stored q)
      → (x : Item V) × (get_elem? (current_bucket q).items q.cursor ≡ some x)
        × Popped q x (record q { cursor = q.cursor + 1 })
  take_here q two inside limit room r w counted =
      let (x, e, d) = at_cursor q.cursor (current_bucket q).items room in
      let rest = drop (q.cursor + 1) (current_bucket q).items in
      let r' = subst Rising d r in
      let high = subst (NotAfter (current_bucket q).max_deadline) d (
        NotAfter-drop (current_bucket q).max_deadline q.cursor (current_bucket q).items
          (within (current_bucket q) (following q) (omega arith) w)) in
      (
        x,
        e,
        record {
          valid = record {
            two_buckets = two;
            inside = inside;
            some_limit = limit;
            cursor_inside = omega arith;
            rising = Rising-tail x rest r';
            wheel = w;
            counted =
                let l = ap (λ xs. length (xs ++ all_items (following q))) d in
                omega (arith, l, counted);
          };
          counts = λ p. ap (λ xs. count p (xs ++ all_items (following q))) d;
          least =
              NotBefore-append x.deadline rest (all_items (following q))
                (Rising-NotBefore x rest r')
                (behind (current_bucket q) (following q) x.deadline high.0 w);
        },
      )

  pub get_none : (xs : List (Item V)) → get_elem? xs (length xs) ≡ none
  get_none [] = refl
  get_none (x ∷ xs) = get_none xs

  pub drop_none : (xs : List (Item V)) → drop (length xs) xs ≡ []
  drop_none [] = refl
  drop_none (x ∷ xs) = drop_none xs

  next-Ready :
      (S : Sorter V) (low : ℕ) (b : Bucket V) (bs : List (Bucket V))
      → Chain low (b ∷ bs)
      → 0 < length (all_items (b ∷ bs))
      → Ready b (sort_bucket S b) × Chain b.max_deadline bs
  next-Ready S low b bs (end (e, es)) h =
      absurd (omega (arith, h, ap length (empty_items (b ∷ bs) (e, es))))
  next-Ready S low b bs (link v f c) h = (sorted-Ready S low b v f, c)

  pub turned :
      (b : Bucket V) (bs : List (Bucket V))
      → Wheel b bs
      → 0 < length (all_items bs)
      → Chain b.max_deadline bs
  turned b bs (all_empty e es) h = end es
  turned b bs (turning v c) h = c

  module _ (S : Sorter V) (q : Timer V) (two : 2 ≤ length q.buckets)
      (inside : q.current < length q.buckets) where
    -- Where no item is left in the current bucket but one is behind it, advancing finds it.
    take_next :
        0 < q.soft_limit
        → Wheel (current_bucket q) (following q)
        → q.total + 1 ≡ length (all_items (following q))
        → (x : Item V) × (get_elem? (current_bucket (advance S q)).items (advance S q).cursor
            ≡ some x)
          × Popped (advance S q) x (record (advance S q) { cursor = (advance S q).cursor + 1 })
          × ((p : Item V → Bool)
              → count p (stored (advance S q)) ≡ count p (all_items (following q)))
    unfolding advance
    take_next limit w counted =
        let some_left : 0 < length (all_items (following q)) = omega (arith, counted) in
        let nonempty = following_nonempty q two inside in
        let (r, c) =
          next-Ready S (current_bucket q).max_deadline (next_bucket q) (later_buckets q)
            (subst (Chain (current_bucket q).max_deadline) nonempty
              (turned (current_bucket q) (following q) w some_left))
            (subst (λ l. 0 < length (all_items l)) nonempty some_left) in
        let eb = current-advance q two inside S in
        let ef = following-advance q two inside S in
        let kept = same r.counts nonempty eb ef in
        let (x, e, k) =
          take_here (advance S q) (omega (arith, two, size_kept q two inside S))
            (omega (arith, next_inside q two inside S, size_kept q two inside S)) limit
            (subst (λ (b : Bucket V). 0 < length b.items) (sym eb) r.bounded.nonempty)
            (subst (λ (b : Bucket V). Rising b.items) (sym eb) r.rising)
            (subst (λ (b : Bucket V). Wheel b (following (advance S q))) (sym eb)
              (subst (Wheel (sort_bucket S (next_bucket q))) (sym ef) (
                turning r.bounded (
                  subst (λ (m : ℕ). Chain m (later_buckets q ++ empty_bucket ∷ [])) (sym r.high)
                    (Chain-emptied (next_bucket q).max_deadline (later_buckets q) c)))))
            (counted
              ∙ (length-count (all_items (following q))
                  ∙ (sym (kept (λ y. true)) ∙ sym (length-count (stored (advance S q)))))) in
        (x, e, k, kept)
      where
        same :
            ((p : Item V → Bool)
              → count p (sort_bucket S (next_bucket q)).items ≡ count p (next_bucket q).items)
            → following q ≡ next_bucket q ∷ later_buckets q
            → current_bucket (advance S q) ≡ sort_bucket S (next_bucket q)
            → following (advance S q) ≡ later_buckets q ++ empty_bucket ∷ []
            → (p : Item V → Bool)
            → count p (stored (advance S q)) ≡ count p (all_items (following q))
        same counts nonempty eb ef p =
            ap (λ (b : Bucket V). count p (b.items ++ all_items (following (advance S q)))) eb
            ∙ (ap (λ l. count p ((sort_bucket S (next_bucket q)).items ++ all_items l)) ef
                ∙ (count-append p (sort_bucket S (next_bucket q)).items _
                    ∙ (omega (
                      arith,
                      counts p,
                      count-emptied p (later_buckets q),
                      count-append p (next_bucket q).items (all_items (later_buckets q)),
                    )
                        ∙ ap (λ l. count p (all_items l)) (sym nonempty))))

  -- `PopFront` on a valid wheel that is not empty does not throw: it answers an item that was stored, which
  -- is not stored any more, while no other changes; nothing that is still stored was due before it, and the
  -- invariant is kept.
  pub pop_front_lem :
      (S : Sorter V) (q : Timer V)
      → IsValid q
      → 0 < q.total
      → (x : Item V) × (t : Timer V) × (pop_front S q ≡ ok (x, t)) × Popped q x t
  unfolding pop_front
  pop_front_lem S q v h =
      let p : Timer V = record q { total = q.total - 1 } in
      let some_left : (q.total == 0) ≡ false = ground arith in
      elim (dec_lt q.cursor (length (current_bucket q).items)) [
        | yes l ↦
            let (x, e, k) =
              take_here p v.two_buckets v.inside v.some_limit l v.rising v.wheel
                (omega (arith, v.counted)) in
            (
              x,
              record p { cursor = p.cursor + 1 },
              rw some_left (rw e refl),
              record { valid = k.valid; counts = k.counts; least = k.least },
            )
        | no l ↦
            let at_end : q.cursor ≡ length (current_bucket q).items =
              omega (arith, l, v.cursor_inside) in
            let none_here : drop q.cursor (current_bucket q).items ≡ [] =
              ap (λ (n : ℕ). drop n (current_bucket q).items) at_end
              ∙ drop_none (current_bucket q).items in
            let nothing : get_elem? (current_bucket q).items q.cursor ≡ none =
              ap (get_elem? (current_bucket q).items) at_end ∙ get_none (current_bucket q).items in
            let left = ap (λ xs. xs ++ all_items (following q)) none_here in
            let (x, e, k, kept) =
              take_next S p v.two_buckets v.inside v.some_limit v.wheel
                (omega (arith, v.counted, ap length left)) in
            (
              x,
              record (advance S p) { cursor = (advance S p).cursor + 1 },
              rw some_left (rw nothing (rw e refl)),
              record {
                valid = k.valid;
                counts = λ t. ap (count t) left ∙ (sym (kept t) ∙ k.counts t);
                least = k.least;
              },
            )
      ]
