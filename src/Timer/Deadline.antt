-- ===== src/Timer/Deadline.antt =====
-- src/timer_queue.h: what `GetNextDeadline` answers.
use tpcc_oceanbase_cpp.Common.{
  ℕ, ◌≤◌, ◌<◌, ◌≡◌, refl, ap, ◌∙◌, subst, Bool, false, List, [], ◌∷◌, ◌++◌, none, some, arith, ltb,
  ◌==◌, if◌then◌else◌, length, get_elem?, drop, dec_lt,
}
use tpcc_oceanbase_cpp.Timer.{Item, Bucket, Timer, ok, current_bucket, next_deadline, size}
use tpcc_oceanbase_cpp.Timer.View.{
  all_items, following, stored, next_bucket, later_buckets, following_nonempty,
}
use tpcc_oceanbase_cpp.Timer.Order.{count, count-append}
use tpcc_oceanbase_cpp.Timer.Chain.{Chain, end, link}
use tpcc_oceanbase_cpp.Timer.Refine.{IsValid}
use tpcc_oceanbase_cpp.Timer.Sorted.{empty_items, at_cursor, NotBefore-count}
use tpcc_oceanbase_cpp.Timer.PriorityQueue.{Popped, turned, get_none, drop_none}

module _ {ℓ} {V : Type ℓ} where
  first_of :
      (low : ℕ) (b : Bucket V) (bs : List (Bucket V))
      → Chain low (b ∷ bs)
      → 0 < length (all_items (b ∷ bs))
      → (y : Item V) × (get_elem? b.items 0 ≡ some y) × (b.items ≡ y ∷ drop 1 b.items)
  first_of low b bs (end (e, es)) h =
      absurd (omega (arith, h, ap length (empty_items (b ∷ bs) (e, es))))
  first_of low b bs (link v f c) h = at_cursor 0 b.items v.nonempty

  -- On a valid wheel that is not empty it is the deadline of an item that is stored.
  pub next_deadline_lem :
      (q : Timer V)
      → IsValid q
      → 0 < q.total
      → (y : Item V) × (next_deadline q ≡ ok y.deadline)
        × ((p : Item V → Bool) → (if p y then 1 else 0) ≤ count p (stored q))
  unfolding next_deadline
  next_deadline_lem q v h =
      let some_left : (q.total == 0) ≡ false = ground arith in
      elim (dec_lt q.cursor (length (current_bucket q).items)) [
        | yes l ↦
            let (y, e, d) = at_cursor q.cursor (current_bucket q).items l in
            (
              y,
              rw some_left (rw e refl),
              λ p. let k = ap (λ xs. count p (xs ++ all_items (following q))) d in omega (arith, k),
            )
        | no l ↦
            let at_end : q.cursor ≡ length (current_bucket q).items =
              omega (arith, l, v.cursor_inside) in
            let none_here : drop q.cursor (current_bucket q).items ≡ [] =
              ap (λ (n : ℕ). drop n (current_bucket q).items) at_end
              ∙ drop_none (current_bucket q).items in
            let nothing : get_elem? (current_bucket q).items q.cursor ≡ none =
              ap (get_elem? (current_bucket q).items) at_end ∙ get_none (current_bucket q).items in
            let left = ap (λ xs. xs ++ all_items (following q)) none_here in
            let behind : 0 < length (all_items (following q)) =
              omega (arith, v.counted, h, ap length left) in
            let nonempty = following_nonempty q v.two_buckets v.inside in
            let (y, e, d) =
              first_of (current_bucket q).max_deadline (next_bucket q) (later_buckets q)
                (subst (Chain (current_bucket q).max_deadline) nonempty
                  (turned (current_bucket q) (following q) v.wheel behind))
                (subst (λ l. 0 < length (all_items l)) nonempty behind) in
            (
              y,
              rw some_left (rw nothing (rw e refl)),
              λ p.
                  let k = ap (count p) left in
                  let m = ap (λ l. count p (all_items l)) nonempty in
                  let n = count-append p (next_bucket q).items (all_items (later_buckets q)) in
                  let o = ap (count p) d in omega (arith, k, m, n, o),
            )
      ]

  -- It is never before the deadline of the item that `PopFront` answers next.
  pub no_earlier :
      (q t : Timer V) (x y : Item V)
      → Popped q x t
      → ((p : Item V → Bool) → (if p y then 1 else 0) ≤ count p (stored q))
      → x.deadline ≤ y.deadline
  no_earlier q t x y k s =
      let a = k.counts (λ z. ltb z.deadline x.deadline) in
      let b = s (λ z. ltb z.deadline x.deadline) in
      let c = NotBefore-count x.deadline (stored t) k.least in ground (arith, a, b, c)

  pub size_lem : (q : Timer V) → size q ≡ q.total
  unfolding size
  size_lem q = refl
