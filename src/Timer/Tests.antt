-- ===== src/Timer/Tests.antt =====
-- The timer wheel at concrete deadlines.
use tpcc_oceanbase_cpp.Common.{
  ℕ, ◌+◌, ◌<◌, ◌≡◌, refl, Bool, List, [], ◌∷◌, arith, if◌then◌else◌, replicate,
}
use tpcc_oceanbase_cpp.Timer.{
  Item, Timer, ok, runtime_error, out_of_range, Rising, empty_bucket, insert_upper, add, pop_front,
  next_deadline, blank, resize, resize_buckets, compute_bucket, search_bucket, add_back, add_sorted,
  back_after, sort_bucket, advance,
}
use tpcc_oceanbase_cpp.Timer.InsertionSort.{insertion_sort, insertion_sorter}
use tpcc_oceanbase_cpp.Timer.View.{stored}
use tpcc_oceanbase_cpp.Timer.Order.{count}
use tpcc_oceanbase_cpp.Timer.Refine.{IsValid, item_at}
use tpcc_oceanbase_cpp.Timer.PriorityQueue.{Popped, add_lem, pop_front_lem}
use tpcc_oceanbase_cpp.Timer.Drain.{emptied, emptied-IsValid, new_timer, pops, pops_lem}

-- Three buckets that are full with one item, and the deadlines 10, 20 and 15.
abbrev fresh_wheel : Timer ℕ
fresh_wheel = record {
  buckets = replicate 3 empty_bucket;
  soft_limit = 1;
  total = 0;
  current = 0;
  cursor = 0;
}

abbrev one_timer : Timer ℕ
one_timer = add fresh_wheel 4 6 100

abbrev two_timers : Timer ℕ
two_timers = add one_timer 5 15 200

abbrev three_timers : Timer ℕ
three_timers = add two_timers 6 9 300

fresh_wheel-IsValid : IsValid fresh_wheel
unfolding emptied
fresh_wheel-IsValid = (emptied-IsValid 3 1 (omega arith) (omega arith)).0

fresh_wheel_constructed : new_timer 3 0 ≡ ok fresh_wheel
unfolding new_timer resize blank resize_buckets
fresh_wheel_constructed = refl

two_timers-IsValid : IsValid two_timers
two_timers-IsValid =
    (add_lem one_timer 5 15 200 (add_lem fresh_wheel 4 6 100 fresh_wheel-IsValid (omega arith)).0
      (omega arith)).0

add_lem_example :
    IsValid three_timers
    × ((p : Item ℕ → Bool)
        → count p (stored three_timers)
          ≡ count p (stored two_timers) + (if p (item_at (6 + 9) 300) then 1 else 0))
add_lem_example = add_lem two_timers 6 9 300 two_timers-IsValid (omega arith)

three_timers-IsValid : IsValid three_timers
three_timers-IsValid = (add_lem two_timers 6 9 300 two_timers-IsValid (omega arith)).0

three_left : 3 ≡ three_timers.total
unfolding add
three_left = refl

some_left : 0 < three_timers.total
some_left = omega (arith, three_left)

pop_front_lem_example :
    (x : Item ℕ) × (t : Timer ℕ) × (pop_front insertion_sorter three_timers ≡ ok (x, t))
    × Popped three_timers x t
pop_front_lem_example = pop_front_lem insertion_sorter three_timers three_timers-IsValid some_left

pops_lem_example :
    (xs : List (Item ℕ)) × (pops insertion_sorter 3 three_timers ≡ ok xs)
    × Rising xs
    × ((p : Item ℕ → Bool) → count p xs ≡ count p (stored three_timers))
pops_lem_example = pops_lem insertion_sorter 3 three_timers three_timers-IsValid three_left

popped_in_order :
    pops insertion_sorter 3 three_timers
    ≡ ok (item_at 10 100 ∷ item_at 15 300 ∷ item_at 20 200 ∷ [])
unfolding pops add pop_front compute_bucket search_bucket add_back add_sorted back_after
    insert_upper sort_bucket advance insertion_sort empty_bucket
popped_in_order = refl

-- When 10 has been popped, `GetNextDeadline` answers 20, although 15 is popped next.
late_answer :
    elim (pop_front insertion_sorter three_timers) [
      | ok (x, t) ↦ next_deadline t
      | runtime_error ↦ runtime_error
      | out_of_range ↦ out_of_range
    ]
    ≡ ok 20
unfolding pop_front add compute_bucket search_bucket add_back add_sorted back_after insert_upper
    sort_bucket advance insertion_sort empty_bucket next_deadline
late_answer = refl
