-- ===== src/Timer/InsertionSort.antt =====
-- Insertion sort does what `std::sort` promises, so that src/timer_queue.h can be run.
use mathlib.Core.List.{Perm}
use mathlib.Core.List.Perm
use tpcc_oceanbase_cpp.Common.{List, [], ◌∷◌, ltb, Bool-cases, inl, inr}
use tpcc_oceanbase_cpp.Timer.{Item, Sorter, Rising, insert_upper}
use tpcc_oceanbase_cpp.Timer.Order.{insert-Rising}

unfoldable pub insertion_sort {ℓ} : {V : Type ℓ} → List (Item V) → List (Item V)
insertion_sort [] = []
insertion_sort (x ∷ xs) = insert_upper x (insertion_sort xs)

insert-perm {ℓ} : {V : Type ℓ} (x : Item V) (xs : List (Item V)) → Perm (insert_upper x xs) (x ∷ xs)
unfolding insert_upper
insert-perm x [] = Perm.rfl
insert-perm x (y ∷ ys) = elim (Bool-cases (ltb x.deadline y.deadline)) [
  | inl e ↦ rw e Perm.rfl
  | inr e ↦ rw e (Perm.trans (Perm.cons y (insert-perm x ys)) (Perm.swap x y ys))
]

pub insertion_sort-perm {ℓ} : {V : Type ℓ} (xs : List (Item V)) → Perm (insertion_sort xs) xs
unfolding insertion_sort
insertion_sort-perm [] = Perm.nil
insertion_sort-perm (x ∷ xs) =
    Perm.trans (insert-perm x (insertion_sort xs)) (Perm.cons x (insertion_sort-perm xs))

pub insertion_sort-Rising {ℓ} : {V : Type ℓ} (xs : List (Item V)) → Rising (insertion_sort xs)
unfolding insertion_sort
insertion_sort-Rising [] = tt
insertion_sort-Rising (x ∷ xs) = insert-Rising x (insertion_sort xs) (insertion_sort-Rising xs)

abbrev pub insertion_sorter {ℓ} : {V : Type ℓ} → Sorter V
insertion_sorter = record {
  sort = insertion_sort;
  sort_perm = insertion_sort-perm;
  sort_rising = insertion_sort-Rising;
}
