-- ===== src/Spsc/Fifo.antt =====
-- The contract of the queue: a FIFO that holds at most `cap` items, oldest first.
use tpcc_oceanbase_cpp.Common.{
  ℕ, ◌<◌, ◌≡◌, arith, Bool, true, false, List, [], ◌∷◌, ◌++◌, Option, none, some, ◌==◌,
  if◌then◌else◌, length,
}

pub data Op {ℓ} (A : Type ℓ) : Type ℓ where
  push : A → Op A
  pop : Op A
  ask_size : Op A

pub data Reply {ℓ} (A : Type ℓ) : Type ℓ where
  pushed : Bool → Reply A
  popped : Option A → Reply A
  sized : ℕ → Reply A

module _ {ℓ} {A : Type ℓ} where
  unfoldable pub fifo_push : ℕ → List A → A → Bool × List A
  fifo_push cap xs x = if length xs == cap then (false, xs) else (true, xs ++ x ∷ [])

  unfoldable pub fifo_pop : List A → Option A × List A
  fifo_pop [] = (none, [])
  fifo_pop (x ∷ xs) = (some x, xs)

  unfoldable pub fifo_run : ℕ → List A → List (Op A) → List (Reply A)
  unfolding fifo_push fifo_pop
  fifo_run cap xs [] = []
  fifo_run cap xs (push x ∷ ops) =
      let (done, ys) = fifo_push cap xs x in pushed done ∷ fifo_run cap ys ops
  fifo_run cap xs (pop ∷ ops) = let (out, ys) = fifo_pop xs in popped out ∷ fifo_run cap ys ops
  fifo_run cap xs (ask_size ∷ ops) = sized (length xs) ∷ fifo_run cap xs ops

  pub fifo_push_full :
      (cap : ℕ) (xs : List A) (x : A) → length xs ≡ cap → fifo_push cap xs x ≡ (false, xs)
  unfolding fifo_push
  fifo_push_full cap xs x e = ground arith

  pub fifo_push_room :
      (cap : ℕ) (xs : List A) (x : A) → length xs < cap → fifo_push cap xs x ≡ (true, xs ++ x ∷ [])
  unfolding fifo_push
  fifo_push_room cap xs x h = ground arith
