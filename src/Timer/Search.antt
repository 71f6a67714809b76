-- ===== src/Timer/Search.antt =====
-- src/timer_queue.h: `ComputeBucket` finds the place of a deadline in the order of the wheel.
use native.Mathlib.Nat.{mod-add-mod, mod-eq_of_lt, add-mod_right}
use tpcc_oceanbase_cpp.Common.{
  ℕ, zero, suc, ◌+◌, ◌-◌, ◌%◌, ◌≤◌, ◌<◌, ◌≡◌, refl, sym, ap, ◌∙◌, subst, true, false, List, ◌∷◌,
  arith, leb, if◌then◌else◌, length, Bool, ◌⊎◌, inl, inr, Bool-cases,
}
use tpcc_oceanbase_cpp.Spsc.Window.{window}
use tpcc_oceanbase_cpp.Timer.{
  Bucket, Timer, empty_bucket, bucket_at, current_bucket, next_index, search_bucket, compute_bucket,
}
use tpcc_oceanbase_cpp.Timer.View.{next_bucket, later_buckets}
use tpcc_oceanbase_cpp.Timer.Chain.{seek}

-- The choice of one round, in the wheel and in the order.
round :
    (a b c : Bool) (n i k later there rest : ℕ)
    → there ≡ (i + 1 + k) % n
    → (a ≡ false → b ≡ false → later ≡ (i + 1 + rest + k) % n)
    → (if a then (i + k) % n else if b then (if c then there else (i + k) % n) else later)
      ≡ (i + (if a then 0 else if b then (if c then 1 else 0) else suc rest) + k) % n
round true b c n i k later there rest e f = ap (λ (m : ℕ). m % n) (omega arith)
round false true true n i k later there rest e f = e
round false true false n i k later there rest e f = ap (λ (m : ℕ). m % n) (omega arith)
round false false c n i k later there rest e f = f refl refl ∙ ap (λ (m : ℕ). m % n) (omega arith)

module _ {ℓ} {V : Type ℓ} (q : Timer V) (deadline : ℕ) where
  abbrev around : ℕ → ℕ → List (Bucket V)
  around h n = window empty_bucket q.buckets (length q.buckets) h n

  next_turn :
      (i : ℕ)
      → next_index q ((i + q.current) % length q.buckets) ≡ (i + 1 + q.current) % length q.buckets
  next_turn i =
      mod-add-mod (i + q.current) (length q.buckets) 1
      ∙ ap (λ (m : ℕ). m % length q.buckets) (omega arith)

  -- From the second bucket on, where the current one begins before the deadline.
  search-seek :
      (rounds i : ℕ)
      → i + suc rounds ≡ length q.buckets
      → (current_bucket q).min_deadline < deadline
      → q.current < length q.buckets
      → search_bucket q deadline (suc rounds) i
        ≡ (i
            + seek q.soft_limit deadline (around ((i + q.current) % length q.buckets) (suc rounds))
            + q.current)
          % length q.buckets
  unfolding search_bucket seek
  search-seek zero i e d h =
      elim (Bool-cases
        (leb deadline (bucket_at q ((i + q.current) % length q.buckets)).max_deadline)) [
          | inl y ↦ rw y (ap (λ (m : ℕ). m % length q.buckets) (omega arith))
          | inr n ↦
              let late : leb deadline
                    (bucket_at q (next_index q ((i + q.current) % length q.buckets))).min_deadline
                  ≡ false =
                ap (λ (j : ℕ). leb deadline (bucket_at q j).min_deadline) (next_turn i ∙ back_again)
                ∙ ground arith in
              rw n (rw late (ap (λ (m : ℕ). m % length q.buckets) (omega (arith, e))))
        ]
    where
      back_again : (i + 1 + q.current) % length q.buckets ≡ q.current
      back_again =
          ap (λ (m : ℕ). m % length q.buckets) (omega (arith, e))
          ∙ (add-mod_right q.current (length q.buckets) ∙ mod-eq_of_lt h)
  search-seek (suc rounds) i e d h =
      let here : ℕ = (i + q.current) % length q.buckets in
      let rest : ℕ = seek q.soft_limit deadline (around (next_index q here) (suc rounds)) in
      round (leb deadline (bucket_at q here).max_deadline)
        (leb deadline (bucket_at q (next_index q here)).min_deadline)
        (leb q.soft_limit (length (bucket_at q here).items)) (length q.buckets) i q.current
        (search_bucket q deadline (suc rounds) (i + 1)) (next_index q here) rest (next_turn i)
        (λ a b.
          search-seek rounds (i + 1) (omega (arith, e)) d h
          ∙ ap
              (λ (j : ℕ).
                (i + 1 + seek q.soft_limit deadline (around j (suc rounds)) + q.current)
                % length q.buckets)
              (sym (next_turn i)))

  -- Where the current bucket ends before the deadline or has room, or not all of the wheel is empty.
  pub compute_bucket-seek :
      2 ≤ length q.buckets
      → q.current < length q.buckets
      → ((current_bucket q).min_deadline ≤ (current_bucket q).max_deadline)
        ⊎ (deadline ≤ (next_bucket q).min_deadline)
      → compute_bucket q deadline
        ≡ (seek q.soft_limit deadline (current_bucket q ∷ next_bucket q ∷ later_buckets q)
            + q.current)
          % length q.buckets
  unfolding compute_bucket search_bucket seek
  compute_bucket-seek two inside sides =
      ap (λ (n : ℕ). search_bucket q deadline n 0) size
      ∙ (round (leb deadline (bucket_at q here).max_deadline)
            (leb deadline (bucket_at q (next_index q here)).min_deadline)
            (leb q.soft_limit (length (bucket_at q here).items)) (length q.buckets) 0 q.current
            (search_bucket q deadline (suc more) 1) (next_index q here)
            (seek q.soft_limit deadline (around (next_index q here) (suc more))) (next_turn 0)
            (λ a b.
              search-seek more 1 (omega arith) (early here start (ground arith) (ground arith))
                inside
              ∙ ap
                  (λ (j : ℕ).
                    (1 + seek q.soft_limit deadline (around j (suc more)) + q.current)
                    % length q.buckets)
                  (sym (next_turn 0)))
          ∙ (ap
                (λ (h : ℕ).
                  (0 + seek q.soft_limit deadline (around h (suc (suc more))) + q.current)
                  % length q.buckets)
                start
              ∙ ap (λ (m : ℕ). m % length q.buckets) (omega arith)))
    where
      more : ℕ
      more = length q.buckets - 1 - 1

      here : ℕ
      here = (0 + q.current) % length q.buckets

      size : length q.buckets ≡ suc (suc (length q.buckets - 1 - 1))
      size = omega arith

      start : (0 + q.current) % length q.buckets ≡ q.current
      start = ap (λ (m : ℕ). m % length q.buckets) (omega arith) ∙ mod-eq_of_lt inside

      early :
          (h : ℕ)
          → h ≡ q.current
          → (bucket_at q h).max_deadline < deadline
          → (bucket_at q (next_index q h)).min_deadline < deadline
          → (current_bucket q).min_deadline < deadline
      early h e l m = elim sides [
        | inl s ↦
            let k = subst (λ (j : ℕ). (bucket_at q j).max_deadline < deadline) e l in omega arith
        | inr s ↦
            let k = subst (λ (j : ℕ). (bucket_at q (next_index q j)).min_deadline < deadline) e m in
            absurd (omega arith)
      ]
