-- ===== src/Timer/View.antt =====
-- src/timer_queue.h: the buckets in the order of the wheel, from the current one on.
use native.Mathlib.Nat.{mod-add-mod, mod-eq_of_lt, add-mod_right, mod-lt}
use tpcc_oceanbase_cpp.Common.{
  ℕ, zero, suc, ◌+◌, ◌-◌, ◌%◌, ◌≤◌, ◌<◌, ◌≡◌, refl, sym, ap, ap₂, ◌∙◌, List, [], ◌∷◌, ◌++◌, arith,
  length, get_or, set, drop, length-set, get_or-set_self, get_or-set_ne,
}
use tpcc_oceanbase_cpp.Spsc.Window.{window, length-window, window_nonempty, window-set, turn-ne}
use tpcc_oceanbase_cpp.Timer.{
  Item, Bucket, Timer, Sorter, empty_bucket, bucket_at, current_bucket, next_index, sort_bucket,
  advance,
}

module _ {ℓ} {A : Type ℓ} (d : A) where
  -- A write to a slot that the window does not reach.
  window-set_outside :
      (buf : List A) (cap : ℕ) (x : A) (n h i : ℕ)
      → i < cap
      → h ≡ (i + 1) % cap
      → n < cap
      → window d (set buf i x) cap h n ≡ window d buf cap h n
  window-set_outside buf cap x n h i hi e hn =
      from n h 0 (omega arith) (e ∙ ap (λ (k : ℕ). k % cap) (omega arith))
    where
      from :
          (n h k : ℕ)
          → n + k < cap
          → h ≡ (i + suc k) % cap
          → window d (set buf i x) cap h n ≡ window d buf cap h n
      from zero h k hk e = refl
      from (suc n) h k hk e =
          ap₂ ◌∷◌
            (get_or-set_ne buf i h x d (λ w. turn-ne cap i k hi (omega arith) (sym e ∙ sym w)))
            (from n ((h + 1) % cap) (suc k) (omega arith) (
              ap (λ (m : ℕ). (m + 1) % cap) e
              ∙ (mod-add-mod (i + suc k) cap 1 ∙ ap (λ (m : ℕ). m % cap) (omega arith))))

  -- A write to the slot that is `k` steps from the start of the window.
  window-set_at :
      (buf : List A) (cap : ℕ) (x : A) (n h k : ℕ)
      → cap ≤ length buf
      → h < cap
      → k < n
      → n ≤ cap
      → window d (set buf ((h + k) % cap) x) cap h n ≡ set (window d buf cap h n) k x
  window-set_at buf cap x zero h k hb hh hk hn = absurd (omega arith)
  window-set_at buf cap x (suc n) h zero hb hh hk hn =
      ap₂ ◌∷◌
        (ap (λ (i : ℕ). get_or (set buf i x) h d) at_start
          ∙ get_or-set_self buf h x d (omega arith))
        (ap (λ (i : ℕ). window d (set buf i x) cap ((h + 1) % cap) n) at_start
          ∙ window-set_outside buf cap x n ((h + 1) % cap) h hh refl (omega arith))
    where
      at_start : (h + 0) % cap ≡ h
      at_start = ap (λ (m : ℕ). m % cap) (omega arith) ∙ mod-eq_of_lt hh
  window-set_at buf cap x (suc n) h (suc k) hb hh hk hn =
      ap₂ ◌∷◌ (get_or-set_ne buf ((h + suc k) % cap) h x d (turn-ne cap h k hh (omega arith))) (
        ap (λ (i : ℕ). window d (set buf i x) cap ((h + 1) % cap) n) same
        ∙ window-set_at buf cap x n ((h + 1) % cap) k hb (mod-lt (h + 1) (omega arith))
            (omega arith) (omega arith))
    where
      same : (h + suc k) % cap ≡ ((h + 1) % cap + k) % cap
      same = sym (mod-add-mod (h + 1) cap k ∙ ap (λ (m : ℕ). m % cap) (omega arith))

  window-at :
      (buf : List A) (cap n h k : ℕ)
      → h < cap
      → k < n
      → get_or (window d buf cap h n) k d ≡ get_or buf ((h + k) % cap) d
  window-at buf cap zero h k hh hk = absurd (omega arith)
  window-at buf cap (suc n) h zero hh hk =
      ap (λ (i : ℕ). get_or buf i d) (sym (ap (λ (m : ℕ). m % cap) (omega arith) ∙ mod-eq_of_lt hh))
  window-at buf cap (suc n) h (suc k) hh hk =
      window-at buf cap n ((h + 1) % cap) k (mod-lt (h + 1) (omega arith)) (omega arith)
      ∙ ap (λ (i : ℕ). get_or buf i d)
          (mod-add-mod (h + 1) cap k ∙ ap (λ (m : ℕ). m % cap) (omega arith))

module _ {ℓ} {V : Type ℓ} where
  -- The buckets behind the current one.
  abbrev pub following : Timer V → List (Bucket V)
  following q =
      window empty_bucket q.buckets (length q.buckets) (next_index q q.current)
        (length q.buckets - 1)

  -- The items that the buckets hold, in order.
  abbrev pub all_items : List (Bucket V) → List (Item V)
  all_items [] = []
  all_items (b ∷ bs) = b.items ++ all_items bs

  -- The items that have been added and not popped.
  abbrev pub stored : Timer V → List (Item V)
  stored q = drop q.cursor (current_bucket q).items ++ all_items (following q)

  -- The bucket that is next, and those behind it.
  abbrev pub next_bucket : Timer V → Bucket V
  next_bucket q = bucket_at q (next_index q q.current)

  abbrev pub later_buckets : Timer V → List (Bucket V)
  later_buckets q =
      window empty_bucket q.buckets (length q.buckets) (next_index q (next_index q q.current))
        (length q.buckets - 1 - 1)

module _ {ℓ} {V : Type ℓ} (q : Timer V) (two : 2 ≤ length q.buckets)
    (inside : q.current < length q.buckets) where
  -- A write to the current bucket, and to one behind it.
  pub current-set :
      (x : Bucket V)
      → let t : Timer V = record q { buckets = set q.buckets q.current x } in
        (current_bucket t ≡ x) × (following t ≡ following q)
  current-set x = (
    get_or-set_self q.buckets q.current x empty_bucket inside,
    ap (λ (n : ℕ). window empty_bucket (set q.buckets q.current x) n ((q.current + 1) % n) (n - 1))
          (length-set q.buckets q.current x)
        ∙ window-set_outside empty_bucket q.buckets (length q.buckets) x (length q.buckets - 1)
            (next_index q q.current) q.current inside refl (omega arith),
  )

  pub following-set :
      (x : Bucket V) (k : ℕ)
      → k < length q.buckets - 1
      → let t : Timer V = record q {
        buckets = set q.buckets ((q.current + suc k) % length q.buckets) x;
      } in
        (current_bucket t ≡ current_bucket q) × (following t ≡ set (following q) k x)
  following-set x k h = (
    get_or-set_ne q.buckets _ q.current x empty_bucket
        (turn-ne (length q.buckets) q.current k inside (omega arith)),
    ap
          (λ (n : ℕ).
            window empty_bucket (set q.buckets ((q.current + suc k) % length q.buckets) x) n
              ((q.current + 1) % n) (n - 1))
          (length-set q.buckets ((q.current + suc k) % length q.buckets) x)
        ∙ (ap
              (λ (i : ℕ).
                window empty_bucket (set q.buckets i x) (length q.buckets) (next_index q q.current)
                  (length q.buckets - 1))
              same
            ∙ window-set_at empty_bucket q.buckets (length q.buckets) x (length q.buckets - 1)
                (next_index q q.current) k (omega arith) (mod-lt (q.current + 1) (omega arith)) h
                (omega arith)),
  )
    where
      same :
          (q.current + suc k) % length q.buckets ≡ (next_index q q.current + k) % length q.buckets
      same = sym (
          mod-add-mod (q.current + 1) (length q.buckets) k
          ∙ ap (λ (m : ℕ). m % length q.buckets) (omega arith))

  pub following-at :
      (k : ℕ)
      → k < length q.buckets - 1
      → bucket_at q ((q.current + suc k) % length q.buckets) ≡ get_or (following q) k empty_bucket
  following-at k h = sym (
      window-at empty_bucket q.buckets (length q.buckets) (length q.buckets - 1)
        (next_index q q.current) k (mod-lt (q.current + 1) (omega arith)) h
      ∙ ap (λ (i : ℕ). get_or q.buckets i empty_bucket)
          (mod-add-mod (q.current + 1) (length q.buckets) k
            ∙ ap (λ (m : ℕ). m % length q.buckets) (omega arith)))

  pub length-following : length (following q) ≡ length q.buckets - 1
  length-following =
      length-window empty_bucket q.buckets (length q.buckets) (next_index q q.current)
        (length q.buckets - 1)

  pub following_nonempty : following q ≡ next_bucket q ∷ later_buckets q
  following_nonempty =
      window_nonempty empty_bucket q.buckets (length q.buckets) (next_index q q.current)
        (length q.buckets - 1) (omega arith)

  module _ (S : Sorter V) where
    pub next_inside : next_index q q.current < length q.buckets
    next_inside = mod-lt (q.current + 1) (omega arith)

    pub size_kept : length (advance S q).buckets ≡ length q.buckets
    unfolding advance
    size_kept =
        length-set (set q.buckets q.current empty_bucket) (next_index q q.current) _
        ∙ length-set q.buckets q.current empty_bucket

    pub current-advance : current_bucket (advance S q) ≡ sort_bucket S (next_bucket q)
    unfolding advance
    current-advance =
        get_or-set_self (set q.buckets q.current empty_bucket) (next_index q q.current) _
          empty_bucket (omega (arith, next_inside, length-set q.buckets q.current empty_bucket))
        ∙ ap (sort_bucket S) (
            get_or-set_ne q.buckets q.current (next_index q q.current) empty_bucket empty_bucket
              (λ e. turn-ne (length q.buckets) q.current 0 inside (omega arith) (sym e)))

    around :
        q.current
        ≡ (next_index q (next_index q q.current) + (length q.buckets - 1 - 1)) % length q.buckets
    around = sym (
        mod-add-mod (next_index q q.current + 1) (length q.buckets) (length q.buckets - 1 - 1)
        ∙ (ap (λ (m : ℕ). m % length q.buckets) one_less
            ∙ (mod-add-mod (q.current + 1) (length q.buckets) (length q.buckets - 1)
                ∙ (ap (λ (m : ℕ). m % length q.buckets) all_round
                    ∙ (add-mod_right q.current (length q.buckets) ∙ mod-eq_of_lt inside)))))
      where
        one_less :
            next_index q q.current + 1 + (length q.buckets - 1 - 1)
            ≡ next_index q q.current + (length q.buckets - 1)
        one_less = omega arith

        all_round : q.current + 1 + (length q.buckets - 1) ≡ q.current + length q.buckets
        all_round = omega arith

    pub following-advance : following (advance S q) ≡ later_buckets q ++ empty_bucket ∷ []
    unfolding advance
    following-advance =
        ap
          (λ (n : ℕ).
            window empty_bucket (advance S q).buckets n ((next_index q q.current + 1) % n) (n - 1))
          size_kept
        ∙ (window-set_outside empty_bucket (set q.buckets q.current empty_bucket) (length q.buckets)
              _ (length q.buckets - 1) (next_index q (next_index q q.current))
              (next_index q q.current) next_inside refl (omega arith)
            ∙ (ap
                  (window empty_bucket (set q.buckets q.current empty_bucket) (length q.buckets)
                    (next_index q (next_index q q.current)))
                  last
                ∙ window-set empty_bucket q.buckets (length q.buckets) empty_bucket
                    (length q.buckets - 1 - 1) (next_index q (next_index q q.current)) q.current
                    (omega arith) (mod-lt (next_index q q.current + 1) (omega arith)) (omega arith)
                    around))
      where
        last : length q.buckets - 1 ≡ suc (length q.buckets - 1 - 1)
        last = omega arith
