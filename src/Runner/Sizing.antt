-- ===== src/Runner/Sizing.antt =====
-- src/runner.cpp: the bounds of the sizes, and the terminals of all warehouses.
use native.Mathlib.Nat.{mod-lt, mod-eq_of_lt}
use tpcc_oceanbase_cpp.Common.{
  ℕ, zero, suc, ◌+◌, ◌-◌, ◌*◌, ◌/◌, ◌%◌, ◌^◌, ◌≤◌, ◌<◌, ◌≡◌, ◌⊎◌, inl, inr, refl, ap, ap₂, sym, ◌∙◌,
  Bool, true, false, List, [], ◌∷◌, ◌++◌, map, ◌==◌, ltb, min, arith, ltb→lt, ltb→le, Bool-cases,
  All, subst,
}
use mathlib.Core.List.{map-append}
use tpcc_oceanbase_cpp.Import.Rows.{up_from}
use tpcc_oceanbase_cpp.Import.Split.{up_from-append}
use tpcc_oceanbase_cpp.Runner.{
  RunConfig, terminal_count, pool_size, io_threads, reserved_for_io, max_available, recommended,
  thread_count, even_out, Terminal, warehouse_terminals, all_terminals, min_warmup, warmup_seconds,
}

pool-io : (c : RunConfig) → pool_size c ≤ io_threads c
unfolding io_threads
pool-io c = ground arith

available_pos : (c : RunConfig) → 1 ≤ max_available c
unfolding max_available
available_pos c = ground arith

available_rest :
    (c : RunConfig) → (max_available c + reserved_for_io c ≡ c.cpu_count) ⊎ (max_available c ≡ 1)
unfolding max_available
available_rest c = elim (Bool-cases (ltb (reserved_for_io c) c.cpu_count)) [
  | inl y ↦ inl (rw y (ground arith))
  | inr n ↦ inr (rw n refl)
]

even_out_bounds : (n available : ℕ) → n ≤ available → even_out n available ≤ available
even_out_bounds n available h = ground arith

threads_bounds : (c : RunConfig) → (1 ≤ thread_count c) × (thread_count c ≤ max_available c)
unfolding thread_count
threads_bounds c = ground (
  arith,
  available_pos c,
  even_out_bounds (min (min (max_available c) (terminal_count c)) (recommended c))
      (max_available c),
)

recommended_enough :
    (c : RunConfig)
    → (c.warehouse_count ≤ recommended c * 1000) × (recommended c * 1000 < c.warehouse_count + 1000)
unfolding recommended
recommended_enough c = (omega arith, omega arith)

-- The threads of the task queue are at least one and no more than the processors that the I/O threads
-- leave, of which there is one even where they leave none; the connection pool has an I/O thread for each
-- connection, and the recommended number of threads is enough for 1000 warehouses each.
sizing_lem :
    (c : RunConfig)
    → (1 ≤ thread_count c)
      × ((thread_count c + reserved_for_io c ≤ c.cpu_count) ⊎ (thread_count c ≡ 1))
      × (pool_size c ≤ io_threads c)
      × (c.warehouse_count ≤ recommended c * 1000)
      × (recommended c * 1000 < c.warehouse_count + 1000)
sizing_lem c =
    let (low, high) = threads_bounds c in
    let (enough, tight) = recommended_enough c in
    (
      low,
      elim (available_rest c) [ inl e ↦ inl (omega (arith, e)) | inr e ↦ inr (omega (arith, e)) ],
      pool-io c,
      enough,
      tight,
    )

-- The terminal of a number.
abbrev pub terminal : ℕ → ℕ → Terminal
terminal threads id = record {
  terminal_id = id;
  warehouse_id = id / 10 + 1;
  thread_index = id % threads;
}

warehouse_terminals_lem :
    (threads wh n t : ℕ)
    → 0 < wh
    → n + t ≤ 10
    → warehouse_terminals threads wh n t ≡ map (terminal threads) (up_from ((wh - 1) * 10 + t) n)
unfolding warehouse_terminals up_from
warehouse_terminals_lem threads wh zero t p h = refl
warehouse_terminals_lem threads wh (suc n) t p h =
    let home : wh ≡ ((wh - 1) * 10 + t) / 10 + 1 = omega arith in
    let later : (wh - 1) * 10 + (t + 1) ≡ (wh - 1) * 10 + t + 1 = omega arith in
    ap₂ ◌∷◌
      (ap
        (λ (w : ℕ). record {
          terminal_id = (wh - 1) * 10 + t;
          warehouse_id = w;
          thread_index = ((wh - 1) * 10 + t) % threads;
        })
        home)
      (warehouse_terminals_lem threads wh n (t + 1) p (omega arith)
        ∙ ap (λ (k : ℕ). map (terminal threads) (up_from k n)) later)

join_ranges :
    (threads a b n : ℕ)
    → b ≡ a + 10
    → map (terminal threads) (up_from (a + 0) 10) ++ map (terminal threads) (up_from b (n * 10))
      ≡ map (terminal threads) (up_from a (suc n * 10))
join_ranges threads a b n e =
    sym (map-append (terminal threads) (up_from (a + 0) 10) (up_from b (n * 10)))
    ∙ ap (map (terminal threads)) (
        ap₂ (λ (k l : ℕ). up_from k 10 ++ up_from l (n * 10)) zero_more e
        ∙ (sym (up_from-append 10 (n * 10) a) ∙ ap (up_from a) one_more))
  where
    zero_more : a + 0 ≡ a
    zero_more = omega arith

    one_more : 10 + n * 10 ≡ suc n * 10
    one_more = omega arith

none_left : (threads a : ℕ) → [] ≡ map (terminal threads) (up_from a (zero * 10))
unfolding up_from
none_left threads a = refl

all_terminals_from :
    (threads n wh : ℕ)
    → 0 < wh
    → all_terminals threads n wh ≡ map (terminal threads) (up_from ((wh - 1) * 10) (n * 10))
unfolding all_terminals
all_terminals_from threads zero wh p = none_left threads ((wh - 1) * 10)
all_terminals_from threads (suc n) wh p =
    ap₂ ◌++◌ (warehouse_terminals_lem threads wh 10 0 p (omega arith))
      (all_terminals_from threads n (wh + 1) (omega arith))
    ∙ join_ranges threads ((wh - 1) * 10) ((wh + 1 - 1) * 10) n (omega arith)

-- The terminals are numbered 0, 1, … without a gap, ten in each of the warehouses 1, 2, …, and each one
-- counts in the statistics of the thread that is its number modulo the number of threads, an index that
-- exists.
pub all_terminals_lem :
    (threads n : ℕ)
    → 0 < threads
    → (all_terminals threads n 1 ≡ map (terminal threads) (up_from 0 (n * 10)))
      × All (λ t. t.thread_index < threads) (all_terminals threads n 1)
all_terminals_lem threads n p =
    let e = all_terminals_from threads n 1 (omega arith) in
    (e, subst (All (λ t. t.thread_index < threads)) (sym e) (in_range (up_from 0 (n * 10))))
  where
    in_range : (ids : List ℕ) → All (λ t. t.thread_index < threads) (map (terminal threads) ids)
    in_range [] = tt
    in_range (id ∷ ids) = (mod-lt id p, in_range ids)

min_warmup_enough :
    (c : RunConfig) → terminal_count c < 2 ^ 32 → terminal_count c < min_warmup c * 1000
unfolding min_warmup
min_warmup_enough c h = omega arith

-- Unless it is skipped, the warmup is no shorter than the least one, which is a second for every thousand
-- terminals and one more, nor than what was asked for in a `uint32_t`.
warmup_lem :
    (c : RunConfig) (skip : Bool) (requested : ℕ)
    → terminal_count c < 2 ^ 32
    → requested < 2 ^ 32
    → ((skip ≡ true) × (warmup_seconds c skip requested ≡ 0))
      ⊎ ((skip ≡ false)
          × (terminal_count c < warmup_seconds c skip requested * 1000)
          × (requested ≤ warmup_seconds c skip requested))
unfolding warmup_seconds
warmup_lem c true requested h k = inl (refl, refl)
warmup_lem c false requested h k =
    let least = min_warmup_enough c h in
    let kept : requested % 2 ^ 32 ≡ requested = mod-eq_of_lt k in
    elim (Bool-cases (requested == 0)) [
      | inl z ↦ rw z (inr (refl, omega (arith, least), ground arith))
      | inr n ↦ rw n (
          rw kept (elim (Bool-cases (ltb requested (min_warmup c))) [
            | inl y ↦ rw y (inr (refl, least, omega (arith, ltb→lt _ _ y)))
            | inr m ↦ rw m (inr (refl, omega (arith, least, ltb→le _ _ m), omega arith))
          ]))
    ]
