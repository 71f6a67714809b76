-- ===== src/Terminal/Collecting.antt =====
-- src/terminal.h, `TTerminalStats`: what a terminal counts, and what `Collect` makes of it.
use tpcc_oceanbase_cpp.Common.{
  ℕ, zero, suc, ◌/◌, ◌≡◌, refl, sym, ap, ◌∙◌, List, [], ◌∷◌, arith, length-set,
}
use tpcc_oceanbase_cpp.Common.Word.{add64}
use tpcc_oceanbase_cpp.Histogram.{Histogram, Outcome, ok, ◌>>=◌}
use tpcc_oceanbase_cpp.Histogram.Record.{recorded, record_value_ok, recorded-IsValid}
use tpcc_oceanbase_cpp.Histogram.Merge.{Matches, merged, add_ok, merged-IsValid, merged-recorded}
use tpcc_oceanbase_cpp.Terminal.{
  Stats, AreValid, AreMatching, collect, count_ok, inc_failed, inc_user_aborted,
}
use tpcc_oceanbase_cpp.Terminal.PerType.{
  TerminalStats, Fitting, no_types, fits, collect_types, collect_all, on_type, add_ok_of,
  inc_failed_of, inc_user_aborted_of,
}

-- The result of one transaction, with its three latencies if it succeeded.
pub data Counted : Type 0 where
  success : ℕ → ℕ → ℕ → Counted
  failure : Counted
  user_abort : Counted

-- `AddOK`, `IncFailed` or `IncUserAborted` for a transaction of the type.
unfoldable pub count_event : TerminalStats → ℕ → Counted → Outcome TerminalStats
count_event s type (success latency_ms full_ms pure_us) =
    add_ok_of s type latency_ms full_ms pure_us
count_event s type failure = inc_failed_of s type
count_event s type user_abort = inc_user_aborted_of s type

-- The results of many transactions, in order.
unfoldable pub count_events : TerminalStats → List (ℕ × Counted) → Outcome TerminalStats
count_events s [] = ok s
count_events s ((type, e) ∷ es) = count_event s type e >>= λ t. count_events t es

-- What one result makes of the statistics of its type.
counted : Counted → Stats → Stats
counted (success latency_ms full_ms pure_us) s = record s {
  succeeded = add64 s.succeeded 1;
  latency = recorded s.latency latency_ms;
  latency_full = recorded s.latency_full full_ms;
  latency_pure = recorded s.latency_pure (pure_us / 1000);
}
counted failure s = inc_failed s
counted user_abort s = inc_user_aborted s

at_type : (Stats → Stats) → ℕ → List Stats → List Stats
at_type g i [] = []
at_type g zero (s ∷ ss) = g s ∷ ss
at_type g (suc i) (s ∷ ss) = s ∷ at_type g i ss

-- What `Collect` of `s` makes of `d`.
joined : Stats → Stats → Stats
joined s d = record {
  succeeded = add64 d.succeeded s.succeeded;
  failed = add64 d.failed s.failed;
  user_aborted = add64 d.user_aborted s.user_aborted;
  latency = merged d.latency s.latency;
  latency_full = merged d.latency_full s.latency_full;
  latency_pure = merged d.latency_pure s.latency_pure;
}

joined_types : List Stats → List Stats → List Stats
joined_types [] ds = ds
joined_types (s ∷ ss) [] = []
joined_types (s ∷ ss) (d ∷ ds) = joined s d ∷ joined_types ss ds

data AllValid : List Stats → Type 0 where
  no_stats : AllValid []
  valid_first : {s : Stats} {ss : List Stats} → AreValid s → AllValid ss → AllValid (s ∷ ss)

on_type_ok :
    (f : Stats → Outcome Stats) (g : Stats → Stats)
    → ((s : Stats) → AreValid s → f s ≡ ok (g s))
    → (i : ℕ) {ss : List Stats} → AllValid ss
    → on_type f i ss ≡ ok (at_type g i ss)
unfolding at_type
on_type_ok f g h i no_stats = refl
on_type_ok f g h zero (valid_first {s} v vs) = rw (h s v) refl
on_type_ok f g h (suc i) (valid_first v vs) = rw (on_type_ok f g h i vs) refl

count_ok_counted :
    (s : Stats) (a b c : ℕ) → AreValid s → count_ok s a b c ≡ ok (counted (success a b c) s)
unfolding count_ok counted
count_ok_counted s a b c v =
    rw
      (
        record_value_ok s.latency v.valid a,
        record_value_ok s.latency_full v.valid_full b,
        record_value_ok s.latency_pure v.valid_pure (c / 1000),
      )
      refl

count_event_ok :
    (s : TerminalStats) (i : ℕ) (e : Counted)
    → AllValid s.per_type
    → count_event s i e ≡ ok (record s { per_type = at_type (counted e) i s.per_type })
unfolding count_event add_ok_of inc_failed_of inc_user_aborted_of
count_event_ok s i (success a b c) v =
    rw
      (on_type_ok (λ t. count_ok t a b c) (counted (success a b c)) (λ t. count_ok_counted t a b c)
        i v)
      refl
count_event_ok s i failure v =
    rw (on_type_ok (λ t. ok (inc_failed t)) (counted failure) (λ t w. unfold counted in refl) i v)
      refl
count_event_ok s i user_abort v =
    rw
      (on_type_ok (λ t. ok (inc_user_aborted t)) (counted user_abort)
        (λ t w. unfold counted in refl) i v)
      refl

collect_ok : (s d : Stats) → AreMatching s d → collect s d ≡ ok (joined s d)
unfolding collect joined
collect_ok s d m =
    rw
      (
        add_ok d.latency s.latency m.matches,
        add_ok d.latency_full s.latency_full m.matches_full,
        add_ok d.latency_pure s.latency_pure m.matches_pure,
      )
      refl

collect_types_ok :
    {ss ds : List Stats} → Fitting ss ds → collect_types ss ds ≡ ok (joined_types ss ds)
unfolding collect_types joined_types
collect_types_ok no_types = refl
collect_types_ok (fits {s} {d} v w m f) = rw (collect_ok s d m, collect_types_ok f) refl

collect_all_ok :
    (s dst : TerminalStats)
    → Fitting s.per_type dst.per_type
    → collect_all s dst ≡ ok (record dst { per_type = joined_types s.per_type dst.per_type })
unfolding collect_all
collect_all_ok s dst f = rw (collect_types_ok f) refl

recorded-Matches : (a b : Histogram) (value : ℕ) → Matches a b → Matches a (recorded b value)
recorded-Matches a b value m = record {
  hdr = m.hdr;
  limit = m.limit;
  sized = m.sized ∙ sym (length-set b.buckets _ _);
}

counted-AreValid : (e : Counted) (s : Stats) → AreValid s → AreValid (counted e s)
unfolding counted inc_failed inc_user_aborted
counted-AreValid (success a b c) s v = record {
  valid = recorded-IsValid s.latency v.valid a;
  valid_full = recorded-IsValid s.latency_full v.valid_full b;
  valid_pure = recorded-IsValid s.latency_pure v.valid_pure (c / 1000);
}
counted-AreValid failure s v = record {
  valid = v.valid;
  valid_full = v.valid_full;
  valid_pure = v.valid_pure;
}
counted-AreValid user_abort s v = record {
  valid = v.valid;
  valid_full = v.valid_full;
  valid_pure = v.valid_pure;
}

counted-AreMatching : (e : Counted) (s d : Stats) → AreMatching s d → AreMatching (counted e s) d
unfolding counted inc_failed inc_user_aborted
counted-AreMatching (success a b c) s d m = record {
  matches = recorded-Matches d.latency s.latency a m.matches;
  matches_full = recorded-Matches d.latency_full s.latency_full b m.matches_full;
  matches_pure = recorded-Matches d.latency_pure s.latency_pure (c / 1000) m.matches_pure;
}
counted-AreMatching failure s d m = record {
  matches = m.matches;
  matches_full = m.matches_full;
  matches_pure = m.matches_pure;
}
counted-AreMatching user_abort s d m = record {
  matches = m.matches;
  matches_full = m.matches_full;
  matches_pure = m.matches_pure;
}

-- Counting commutes with joining.
joined-counted :
    (e : Counted) (s d : Stats) → AreMatching s d → joined (counted e s) d ≡ counted e (joined s d)
unfolding joined counted inc_failed inc_user_aborted
joined-counted (success a b c) s d m =
    let n : add64 d.succeeded (add64 s.succeeded 1) ≡ add64 (add64 d.succeeded s.succeeded) 1 =
      omega arith in
    λ i. record (joined s d) {
      succeeded = n i;
      latency = merged-recorded d.latency s.latency a m.matches i;
      latency_full = merged-recorded d.latency_full s.latency_full b m.matches_full i;
      latency_pure = merged-recorded d.latency_pure s.latency_pure (c / 1000) m.matches_pure i;
    }
joined-counted failure s d m =
    let n : add64 d.failed (add64 s.failed 1) ≡ add64 (add64 d.failed s.failed) 1 = omega arith in
    λ i. record (joined s d) { failed = n i }
joined-counted user_abort s d m =
    let n : add64 d.user_aborted (add64 s.user_aborted 1)
        ≡ add64 (add64 d.user_aborted s.user_aborted) 1 =
      omega arith in
    λ i. record (joined s d) { user_aborted = n i }

joined-at_type :
    (e : Counted) (i : ℕ) {ss ds : List Stats}
    → Fitting ss ds
    → joined_types (at_type (counted e) i ss) ds ≡ at_type (counted e) i (joined_types ss ds)
unfolding joined_types at_type
joined-at_type e i no_types = refl
joined-at_type e zero (fits {s} {d} {ss} {ds} v w m f) =
    ap (λ t. t ∷ joined_types ss ds) (joined-counted e s d m)
joined-at_type e (suc i) (fits {s} {d} v w m f) = ap (λ ts. joined s d ∷ ts) (joined-at_type e i f)

at_type-Fitting :
    (e : Counted) (i : ℕ) {ss ds : List Stats}
    → Fitting ss ds
    → Fitting (at_type (counted e) i ss) ds
unfolding at_type
at_type-Fitting e i no_types = no_types
at_type-Fitting e zero (fits {s} {d} v w m f) =
    fits (counted-AreValid e s v) w (counted-AreMatching e s d m) f
at_type-Fitting e (suc i) (fits v w m f) = fits v w m (at_type-Fitting e i f)

source-AllValid : {ss ds : List Stats} → Fitting ss ds → AllValid ss
source-AllValid no_types = no_stats
source-AllValid (fits v w m f) = valid_first v (source-AllValid f)

joined-AreValid : (s d : Stats) → AreValid s → AreValid d → AreMatching s d → AreValid (joined s d)
unfolding joined
joined-AreValid s d v w m = record {
  valid = merged-IsValid d.latency s.latency w.valid v.valid m.matches;
  valid_full =
      merged-IsValid d.latency_full s.latency_full w.valid_full v.valid_full m.matches_full;
  valid_pure =
      merged-IsValid d.latency_pure s.latency_pure w.valid_pure v.valid_pure m.matches_pure;
}

joined-AllValid : {ss ds : List Stats} → Fitting ss ds → AllValid (joined_types ss ds)
unfolding joined_types
joined-AllValid no_types = no_stats
joined-AllValid (fits {s} {d} v w m f) = valid_first (joined-AreValid s d v w m) (joined-AllValid f)

-- `Collect` of statistics into others with valid histograms of the same layouts, and any results: it is
-- the same to count the results at the source and to collect then, or to collect first and to count
-- the results at the destination, each under its type. Neither throws.
pub collect-count_events :
    (es : List (ℕ × Counted)) (s dst : TerminalStats)
    → Fitting s.per_type dst.per_type
    → (u : TerminalStats) × ((count_events s es >>= λ t. collect_all t dst) ≡ ok u)
      × ((collect_all s dst >>= λ t. count_events t es) ≡ ok u)
unfolding count_events collect_all
collect-count_events [] s dst f =
    let e = collect_types_ok f in
    (record dst { per_type = joined_types s.per_type dst.per_type }, rw e refl, rw e refl)
collect-count_events ((i, x) ∷ es) s dst f =
    let s' : TerminalStats = record s { per_type = at_type (counted x) i s.per_type } in
    let t : TerminalStats = record dst { per_type = joined_types s.per_type dst.per_type } in
    let (u, before, after) = collect-count_events es s' dst (at_type-Fitting x i f) in
    (
      u,
      rw (count_event_ok s i x (source-AllValid f)) before,
      ap (λ o. o >>= λ r. count_events r ((i, x) ∷ es)) (collect_all_ok s dst f)
          ∙ ap (λ o. o >>= λ r. count_events r es) (count_event_ok t i x (joined-AllValid f))
          ∙ ap (λ ts. count_events (record dst { per_type = ts }) es) (sym (joined-at_type x i f))
          ∙ sym (
              ap (λ o. o >>= λ r. count_events r es)
                (collect_all_ok s' dst (at_type-Fitting x i f)))
          ∙ after,
    )
