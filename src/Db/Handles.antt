-- ===== src/Db/Handles.antt =====
-- src/db/prepared_statement.cpp: where the handles of prepared statements are.
use tpcc_oceanbase_cpp.Common.{
  ℕ, zero, suc, ◌+◌, ◌≤◌, ◌<◌, ◌≡◌, refl, ap, ◌∙◌, Bool, true, false, not, ◌&&◌, ◌||◌, List, [],
  ◌∷◌, ◌++◌, Option, none, some, ◌==◌, if◌then◌else◌, get_or, set, map, replicate, length,
  length-set, dec_lt, get_or-replicate, All, arith, Bool-cases, ◌≢◌, get_or-set_self, get_or-set_ne,
  ◌⊎◌, inl, inr, subst,
}
use tpcc_oceanbase_cpp.Async.Counting.{count, append_counts}
use tpcc_oceanbase_cpp.Db.Statements.{
  Entry, Cache, Answers, Use, calls, clears, query_count, blank, no_statements, entry, prepare,
  call, handles, clear_statements, use_statements, fails_to_prepare, run, run_fails, in_entry,
  occurs, places,
}

at_handle :
    (o : Option ℕ) (h : ℕ) (hs : List ℕ) (n : ℕ)
    → count h hs ≡ n
    → count h (elim o [ none ↦ hs | some g ↦ g ∷ hs ])
      ≡ elim o [ none ↦ 0 | some g ↦ if g == h then 1 else 0 ] + n
at_handle none h hs n e = e ∙ omega arith
at_handle (some g) h hs n e = omega (arith, e)

module _ {A : Type 0} where
  occurs-set :
      (es : List (Entry A)) (i : ℕ) (e : Entry A) (h : ℕ)
      → i < length es
      → occurs h (set es i e) + in_entry h (get_or es i blank) ≡ occurs h es + in_entry h e
  occurs-set [] i e h p = absurd (omega arith)
  occurs-set (f ∷ es) zero e h p = omega arith
  occurs-set (f ∷ es) (suc i) e h p =
      let ih = occurs-set es i e h (omega arith) in omega (arith, ih)

  count-handles : (es : List (Entry A)) (h : ℕ) → count h (handles es) ≡ occurs h es
  count-handles [] h = refl
  count-handles (e ∷ es) h =
      let ih = count-handles es h in at_handle e.handle h (handles es) (occurs h es) ih

blanks_hold_none : (A : Type 0) (n h : ℕ) → occurs h (replicate n (blank {A = A})) ≡ 0
blanks_hold_none A zero h = refl
blanks_hold_none A (suc n) h = let ih = blanks_hold_none A n h in omega (arith, ih)

cleared_hold_none :
    {A : Type 0} (es : List (Entry A)) (h : ℕ)
    → occurs h (map (λ (e : Entry A). blank {A = A}) es) ≡ 0
cleared_hold_none [] h = refl
cleared_hold_none (e ∷ es) h = let ih = cleared_hold_none es h in omega (arith, ih)

-- No handle is in two places, none that was not opened is in any, and unless a preparation has `failed`
-- every one that was opened is in a place, and no entry that is not prepared holds one.
pub record Tracked {A : Type 0} (failed : Bool) (c : Cache A) : Type 0 where
  pub full_size : length c.entries ≡ query_count
  pub at_most : (h : ℕ) → places h c ≤ 1
  pub fresh : (h : ℕ) → c.opened ≤ h → places h c ≡ 0
  pub kept : (h : ℕ) → h < c.opened → failed ≡ false → places h c ≡ 1
  pub none_held :
      (i : ℕ) → failed ≡ false → ((entry i c).prepared ≡ true) ⊎ ((entry i c).handle ≡ none)

module _ {A : Type 0} where
  none_held-set :
      (c : Cache A) (i j : ℕ) (e : Entry A)
      → i < length c.entries
      → (e.prepared ≡ true) ⊎ (e.handle ≡ none)
      → ((entry j c).prepared ≡ true) ⊎ ((entry j c).handle ≡ none)
      → let f = get_or (set c.entries i e) j blank in (f.prepared ≡ true) ⊎ (f.handle ≡ none)
  none_held-set c i j e p new old = elim (Bool-cases (i == j)) [
    | inl y ↦
        let same : i ≡ j = ground arith in
        subst
          (λ (k : ℕ).
            let f = get_or (set c.entries i e) k blank in (f.prepared ≡ true) ⊎ (f.handle ≡ none))
          same (rw (get_or-set_self c.entries i e blank p) new)
    | inr n ↦
        let other : i ≢ j = λ e. ground arith in rw (get_or-set_ne c.entries i j e blank other) old
  ]

  -- Binding leaves the handles where they are.
  bind-Tracked :
      (f : Bool) (c : Cache A) (i : ℕ) (params : List A)
      → i < query_count
      → Tracked f c
      → Tracked f (record c { entries = set c.entries i (record (entry i c) { bound = params }) })
  bind-Tracked f c i params p v = record {
    full_size = length-set c.entries i _ ∙ v.full_size;
    at_most = λ h. let k = v.at_most h in let e = same h in omega (arith, k, e);
    fresh = λ h l. let k = v.fresh h l in let e = same h in omega (arith, k, e);
    kept = λ h l n. let k = v.kept h l n in let e = same h in omega (arith, k, e);
    none_held = λ j n. none_held-set c i j _ inside (v.none_held i n) (v.none_held j n);
  }
    where
      inside : i < length c.entries
      inside = omega (arith, v.full_size, p)

      same :
          (h : ℕ)
          → occurs h (set c.entries i (record (entry i c) { bound = params })) ≡ occurs h c.entries
      same h =
          let e = occurs-set c.entries i (record (entry i c) { bound = params }) h inside in
          omega (arith, e)

  -- No handle was given, and the entry has lost its own.
  lose-Tracked :
      (f b : Bool) (c : Cache A) (i : ℕ)
      → i < query_count
      → Tracked f c
      → Tracked true (record c {
        entries = set c.entries i (record (entry i c) { handle = none; prepared = b });
      })
  lose-Tracked f b c i p v = record {
    full_size = length-set c.entries i _ ∙ v.full_size;
    at_most = λ h. let k = v.at_most h in let e = fewer h in omega (arith, k, e);
    fresh = λ h l. let k = v.fresh h l in let e = fewer h in omega (arith, k, e);
    kept = λ h l n. ground arith;
    none_held = λ j n. ground arith;
  }
    where
      inside : i < length c.entries
      inside = omega (arith, v.full_size, p)

      fewer :
          (h : ℕ)
          → occurs h (set c.entries i (record (entry i c) { handle = none; prepared = b }))
            ≤ occurs h c.entries
      fewer h =
          let e =
            occurs-set c.entries i (record (entry i c) { handle = none; prepared = b }) h inside in
          omega (arith, e)

  -- A new handle takes the place of what the entry held, which was none while no preparation has failed.
  open-Tracked :
      (f done : Bool) (c : Cache A) (i : ℕ)
      → i < query_count
      → (entry i c).prepared ≡ false
      → Tracked f c
      → Tracked (f || not done) (record c {
        entries = set c.entries i (record (entry i c) { handle = some c.opened; prepared = done });
        opened = c.opened + 1;
      })
  open-Tracked f done c i p unprepared v = record {
    full_size = length-set c.entries i _ ∙ v.full_size;
    at_most = λ h. elim (dec_lt h c.opened) [
      | yes l ↦ let m = moved h in let k = v.at_most h in ground arith
      | no l ↦ let m = moved h in let k = v.fresh h (omega arith) in ground arith
    ];
    fresh = λ h l. let m = moved h in let k = v.fresh h (omega arith) in ground arith;
    kept = λ h l n. elim (dec_lt h c.opened) [
      | yes m ↦
          let e = moved h in
          let k = v.kept h m (or_left n) in let z = empty h (or_left n) in ground arith
      | no m ↦
          let e = moved h in
          let k = v.fresh h (omega arith) in let z = empty h (or_left n) in ground arith
    ];
    none_held = λ j n. none_held-set c i j _ inside (inl (or_right n)) (v.none_held j (or_left n));
  }
    where
      inside : i < length c.entries
      inside = omega (arith, v.full_size, p)

      or_left : (f || not done) ≡ false → f ≡ false
      or_left n = ground arith

      or_right : (f || not done) ≡ false → done ≡ true
      or_right n = ground arith

      moved :
          (h : ℕ)
          → occurs h
                (set c.entries i (record (entry i c) { handle = some c.opened; prepared = done }))
              + in_entry h (entry i c)
            ≡ occurs h c.entries + (if c.opened == h then 1 else 0)
      moved h =
          occurs-set c.entries i (record (entry i c) { handle = some c.opened; prepared = done }) h
            inside

      empty : (h : ℕ) → f ≡ false → in_entry h (entry i c) ≡ 0
      empty h n = elim (v.none_held i n) [
        | inl y ↦ absurd (ground arith)
        | inr e ↦ ap (λ (o : Option ℕ). elim o [ none ↦ 0 | some g ↦ if g == h then 1 else 0 ]) e
      ]

  clear-Tracked : (f : Bool) (c : Cache A) → Tracked f c → Tracked f (clear_statements c)
  unfolding clear_statements
  clear-Tracked f c v = record {
    full_size = length-map_blank c.entries ∙ v.full_size;
    at_most = λ h. same h (λ n. n ≤ 1) (v.at_most h);
    fresh = λ h l. same h (λ n. n ≡ 0) (v.fresh h l);
    kept = λ h l n. same h (λ n. n ≡ 1) (v.kept h l n);
    none_held = λ i n. inr (no_handle c.entries i);
  }
    where
      length-map_blank :
          (es : List (Entry A)) → length (map (λ (e : Entry A). blank {A = A}) es) ≡ length es
      length-map_blank [] = refl
      length-map_blank (e ∷ es) = ap suc (length-map_blank es)

      no_handle :
          (es : List (Entry A)) (i : ℕ)
          → (get_or (map (λ (e : Entry A). blank {A = A}) es) i blank).handle ≡ none
      no_handle [] i = refl
      no_handle (e ∷ es) zero = refl
      no_handle (e ∷ es) (suc i) = no_handle es i

      places_kept :
          (h : ℕ)
          → places h c
            ≡ occurs h (map (λ (e : Entry A). blank {A = A}) c.entries)
              + count h (c.closed ++ handles c.entries)
      places_kept h =
          let a = cleared_hold_none c.entries h in
          let b = append_counts c.closed (handles c.entries) h in
          let e = count-handles c.entries h in omega (arith, a, b, e)

      same :
          (h : ℕ) (P : ℕ → Type 0)
          → P (places h c)
          → P (
              occurs h (map (λ (e : Entry A). blank {A = A}) c.entries)
              + count h (c.closed ++ handles c.entries))
      same h P x = subst P (places_kept h) x

  weaken : (f g : Bool) (c : Cache A) → (g ≡ false → f ≡ false) → Tracked f c → Tracked g c
  weaken f g c w v = record {
    full_size = v.full_size;
    at_most = v.at_most;
    fresh = v.fresh;
    kept = λ h l n. v.kept h l (w n);
    none_held = λ i n. v.none_held i (w n);
  }

  call-Tracked :
      (f : Bool) (c : Cache A) (i : ℕ) (a : Answers) (params : List A)
      → i < query_count
      → Tracked f c
      → Tracked
          (f || (not (entry i c).prepared && not (a.inits && a.prepares)))
          (call i a params c).1
  unfolding call prepare
  call-Tracked f c i a params p v = elim (Bool-cases (entry i c).prepared) [
    | inl y ↦ rw y (weaken f _ _ (λ n. ground arith) (bind-Tracked f c i params p v))
    | inr n ↦ elim (Bool-cases a.inits) [
      | inr m ↦ rw n (rw m (weaken true _ _ (λ k. ground arith) (lose-Tracked f false c i p v)))
      | inl m ↦
          let opened = open-Tracked f a.prepares c i p n v in
          elim (Bool-cases a.prepares) [
            | inl k ↦ rw n (
                rw m (
                  rw k (
                    bind-Tracked (f || false) _ i params p (
                      subst
                        (λ b. Tracked (f || not b) (record c {
                          entries =
                              set c.entries i
                                (record (entry i c) { handle = some c.opened; prepared = b });
                          opened = c.opened + 1;
                        }))
                        k opened))))
            | inr k ↦ rw n (
                rw m (
                  rw k (
                    subst
                      (λ b. Tracked (f || not b) (record c {
                        entries =
                            set c.entries i
                              (record (entry i c) { handle = some c.opened; prepared = b });
                        opened = c.opened + 1;
                      }))
                      k opened)))
          ]
    ]
  ]

-- The id of a call is one of the enumeration's.
unfoldable pub IsUse : {A : Type 0} → Use A → Type 0
IsUse (calls i a params) = i < query_count
IsUse clears = Unit

or_assoc : (a b c : Bool) → ((a || b) || c) ≡ (a || (b || c))
or_assoc a b c = ground arith

module _ {A : Type 0} where
  use-Tracked :
      (f : Bool) (u : Use A) (c : Cache A)
      → IsUse u
      → Tracked f c
      → Tracked (f || fails_to_prepare u c) (use_statements u c)
  unfolding IsUse use_statements fails_to_prepare
  use-Tracked f (calls i a params) c p v = call-Tracked f c i a params p v
  use-Tracked f clears c p v = weaken f _ _ (λ n. ground arith) (clear-Tracked f c v)

  run-Tracked :
      (f : Bool) (us : List (Use A)) (c : Cache A)
      → All IsUse us
      → Tracked f c
      → Tracked (f || run_fails us c) (run us c)
  unfolding run run_fails
  run-Tracked f [] c h v = weaken f _ _ (λ n. ground arith) v
  run-Tracked f (u ∷ us) c (h, hs) v =
      subst (λ b. Tracked b (run us (use_statements u c)))
        (or_assoc f (fails_to_prepare u c) (run_fails us (use_statements u c)))
        (run-Tracked (f || fails_to_prepare u c) us (use_statements u c) hs (use-Tracked f u c h v))

  none-Tracked : Tracked false (no_statements {A = A})
  unfolding no_statements
  none-Tracked = record {
    full_size = refl;
    at_most = λ h. omega (arith, blanks_hold_none A query_count h);
    fresh = λ h l. omega (arith, blanks_hold_none A query_count h);
    kept = λ h l n. absurd (omega (arith, l));
    none_held = λ i n. inr (ap (λ (e : Entry A). e.handle) (get_or-replicate query_count i blank));
  }

  given_out :
      (f : Bool) (c : Cache A) (h : ℕ)
      → h < c.opened
      → Tracked f c
      → (places h c ≡ 1) ⊎ ((places h c ≡ 0) × (f ≡ true))
  given_out f c h l v = elim (Bool-cases f) [
    | inl y ↦ let k = v.at_most h in ground arith
    | inr n ↦ inl (v.kept h l n)
  ]

-- After any calls of `Query`, `Execute` and `Clear` on a new cache, whatever the client library answers,
-- every handle that was opened stands in exactly one entry or was closed, exactly once; only where a
-- preparation has failed can it be in no entry and not closed.
pub handles_once :
    {A : Type 0} (us : List (Use A)) (h : ℕ)
    → All IsUse us
    → h < (run us no_statements).opened
    → (places h (run us no_statements) ≡ 1)
      ⊎ ((places h (run us no_statements) ≡ 0) × (run_fails us no_statements ≡ true))
handles_once us h valid l =
    given_out (run_fails us no_statements) (run us no_statements) h l
      (run-Tracked false us no_statements valid none-Tracked)
