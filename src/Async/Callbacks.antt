-- ===== src/Async/Callbacks.antt =====
-- Several threads at one shared state: each callback runs once for each time that it was added.
use tpcc_oceanbase_cpp.Common.{
  ℕ, ◌+◌, ◌≡◌, refl, ap, sym, subst, Bool-cases, ◌⊎◌, inl, inr, true, false, List, [], ◌∷◌, ◌++◌,
  none, arith,
}
use tpcc_oceanbase_cpp.Async.Counting.{count, append_counts}
use tpcc_oceanbase_cpp.Async.SharedState.{
  Shared, ok, returned, rethrown, waits, new, set_value, set_exception, add_callback, get,
}

-- The state, the callbacks that a thread has taken out of it and not called yet, those that have been
-- called, and all that were ever added.
pub record System {ℓ} (A E : Type ℓ) : Type ℓ where
  pub shared : Shared A E
  pub taken : List ℕ
  pub called : List ℕ
  pub added : List ℕ

module _ {ℓ} {A E : Type ℓ} where
  unfoldable pub init : System A E
  unfolding new
  init = record { shared = new; taken = []; called = []; added = [] }

  -- A call of `SetValue` or `SetException` that does not throw, a call of `AddCallback`, or the call of a
  -- callback that is taken.
  pub data Step (s t : System A E) : Type ℓ where
    sets :
        (a : A) (sh : Shared A E) (cs : List ℕ)
        → set_value s.shared a ≡ ok (sh, cs)
        → t ≡ record s { shared = sh; taken = s.taken ++ cs }
        → Step s t
    fails :
        (e : E) (sh : Shared A E) (cs : List ℕ)
        → set_exception s.shared e ≡ ok (sh, cs)
        → t ≡ record s { shared = sh; taken = s.taken ++ cs }
        → Step s t
    adds :
        (c : ℕ) (sh : Shared A E) (cs : List ℕ)
        → add_callback s.shared c ≡ (sh, cs)
        → t ≡ record s { shared = sh; taken = s.taken ++ cs; added = c ∷ s.added }
        → Step s t
    calls :
        (xs : List ℕ) (c : ℕ) (ys : List ℕ)
        → s.taken ≡ xs ++ c ∷ ys
        → t ≡ record s { taken = xs ++ ys; called = c ∷ s.called }
        → Step s t

  pub data Reach (s : System A E) : System A E → Type ℓ where
    here : Reach s s
    next : {t u : System A E} → Reach s t → Step t u → Reach s u

  pub record Balanced (s : System A E) : Type ℓ where
    pub balance :
        (c : ℕ)
        → count c s.called + (count c s.taken + count c s.shared.callbacks) ≡ count c s.added
    pub none_waits : s.shared.is_set ≡ true → s.shared.callbacks ≡ []
    pub first_answer :
        s.shared.is_set ≡ true
        → ((a : A) × (get s.shared ≡ returned a)) ⊎ ((e : E) × (get s.shared ≡ rethrown e))
    pub unset : s.shared.is_set ≡ false → (s.shared.value ≡ none) × (s.shared.exception ≡ none)

  abbrev Answered : Shared A E → Type ℓ
  Answered sh = ((a : A) × (get sh ≡ returned a)) ⊎ ((e : E) × (get sh ≡ rethrown e))

  set_value_ok :
      (s : Shared A E) (a : A) (sh : Shared A E) (cs : List ℕ)
      → (s.value ≡ none) × (s.exception ≡ none)
      → set_value s a ≡ ok (sh, cs)
      → (sh.callbacks ≡ []) × (sh.is_set ≡ true) × (cs ≡ s.callbacks) × (get sh ≡ returned a)
  unfolding set_value get
  set_value_ok s a sh cs u e = ground arith

  set_exception_ok :
      (s : Shared A E) (x : E) (sh : Shared A E) (cs : List ℕ)
      → set_exception s x ≡ ok (sh, cs)
      → (sh.callbacks ≡ []) × (sh.is_set ≡ true) × (cs ≡ s.callbacks) × (get sh ≡ rethrown x)
  unfolding set_exception get
  set_exception_ok s x sh cs e = ground arith

  get_waits : (s : Shared A E) → s.is_set ≡ false → get s ≡ waits
  unfolding get
  get_waits s n = ground arith

  set_value_first :
      (s : Shared A E) (a : A) (r : Shared A E × List ℕ) → set_value s a ≡ ok r → s.is_set ≡ false
  unfolding set_value
  set_value_first s a r e = ground arith

  -- The state is set, and a thread has taken its callbacks.
  set-Balanced :
      (s : System A E) (sh : Shared A E) (cs : List ℕ)
      → Balanced s
      → sh.callbacks ≡ []
      → sh.is_set ≡ true
      → cs ≡ s.shared.callbacks
      → Answered sh
      → Balanced (record s { shared = sh; taken = s.taken ++ cs })
  set-Balanced s sh cs b empty_ is c answer = record {
    balance = λ d.
        omega (arith, b.balance d, append_counts s.taken cs d, ap (count d) c, ap (count d) empty_);
    none_waits = λ _. empty_;
    first_answer = λ _. answer;
    unset = λ no_. absurd (cc);
  }

  add-Balanced :
      (s : System A E) (c : ℕ) (sh : Shared A E) (cs : List ℕ)
      → Balanced s
      → add_callback s.shared c ≡ (sh, cs)
      → Balanced (record s { shared = sh; taken = s.taken ++ cs; added = c ∷ s.added })
  unfolding add_callback get
  add-Balanced s c sh cs b e = elim (Bool-cases s.shared.is_set) [
    | inl y ↦
        let same : s.shared ≡ sh = ground arith in
        let at_once : cs ≡ c ∷ [] = ground arith in
        subst (λ h. Balanced (record s { shared = h; taken = s.taken ++ cs; added = c ∷ s.added }))
          same
          (record {
            balance =
                λ d. omega (arith, b.balance d, append_counts s.taken cs d, ap (count d) at_once);
            none_waits = b.none_waits;
            first_answer = b.first_answer;
            unset = b.unset;
          })
    | inr n ↦
        let waits_now : record s.shared { callbacks = s.shared.callbacks ++ c ∷ [] } ≡ sh =
          ground arith in
        let none_now : cs ≡ [] = ground arith in
        subst (λ h. Balanced (record s { shared = h; taken = s.taken ++ cs; added = c ∷ s.added }))
          waits_now
          (record {
            balance = λ d. omega (
              arith,
              b.balance d,
              append_counts s.taken cs d,
              ap (count d) none_now,
              append_counts s.shared.callbacks (c ∷ []) d,
            );
            none_waits = λ y. absurd (cc);
            first_answer = λ y. absurd (cc);
            unset = b.unset;
          })
  ]

  Step-Balanced : {s t : System A E} → Balanced s → Step s t → Balanced t
  Step-Balanced {s} b (sets a sh cs e f) =
      let (em, is, c, g) = set_value_ok s.shared a sh cs (b.unset (set_value_first _ a _ e)) e in
      subst Balanced (sym f) (set-Balanced s sh cs b em is c (inl (a, g)))
  Step-Balanced {s} b (fails x sh cs e f) =
      let (em, is, c, g) = set_exception_ok s.shared x sh cs e in
      subst Balanced (sym f) (set-Balanced s sh cs b em is c (inr (x, g)))
  Step-Balanced {s} b (adds c sh cs e f) = subst Balanced (sym f) (add-Balanced s c sh cs b e)
  Step-Balanced {s} b (calls xs c ys e f) = subst Balanced (sym f) (record {
    balance = λ d.
        omega
          (arith, b.balance d, ap (count d) e, append_counts xs (c ∷ ys) d, append_counts xs ys d);
    none_waits = b.none_waits;
    first_answer = b.first_answer;
    unset = b.unset;
  })

  Reach-Balanced : {s : System A E} → Reach init s → Balanced s
  unfolding init
  Reach-Balanced here = record {
    balance = λ d. omega arith;
    none_waits = λ _. refl;
    first_answer = λ e. absurd (cc);
    unset = λ _. (refl, refl);
  }
  Reach-Balanced (next r st) = Step-Balanced (Reach-Balanced r) st

-- In every state that threads can reach from a new one, each callback has been called, is about to be
-- called, or waits, as many times as it was added; once the state is set none waits.
pub callbacks_once :
    {A E : Type 0} {s : System A E}
    → Reach init s
    → (c : ℕ)
    → (count c s.called + (count c s.taken + count c s.shared.callbacks) ≡ count c s.added)
      × ((s.shared.is_set ≡ false) ⊎ (count c s.called + count c s.taken ≡ count c s.added))
callbacks_once {s} r c =
    let b = Reach-Balanced r in
    (
      b.balance c,
      elim (Bool-cases s.shared.is_set) [
        | inl y ↦ inr (omega (arith, b.balance c, ap (count c) (b.none_waits y)))
        | inr n ↦ inl n
      ],
    )

-- In every reachable state `Get` waits exactly until the state is set, and never reads an empty value.
pub get_answers :
    {A E : Type 0} {s : System A E}
    → Reach init s
    → ((s.shared.is_set ≡ false) × (get s.shared ≡ waits))
      ⊎ ((s.shared.is_set ≡ true)
          × (((a : A) × (get s.shared ≡ returned a)) ⊎ ((e : E) × (get s.shared ≡ rethrown e))))
get_answers {s} r = elim (Bool-cases s.shared.is_set) [
  | inl y ↦ inr (y, (Reach-Balanced r).first_answer y)
  | inr n ↦ inl (n, get_waits s.shared n)
]

-- A step leaves the answer of a set state as it is: the first `SetValue` or `SetException` wins.
pub first_wins :
    {A E : Type 0} {s t : System A E}
    → s.shared.is_set ≡ true
    → Step s t
    → (t.shared.is_set ≡ true) × (get t.shared ≡ get s.shared)
unfolding set_value set_exception add_callback
first_wins y (sets a sh cs e f) = ground arith
first_wins y (fails x sh cs e f) = ground arith
first_wins y (adds c sh cs e f) = ground arith
first_wins y (calls xs c ys e f) = ground arith
