-- ===== src/Async/ThreadPool/Invariant.antt =====
-- src/thread_pool.h: what holds in every state of a pool and its workers.
use tpcc_oceanbase_cpp.Common.{
  ℕ, suc, ◌+◌, ◌-◌, ◌==◌, ◌≡◌, refl, ap, sym, ◌∙◌, subst, Bool-cases, ◌⊎◌, inl, inr, true, false,
  List, [], ◌∷◌, ◌++◌, arith, length, length-append, append_assoc, append-nil,
}
use tpcc_oceanbase_cpp.Async.ThreadPool.{
  submit, stop, wake, System, init, submitted, joined, wake_one, notify_one, notify_all, Work,
  starts, finishes, returns, waits, notifies, announces, Spurious, awakes, Step, submits, joins,
  works, disturbs, Reach, here, next,
}

pub record Sound (n : ℕ) (s : System) : Type 0 where
  pub order : s.started ++ s.pool.tasks ≡ s.before ++ s.late
  pub workers : s.idle + (s.asleep + (length s.running + s.left)) ≡ n
  pub rest :
      (s.left ≡ 0)
      ⊎ ((zs : List ℕ) × ((s.started ≡ s.before ++ zs) × (s.late ≡ zs ++ s.pool.tasks)))
  -- Nobody waits in a stopped pool, unless all will be notified.
  pub alert : (s.pool.stopped ≡ false) ⊎ ((s.asleep ≡ 0) ⊎ (s.announcing ≡ true))
  pub early : (s.pool.stopped ≡ true) ⊎ ((s.left ≡ 0) × (s.late ≡ []))

snoc_eq : (a t b l : List ℕ) (x : ℕ) → a ++ t ≡ b ++ l → a ++ (t ++ x ∷ []) ≡ b ++ (l ++ x ∷ [])
snoc_eq a t b l x e =
    sym (append_assoc a t (x ∷ [])) ∙ ap (λ z. z ++ x ∷ []) e ∙ append_assoc b l (x ∷ [])

early_of : {n : ℕ} {s : System} → Sound n s → s.pool.stopped ≡ false → (s.left ≡ 0) × (s.late ≡ [])
early_of v k = elim v.early [ inl y ↦ absurd (cc) | inr e ↦ e ]

submitted-Sound : (n : ℕ) (s : System) (x : ℕ) → Sound n s → Sound n (submitted s x)
unfolding submitted submit
submitted-Sound n s x v = elim (Bool-cases s.pool.stopped) [
  | inl y ↦
      subst (Sound n)
        {x = record s {
          pool = submit s.pool x;
          notifying = suc s.notifying;
          late = s.late ++ x ∷ [];
        }}
        (ground arith)
        (record {
          order = snoc_eq s.started s.pool.tasks s.before s.late x v.order;
          workers = v.workers;
          rest = elim v.rest [
            | inl z ↦ inl z
            | inr (zs, (d, e)) ↦
                inr (zs, (d, ap (λ l. l ++ x ∷ []) e ∙ append_assoc zs s.pool.tasks (x ∷ [])))
          ];
          alert = v.alert;
          early = inl y;
        })
  | inr k ↦
      let (none_left, none_late) = early_of v k in
      subst (Sound n)
        {x = record s {
          pool = submit s.pool x;
          notifying = suc s.notifying;
          before = s.before ++ x ∷ [];
        }}
        (ground arith)
        (record {
          order =
              snoc_eq s.started s.pool.tasks s.before s.late x v.order
              ∙ ap (λ l. s.before ++ (l ++ x ∷ [])) none_late
              ∙ sym (append-nil (s.before ++ x ∷ []))
              ∙ ap (λ l. (s.before ++ x ∷ []) ++ l) (sym none_late);
          workers = v.workers;
          rest = inl none_left;
          alert = v.alert;
          early = v.early;
        })
]

-- What does not change when a worker is notified.
pub wake_one-Sound : (n : ℕ) (s : System) → Sound n s → Sound n (wake_one s)
unfolding wake_one
wake_one-Sound n s v = elim (Bool-cases (s.asleep == 0)) [
  | inl z ↦ subst (Sound n) {x = s} (ground arith) v
  | inr some_wait ↦
      subst (Sound n) {x = record s { asleep = s.asleep - 1; idle = suc s.idle }} (ground arith)
        (record {
          order = v.order;
          workers = ground (arith, v.workers);
          rest = v.rest;
          alert = elim v.alert [
            | inl y ↦ inl y
            | inr h ↦ inr (elim h [ inl z ↦ inl (omega arith) | inr a ↦ inr a ])
          ];
          early = v.early;
        })
]

notify_one-Sound : (n : ℕ) (s : System) → Sound n s → Sound n (notify_one s)
unfolding notify_one
notify_one-Sound n s v =
    let w = wake_one-Sound n s v in
    record { order = w.order; workers = w.workers; rest = w.rest; alert = w.alert; early = w.early }

pub Work-Sound : (n : ℕ) (s t : System) → Sound n s → Work s t → Sound n t
unfolding wake notify_all
Work-Sound n s t v (starts x k p i e f) =
    let took : s.pool.tasks ≡ x ∷ p.tasks = ground arith in
    let same : p.stopped ≡ s.pool.stopped = ground arith in
    subst (Sound n) (sym f) (record {
      order =
          append_assoc s.started (x ∷ []) p.tasks ∙ ap (λ l. s.started ++ l) (sym took) ∙ v.order;
      workers = omega (arith, v.workers);
      rest = elim v.rest [
        | inl z ↦ inl z
        | inr (zs, (d, l)) ↦ inr (
          zs ++ x ∷ [],
          (
            ap (λ m. m ++ x ∷ []) d ∙ append_assoc s.before zs (x ∷ []),
            l ∙ ap (λ m. zs ++ m) took ∙ sym (append_assoc zs (x ∷ []) p.tasks),
          ),
        )
      ];
      alert = elim v.alert [ inl y ↦ inl (same ∙ y) | inr h ↦ inr h ];
      early = elim v.early [ inl y ↦ inl (same ∙ y) | inr h ↦ inr h ];
    })
Work-Sound n s t v (finishes xs x ys e f) = subst (Sound n) (sym f) (record {
  order = v.order;
  workers = omega (arith, v.workers, length-append xs (x ∷ ys), length-append xs ys, ap length e);
  rest = v.rest;
  alert = v.alert;
  early = v.early;
})
Work-Sound n s t v (returns k i e f) =
    let none_now : s.pool.tasks ≡ [] = ground arith in
    subst (Sound n) (sym f) (record {
      order = v.order;
      workers = omega (arith, v.workers);
      rest = inr (
        s.late,
        (
          sym (append-nil s.started) ∙ ap (λ m. s.started ++ m) (sym none_now) ∙ v.order,
          sym (append-nil s.late) ∙ ap (λ m. s.late ++ m) (sym none_now),
        ),
      );
      alert = v.alert;
      early = inl (ground arith);
    })
Work-Sound n s t v (waits k i e f) =
    let going : s.pool.stopped ≡ false = ground arith in
    subst (Sound n) (sym f) (record {
      order = v.order;
      workers = omega (arith, v.workers);
      rest = v.rest;
      alert = inl going;
      early = v.early;
    })
Work-Sound n s t v (notifies k i f) = subst (Sound n) (sym f) (notify_one-Sound n s v)
Work-Sound n s t v (announces i f) = subst (Sound n) (sym f) (record {
  order = v.order;
  workers = omega (arith, v.workers);
  rest = v.rest;
  alert = inr (inl refl);
  early = v.early;
})

joined-Sound : (n : ℕ) (s : System) → Sound n s → Sound n (joined s)
unfolding joined stop
joined-Sound n s v = elim (Bool-cases s.pool.stopped) [
  | inl y ↦ subst (Sound n) {x = s} (ground arith) v
  | inr k ↦
      subst (Sound n) {x = record s { pool = record s.pool { stopped = true }; announcing = true }}
        (ground arith)
        (record {
          order = v.order;
          workers = v.workers;
          rest = v.rest;
          alert = inr (inr refl);
          early = inl refl;
        })
]

pub Spurious-Sound : (n : ℕ) (s t : System) → Sound n s → Spurious s t → Sound n t
Spurious-Sound n s t v (awakes k e f) = subst (Sound n) (sym f) (wake_one-Sound n s v)

Step-Sound : (n : ℕ) (s t : System) → Sound n s → Step s t → Sound n t
Step-Sound n s t v (submits x f) = subst (Sound n) (sym f) (submitted-Sound n s x v)
Step-Sound n s t v (joins f) = subst (Sound n) (sym f) (joined-Sound n s v)
Step-Sound n s t v (works w) = Work-Sound n s t v w
Step-Sound n s t v (disturbs w) = Spurious-Sound n s t v w

pub no_items : (xs : List ℕ) → length xs ≡ 0 → xs ≡ []
no_items [] e = refl
no_items (x ∷ xs) e = absurd (omega arith)

pub case_of : (xs : List ℕ) → (xs ≡ []) ⊎ ((x : ℕ) × ((ys : List ℕ) × (xs ≡ x ∷ ys)))
case_of [] = inl refl
case_of (x ∷ xs) = inr (x, (xs, refl))

pub Reach-Sound : {n : ℕ} {s : System} → Reach (init n) s → Sound n s
unfolding init
Reach-Sound here = record {
  order = refl;
  workers = omega arith;
  rest = inl refl;
  alert = inl refl;
  early = inr (refl, refl);
}
Reach-Sound {n} (next {t} {u} r st) = Step-Sound n t u (Reach-Sound r) st
