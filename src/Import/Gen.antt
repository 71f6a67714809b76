-- ===== src/Import/Gen.antt =====
-- Generators: code that draws random numbers. The draws are a list, and an execution takes each
-- `RandomNumber(from, to)` from its head; a draw out of range is no execution (`none`).
use tpcc_oceanbase_cpp.Common.{
  Bool, true, false, subst, ◌<◌, ℕ, zero, suc, ◌+◌, ◌≤◌, ◌≡◌, refl, ◌&&◌, List, [], ◌∷◌, ◌++◌,
  Option, none, some, arith, leb, if◌then◌else◌, length, All, All-append,
}

abbrev pub Gen {ℓ} : Type ℓ → Type ℓ
Gen A = List ℕ → Option (A × List ℕ)

module _ {ℓ} {A : Type ℓ} where
  abbrev pub pure : A → Gen A
  pure a draws = some (a, draws)

abbrev pub resume {ℓ κ} :
    {A : Type ℓ} {B : Type κ} → Option (A × List ℕ) → (A → Gen B) → Option (B × List ℕ)
resume none f = none
resume (some (a, rest)) f = f a rest

infixl 5 ◌>>=◌
abbrev pub ◌>>=◌ {ℓ κ} : {A : Type ℓ} {B : Type κ} → Gen A → (A → Gen B) → Gen B
◌>>=◌ m f draws = resume (m draws) f

-- `RandomNumber(low, high)`.
unfoldable pub random_number : ℕ → ℕ → Gen ℕ
random_number low high [] = none
random_number low high (d ∷ ds) = if leb low d && leb d high then some (d, ds) else none

-- Whatever is drawn, the result has the property.
pub record Ensures {ℓ κ} {A : Type ℓ} (P : A → Type κ) (m : Gen A) : Type (ℓ ⊔ κ) where
  pub holds : (draws : List ℕ) {a : A} {rest : List ℕ} → m draws ≡ some (a, rest) → P a

module _ {ℓ κ} {A : Type ℓ} {P : A → Type κ} where
  pub Ensures-pure : (a : A) → P a → Ensures P (pure a)
  Ensures-pure a h = record { holds = λ draws e. subst P (cc) h }

module _ {ℓ κ} {A : Type ℓ} {B : Type κ} where
  resume-eq-some :
      (o : Option (A × List ℕ)) (f : A → Gen B) {r : B × List ℕ}
      → resume o f ≡ some r
      → (a : A) × (ds : List ℕ) × (o ≡ some (a, ds)) × (f a ds ≡ some r)
  resume-eq-some none f e = cc
  resume-eq-some (some (a, ds)) f e = (a, ds, refl, e)

module _ {ℓ κ ℓ' κ'} {A : Type ℓ} {B : Type ℓ'} {P : A → Type κ} {Q : B → Type κ'} where
  pub Ensures-bind :
      {m : Gen A} {f : A → Gen B}
      → Ensures P m
      → ((a : A) → P a → Ensures Q (f a))
      → Ensures Q (m >>= f)
  Ensures-bind {m} {f} hm hf = record {
    holds = λ draws e.
        let (a, ds, first, then_) = resume-eq-some (m draws) f e in
        (hf a (hm.holds draws first)).holds ds then_;
  }

pub random_number-Ensures :
    (low high : ℕ) → Ensures (λ n. (low ≤ n) × (n ≤ high)) (random_number low high)
unfolding random_number
random_number-Ensures low high = record {
  holds = elim [ [] ↦ λ e. cc | d ∷ ds ↦ λ e. ground arith ];
}

-- `for (i = first; …; ++i)` with `count` rounds, whose bodies emit rows.
module _ {ℓ} {A : Type ℓ} where
  unfoldable pub for_each : ℕ → ℕ → (ℕ → Gen (List A)) → Gen (List A)
  for_each zero first body = pure []
  for_each (suc count) first body =
      body first >>= λ rows. for_each count (first + 1) body >>= λ more. pure (rows ++ more)

  unfoldable pub emit : A → Gen (List A)
  emit row = pure (row ∷ [])

  pub for_each-Ensures {κ} :
      (P : A → Type κ) (count first : ℕ) (body : ℕ → Gen (List A))
      → ((i : ℕ) → first ≤ i → i < first + count → Ensures (All P) (body i))
      → Ensures (All P) (for_each count first body)
  unfolding for_each
  for_each-Ensures P zero first body h = Ensures-pure [] tt
  for_each-Ensures P (suc count) first body h =
      Ensures-bind (h first (omega arith) (omega arith)) λ rows r.
        Ensures-bind
          (for_each-Ensures P count (first + 1) body λ i lo hi. h i (omega arith) (omega arith))
          λ more m. Ensures-pure (rows ++ more) (All-append P rows more r m)

-- A list of `n` draws, each of which `f` turns into a character.
unfoldable pub draw_text : ℕ → ℕ → (ℕ → ℕ) → Gen (List ℕ)
draw_text zero high f = pure []
draw_text (suc n) high f =
    random_number 0 high >>= λ d. draw_text n high f >>= λ more. pure (f d ∷ more)

pub draw_text-Ensures : (n high : ℕ) (f : ℕ → ℕ) → Ensures (λ t. length t ≡ n) (draw_text n high f)
unfolding draw_text
draw_text-Ensures zero high f = Ensures-pure [] refl
draw_text-Ensures (suc n) high f = Ensures-bind (random_number-Ensures 0 high) λ d _.
    Ensures-bind (draw_text-Ensures n high f) λ more m. Ensures-pure (f d ∷ more) (omega arith)

module _ {ℓ κ} {A : Type ℓ} {P : A → Type κ} where
  pub Ensures-if :
      (b : Bool) {m n : Gen A}
      → (b ≡ true → Ensures P m)
      → (b ≡ false → Ensures P n)
      → Ensures P (if b then m else n)
  Ensures-if true h k = h refl
  Ensures-if false h k = k refl

  pub Ensures-weaken {κ'} :
      {Q : A → Type κ'} {m : Gen A} → ((a : A) → P a → Q a) → Ensures P m → Ensures Q m
  Ensures-weaken f h = record { holds = λ draws {a} e. f a (h.holds draws e) }
