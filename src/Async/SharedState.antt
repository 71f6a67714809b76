-- ===== src/Async/SharedState.antt =====
-- src/future.h, `TSharedState<T>` with `TPromise<T>` and `TFuture<T>`, which pass their calls on to it.
-- `A` is `T` (`Unit` for `void`), `E` an exception pointer, and a callback is a number. An operation that
-- calls callbacks after it has left its lock returns them.
use tpcc_oceanbase_cpp.Common.{
  ℕ, Bool, true, false, List, [], ◌∷◌, ◌++◌, Option, none, some, if◌then◌else◌,
}

pub record Shared {ℓ} (A E : Type ℓ) : Type ℓ where
  pub value : Option A
  pub exception : Option E
  pub is_set : Bool
  pub callbacks : List ℕ

-- `logic_error` is the exception of a second `SetValue` or `SetException`.
pub data Outcome {ℓ} (B : Type ℓ) : Type ℓ where
  ok : B → Outcome B
  logic_error : Outcome B

-- `Get`: the caller waits, or it has the value or the exception. `empty` reads an empty
-- `std::optional`. The first call moves the value out; here it stays.
pub data Got {ℓ} (A E : Type ℓ) : Type ℓ where
  waits : Got A E
  returned : A → Got A E
  rethrown : E → Got A E
  empty : Got A E

module _ {ℓ} {A E : Type ℓ} where
  unfoldable pub new : Shared A E
  new = record { value = none; exception = none; is_set = false; callbacks = [] }

  -- `SetValue`, with the callbacks to call.
  unfoldable pub set_value : Shared A E → A → Outcome (Shared A E × List ℕ)
  set_value s a =
      if s.is_set
      then logic_error
      else ok (record s { value = some a; is_set = true; callbacks = [] }, s.callbacks)

  unfoldable pub set_exception : Shared A E → E → Outcome (Shared A E × List ℕ)
  set_exception s e =
      if s.is_set
      then logic_error
      else ok (record s { exception = some e; is_set = true; callbacks = [] }, s.callbacks)

  unfoldable pub add_callback : Shared A E → ℕ → Shared A E × List ℕ
  add_callback s c =
      if s.is_set then (s, c ∷ []) else (record s { callbacks = s.callbacks ++ c ∷ [] }, [])

  unfoldable pub ready : Shared A E → Bool
  ready s = s.is_set

  unfoldable pub get : Shared A E → Got A E
  get s =
      if s.is_set
      then elim s.exception [
        | some e ↦ rethrown e
        | none ↦ elim s.value [ some a ↦ returned a | none ↦ empty ]
      ]
      else waits
