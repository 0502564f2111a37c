-- ===== src/Prelude/Outcome.antt =====
-- Rust's `Result`, and the outcome of a method that takes `&mut self`: the value or the error, and
-- in both cases the state that the call left behind.
pub mod Fallible
pub mod Stateful

pub data Result {ℓ κ} (E : Type ℓ) (A : Type κ) : Type (ℓ ⊔ κ) where
  ok : A → Result E A
  err : E → Result E A

pub data Outcome {ℓ} (S E A : Type ℓ) : Type ℓ where
  done : A → S → Outcome S E A
  failed : E → S → Outcome S E A

-- The conversion that `?` makes.
abbrev pub map_err {ℓ κ ι} :
    {E : Type ℓ} {F : Type κ} {A : Type ι} → (E → F) → Result E A → Result F A
map_err f (ok a) = ok a
map_err f (err e) = err (f e)

-- A panic, or an error of the method's own.
pub data Fault {ℓ} (E : Type ℓ) : Type ℓ where
  panic : Fault E
  error : E → Fault E
