-- ===== src/Prelude/Outcome/Stateful.antt =====
-- Chains of `?` in methods that change their state: an error keeps what was changed before it.
use chton.Prelude.Outcome.{Result, ok, err, Outcome, done, failed}

abbrev pub M {ℓ} : Type ℓ → Type ℓ → Type ℓ → Type ℓ
M S E A = S → Outcome S E A

infixl 5 ◌>>=◌ ◌>>◌
abbrev pub ◌>>=◌ {ℓ} : {S E A B : Type ℓ} → M S E A → (A → M S E B) → M S E B
◌>>=◌ m f s = elim (m s) [ done a s' ↦ f a s' | failed e s' ↦ failed e s' ]

abbrev pub ◌>>◌ : {S E B : Type 0} → M S E (Unit {0}) → M S E B → M S E B
m >> k = m >>= λ _. k

abbrev pub pure {ℓ} : {S E A : Type ℓ} → A → M S E A
pure a s = done a s

abbrev pub throw {ℓ} : {S E A : Type ℓ} → E → M S E A
throw e s = failed e s

-- A method that only reads, called where the state may change.
abbrev pub query {ℓ} : {S E A : Type ℓ} → (S → Result E A) → M S E A
query f s = elim (f s) [ ok a ↦ done a s | err e ↦ failed e s ]

abbrev pub modify : {S E : Type 0} → (S → S) → M S E (Unit {0})
modify f s = done tt (f s)

-- A call on a part of the state, with the conversion of its error.
abbrev pub within {ℓ} : {S T E F A : Type ℓ} → (S → T) → (T → S → S) → (E → F) → M T E A → M S F A
within get put conv m s = elim (m (get s)) [
  | done a t ↦ done a (put t s)
  | failed e t ↦ failed (conv e) (put t s)
]
