-- ===== src/Store/Entity.antt =====
-- The trait `EntityStore` and its contract. A key is a string, given by its bytes. The methods have no
-- error to return: a call returns or panics. The async methods wait for nothing, so a method is its
-- outcome.
use chton.Prelude.{
  ◌^◌, ◌%◌, ◌-◌, ◌+◌, ℕ, Bool, true, false, ◌≡◌, Option, none, some, List, [], ◌∷◌, All, ◌==◌,
}
use mathlib.Core.Logic.{ite}
use mathlib.Core.List.{Mem}
use chton.Prelude.Outcome.{Result, ok, Outcome, done}
use chton.Prelude.Outcome.Stateful.{M}
use chton.Prelude.Bytes.{IsByte}
use chton.Binding.Shape.{path_discrete}

pub data Panic : Type 0 where
  panicked : Panic

abbrev pub Key : Type 0
Key = List ℕ

abbrev pub IsText : Key → Type 0
IsText key = All IsByte key

pub record EntityStore (S V : Type 0) : Type 0 where
  pub get : Key → S → Result Panic (Option V)
  pub insert : Key → V → M S Panic (Option V)
  pub remove : Key → M S Panic (Option V)
  pub contains_key : Key → S → Result Panic Bool
  pub len : S → ℕ
  pub values : S → Result Panic (List V)
  pub clear : M S Panic (Unit {0})
  pub replace_from : List (Key × V) → M S Panic (Unit {0})

-- The trait's provided method.
unfoldable pub is_empty : {S V : Type 0} → EntityStore S V → S → Bool
is_empty e s = e.len s == 0

abbrev pub is_some {ℓ} : {A : Type ℓ} → Option A → Bool
is_some none = false
is_some (some a) = true

-- A map of keys with one key given anew.
abbrev pub assign : {V : Type 0} → (Key → Option V) → Key → Option V → Key → Option V
assign F key r q = ite (path_discrete q key) r (F q)

-- The map that a list of entries makes, each replacing what stood under its key.
unfoldable pub assign_all : {V : Type 0} → List (Key × V) → (Key → Option V) → Key → Option V
assign_all [] F = F
assign_all ((key, v) ∷ entries) F = assign_all entries (assign F key (some v))

-- A call that returned `a` and left a state that models `G`.
pub record Returns {S V A : Type 0} (Models : S → (Key → Option V) → Type 0)
    (out : Outcome S Panic A) (a : A) (G : Key → Option V) : Type 0 where
  pub after : S
  pub returns : out ≡ done a after
  pub models : Models after G

-- As `Returns`, with `n` the count of entries afterwards.
pub record Counted {S V A : Type 0} (Models : S → (Key → Option V) → Type 0) (len : S → ℕ)
    (out : Outcome S Panic A) (a : A) (G : Key → Option V) (n : ℕ) : Type 0 where
  pub after : S
  pub returns : out ≡ done a after
  pub models : Models after G
  pub count : len after ≡ n

-- What a store promises: it is a map from keys to values. `Accepts` is what a store needs for an
-- insertion, `AcceptsAll` for the replacement of its content.
pub record Implements {S V : Type 0} (e : EntityStore S V) (Models : S → (Key → Option V) → Type 0)
    (Accepts : Key → V → S → Type 0) (AcceptsAll : List (Key × V) → S → Type 0) : Type 0 where
  pub gets :
      (s : S) (F : Key → Option V) (key : Key) → Models s F → IsText key → e.get key s ≡ ok (F key)
  pub contains :
      (s : S) (F : Key → Option V) (key : Key)
      → Models s F
      → IsText key
      → e.contains_key key s ≡ ok (is_some (F key))
  pub inserts :
      (s : S) (F : Key → Option V) (key : Key) (v : V)
      → Models s F
      → IsText key
      → Accepts key v s
      → Returns Models (e.insert key v s) (F key) (assign F key (some v))
  pub removes :
      (s : S) (F : Key → Option V) (key : Key)
      → Models s F
      → IsText key
      → Returns Models (e.remove key s) (F key) (assign F key none)
  pub clears :
      (s : S) (F : Key → Option V) → Models s F → Returns Models (e.clear s) tt (λ key. none)
  pub replaces :
      (s : S) (F : Key → Option V) (entries : List (Key × V))
      → Models s F
      → All (λ entry. IsText entry.0) entries
      → AcceptsAll entries s
      → Returns Models (e.replace_from entries s) tt (assign_all entries (λ key. none))

-- The count of entries after a key was given a value, or lost the one that it had. The count is a
-- `usize`, and does not fall below 0.
abbrev pub count_with {ℓ} : {A : Type ℓ} → Option A → ℕ → ℕ
count_with none n = (n + 1) % 2 ^ 64
count_with (some old) n = n

abbrev pub count_without {ℓ} : {A : Type ℓ} → Option A → ℕ → ℕ
count_without none n = n
count_without (some old) n = n - 1

-- The count after all of some entries were inserted into a map.
unfoldable pub count_all : {V : Type 0} → List (Key × V) → (Key → Option V) → ℕ → ℕ
count_all [] F n = n
count_all ((key, v) ∷ entries) F n =
    count_all entries (assign F key (some v)) (count_with (F key) n)

-- Values that a store lists: that of every key is among them.
pub record Valued {S V : Type 0} (e : EntityStore S V) (s : S) (F : Key → Option V) : Type 0 where
  pub all : List V
  pub returns : e.values s ≡ ok all
  pub complete : (key : Key) (v : V) → IsText key → F key ≡ some v → Mem v all

-- What a store promises of the values that it lists and of its count.
pub record Tallies {S V : Type 0} (e : EntityStore S V) (Models : S → (Key → Option V) → Type 0)
    (Accepts : Key → V → S → Type 0) (AcceptsAll : List (Key × V) → S → Type 0) : Type 0 where
  pub valued : (s : S) (F : Key → Option V) → Models s F → Valued e s F
  pub insert_count :
      (s : S) (F : Key → Option V) (key : Key) (v : V)
      → Models s F
      → IsText key
      → Accepts key v s
      → Counted Models e.len
          (e.insert key v s)
          (F key)
          (assign F key (some v))
          (count_with (F key) (e.len s))
  pub remove_count :
      (s : S) (F : Key → Option V) (key : Key)
      → Models s F
      → IsText key
      → Counted Models e.len
          (e.remove key s)
          (F key)
          (assign F key none)
          (count_without (F key) (e.len s))
  pub clear_count :
      (s : S) (F : Key → Option V)
      → Models s F
      → Counted Models e.len (e.clear s) tt (λ key. none) 0
  pub replace_count :
      (s : S) (F : Key → Option V) (entries : List (Key × V))
      → Models s F
      → All (λ entry. IsText entry.0) entries
      → AcceptsAll entries s
      → Counted Models e.len
          (e.replace_from entries s)
          tt
          (assign_all entries (λ key. none))
          (count_all entries (λ key. none) 0)

pub Counted-Returns :
    {S V A : Type 0} {Models : S → (Key → Option V) → Type 0} {len : S → ℕ}
    → {out : Outcome S Panic A} {a : A} {G : Key → Option V} {n : ℕ} → Counted Models len out a G n
    → Returns Models out a G
Counted-Returns c = record { after = c.after; returns = c.returns; models = c.models }
