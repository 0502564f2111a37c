-- ===== src/Store/Memory.antt =====
-- `MemoryEntityStore`: a hash map behind a cell, here an association list with one entry for each key.
-- The order of a hash map's values is not specified; here it is that of the first insertions.
use chton.Prelude.{ℕ, Bool, Option, none, some, List, [], ◌∷◌, map, length}
use mathlib.Core.Logic.{ite}
use chton.Prelude.Outcome.{Result, ok, Outcome, done}
use chton.Prelude.Outcome.Stateful.{M}
use chton.Binding.Shape.{path_discrete}
use chton.Store.Entity.{Panic, Key, EntityStore, is_some}
pub mod Laws

module _ {V : Type 0} where
  -- `HashMap::get`, `insert` and `remove`.
  unfoldable pub lookup : Key → List (Key × V) → Option V
  lookup key [] = none
  lookup key ((k, v) ∷ entries) = ite (path_discrete key k) (some v) (lookup key entries)

  unfoldable pub put : Key → V → List (Key × V) → List (Key × V)
  put key v [] = (key, v) ∷ []
  put key v ((k, w) ∷ entries) =
      ite (path_discrete key k) ((k, v) ∷ entries) ((k, w) ∷ put key v entries)

  unfoldable pub without : Key → List (Key × V) → List (Key × V)
  without key [] = []
  without key ((k, w) ∷ entries) = ite (path_discrete key k) entries ((k, w) ∷ without key entries)

  -- `extend`
  unfoldable pub extend : List (Key × V) → List (Key × V) → List (Key × V)
  unfolding put
  extend entries [] = entries
  extend entries ((key, v) ∷ more) = extend (put key v entries) more

pub record MemoryEntityStore (V : Type 0) : Type 0 where
  pub inner : List (Key × V)

module _ {V : Type 0} where
  abbrev pub new : MemoryEntityStore V
  new = record { inner = [] }

  unfoldable pub get_entry : Key → MemoryEntityStore V → Result Panic (Option V)
  unfolding lookup
  get_entry key s = ok (lookup key s.inner)

  unfoldable pub insert_entry : Key → V → M (MemoryEntityStore V) Panic (Option V)
  unfolding lookup put
  insert_entry key v s = done (lookup key s.inner) (record { inner = put key v s.inner })

  unfoldable pub remove_entry : Key → M (MemoryEntityStore V) Panic (Option V)
  unfolding lookup without
  remove_entry key s = done (lookup key s.inner) (record { inner = without key s.inner })

  unfoldable pub contains_entry : Key → MemoryEntityStore V → Result Panic Bool
  unfolding lookup
  contains_entry key s = ok (is_some (lookup key s.inner))

  abbrev pub entry_count : MemoryEntityStore V → ℕ
  entry_count s = length s.inner

  unfoldable pub all_values : MemoryEntityStore V → Result Panic (List V)
  all_values s = ok (map (λ entry. entry.1) s.inner)

  unfoldable pub clear_entries : M (MemoryEntityStore V) Panic (Unit {0})
  clear_entries s = done tt (record { inner = [] })

  unfoldable pub replace_entries : List (Key × V) → M (MemoryEntityStore V) Panic (Unit {0})
  unfolding extend
  replace_entries entries s = done tt (record { inner = extend [] entries })

  unfoldable pub memory_store : EntityStore (MemoryEntityStore V) V
  unfolding get_entry insert_entry remove_entry contains_entry all_values clear_entries
      replace_entries
  memory_store = record {
    get = get_entry;
    insert = insert_entry;
    remove = remove_entry;
    contains_key = contains_entry;
    len = entry_count;
    values = all_values;
    clear = clear_entries;
    replace_from = replace_entries;
  }
