-- ===== src/Store/Memory/Laws.antt =====
-- `MemoryEntityStore` is a map from keys to values.
use chton.Prelude.{◌≡◌, refl, ap, arith, Option, none, some, List, [], ◌∷◌}
use chton.Prelude.Outcome.{ok, done}
use chton.Store.Entity.{Key, Implements, assign, assign_all, is_some}
use chton.Store.Memory.{lookup, put, without, extend, MemoryEntityStore, memory_store}
use chton.Store.Memory.{
  get_entry, insert_entry, remove_entry, contains_entry, clear_entries, replace_entries,
}

module _ {V : Type 0} where
  -- Each key once.
  abbrev pub IsDistinct : List (Key × V) → Type 0
  IsDistinct [] = Unit {0}
  IsDistinct ((k, v) ∷ entries) = (lookup k entries ≡ none) × IsDistinct entries

  lookup-put :
      (key : Key) (v : V) (entries : List (Key × V)) (q : Key)
      → lookup q (put key v entries) ≡ assign (λ k. lookup k entries) key (some v) q
  unfolding lookup put
  lookup-put key v [] q = ground arith
  lookup-put key v ((k, w) ∷ entries) q = ground (arith, lookup-put key v entries q)

  put-IsDistinct :
      (key : Key) (v : V) (entries : List (Key × V))
      → IsDistinct entries
      → IsDistinct (put key v entries)
  unfolding lookup put
  put-IsDistinct key v [] h = (refl, tt)
  put-IsDistinct key v ((k, w) ∷ entries) h =
      ground (arith, put-IsDistinct key v entries h.1, lookup-put key v entries k)

  lookup-without :
      (key : Key) (entries : List (Key × V)) (q : Key)
      → IsDistinct entries
      → lookup q (without key entries) ≡ assign (λ k. lookup k entries) key none q
  unfolding lookup without
  lookup-without key [] q h = ground arith
  lookup-without key ((k, w) ∷ entries) q h = ground (arith, lookup-without key entries q h.1)

  without-IsDistinct :
      (key : Key) (entries : List (Key × V)) → IsDistinct entries → IsDistinct (without key entries)
  unfolding lookup without
  without-IsDistinct key [] h = tt
  without-IsDistinct key ((k, w) ∷ entries) h =
      ground (arith, without-IsDistinct key entries h.1, lookup-without key entries k h.1)

  -- The list has every key once, and the map looks it up.
  pub record Models (s : MemoryEntityStore V) (F : Key → Option V) : Type 0 where
    pub distinct : IsDistinct s.inner
    pub found : (key : Key) → lookup key s.inner ≡ F key

  extend-Models :
      (entries more : List (Key × V)) (F : Key → Option V)
      → Models (record { inner = entries }) F
      → Models (record { inner = extend entries more }) (assign_all more F)
  unfolding extend assign_all
  extend-Models entries [] F h = h
  extend-Models entries ((key, v) ∷ more) F h =
      extend-Models (put key v entries) more (assign F key (some v)) (record {
        distinct = put-IsDistinct key v entries h.distinct;
        found = λ q. ground (arith, lookup-put key v entries q, h.found q);
      })

  -- A memory store is a map from keys to values, whatever the keys and values are.
  pub memory_store-Implements :
      Implements memory_store Models (λ key v s. Unit {0}) (λ entries s. Unit {0})
  unfolding memory_store get_entry insert_entry remove_entry contains_entry clear_entries
      replace_entries
  memory_store-Implements = record {
    gets = λ s F key h text. ap ok (h.found key);
    contains = λ s F key h text. ap (λ (r : Option V). ok (is_some r)) (h.found key);
    inserts = λ s F key v h text room. record {
      after = record { inner = put key v s.inner };
      returns = ap (λ (r : Option V). done r (record { inner = put key v s.inner })) (h.found key);
      models = record {
        distinct = put-IsDistinct key v s.inner h.distinct;
        found = λ q. ground (arith, lookup-put key v s.inner q, h.found q);
      };
    };
    removes = λ s F key h text. record {
      after = record { inner = without key s.inner };
      returns =
          ap (λ (r : Option V). done r (record { inner = without key s.inner })) (h.found key);
      models = record {
        distinct = without-IsDistinct key s.inner h.distinct;
        found = λ q. ground (arith, lookup-without key s.inner q h.distinct, h.found q);
      };
    };
    clears = λ s F h. record {
      after = record { inner = [] };
      returns = refl;
      models = record { distinct = tt; found = λ q. refl };
    };
    replaces = λ s F entries h texts room. record {
      after = record { inner = extend [] entries };
      returns = refl;
      models = extend-Models [] entries (λ key. none) (record { distinct = tt; found = λ q. refl });
    };
  }
