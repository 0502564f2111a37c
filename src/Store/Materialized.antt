-- ===== src/Store/Materialized.antt =====
-- `MapEntityStore`: entries under the paths of their keys in a `CoordMapStore`, each value encoded.
-- The codec is the crate postcard, a parameter. Errors of the map are panics here.
pub mod Models
pub mod Reads
pub mod Values
pub mod Changes
pub mod Laws
use chton.Prelude.{ℕ, Bool, true, false, Option, none, some, List, [], ◌∷◌}
use chton.Prelude.Outcome.{Result, ok, err, Outcome, done, failed, map_err}
use chton.Prelude.Outcome.Fallible.{◌>>=◌}
use chton.Prelude.Outcome.Stateful.{M}
use chton.Tagma.{Tagma}
use chton.Origin.{Origin}
use chton.Map.{MapError, CoordMapStore}
use chton.Map.Store
use chton.Map.Store.{get_path, put_path, remove_path, clear_checked}
use chton.Map.Surface.{ByteKeys}
use chton.Map.Surface
use chton.Store.Key.{map_key_or_panic}
use chton.Store.Entity.{Panic, panicked, Key, EntityStore, is_some}
use chton.Store.Probe.{probe}

-- `postcard::to_allocvec` and `postcard::from_bytes`; `none` is an error.
pub record Codec (V : Type 0) : Type 0 where
  pub to_bytes : V → Option (List ℕ)
  pub from_bytes : List ℕ → Option V

-- A failing call of the map.
abbrev pub or_panic : {S E A : Type 0} → Outcome S E A → Outcome S Panic A
or_panic (done a s) = done a s
or_panic (failed e s) = failed panicked s

abbrev pub unwrapped : {A : Type 0} → Option A → Result Panic A
unwrapped none = err panicked
unwrapped (some a) = ok a

module _ {V : Type 0} (codec : Codec V) where
  unfoldable pub encode_value : V → Result Panic (List ℕ)
  encode_value value = unwrapped (codec.to_bytes value)

  unfoldable pub decode_value : List ℕ → Result Panic V
  decode_value bytes = unwrapped (codec.from_bytes bytes)

  -- `value.map(decode_value)`
  unfoldable pub decoded : Option (List ℕ) → Result Panic (Option V)
  unfolding decode_value
  decoded none = ok none
  decoded (some bytes) = elim (decode_value bytes) [ err e ↦ err e | ok v ↦ ok (some v) ]

  -- A call that returns stored bytes, with these decoded.
  abbrev pub decoding :
      {S : Type 0} → Outcome S Panic (Option (List ℕ)) → Outcome S Panic (Option V)
  decoding (failed e s) = failed e s
  decoding (done old s) = elim (decoded old) [ err e ↦ failed e s | ok r ↦ done r s ]

  -- The values of the entries that the map lists.
  unfoldable pub decode_all : {K : Type 0} → List (K × List ℕ) → Result Panic (List V)
  unfolding decode_value
  decode_all [] = ok []
  decode_all ((key, bytes) ∷ entries) =
      let rest = decode_all entries in
      (do value ← decode_value bytes; values ← rest; ok (value ∷ values))

  module _ ⦃t : Tagma⦄ (chars : List ℕ → List ℕ) where
    -- What `replace_entries` collects before it touches the map.
    unfoldable pub encode_all : List (Key × V) → Result Panic (List (t.CoordPath × List ℕ))
    unfolding encode_value
    encode_all [] = ok []
    encode_all ((key, value) ∷ entries) =
        let rest = encode_all entries in
        (do
          path ← unwrapped (map_key_or_panic chars key)
          bytes ← encode_value value
          encoded ← rest
          ok ((path, bytes) ∷ encoded))

  module _ ⦃t : Tagma⦄ {S : Type 0} ⦃o : Origin S⦄ (chars : List ℕ → List ℕ) where
    abbrev pub new : S → ℕ → Option (CoordMapStore S)
    new s record_slot_size = Store.new s record_slot_size

    abbrev pub load : S → ℕ → Option (Result MapError (CoordMapStore S))
    load s default_record_slot_size = Store.load s default_record_slot_size

    abbrev pub is_buffered : CoordMapStore S → Bool
    is_buffered m = Store.is_buffered m

    abbrev pub flush : M (CoordMapStore S) MapError (Unit {0})
    flush = Store.flush

    unfoldable pub get_entry : Key → CoordMapStore S → Result Panic (Option V)
    unfolding decoded
    get_entry key m = elim (probe chars key) [
      | err e ↦ err e
      | ok found ↦ elim found [
        | none ↦ ok none
        | some path ↦ elim (get_path path m) [ err e ↦ err panicked | ok value ↦ decoded value ]
      ]
    ]

    unfoldable pub insert_entry : Key → V → M (CoordMapStore S) Panic (Option V)
    unfolding encode_value decoded
    insert_entry key value m = elim (map_key_or_panic chars key) [
      | none ↦ failed panicked m
      | some path ↦ elim (encode_value value) [
        | err e ↦ failed e m
        | ok bytes ↦ decoding (or_panic (put_path path bytes m))
      ]
    ]

    unfoldable pub remove_entry : Key → M (CoordMapStore S) Panic (Option V)
    unfolding decoded
    remove_entry key m = elim (probe chars key) [
      | err e ↦ failed e m
      | ok found ↦ elim found [
        | none ↦ done none m
        | some path ↦ decoding (or_panic (remove_path path m))
      ]
    ]

    unfoldable pub contains_entry : Key → CoordMapStore S → Result Panic Bool
    contains_entry key m = elim (probe chars key) [
      | err e ↦ err e
      | ok found ↦ elim found [
        | none ↦ ok false
        | some path ↦ elim (get_path path m) [
          | err e ↦ err panicked
          | ok value ↦ ok (is_some value)
        ]
      ]
    ]

    abbrev pub entry_count : CoordMapStore S → ℕ
    entry_count m = m.len

    unfoldable pub all_values : ByteKeys t → CoordMapStore S → Result Panic (List V)
    unfolding decode_all
    all_values keys m = elim (Surface.iter keys m) [
      | err e ↦ err panicked
      | ok entries ↦ decode_all entries
    ]

    unfoldable pub clear_entries : M (CoordMapStore S) Panic (Unit {0})
    clear_entries m = or_panic (clear_checked m)

    unfoldable pub put_all : List (t.CoordPath × List ℕ) → M (CoordMapStore S) MapError (Unit {0})
    put_all [] m = done tt m
    put_all ((path, bytes) ∷ encoded) m = elim (put_path path bytes m) [
      | failed e m' ↦ failed e m'
      | done old m' ↦ put_all encoded m'
    ]

    unfoldable pub replace_entries : List (Key × V) → M (CoordMapStore S) Panic (Unit {0})
    unfolding encode_all put_all
    replace_entries entries m = elim (encode_all chars entries) [
      | err e ↦ failed e m
      | ok encoded ↦ elim (clear_checked m) [
        | failed e m' ↦ failed panicked m'
        | done u m' ↦ or_panic (put_all encoded m')
      ]
    ]

    -- `cube center radius` are the paths of the cube's proximity.
    unfoldable pub found_on :
        List t.CoordPath → CoordMapStore S → Result Panic (List (t.CoordPath × V))
    unfolding decoded
    found_on [] m = ok []
    found_on (path ∷ paths) m =
        let rest = found_on paths m in
        (do
          stored ← elim (get_path path m) [ err e ↦ err panicked | ok value ↦ decoded value ]
          others ← rest
          ok (elim stored [ none ↦ others | some v ↦ (path, v) ∷ others ]))

    unfoldable pub proximity :
        (t.CoordPath → ℕ → List t.CoordPath)
        → t.CoordPath
        → ℕ
        → CoordMapStore S
        → Result Panic (List (t.CoordPath × V))
    unfolding found_on
    proximity cube center radius m = found_on (cube center radius) m

    unfoldable pub map_store : ByteKeys t → EntityStore (CoordMapStore S) V
    unfolding get_entry insert_entry remove_entry contains_entry all_values clear_entries
        replace_entries
    map_store keys = record {
      get = get_entry;
      insert = insert_entry;
      remove = remove_entry;
      contains_key = contains_entry;
      len = entry_count;
      values = all_values keys;
      clear = clear_entries;
      replace_from = replace_entries;
    }
