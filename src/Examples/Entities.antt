-- ===== src/Examples/Entities.antt =====
-- Entity stores of numbers, with keys of one byte or one syllable.
use chton.Prelude.{ℕ, ◌≡◌, ◌≢◌, Option, none, some, List, [], ◌∷◌, All, arith, refl}
use chton.Prelude.Outcome.{err, panic}
use chton.Origin.Memory.{MemoryOrigin, memory_origin}
use chton.Origin.Memory.Medium.{byte_of, memory-IsMedium}
use chton.Map.Surface.{ByteKeys}
use chton.Store.Entity.{Implements, Tallies}
use chton.Store.Key.{str_to_coordpath}
use chton.Store.Safe.{str_to_coordpath-safe}
use chton.Store.Memory.{memory_store}
use chton.Store.Memory.Laws as MemoryLaws
use chton.Store.Memory.Laws.{memory_store-Implements}
use chton.Store.Spatial.{coord_store, axis_filtered, passing, passes}
use chton.Store.Spatial.Laws as SpatialLaws
use chton.Store.Spatial.Laws.{HasPath, coord_store-Implements}
use chton.Store.Spatial.Filter.{axis_filtered-scan}
use chton.Store.Materialized.{Codec, map_store}
use chton.Store.Materialized.Models.{Models, Accepts, AcceptsAll}
use chton.Store.Materialized.{decoded}
use chton.Store.Materialized.Values.{Listing, all_values-Listing}
use chton.Binding.{node_bytes, bitmap_bytes}
use chton.Map.{CoordMapStore}
use chton.Map.Fresh.{fresh_store, fresh-Represents}
use chton.Store.Entity.{Key}
use chton.Examples.Stores.{no_bytes}
use chton.Store.Materialized.Laws.{map_store-Implements}
use chton.Examples.Hangul.{Word, Syllable, hangul, hangul-laws, wide_enough, ga, word_of}
use chton.Examples.Spaces.{list_space, list_space-SpaceLaws, list_space-PrefixLaws}

-- Keys whose bytes are the code points of their characters.
abbrev pub plain : List ℕ → List ℕ
plain key = key

str_to_coordpath-safe_example : str_to_coordpath ⦃t = hangul⦄ plain (104 ∷ 105 ∷ []) ≢ err panic
str_to_coordpath-safe_example =
    str_to_coordpath-safe ⦃t = hangul⦄ hangul-laws wide_enough plain (104 ∷ 105 ∷ [])
      (omega arith, (omega arith, tt))

memory_store-Implements_example :
    Implements
      (memory_store {V = ℕ})
      MemoryLaws.Models
      (λ key v s. Unit {0})
      (λ entries s. Unit {0})
memory_store-Implements_example = memory_store-Implements {V = ℕ}

coord_store-Implements_example :
    Implements
      (coord_store ⦃t = hangul⦄ (list_space hangul) plain)
      (SpatialLaws.Models ⦃t = hangul⦄
        (list_space hangul)
        (list_space-SpaceLaws hangul hangul-laws)
        plain)
      (λ key v s.
        HasPath ⦃t = hangul⦄
          (list_space hangul)
          (list_space-SpaceLaws hangul hangul-laws)
          plain
          key)
      (λ entries s.
        All
          (λ entry.
            HasPath ⦃t = hangul⦄
              (list_space hangul)
              (list_space-SpaceLaws hangul hangul-laws)
              plain
              entry.0)
          entries)
coord_store-Implements_example =
    coord_store-Implements ⦃t = hangul⦄ (list_space hangul)
      (list_space-SpaceLaws hangul hangul-laws) plain hangul-laws (omega arith) wide_enough
      (λ x y e. e)

-- Three words, and the checks that the first syllable is number 7 and the second number 0.
abbrev seven : Syllable
seven = (7, omega arith)

abbrev three_words : List (Word × ℕ)
three_words =
    (word_of (seven ∷ ga ∷ []), 70)
    ∷ (word_of (ga ∷ seven ∷ []), 7)
    ∷ (word_of (seven ∷ seven ∷ []), 77)
    ∷ []

axis_filtered-scan_example :
    axis_filtered ⦃t = hangul⦄ (list_space hangul) plain ((0, 7) ∷ (1, 0) ∷ []) three_words
    ≡ passing
        (λ (entry : Word × ℕ). passes ⦃t = hangul⦄ ((0, 7) ∷ (1, 0) ∷ []) (hangul.coords entry.0))
        three_words
axis_filtered-scan_example =
    axis_filtered-scan ⦃t = hangul⦄ hangul-laws (list_space hangul) (list_space-PrefixLaws hangul)
      plain ((0, 7) ∷ (1, 0) ∷ []) three_words

-- A codec of numbers below 256, each in one byte.
abbrev byte_value : List ℕ → Option ℕ
byte_value [] = none
byte_value (b ∷ bytes) = some b

abbrev byte_codec : Codec ℕ
byte_codec = record { to_bytes = λ v. some (v ∷ []); from_bytes = byte_value }

abbrev syllable_keys : ByteKeys hangul
syllable_keys = record {
  CoordKey = List ℕ;
  key_new = λ bytes. bytes;
  from_str = λ bytes. bytes;
  to_coord_path = λ k. word_of [];
}

map_store-Implements_example :
    Implements
      (map_store byte_codec ⦃t = hangul⦄ ⦃o = memory_origin⦄ plain syllable_keys)
      (Models ⦃t = hangul⦄ byte_of byte_codec plain 1)
      (Accepts ⦃t = hangul⦄ byte_of byte_codec plain 1)
      (AcceptsAll ⦃t = hangul⦄ byte_of byte_codec plain 1)
    × Tallies
        (map_store byte_codec ⦃t = hangul⦄ ⦃o = memory_origin⦄ plain syllable_keys)
        (Models ⦃t = hangul⦄ byte_of byte_codec plain 1)
        (Accepts ⦃t = hangul⦄ byte_of byte_codec plain 1)
        (AcceptsAll ⦃t = hangul⦄ byte_of byte_codec plain 1)
map_store-Implements_example =
    map_store-Implements ⦃t = hangul⦄ memory-IsMedium 1 refl byte_codec (λ v bytes e. ground arith)
      plain hangul-laws wide_enough (λ x y e. e) syllable_keys

-- An empty store.
abbrev no_entries : Key → Option ℕ
no_entries key = none

abbrev drawer : CoordMapStore MemoryOrigin
drawer = fresh_store ⦃t = hangul⦄ no_bytes 16

drawer-Models : Models ⦃t = hangul⦄ byte_of byte_codec plain 1 drawer no_entries
unfolding node_bytes bitmap_bytes decoded
drawer-Models = record {
  contents = λ p. none;
  values = λ p. none;
  represents =
      fresh-Represents ⦃t = hangul⦄ memory-IsMedium 1 refl no_bytes 16 refl (omega arith)
        (omega arith) (omega arith);
  coded = λ p. refl;
  found = λ key text. ground arith;
}

all_values-Listing_example :
    Listing ⦃t = hangul⦄ byte_codec plain syllable_keys drawer drawer-Models.values
all_values-Listing_example =
    all_values-Listing ⦃t = hangul⦄ hangul-laws memory-IsMedium 1 refl byte_codec plain
      syllable_keys drawer no_entries drawer-Models
