-- ===== src/Examples/Stores.antt =====
-- Stores over memory, with records of 16 bytes.
use chton.Prelude.{◌*◌, true, ℕ, ◌+◌, ◌^◌, ◌<◌, ◌≡◌, refl, arith, Option, none, some, List, [], ◌∷◌}
use chton.Prelude.Outcome.{ok}
use chton.Origin.Memory.{MemoryOrigin, memory_origin}
use chton.Origin.Memory.Medium.{byte_of, memory-IsMedium}
use chton.Binding.{node_bytes, root_offset, bitmap_bytes}
use chton.Map.Store.{new, get_path}
use chton.Map.Contents.{Represents, get_path-Represents}
use chton.Map.Put.{Put, update, put_path-Represents}
use chton.Map.Remove.{Removed, remove_path-Represents}
use chton.Map.Reopen.{Settled, flush-load}
use chton.Map.Clear.{Cleared, clear-Represents}
use chton.Map.Enumerate.{Enumerated, iter-Enumerated}
use chton.Map.Surface.{ByteKeys, proximity, bounding_box_range}
use chton.Map.Answers.{IsNear, IsBoxed, listed, queries-listed}
use chton.Map.Fresh.{fresh_store, fresh-Represents, new-Represents}
use chton.Examples.Alphabet.{cell_a, cell_b, Pair, two_letters, two_letters-laws}

abbrev pub no_bytes : MemoryOrigin
no_bytes = record { bytes = [] }

abbrev pub key_ab : Pair
key_ab = record { first = cell_a; second = cell_b }

pub node_small : root_offset + node_bytes < 2 ^ 64
unfolding node_bytes bitmap_bytes
node_small = omega arith

abbrev pub none_yet : Pair → Option (List ℕ)
none_yet key = none

pub fresh-empty : Represents byte_of 1 (fresh_store no_bytes 16) none_yet
fresh-empty =
    fresh-Represents memory-IsMedium 1 refl no_bytes 16 refl (omega arith) (omega arith) node_small

new-Represents_example :
    (new no_bytes 16 ≡ some (fresh_store no_bytes 16))
    × Represents byte_of 1 (fresh_store no_bytes 16) (λ key. none)
new-Represents_example =
    new-Represents memory-IsMedium 1 refl no_bytes 16 refl (omega arith) (omega arith) node_small

put_path-Represents_example : Put byte_of 1 (fresh_store no_bytes 16) none_yet key_ab (7 ∷ 8 ∷ [])
unfolding node_bytes bitmap_bytes
put_path-Represents_example =
    put_path-Represents two_letters-laws memory-IsMedium key_ab 1 refl (fresh_store no_bytes 16)
      none_yet (7 ∷ 8 ∷ []) fresh-empty (omega arith) (omega arith)

-- The store after that put.
abbrev pub stored_ab : Put byte_of 1 (fresh_store no_bytes 16) none_yet key_ab (7 ∷ 8 ∷ [])
unfolding node_bytes bitmap_bytes
stored_ab =
    put_path-Represents two_letters-laws memory-IsMedium key_ab 1 refl (fresh_store no_bytes 16)
      none_yet (7 ∷ 8 ∷ []) fresh-empty (omega arith) (omega arith)

get_path-Represents_example :
    get_path key_ab stored_ab.after ≡ ok (update 1 none_yet key_ab (some (7 ∷ 8 ∷ [])) key_ab)
get_path-Represents_example =
    get_path-Represents two_letters-laws memory-IsMedium 1 refl stored_ab.after
      (update 1 none_yet key_ab (some (7 ∷ 8 ∷ []))) key_ab stored_ab.represents

remove_path-Represents_example :
    Removed byte_of 1 stored_ab.after (update 1 none_yet key_ab (some (7 ∷ 8 ∷ []))) key_ab
remove_path-Represents_example =
    remove_path-Represents two_letters-laws memory-IsMedium key_ab 1 refl stored_ab.after
      (update 1 none_yet key_ab (some (7 ∷ 8 ∷ []))) stored_ab.represents

-- The count after that put is 1.
one_value : stored_ab.after.len < 2 ^ 64
one_value = omega (arith, stored_ab.len_after)

flush-load_example :
    Settled byte_of 1 stored_ab.after (update 1 none_yet key_ab (some (7 ∷ 8 ∷ [])))
flush-load_example =
    flush-load memory-IsMedium 1 refl stored_ab.after (update 1 none_yet key_ab (some (7 ∷ 8 ∷ [])))
      stored_ab.represents (omega arith) one_value

clear-Represents_example : Cleared byte_of 1 stored_ab.after
clear-Represents_example =
    clear-Represents memory-IsMedium 1 refl stored_ab.after
      (update 1 none_yet key_ab (some (7 ∷ 8 ∷ []))) stored_ab.represents

-- A cube of one path, and a box of two.
abbrev only_center : Pair → ℕ → List Pair
only_center center radius = center ∷ []

abbrev two_corners : List (ℕ × ℕ) → Option ℕ
two_corners ranges = some 2

abbrev corners : List (ℕ × ℕ) → List Pair
corners ranges = record { first = cell_a; second = cell_a } ∷ key_ab ∷ []

-- A build that checks for overflow, and items of 32 bytes.
queries-listed_example :
    IsNear true
      ((2 * 0 + 1) ^ 2 * 32)
      (proximity true 32 only_center key_ab 0 stored_ab.after)
      (listed (update 1 none_yet key_ab (some (7 ∷ 8 ∷ []))) (key_ab ∷ []))
    × IsBoxed 32
        (some 2)
        (bounding_box_range 32 two_corners corners ((0, 0) ∷ (0, 1) ∷ []) stored_ab.after)
        (listed
          (update 1 none_yet key_ab (some (7 ∷ 8 ∷ [])))
          (record { first = cell_a; second = cell_a } ∷ key_ab ∷ []))
queries-listed_example =
    queries-listed two_letters-laws memory-IsMedium 1 refl stored_ab.after
      (update 1 none_yet key_ab (some (7 ∷ 8 ∷ []))) stored_ab.represents true 32 (omega arith)
      only_center key_ab 0 two_corners corners ((0, 0) ∷ (0, 1) ∷ [])

-- Keys are the lists of the bytes of their coordinates.
abbrev letter_keys : ByteKeys two_letters
letter_keys = record {
  CoordKey = List ℕ;
  key_new = λ bytes. bytes;
  from_str = λ bytes. bytes;
  to_coord_path = λ k. key_ab;
}

iter-Enumerated_example :
    Enumerated letter_keys stored_ab.after (update 1 none_yet key_ab (some (7 ∷ 8 ∷ [])))
iter-Enumerated_example =
    iter-Enumerated two_letters-laws memory-IsMedium 1 refl stored_ab.after
      (update 1 none_yet key_ab (some (7 ∷ 8 ∷ []))) stored_ab.represents letter_keys
