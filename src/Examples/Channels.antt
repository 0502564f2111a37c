-- ===== src/Examples/Channels.antt =====
-- A channel with paths of one byte, over records of 32 bytes.
use chton.Prelude.{ℕ, ◌≡◌, ◌%◌, refl, arith, Bool, true, none, some, List, [], ◌∷◌}
use chton.Prelude.{get_or, ◌==◌, if◌then◌else◌}
use chton.Prelude.Outcome.{ok, done}
use chton.Origin.Memory.{MemoryOrigin, memory_origin}
use chton.Origin.Memory.Medium.{byte_of, memory-IsMedium}
use chton.Binding.{node_bytes, bitmap_bytes}
use chton.Map.{CoordMapStore}
use chton.Map.Contents.{Represents}
use chton.Map.Put.{update}
use chton.Map.Fresh.{fresh_store, fresh-Represents}
use chton.Map.Surface.{ByteKeys}
use chton.Io.Value.{encode_value, decode_value, key_of}
use chton.Io.Channel.{read, write, delete}
use chton.Io.ReadBack.{key, write-read, delete-read}
use chton.Io.RoundTrip.{decode_value-encode_value, key_of-injective}
use chton.Examples.Alphabet.{Cell, cell_a, cell_b, two_letters, two_letters-laws}
use chton.Examples.Stores.{no_bytes, node_small, none_yet}

abbrev low_bit : ℕ → Cell
low_bit b = if b % 2 == 0 then cell_a else cell_b

abbrev bit_keys : ByteKeys two_letters
bit_keys = record {
  CoordKey = List ℕ;
  key_new = λ bytes. bytes;
  from_str = λ bytes. bytes;
  to_coord_path = λ k. record { first = low_bit (get_or k 0 0); second = low_bit (get_or k 1 0) };
}

-- The paths here are ASCII.
abbrev any_bytes : List ℕ → Bool
any_bytes bytes = true

abbrev wide : CoordMapStore MemoryOrigin
wide = fresh_store no_bytes 32

wide-empty : Represents byte_of 1 wide none_yet
wide-empty =
    fresh-Represents memory-IsMedium 1 refl no_bytes 32 refl (omega arith) (omega arith) node_small

decode_value-encode_value_example :
    decode_value any_bytes (encode_value (97 ∷ []) (5 ∷ 6 ∷ [])) ≡ ok (97 ∷ [], 5 ∷ 6 ∷ [])
decode_value-encode_value_example =
    decode_value-encode_value any_bytes (97 ∷ []) (5 ∷ 6 ∷ []) (omega arith) refl

key_of_a : key_of 2 (97 ∷ []) ≡ ok (1 ∷ 97 ∷ [])
unfolding key_of
key_of_a = refl

key_of-injective_example : ◌≡◌ {A = List ℕ} (97 ∷ []) (97 ∷ [])
key_of-injective_example = key_of-injective 2 (97 ∷ []) (97 ∷ []) (1 ∷ 97 ∷ []) key_of_a key_of_a

write-read_example :
    (m' : CoordMapStore MemoryOrigin) × (write bit_keys (97 ∷ []) (5 ∷ 6 ∷ []) wide ≡ done tt m')
    × (read bit_keys any_bytes (97 ∷ []) m' ≡ ok (some (5 ∷ 6 ∷ [])))
    × Represents byte_of 1 m'
        (update 1 none_yet (key bit_keys (97 ∷ [])) (some (encode_value (97 ∷ []) (5 ∷ 6 ∷ []))))
unfolding node_bytes bitmap_bytes
write-read_example =
    write-read two_letters-laws memory-IsMedium bit_keys 1 refl any_bytes wide none_yet wide-empty
      (97 ∷ []) (omega arith, omega arith, omega arith) (5 ∷ 6 ∷ []) refl (omega arith)
      (omega arith)

delete-read_example :
    (m' : CoordMapStore MemoryOrigin) × (delete bit_keys (97 ∷ []) wide ≡ done tt m')
    × (read bit_keys any_bytes (97 ∷ []) m' ≡ ok none)
    × Represents byte_of 1 m' (update 1 none_yet (key bit_keys (97 ∷ [])) none)
delete-read_example =
    delete-read two_letters-laws memory-IsMedium bit_keys 1 refl any_bytes wide none_yet wide-empty
      (97 ∷ []) (omega arith, omega arith, omega arith)
