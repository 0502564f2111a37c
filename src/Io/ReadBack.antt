-- ===== src/Io/ReadBack.antt =====
-- What a channel reads after a write and after a delete.
use chton.Prelude.{ℕ, suc, ◌+◌, ◌-◌, ◌*◌, ◌%◌, ◌^◌, ◌≤◌, ◌<◌, ◌≡◌, Bool, true, Option, none, some}
use chton.Prelude.{List, ◌∷◌, ◌++◌, length, replicate, arith, length-append, ◌∙◌, ap}
use chton.Prelude.Outcome.{ok, done}
use chton.Prelude.Bytes.{to_le, length-to_le}
use chton.Tagma.{Tagma, TagmaLaws}
use chton.Origin.{Origin}
use chton.Origin.Laws.{IsMedium}
use chton.Binding.{node_bytes}
use chton.Map.{CoordMapStore}
use chton.Map.Record.{record_slot_size}
use chton.Map.Contents.{Represents, get_path-Represents}
use chton.Map.Put.{update, update_self, put_path-Represents}
use chton.Map.Remove.{remove_path-Represents}
use chton.Map.Surface.{ByteKeys}
use chton.Io.Value.{encode_value, key_of}
use chton.Io.RoundTrip.{decode_value-encode_value}
use chton.Io.Channel.{path_of, read, write, delete}

-- A path of 1 to `n - 1` bytes, at most 255.
abbrev pub IsShort : ℕ → List ℕ → Type 0
IsShort n path = (1 ≤ length path) × (length path ≤ n - 1) × (length path < 256)

module _ ⦃t : Tagma⦄ (keys : ByteKeys t) where
  -- The key of a short path.
  abbrev pub key : List ℕ → t.CoordPath
  key path =
      keys.to_coord_path
        (keys.key_new (length path ∷ (path ++ replicate (t.depth - 1 - length path) 0)))

  pub path_of-short : (path : List ℕ) → IsShort t.depth path → path_of keys path ≡ ok (key path)
  unfolding path_of key_of
  path_of-short path (some_byte, fits, small) = ground arith

pub length-encode_value :
    (path xs : List ℕ) → length (encode_value path xs) ≡ 4 + length path + length xs
unfolding encode_value
length-encode_value path xs = omega (
  arith,
  length-append (to_le 4 (length path % 2 ^ 32)) (path ++ xs),
  length-append path xs,
  length-to_le 4 (length path % 2 ^ 32),
)

module _ ⦃t : Tagma⦄ (laws : TagmaLaws t) {S : Type 0} ⦃o : Origin S⦄ {byte : S → ℕ → ℕ}
    (medium : IsMedium o byte) (keys : ByteKeys t) (last : ℕ) (depth_eq : suc last ≡ t.depth)
    (utf8 : List ℕ → Bool) (m : CoordMapStore S) (V : t.CoordPath → Option (List ℕ))
    (r : Represents byte last m V) (path : List ℕ) (short : IsShort t.depth path) where
  -- A write to a store that represents a map returns, if there is room for the value and below
  -- 2 ^ 64, and a read of its path, of 1 to 255 bytes of UTF-8 and below the depth, then gives its
  -- content.
  pub write-read :
      (content : List ℕ)
      → utf8 path ≡ true
      → 12 + length path + length content ≤ record_slot_size m
      → m.bound.strategy.bump + last * node_bytes + record_slot_size m < 2 ^ 64
      → (m' : CoordMapStore S) × (write keys path content m ≡ done tt m')
        × (read keys utf8 path m' ≡ ok (some content))
        × Represents byte last m' (update last V (key keys path) (some (encode_value path content)))
  unfolding write read
  write-read content valid room space =
      let value = encode_value path content in
      let long : length value ≡ 4 + length path + length content =
        length-encode_value path content in
      let put =
        put_path-Represents laws medium (key keys path) last depth_eq m V value r (omega arith)
          space in
      let found =
        get_path-Represents laws medium last depth_eq put.after
          (update last V (key keys path) (some value)) (key keys path) put.represents
        ∙ ap ok (update_self last V (key keys path) (some value)) in
      (
        put.after,
        ground (arith, path_of-short keys path short, put.returns),
        ground (
          arith,
          path_of-short keys path short,
          found,
          decode_value-encode_value utf8 path content (omega (arith, short.2)) valid,
        ),
        put.represents,
      )

  -- A delete from a store that represents a map returns, and a read of its path, of 1 to 255 bytes
  -- and below the depth, then finds nothing.
  pub delete-read :
      (m' : CoordMapStore S) × (delete keys path m ≡ done tt m')
      × (read keys utf8 path m' ≡ ok none)
      × Represents byte last m' (update last V (key keys path) none)
  unfolding delete read
  delete-read =
      let gone = remove_path-Represents laws medium (key keys path) last depth_eq m V r in
      let found =
        get_path-Represents laws medium last depth_eq gone.after
          (update last V (key keys path) none) (key keys path) gone.represents
        ∙ ap ok (update_self last V (key keys path) none) in
      (
        gone.after,
        ground (arith, path_of-short keys path short, gone.returns),
        ground (arith, path_of-short keys path short, found),
        gone.represents,
      )
