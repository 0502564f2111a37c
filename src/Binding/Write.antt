-- ===== src/Binding/Write.antt =====
-- What is written of one node: a slot, with its bit of the occupancy bitmap.
use chton.Prelude.{ℕ, ◌-◌, ◌%◌, ◌^◌, List, [], ◌∷◌, get_or, ltb, ◌==◌, if◌then◌else◌}
use Prim.Native.Nat.{bit_and, bit_or}
use chton.Prelude.Outcome.{map_err, failed}
use chton.Prelude.Outcome.Stateful.{M, within, query, ◌>>=◌, ◌>>◌}
use chton.Prelude.Bytes.{to_le}
use chton.Tagma.{Tagma}
use chton.Origin.{Origin}
use chton.Binding.{BindingError, origin, corrupt, absent}
use chton.Binding.Read.{slot_pos, bitmap_byte_pos}

module _ {S : Type 0} ⦃o : Origin S⦄ where
  abbrev pub write_at : ℕ → List ℕ → M S BindingError (Unit {0})
  write_at pos xs = within (λ s. s) (λ s' s. s') origin (o.write pos xs)

  abbrev pub read_at : ℕ → List ℕ → M S BindingError (List ℕ × ℕ)
  read_at pos buf = query (λ s. map_err origin (o.read s pos buf))

  unfoldable pub write_u64 : ℕ → ℕ → M S BindingError (Unit {0})
  write_u64 pos value = write_at pos (to_le 8 value)

-- The byte of the bitmap with the slot's bit cleared or set. `!bit` is the complement of 8 bits.
unfoldable pub marked : ℕ → ℕ → ℕ → ℕ
marked byte index value =
    let bit = 2 ^ (index % 8) in
    if value == absent then bit_and byte (255 - bit) else bit_or byte bit

module _ ⦃t : Tagma⦄ {S : Type 0} ⦃o : Origin S⦄ where
  unfoldable pub write_slot : ℕ → ℕ → ℕ → M S BindingError (Unit {0})
  unfolding write_u64
  write_slot node index value = do
    write_u64 (slot_pos node index) value
    (buf, n) ← read_at (bitmap_byte_pos node index) (0 ∷ [])
    let mark = marked (get_or buf 0 0) index value
    λ s.
        if ltb n 1
        then failed (corrupt node 0) s
        else write_at (bitmap_byte_pos node index) (mark ∷ []) s
