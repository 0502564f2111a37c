-- ===== src/Binding/Read.antt =====
-- What is read of one node: slots, the occupancy bitmap, and the bounds of a child.
use chton.Prelude.{ℕ, ◌+◌, ◌*◌, ◌/◌, ◌%◌, ◌^◌, List, replicate}
use chton.Prelude.{ltb, leb, if◌then◌else◌}
use chton.Prelude.Outcome.{Result, ok, err, map_err}
use chton.Prelude.Outcome.Fallible.{◌>>=◌}
use chton.Prelude.Bytes.{from_le}
use chton.Tagma.{Tagma}
use chton.Origin.{Origin}
use chton.Binding.{BindingError, origin, corrupt, absent, slot_bytes, bitmap_bytes, node_bytes}

-- The sums are those of `u64`.
module _ ⦃t : Tagma⦄ where
  unfoldable pub slot_pos : ℕ → ℕ → ℕ
  unfolding bitmap_bytes
  slot_pos node index = (node + bitmap_bytes + index * slot_bytes) % 2 ^ 64

unfoldable pub bitmap_byte_pos : ℕ → ℕ → ℕ
bitmap_byte_pos node index = (node + index / 8) % 2 ^ 64

module _ {S : Type 0} ⦃o : Origin S⦄ where
  -- A position at or beyond the length is absence, a partial read is corruption.
  unfoldable pub read_slot : S → ℕ → Result BindingError ℕ
  read_slot s pos = if leb (o.len s) pos then ok absent else do
    (buf, n) ← map_err origin (o.read s pos (replicate slot_bytes 0))
    if ltb n slot_bytes then err (corrupt pos 0) else ok (from_le buf)

module _ ⦃t : Tagma⦄ {S : Type 0} ⦃o : Origin S⦄ where
  unfoldable pub check_child_in_bounds : S → ℕ → Result BindingError (Unit {0})
  check_child_in_bounds s child =
      let end = child + node_bytes in
      if ltb end (2 ^ 64)
      then (if ltb (o.len s) end then err (corrupt child 0) else ok tt)
      else err (corrupt child 0)

  unfoldable pub read_bitmap : S → ℕ → Result BindingError (List ℕ)
  read_bitmap s node = if leb (o.len s) node then ok (replicate bitmap_bytes 0) else do
    (bitmap, n) ← map_err origin (o.read s node (replicate bitmap_bytes 0))
    if ltb n bitmap_bytes then err (corrupt node 0) else ok bitmap
