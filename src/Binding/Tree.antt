-- ===== src/Binding/Tree.antt =====
-- `TreeStrategy` and its `SpaceStrategy`: resolving a path, allocating and freeing records.
use chton.Prelude.{ℕ, ◌+◌, ◌-◌, Option, none, some, length, zero, suc}
use chton.Prelude.{ltb, ◌==◌, if◌then◌else◌}
use chton.Prelude.Outcome.{Result, ok, err}
use chton.Prelude.Outcome.Fallible.{◌>>=◌, ◌>>◌}
use chton.Tagma.{Tagma}
use chton.Origin.{Origin}
use chton.Binding.{BindingError, key_too_long, absent, slot_bytes, root_offset}
use chton.Binding.{node_bytes, Slot, TreeStrategy}
use chton.Binding.Read.{slot_pos, read_slot, check_child_in_bounds}

-- `none` stands for the assertion that panics: a slot must hold the 8-byte record header. The bound
-- on the depth is checked when the crate is compiled.
module _ ⦃t : Tagma⦄ where
  unfoldable pub new : ℕ → Option TreeStrategy
  new record_slot_size =
      if ltb record_slot_size slot_bytes
      then none
      else some (record {
        record_slot_size = record_slot_size;
        bump = root_offset + node_bytes;
        free_head = absent;
        node_size = node_bytes;
        record_count = 0;
      })

  abbrev pub too_long : t.CoordPath → BindingError
  too_long key = key_too_long (length (t.coords key))

  abbrev pub slot_at : ℕ → ℕ → ℕ → Slot
  slot_at node index offset = record {
    leaf_node = node;
    leaf_index = index;
    leaf_slot_offset = slot_pos node index;
    record_offset = offset;
  }

module _ ⦃t : Tagma⦄ {S : Type 0} ⦃o : Origin S⦄ where
  -- The loop of `locate` at `depth`, with `left` levels to go.
  unfoldable pub locate_loop : S → t.CoordPath → ℕ → ℕ → ℕ → Result BindingError Slot
  locate_loop s key zero depth node = err (too_long key)
  locate_loop s key (suc left) depth node = elim (t.get key depth) [
    | none ↦ err (too_long key)
    | some coord ↦ do
      value ← read_slot s (slot_pos node (t.index coord))
      if depth == t.depth - 1
          then ok (slot_at node (t.index coord) value)
          else if value == absent
          then ok (slot_at node (t.index coord) absent)
          else (check_child_in_bounds s value >> locate_loop s key left (depth + 1) value)
  ]

  unfoldable pub locate : S → t.CoordPath → Result BindingError Slot
  unfolding locate_loop
  locate s key = locate_loop s key t.depth 0 root_offset
