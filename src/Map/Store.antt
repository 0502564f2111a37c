-- ===== src/Map/Store.antt =====
-- `CoordMapStore`: opening, flushing and clearing, and records by coordinate path.
use chton.Prelude.{ℕ, Bool, true, false, ◌+◌, ◌-◌, ◌%◌, ◌^◌, Option, none, some}
use chton.Prelude.{List, length, ltb, ◌==◌, if◌then◌else◌}
use chton.Prelude.Outcome.{Result, ok, err, map_err, done, failed}
use chton.Prelude.Outcome.Stateful.{M, within, query, pure, modify, ◌>>=◌, ◌>>◌}
use chton.Prelude.Bytes.{to_le}
use chton.Tagma.{Tagma}
use chton.Origin.{Origin, OriginError}
use chton.Binding.{BindingError, Bound, TreeStrategy, Slot}
use chton.Binding.Tree
use chton.Binding.Tree.{locate}
use chton.Binding.Alloc.{locate_or_create, alloc_record, free_record, write_leaf}
use chton.Binding.Header
use chton.Binding.Header.{load_or_new, reset}
use chton.Map.{MapError, origin, binding, value_too_large, CoordMapStore, length_bytes}
use chton.Map.Record.{max_value_len, read_record}

module _ ⦃t : Tagma⦄ {S : Type 0} ⦃o : Origin S⦄ where
  -- `none` is the panic on a slot size below 8.
  unfoldable pub new : S → ℕ → Option (CoordMapStore S)
  new s record_slot_size = elim (Tree.new record_slot_size) [
    | none ↦ none
    | some st ↦
        some (record { bound = record { strategy = st; medium = s }; len = 0; dirty = false })
  ]

  abbrev pub opened : S → Result BindingError TreeStrategy → Result MapError (CoordMapStore S)
  opened s (err e) = err (binding e)
  opened s (ok st) = ok (record {
    bound = record { strategy = st; medium = s };
    len = st.record_count;
    dirty = false;
  })

  unfoldable pub load : S → ℕ → Option (Result MapError (CoordMapStore S))
  unfolding load_or_new
  load s default_record_slot_size = elim (load_or_new s default_record_slot_size) [
    | none ↦ none
    | some r ↦ some (opened s r)
  ]

  abbrev pub is_buffered : CoordMapStore S → Bool
  is_buffered m = m.dirty

  abbrev pub on_bound : {A : Type 0} → M (Bound S) BindingError A → M (CoordMapStore S) MapError A
  on_bound = within (λ m. m.bound) (λ b m. record m { bound = b }) binding

  abbrev pub on_origin : {A : Type 0} → M S OriginError A → M (CoordMapStore S) MapError A
  on_origin =
      within (λ m. m.bound.medium) (λ s m. record m { bound = record m.bound { medium = s } })
        origin

  abbrev pub set_dirty : Bool → M (CoordMapStore S) MapError (Unit {0})
  set_dirty d = modify (λ m. record m { dirty = d })

  -- `set_record_count` and the header, then the medium.
  unfoldable pub flush : M (CoordMapStore S) MapError (Unit {0})
  flush = do
    modify (λ m. record m {
      bound = record m.bound { strategy = record m.bound.strategy { record_count = m.len } };
    })
    on_bound Header.flush
    on_origin o.flush
    set_dirty false

  unfoldable pub get_path : t.CoordPath → CoordMapStore S → Result MapError (Option (List ℕ))
  get_path path m = elim (locate m.bound.medium path) [
    | err e ↦ err (binding e)
    | ok slot ↦
        if slot.record_offset == 0
        then ok none
        else elim (read_record m slot.record_offset) [ ok v ↦ ok (some v) | err e ↦ err e ]
  ]

  -- The value already stored, if the slot has a record.
  abbrev pub previous : Slot → M (CoordMapStore S) MapError (Option (List ℕ))
  previous slot m =
      let stored = (do v ← query (λ m. read_record m slot.record_offset); pure (some v)) in
      if slot.record_offset == 0 then done none m else stored m

  -- The record of the slot, made and linked if there is none. `len` is a `usize`.
  unfoldable pub ensure_record : Slot → M (CoordMapStore S) MapError ℕ
  ensure_record slot m =
      let make = (do
        area ← on_bound alloc_record
        on_bound (write_leaf slot area)
        modify (λ m. record m { len = (m.len + 1) % 2 ^ 64 })
        pure area) in
      if slot.record_offset == 0 then make m else done slot.record_offset m

  -- The length prefix and the payload of a record.
  unfoldable pub write_record : ℕ → List ℕ → M (CoordMapStore S) MapError (Unit {0})
  write_record area value = do
    on_origin (o.write area (to_le 8 (length value)))
    let payload = on_origin (o.write ((area + length_bytes) % 2 ^ 64) value)
    λ m. if length value == 0 then done tt m else payload m

  unfoldable pub put_path : t.CoordPath → List ℕ → M (CoordMapStore S) MapError (Option (List ℕ))
  unfolding ensure_record write_record
  put_path path value m =
      let room = max_value_len m in
      let store = (do
        slot ← on_bound (locate_or_create path)
        prev ← previous slot
        area ← ensure_record slot
        write_record area value
        set_dirty true
        pure prev) in
      if ltb room (length value) then failed (value_too_large (length value) room) m else store m

  unfoldable pub remove_path : t.CoordPath → M (CoordMapStore S) MapError (Option (List ℕ))
  remove_path path = do
    slot ← query (λ m. map_err binding (locate m.bound.medium path))
    let unlink = (do
      prev ← query (λ m. read_record m slot.record_offset)
      on_bound (free_record slot.record_offset)
      on_bound (write_leaf slot 0)
      modify (λ m. record m { len = m.len - 1 })
      set_dirty true
      pure (some prev))
    λ m. if slot.record_offset == 0 then done none m else unlink m

  unfoldable pub clear_checked : M (CoordMapStore S) MapError (Unit {0})
  clear_checked = do on_bound reset; modify (λ m. record m { len = 0; dirty = false })
