-- ===== src/Binding/Alloc.antt =====
-- The methods of `TreeStrategy` that change it or its origin, but for the header.
use chton.Prelude.{ℕ, ◌+◌, ◌-◌, ◌^◌, replicate, zero, suc, none, some}
use chton.Prelude.{ltb, leb, ◌==◌, if◌then◌else◌}
use chton.Prelude.Outcome.{done, failed}
use chton.Prelude.Outcome.Stateful.{M, within, query, throw, pure, modify, ◌>>=◌, ◌>>◌}
use chton.Tagma.{Tagma}
use chton.Origin.{Origin, out_of_bounds}
use chton.Binding.{BindingError, origin, corrupt, absent, root_offset, Slot, TreeStrategy, Bound}
use chton.Binding.Read.{slot_pos, read_slot, check_child_in_bounds}
use chton.Binding.Write.{write_at, write_u64, write_slot}
use chton.Binding.Tree.{too_long, slot_at}

abbrev pub on_medium : {S A : Type 0} → M S BindingError A → M (Bound S) BindingError A
on_medium = within (λ b. b.medium) (λ s b. record b { medium = s }) (λ e. e)

abbrev pub past_u64 : ℕ → BindingError
past_u64 bump = origin (out_of_bounds bump (2 ^ 64 - 1))

-- `bump = bump.checked_add(size)?`, with the old value as the result.
unfoldable pub advance : {S : Type 0} → (TreeStrategy → ℕ) → M (Bound S) BindingError ℕ
advance size b =
    let area = b.strategy in
    let next = area.bump + size area in
    if ltb next (2 ^ 64)
    then done area.bump (record b { strategy = record area { bump = next } })
    else failed (past_u64 area.bump) b

module _ {S : Type 0} ⦃o : Origin S⦄ where
  -- The node area is zeroed so that absent slots read as 0.
  unfoldable pub alloc_node : M (Bound S) BindingError ℕ
  alloc_node = do
    node ← advance (λ area. area.node_size)
    size ← (λ b. done b.strategy.node_size b)
    on_medium (write_at node (replicate size 0))
    pure node

  unfoldable pub alloc_record : M (Bound S) BindingError ℕ
  unfolding advance
  alloc_record b =
      let area = b.strategy in
      let head = area.free_head in
      let recycle = (do
        next ← query (λ c. read_slot c.medium head)
        modify (λ c. record c { strategy = record c.strategy { free_head = next } })
        pure head) in
      if head == absent
      then advance (λ a. a.record_slot_size) b
      else (if leb (o.len b.medium) head then failed (corrupt head 0) b else recycle b)

  -- The head of the free list is written over the record, with no bitmap to keep.
  unfoldable pub free_record : ℕ → M (Bound S) BindingError (Unit {0})
  free_record offset = do
    head ← (λ b. done b.strategy.free_head b)
    on_medium (write_u64 offset head)
    modify (λ b. record b { strategy = record b.strategy { free_head = offset } })

module _ ⦃t : Tagma⦄ {S : Type 0} ⦃o : Origin S⦄ where
  -- One level of `locate_or_create` above the leaf: the child, made if it is missing.
  unfoldable pub descend : ℕ → ℕ → ℕ → M (Bound S) BindingError ℕ
  descend node index value b =
      let create = (do child ← alloc_node; on_medium (write_slot node index child); pure child) in
      let follow = (do query (λ b. check_child_in_bounds b.medium value); pure value) in
      if value == absent then create b else follow b

  -- The loop of `locate_or_create` at `depth`, with `left` levels to go.
  unfoldable pub locate_or_create_loop : t.CoordPath → ℕ → ℕ → ℕ → M (Bound S) BindingError Slot
  locate_or_create_loop key zero depth node = throw (too_long key)
  locate_or_create_loop key (suc left) depth node = elim (t.get key depth) [
    | none ↦ throw (too_long key)
    | some coord ↦ do
      value ← query (λ b. read_slot b.medium (slot_pos node (t.index coord)))
      let further = (do
        child ← descend node (t.index coord) value
        locate_or_create_loop key left (depth + 1) child)
      λ b. if depth == t.depth - 1 then done (slot_at node (t.index coord) value) b else further b
  ]

  unfoldable pub locate_or_create : t.CoordPath → M (Bound S) BindingError Slot
  unfolding locate_or_create_loop
  locate_or_create key = locate_or_create_loop key t.depth 0 root_offset

  unfoldable pub write_leaf : Slot → ℕ → M (Bound S) BindingError (Unit {0})
  unfolding write_slot
  write_leaf slot record_offset =
      on_medium (write_slot slot.leaf_node slot.leaf_index record_offset)
