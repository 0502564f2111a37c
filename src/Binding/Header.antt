-- ===== src/Binding/Header.antt =====
-- The header at offset 0: `load`, `load_or_new`, `write_header` (which is `flush`) and `reset`.
pub mod Fields
use chton.Prelude.{ℕ, ◌+◌, ◌%◌, ◌^◌, Option, none, some, List, ◌++◌, take, drop, replicate}
use chton.Prelude.{ltb, leb, ◌==◌, not, ◌&&◌, ◌||◌, if◌then◌else◌}
use chton.Prelude.Outcome.{Result, Outcome, ok, err, done, failed}
use chton.Prelude.Outcome.Stateful.{M, ◌>>◌}
use chton.Prelude.Bytes.{to_le, from_le}
use chton.Tagma.{Tagma}
use chton.Origin.{Origin}
use chton.Binding.{
  BindingError, origin, corrupt, absent, slot_bytes, header_len, root_offset, magic,
}
use chton.Binding.{TreeStrategy, Bound}
use chton.Binding.Write.{write_at}
use chton.Binding.Alloc.{on_medium}
use chton.Binding.Tree
use chton.Binding.Tree.{new}

-- The field at `[from, from + width)` of a header.
abbrev pub field : List ℕ → ℕ → ℕ → ℕ
field header from width = from_le (take width (drop from header))

module _ ⦃t : Tagma⦄ where
  -- Bytes 6 and 7 and the last 16 stay zero.
  unfoldable pub header_of : TreeStrategy → List ℕ
  header_of st =
      to_le 4 magic
      ++ (to_le 2 (t.depth % 2 ^ 16)
          ++ (replicate 2 0
              ++ (to_le 8 st.bump
                  ++ (to_le 8 st.free_head
                      ++ (to_le 8 st.node_size
                          ++ (to_le 8 st.record_slot_size
                              ++ (to_le 8 st.record_count ++ replicate 16 0)))))))

  -- The checks of `load` on a header that was read, over a medium of `len` bytes. The fields are
  -- adopted before the last two checks.
  unfoldable pub adopt : ℕ → List ℕ → M TreeStrategy BindingError (Unit {0})
  adopt len header st =
      let node_size = field header 24 8 in
      let size = field header 32 8 in
      let st' = record st {
        record_slot_size = size;
        bump = field header 8 8;
        free_head = field header 16 8;
        record_count = field header 40 8;
      } in
      if not (field header 4 2 == t.depth) || not (node_size == st.node_size)
      then failed (corrupt 0 0) st
      else if ltb size slot_bytes
      then failed (corrupt 0 0) st
      else if ltb st'.bump (root_offset + st.node_size)
      then failed (corrupt 0 0) st'
      else if not (st'.free_head == absent) && leb len st'.free_head
      then failed (corrupt 0 0) st'
      else done tt st'

abbrev pub loaded : Outcome TreeStrategy BindingError (Unit {0}) → Result BindingError TreeStrategy
loaded (done _ st) = ok st
loaded (failed e st) = err e

module _ ⦃t : Tagma⦄ {S : Type 0} ⦃o : Origin S⦄ where
  -- A medium that is too short for a header, or has another magic, keeps the fresh state.
  unfoldable pub load : S → M TreeStrategy BindingError (Unit {0})
  unfolding adopt
  load s st =
      if ltb (o.len s) header_len then done tt st else elim (o.read s 0 (replicate header_len 0)) [
        | err e ↦ failed (origin e) st
        | ok (header, _) ↦
            if field header 0 4 == magic then adopt (o.len s) header st else done tt st
      ]

  -- `none` is the panic of `new`.
  unfoldable pub load_or_new : S → ℕ → Option (Result BindingError TreeStrategy)
  unfolding load new
  load_or_new s default_record_slot_size = elim (Tree.new default_record_slot_size) [
    | none ↦ none
    | some st ↦ some (loaded (load s st))
  ]

  unfoldable pub write_header : M (Bound S) BindingError (Unit {0})
  unfolding header_of
  write_header b = on_medium (write_at 0 (header_of b.strategy)) b

  unfoldable pub flush : M (Bound S) BindingError (Unit {0})
  unfolding write_header
  flush = write_header

  -- The root span is zeroed and the bump area restarts after it.
  unfoldable pub reset : M (Bound S) BindingError (Unit {0})
  unfolding write_header
  reset b =
      let st = record b.strategy {
        bump = root_offset + b.strategy.node_size;
        free_head = absent;
        record_count = 0;
      } in
      (do on_medium (write_at root_offset (replicate st.node_size 0)); write_header)
        (record b { strategy = st })
