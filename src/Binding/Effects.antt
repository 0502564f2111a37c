-- ===== src/Binding/Effects.antt =====
-- What the slot operations do to a working medium, given by its byte at each address.
pub mod Slots
pub mod Marks
use chton.Prelude.{ℕ, ◌+◌, ◌-◌, ◌*◌, ◌/◌, ◌%◌, ◌^◌, ◌≤◌, ◌<◌, ◌≡◌, ◌≢◌, ◌⊎◌, inl, inr, max, min}
use chton.Prelude.{
  refl, ap, ◌∙◌, arith, List, [], ◌∷◌, ◌++◌, length, replicate, drop, get_or, true, false,
}
use chton.Prelude.{ltb, leb, if◌then◌else◌, lt→ltb, ge→ltb, Bool-cases, drop-all, length-replicate}
use mathlib.Core.List.{append-nil}
use chton.Prelude.Outcome.{ok, done}
use chton.Prelude.Bytes.{bytes_at, patch, to_le, length-to_le}
use chton.Prelude.Word.{word, Keeps, Apart, word-Keeps, word-zero, word-patch_self, patch-Keeps}
use chton.Tagma.{Tagma, TagmaLaws}
use chton.Origin.{Origin}
use chton.Origin.Laws.{IsMedium, Written, fill}
use chton.Binding.{bitmap_bytes, node_bytes}
use chton.Binding.Read.{read_slot, slot_pos, bitmap_byte_pos}
use chton.Binding.Write.{write_at, write_u64, write_slot, marked}
use chton.Binding.Shape.{slot_of}

module _ {S : Type 0} ⦃o : Origin S⦄ {byte : S → ℕ → ℕ} (medium : IsMedium o byte) where
  -- A read of bytes that all exist fills the buffer.
  pub read_full :
      (s : S) (off : ℕ) (buf : List ℕ)
      → off + length buf ≤ o.len s
      → o.read s off buf ≡ ok (bytes_at (byte s) off (length buf), length buf)
  read_full s off buf h =
      let n : min (o.len s - off) (length buf) ≡ length buf = omega arith in
      medium.reads s off buf ∙ rw (n, drop-all (length buf) buf (omega arith), append-nil)

  -- A slot reads as its word if it exists as a whole or not at all.
  pub read_slot_lem :
      (s : S) (pos : ℕ)
      → (o.len s ≤ pos) ⊎ (pos + 8 ≤ o.len s)
      → read_slot s pos ≡ ok (word (byte s) pos)
  unfolding read_slot
  read_slot_lem s pos (inl h) =
      let beyond : leb (o.len s) pos ≡ true = ground arith in
      rw (beyond, word-zero (byte s) pos (λ i p q. medium.zero_beyond s i (omega arith)))
  read_slot_lem s pos (inr h) =
      let before : leb (o.len s) pos ≡ false = ground arith in
      rw (before, read_full s pos (replicate 8 0) h) (unfold word in refl)

  module _ ⦃t : Tagma⦄ where
    pub slot_pos_lem :
        (node index : ℕ)
        → index < t.n_valid
        → node + node_bytes < 2 ^ 64
        → slot_pos node index ≡ slot_of node index
    unfolding slot_pos node_bytes bitmap_bytes
    slot_pos_lem node index small fits = omega arith

    -- A written slot: the word, then the byte of the bitmap.
    pub record SlotStored (node index value : ℕ) (s : S) : Type 0 where
      pub after : S
      pub returns : write_slot node index value s ≡ done tt after
      pub len_after : o.len after ≡ max (o.len s) (slot_of node index + 8)
      pub byte_after :
          (i : ℕ)
          → byte after i
            ≡ patch
                (patch (byte s) (slot_of node index) (to_le 8 value))
                (node + index / 8)
                (marked (byte s (node + index / 8)) index value ∷ [])
                i

    pub write_slot_lem :
        (node index value : ℕ) (s : S)
        → index < t.n_valid
        → node + node_bytes < 2 ^ 64
        → SlotStored node index value s
    unfolding write_slot node_bytes bitmap_bytes bitmap_byte_pos
    write_slot_lem node index value s small fits =
        let bytes = to_le 8 value in
        let width : length bytes ≡ 8 = length-to_le 8 value in
        let first = medium.writes s (slot_of node index) bytes (omega arith) in
        let pos = node + index / 8 in
        let covered : pos + 1 ≤ o.len first.after = omega (arith, first.len_after) in
        let here = read_full first.after pos (0 ∷ []) covered in
        let old : byte first.after pos ≡ byte s pos = ground (arith, first.byte_after pos) in
        let mark = marked (byte s pos) index value in
        let second = medium.writes first.after pos (mark ∷ []) (omega arith) in
        let in_range : bitmap_byte_pos node index ≡ pos = omega arith in
        record {
          after = second.after;
          returns =
              ground
                (arith, slot_pos_lem node index small fits, first.returns, here, second.returns);
          len_after = omega (arith, first.len_after, second.len_after);
          byte_after = λ i. ground (arith, second.byte_after i, first.byte_after i);
        }
