-- ===== src/Io/Batch.antt =====
-- `apply_batch` applies all operations in order and settles them.
use chton.Prelude.{
  ℕ, suc, ◌+◌, ◌^◌, ◌≤◌, ◌<◌, ◌≡◌, Bool, false, Bool-cases, inl, inr, Option, none, some, List, [],
  ◌∷◌, All, length,
}
use chton.Prelude.{arith, refl, ◌∙◌}
use chton.Prelude.Outcome.{done}
use chton.Tagma.{Tagma, TagmaLaws}
use chton.Origin.{Origin}
use chton.Origin.Laws.{IsMedium}
use chton.Map.{CoordMapStore}
use chton.Map.Record.{record_slot_size}
use chton.Map.Reopen.{flush-load}
use chton.Map.Space.{cost_all}
use chton.Map.Surface.{ByteKeys}
use chton.Store.Entity.{assign}
use chton.Io.Channel.{WriteOp, write_op, delete_op, default_apply_batch, apply_batch, flush}
use chton.Io.Files.{IsKeys, IsFile, Files, write-Files, delete-Files}

-- The files after a batch.
unfoldable pub replay : List WriteOp → (List ℕ → Option (List ℕ)) → List ℕ → Option (List ℕ)
replay [] F = F
replay (write_op path content ∷ ops) F = replay ops (assign F path (some content))
replay (delete_op path ∷ ops) F = replay ops (assign F path none)

module _ ⦃t : Tagma⦄ (keys : ByteKeys t) (utf8 : List ℕ → Bool) where
  -- An operation on a file, with a value that fits a record of `size` bytes.
  abbrev pub FitsOp : ℕ → WriteOp → Type 0
  FitsOp size (write_op path content) =
      IsFile keys utf8 path × (12 + length path + length content ≤ size)
  FitsOp size (delete_op path) = IsFile keys utf8 path

module _ ⦃t : Tagma⦄ {S : Type 0} ⦃o : Origin S⦄ (byte : S → ℕ → ℕ) (keys : ByteKeys t)
    (utf8 : List ℕ → Bool) (last : ℕ) where
  -- A batch that returned: all of it is in the files, and nothing waits.
  pub record Settled (m : CoordMapStore S) (ops : List WriteOp) (F : List ℕ → Option (List ℕ))
      : Type 0 where
    pub after : CoordMapStore S
    pub returns : apply_batch keys ops m ≡ done tt after
    pub files : Files byte keys utf8 last after (replay ops F)
    pub clean : after.dirty ≡ false

module _ ⦃t : Tagma⦄ (laws : TagmaLaws t) {S : Type 0} ⦃o : Origin S⦄ {byte : S → ℕ → ℕ}
    (medium : IsMedium o byte) {keys : ByteKeys t} (injective : IsKeys keys) {utf8 : List ℕ → Bool}
    (last : ℕ) (depth_eq : suc last ≡ t.depth) where
  loop-Files :
      (ops : List WriteOp) (size : ℕ) (m : CoordMapStore S) (F : List ℕ → Option (List ℕ))
      → Files byte keys utf8 last m F
      → record_slot_size m ≡ size
      → All (FitsOp keys utf8 size) ops
      → m.bound.strategy.bump + cost_all last ops size < 2 ^ 64
      → (after : CoordMapStore S) × (default_apply_batch keys ops m ≡ done tt after)
        × Files byte keys utf8 last after (replay ops F)
  unfolding default_apply_batch replay
  loop-Files [] size m F files same fits space = (m, refl, files)
  loop-Files (write_op path content ∷ ops) size m F files same ((file, room), fits) space =
      let (next, returns, changed, buffered) =
        write-Files laws medium injective last depth_eq m F files path file content (omega arith)
          (omega arith) in
      let (after, others, all) =
        loop-Files ops size next (assign F path (some content)) changed.files
          (changed.same_size ∙ same) fits (omega (arith, changed.space_used)) in
      (after, ground (arith, returns, others), all)
  loop-Files (delete_op path ∷ ops) size m F files same (file, fits) space =
      let (next, returns, changed) =
        delete-Files laws medium injective last depth_eq m F files path file in
      let (after, others, all) =
        loop-Files ops size next (assign F path none) changed.files (changed.same_size ∙ same) fits
          (omega (arith, changed.space_used)) in
      (after, ground (arith, returns, others), all)

  -- A batch of operations on files, whose values fit their records and which have room below 2 ^ 64
  -- all together, returns, at a depth below 2 ^ 16. The files are then those that the operations make
  -- in their order, whatever stood before, and nothing is left buffered.
  pub apply_batch-Files :
      (ops : List WriteOp) (m : CoordMapStore S) (F : List ℕ → Option (List ℕ))
      → Files byte keys utf8 last m F
      → t.depth < 2 ^ 16
      → All (FitsOp keys utf8 (record_slot_size m)) ops
      → m.bound.strategy.bump + cost_all last ops (record_slot_size m) < 2 ^ 64
      → Settled byte keys utf8 last m ops F
  unfolding apply_batch flush
  apply_batch-Files ops m F files shallow fits space =
      let (next, returns, all) = loop-Files ops (record_slot_size m) m F files refl fits space in
      elim (Bool-cases next.dirty) [
        | inl waits ↦
            let settled =
              flush-load medium last depth_eq next all.contents all.represents shallow
                all.len_small in
            record {
              after = settled.after;
              returns = ground (arith, returns, waits, settled.returns);
              files = record {
                contents = all.contents;
                represents = settled.represents;
                len_small = omega (arith, settled.same_len, all.len_small);
                found = all.found;
              };
              clean = settled.clean;
            }
        | inr clean ↦ record {
          after = next;
          returns = ground (arith, returns, clean);
          files = all;
          clean = clean;
        }
      ]
