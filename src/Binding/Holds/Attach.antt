-- ===== src/Binding/Holds/Attach.antt =====
-- `write_leaf` with a record: the record joins the tree.
use chton.Prelude.{ℕ, ◌+◌, ◌/◌, ◌^◌, ◌≤◌, ◌<◌, ◌≡◌, ◌≢◌, List, ◌∷◌, length, All}
use chton.Prelude.{arith, ap, sym, subst}
use chton.Prelude.Outcome.{done}
use chton.Prelude.Word.{Keeps, Apart}
use chton.Tagma.{Tagma}
use chton.Origin.{Origin}
use chton.Origin.Laws.{IsMedium}
use chton.Binding.{Bound, Slot, node_bytes}
use chton.Binding.Write.{marked}
use chton.Binding.Alloc.{write_leaf}
use chton.Binding.Shape.{IsPath, resolve, relink, extent}
use chton.Binding.Shape.Link.{IsPath-tail}
use chton.Binding.Regions.{Loose}
use chton.Binding.Regions.Changes.{attach-TreeFits, attach-FreeFits, off_free_of}
use chton.Binding.Effects.{write_slot_lem, SlotStored}
use chton.Binding.Effects.Marks.{slot-marks}
use chton.Binding.Holds.Marks.{Marked-relink}
use chton.Binding.Effects.Slots.{slot-Keeps, slot-word, slot-others}
use chton.Binding.Holds.{Holds, Marked, RecordsBut, IsLeaf}
use chton.Binding.Holds.Frame.{Chain-Keeps, RecordsBut-Keeps, extent-node, extent-leaf}
use chton.Binding.Holds.Relink.{relink-maps}
use chton.Binding.Holds.Relink.{relink-ne}

-- The write of one slot of the last level, over a memory that holds the tree.
module _ ⦃t : Tagma⦄ {S : Type 0} ⦃o : Origin S⦄ {byte : S → ℕ → ℕ} (medium : IsMedium o byte)
    (b : Bound S) (T : List ℕ → ℕ) (free : List ℕ) (p : List ℕ) (i x : ℕ) (h : Holds byte b T free)
    (leaf : IsLeaf (i ∷ p)) (node : T p ≢ 0) (small : x < 2 ^ 64) where
  abbrev rss : ℕ
  rss = b.strategy.record_slot_size

  abbrev bump : ℕ
  bump = b.strategy.bump

  node_size : extent rss p ≡ node_bytes
  node_size = extent-node rss p (omega (arith, leaf.1))

  pub slot_fits : T p + node_bytes < 2 ^ 64
  slot_fits = omega (arith, h.tree.high p (IsPath-tail i p leaf.0) node, node_size, h.bump_small)

  abbrev pub stored : SlotStored medium (T p) i x b.medium
  stored = write_slot_lem medium (T p) i x b.medium leaf.0.0.0 slot_fits

  abbrev mark : ℕ
  mark = marked (byte b.medium (T p + i / 8)) i x

  pub leaf-Keeps : Keeps (byte b.medium) (byte stored.after) (T p) node_bytes
  leaf-Keeps =
      slot-Keeps (byte b.medium) (byte stored.after) (T p) i x mark leaf.0.0.0 stored.byte_after

  -- Nothing hangs below the last level.
  pub leaf-maps : (q : List ℕ) → IsPath q → resolve (byte stored.after) q ≡ relink T (i ∷ p) x q
  leaf-maps =
      relink-maps (byte b.medium) (byte stored.after) T rss bump p i x h.maps h.tree leaf.0 node
        leaf-Keeps
        (slot-word (byte b.medium) (byte stored.after) (T p) i x mark leaf.0.0.0 stored.byte_after
          small)
        (slot-others (byte b.medium) (byte stored.after) (T p) i x mark leaf.0.0.0
          stored.byte_after)
        (λ j below. absurd (omega (arith, below.1, leaf.1)))

  pub leaf-marks : Marked (byte stored.after) (relink T (i ∷ p) x)
  leaf-marks =
      Marked-relink (byte b.medium) (byte stored.after) T rss bump p i x h.marks h.tree leaf.0 node
        leaf-Keeps
        (slot-marks (byte b.medium) (byte stored.after) (T p) i x leaf.0.0.0 stored.byte_after)
        (λ j below. absurd (omega (arith, below.1, leaf.1)))

  pub leaf_longer : o.len b.medium ≤ o.len stored.after
  leaf_longer = omega (arith, stored.len_after)

  pub leaf-records :
      (vals : List ℕ → List ℕ)
      → RecordsBut (i ∷ p) (byte b.medium) (o.len b.medium) rss T vals
      → RecordsBut (i ∷ p) (byte stored.after) (o.len stored.after) rss T vals
  leaf-records vals =
      RecordsBut-Keeps (byte b.medium) (byte stored.after) (T p) node_bytes leaf-Keeps (i ∷ p)
        (o.len b.medium) (o.len stored.after) rss T vals leaf_longer
        (λ q l ne n.
          ground (
            arith,
            h.tree.apart p q (IsPath-tail i p leaf.0) l.0,
            node_size,
            extent-leaf rss q l.1,
          ))

  pub leaf-off_free : All (λ f. Apart (T p) node_bytes f rss) free
  leaf-off_free =
      subst (λ (size : ℕ). All (λ f. Apart (T p) size f rss) free) node_size
        (off_free_of T rss p free bump (IsPath-tail i p leaf.0) node h.spare)

  abbrev pub linked : Bound S
  linked = record b { medium = stored.after }

  pub attach-returns :
      (slot : Slot)
      → slot.leaf_node ≡ T p
      → slot.leaf_index ≡ i
      → write_leaf slot x b ≡ done tt linked
  unfolding write_leaf
  attach-returns slot e e' = ground (arith, stored.returns)

  pub attach-Holds : Loose T free bump rss x rss → Holds byte linked (relink T (i ∷ p) x) free
  attach-Holds loose =
      let size : extent rss (i ∷ p) ≡ rss = extent-leaf rss (i ∷ p) leaf.1 in
      let loose' = subst (λ (n : ℕ). Loose T free bump rss x n) (sym size) loose in
      record {
        node_size = h.node_size;
        slot_size = h.slot_size;
        bump_small = h.bump_small;
        maps = leaf-maps;
        marks = leaf-marks;
        tree = attach-TreeFits T rss (i ∷ p) x bump free loose' h.tree;
        spare = attach-FreeFits T rss (i ∷ p) x bump free loose'.off_free h.spare;
        chain =
            Chain-Keeps (byte b.medium) (byte stored.after) (T p) node_bytes leaf-Keeps
              (o.len b.medium) (o.len stored.after) rss b.strategy.free_head free leaf_longer
              h.slot_size leaf-off_free h.chain;
        covered = λ q v ne short n.
            let other : q ≢ i ∷ p =
              λ e. absurd (omega (arith, leaf.1, ap (λ (l : List ℕ). length l) e)) in
            ground (arith, leaf_longer, h.covered q v ne short, relink-ne T (i ∷ p) q x other);
      }
