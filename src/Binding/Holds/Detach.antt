-- ===== src/Binding/Holds/Detach.antt =====
-- `free_record` and `write_leaf` with 0: a record leaves the tree and heads the free list.
use chton.Prelude.{ℕ, ◌+◌, ◌^◌, ◌≤◌, ◌<◌, ◌≡◌, ◌≢◌, inr, List, [], ◌∷◌, length}
use chton.Prelude.{arith, refl, ap, sym, subst, ◌∙◌}
use chton.Prelude.Outcome.{done}
use chton.Prelude.Bytes.{to_le, length-to_le}
use chton.Prelude.Word.{word, Keeps, Apart, patch-Keeps, word-Keeps, word-patch_self}
use chton.Tagma.{Tagma}
use chton.Origin.{Origin}
use chton.Origin.Laws.{IsMedium, Written}
use chton.Binding.{Bound, Slot, node_bytes, root_offset}
use chton.Binding.Write.{write_u64}
use chton.Binding.Alloc.{free_record, write_leaf}
use chton.Binding.Shape.{resolve, relink}
use chton.Binding.Shape.Link.{IsPath-tail}
use chton.Binding.Regions.{FreeFits}
use chton.Binding.Regions.Changes.{detach-TreeFits, detach-FreeFits}
use chton.Binding.Holds.{Holds, Ready, RecordsBut, RecordAt, IsLeaf, Chain}
use chton.Binding.Holds.Frame.{Chain-Keeps, extent-node, extent-leaf}
use chton.Binding.Holds.Touch.{touch-Holds, touch-records}
use chton.Binding.Holds.Attach.{
  stored, leaf-marks, leaf-maps, leaf-Keeps, leaf-records, leaf-off_free, leaf_longer,
}
use chton.Binding.Holds.Relink.{relink-ne, relink_self}

module _ ⦃t : Tagma⦄ {S : Type 0} ⦃o : Origin S⦄ (byte : S → ℕ → ℕ) where
  -- The calls returned, and the store is ready again, without the record.
  pub record Detached (b : Bound S) (T : List ℕ → ℕ) (free : List ℕ) (vals : List ℕ → List ℕ)
      (p : List ℕ) (i : ℕ) : Type 0 where
    pub between : Bound S
    pub after : Bound S
    pub frees : free_record (T (i ∷ p)) b ≡ done tt between
    pub cuts :
        (slot : Slot)
        → slot.leaf_node ≡ T p
        → slot.leaf_index ≡ i
        → write_leaf slot 0 between ≡ done tt after
    pub ready : Ready byte after (relink T (i ∷ p) 0) (T (i ∷ p) ∷ free) vals
    pub same_size : after.strategy.record_slot_size ≡ b.strategy.record_slot_size
    pub same_bump : after.strategy.bump ≡ b.strategy.bump

zero_small : 0 < 2 ^ 64
zero_small = omega arith

module _ ⦃t : Tagma⦄ {S : Type 0} ⦃o : Origin S⦄ {byte : S → ℕ → ℕ} (medium : IsMedium o byte)
    (b : Bound S) (T : List ℕ → ℕ) (free : List ℕ) (vals : List ℕ → List ℕ) (p : List ℕ) (i : ℕ)
    (r : Ready byte b T free vals) (leaf : IsLeaf (i ∷ p)) (node : T p ≢ 0)
    (present : T (i ∷ p) ≢ 0) where
  abbrev h : Holds byte b T free
  h = r.holds

  abbrev x : ℕ
  x = T (i ∷ p)

  abbrev rss : ℕ
  rss = b.strategy.record_slot_size

  abbrev head : ℕ
  head = b.strategy.free_head

  head_small :
      (fs : List ℕ)
      → Chain (byte b.medium) (o.len b.medium) head fs
      → FreeFits T fs b.strategy.bump rss
      → head < 2 ^ 64
  head_small [] c f = omega (arith, c)
  head_small (g ∷ fs) c f = omega (arith, c.0, f.0.high, h.bump_small)

  record_fits : x + rss < 2 ^ 64
  record_fits =
      omega
        (arith, h.tree.high (i ∷ p) leaf.0 present, extent-leaf rss (i ∷ p) leaf.1, h.bump_small)

  width : length (to_le 8 head) ≡ 8
  width = length-to_le 8 head

  abbrev first : Written o byte x (to_le 8 head) b.medium
  first = medium.writes b.medium x (to_le 8 head) (omega (arith, width, record_fits, h.slot_size))

  -- The medium after `free_record`, under the strategy as it was before.
  abbrev lapsed : Bound S
  lapsed = record b { medium = first.after }

  kept : Keeps (byte b.medium) (byte first.after) x 8
  kept =
      subst (λ (n : ℕ). Keeps (byte b.medium) (byte first.after) x n) width
        (patch-Keeps (byte b.medium) (byte first.after) x (to_le 8 head) first.byte_after)

  link-word : word (byte first.after) x ≡ head
  link-word =
      word-patch_self (byte b.medium) (byte first.after) x head (head_small free h.chain h.spare)
        first.byte_after

  lapsed-Holds : Holds byte lapsed T free
  lapsed-Holds =
      touch-Holds b T free (i ∷ p) first.after x 8 h leaf present (omega arith)
        (omega (arith, h.slot_size)) kept (omega (arith, first.len_after))

  lapsed-records : RecordsBut (i ∷ p) (byte first.after) (o.len first.after) rss T vals
  lapsed-records =
      touch-records b T free (i ∷ p) first.after x 8 h leaf present (omega arith)
        (omega (arith, h.slot_size)) kept (omega (arith, first.len_after)) vals
        λ q l ne n.
          r.records q l (λ e. absurd (omega (arith, l.1, leaf.1, ap (λ (k : List ℕ). length k) e)))
            n

  abbrev freed : Bound S
  freed = record { strategy = record b.strategy { free_head = x }; medium = first.after }

  free_record-returns : free_record x b ≡ done tt freed
  unfolding free_record write_u64
  free_record-returns = ground (arith, first.returns)

  abbrev cut : S
  cut = (stored medium lapsed T free p i 0 lapsed-Holds leaf node zero_small).after

  abbrev detached : Bound S
  detached = record { strategy = record b.strategy { free_head = x }; medium = cut }

  cut_longer : o.len first.after ≤ o.len cut
  cut_longer = leaf_longer medium lapsed T free p i 0 lapsed-Holds leaf node zero_small

  cut-Keeps : Keeps (byte first.after) (byte cut) (T p) node_bytes
  cut-Keeps = leaf-Keeps medium lapsed T free p i 0 lapsed-Holds leaf node zero_small

  node_short : length p < t.depth
  node_short = omega (arith, leaf.1)

  -- The node of the slot does not meet the record.
  off_record : Apart (T p) node_bytes x 8
  off_record = ground (
    arith,
    h.tree.apart p (i ∷ p) (IsPath-tail i p leaf.0) leaf.0
        (λ e. omega (arith, ap (λ (k : List ℕ). length k) e)) node present,
    extent-node rss p node_short,
    extent-leaf rss (i ∷ p) leaf.1,
    h.slot_size,
  )

  cut-Chain : Chain (byte cut) (o.len cut) x (x ∷ free)
  cut-Chain =
      let same : word (byte cut) x ≡ head =
        word-Keeps (byte first.after) (byte cut) (T p) node_bytes x cut-Keeps off_record
        ∙ link-word in
      (
        refl,
        omega (arith, cut_longer, first.len_after, width),
        subst (λ (y : ℕ). Chain (byte cut) (o.len cut) y free) (sym same)
            (Chain-Keeps (byte first.after) (byte cut) (T p) node_bytes cut-Keeps
              (o.len first.after) (o.len cut) rss head free cut_longer h.slot_size
              (leaf-off_free medium lapsed T free p i 0 lapsed-Holds leaf node zero_small)
              lapsed-Holds.chain),
      )

  -- A record lies past the root.
  root_covered : root_offset + node_bytes ≤ o.len cut
  unfolding resolve
  root_covered = ground (
    arith,
    h.maps [] (tt, omega arith),
    h.tree.apart [] (i ∷ p) (tt, omega arith) leaf.0 (λ e. cc),
    h.tree.low (i ∷ p) leaf.0 present,
    present,
    h.slot_size,
    extent-node rss [] (omega (arith, leaf.1)),
    extent-leaf rss (i ∷ p) leaf.1,
    cut_longer,
    first.len_after,
    width,
  )

  cut-Holds : Holds byte detached (relink T (i ∷ p) 0) (x ∷ free)
  cut-Holds = record {
    node_size = h.node_size;
    slot_size = h.slot_size;
    bump_small = h.bump_small;
    maps = leaf-maps medium lapsed T free p i 0 lapsed-Holds leaf node zero_small;
    marks = leaf-marks medium lapsed T free p i 0 lapsed-Holds leaf node zero_small;
    tree = detach-TreeFits T rss (i ∷ p) b.strategy.bump h.tree;
    spare =
        detach-FreeFits T rss (i ∷ p) b.strategy.bump free leaf.0 present
          (extent-leaf rss (i ∷ p) leaf.1) h.tree h.spare;
    chain = cut-Chain;
    covered = λ q v ne short n.
        let other : q ≢ i ∷ p =
          λ e. absurd (omega (arith, leaf.1, ap (λ (l : List ℕ). length l) e)) in
        ground
          (arith, cut_longer, lapsed-Holds.covered q v ne short, relink-ne T (i ∷ p) q 0 other);
  }

  cut-records : RecordsBut [] (byte cut) (o.len cut) rss (relink T (i ∷ p) 0) vals
  cut-records q l ne n =
      let other : q ≢ i ∷ p = λ e. n (ap (relink T (i ∷ p) 0) e ∙ relink_self T (i ∷ p) 0) in
      let same : relink T (i ∷ p) 0 q ≡ T q = relink-ne T (i ∷ p) q 0 other in
      subst (λ (y : ℕ). RecordAt (byte cut) (o.len cut) rss y (vals q)) (sym same)
        (leaf-records medium lapsed T free p i 0 lapsed-Holds leaf node zero_small vals
          lapsed-records q l other (λ e. n (same ∙ e)))

  pub detach : Detached byte b T free vals p i
  unfolding write_leaf
  detach = record {
    between = freed;
    after = detached;
    frees = free_record-returns;
    cuts = λ slot e e'.
        ground
          (arith, (stored medium lapsed T free p i 0 lapsed-Holds leaf node zero_small).returns);
    ready = record { holds = cut-Holds; root = inr root_covered; records = cut-records };
    same_size = refl;
    same_bump = refl;
  }
