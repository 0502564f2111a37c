-- ===== src/Binding/Holds/Grow.antt =====
-- A missing node is made: zeroed at the bump pointer, and linked from its parent.
use chton.Prelude.{
  ℕ, ◌+◌, ◌-◌, ◌/◌, ◌^◌, ◌≤◌, ◌<◌, ◌≡◌, ◌≢◌, inl, inr, List, [], ◌∷◌, length, replicate,
}
use chton.Prelude.{arith, refl, subst, sym, ◌∙◌, All, length-replicate, get_or-replicate}
use chton.Prelude.Outcome.{done}
use chton.Prelude.Bytes.{patch}
use chton.Prelude.Word.{word, Keeps, Apart, word-Keeps, word-zero, patch-Keeps}
use chton.Tagma.{Tagma}
use chton.Origin.{Origin}
use chton.Origin.Laws.{IsMedium, Written}
use chton.Binding.{Bound, bitmap_bytes, node_bytes, root_offset}
use chton.Binding.Alloc.{descend, alloc_node, advance}
use chton.Binding.Shape.{IsPath, resolve, slot_of, relink, extent}
use chton.Binding.Shape.Link.{IsPath-tail}
use chton.Binding.Holds.Relink.{relink-maps}
use chton.Binding.Regions.{TreeFits, Loose, FreeFits}
use chton.Binding.Regions.Changes.{
  TreeFits-grow, FreeFits-grow, fresh-Loose, off_free_of, attach-TreeFits, attach-FreeFits,
}
use chton.Binding.Effects.{write_slot_lem, SlotStored}
use chton.Binding.Write.{marked}
use chton.Prelude.{◌%◌, ap, ◌==◌, if◌then◌else◌}
use chton.Prelude.Bits.{bit_at, bit_at_zero}
use chton.Binding.Effects.Marks.{mark_of, slot-marks}
use chton.Binding.Holds.Marks.{Marked-Keeps, Marked-relink}
use chton.Binding.Effects.Slots.{slot-Keeps, slot-word, slot-others}
use chton.Binding.Holds.{Holds, Marked, Chain, RecordsBut}
use chton.Binding.Holds.Frame.{
  Chain-Keeps, resolve-Keeps, RecordsBut-Keeps, extent-node, extent-leaf,
}

zero-Keeps :
    (m z : ℕ → ℕ) (bump size : ℕ)
    → ((x : ℕ) → z x ≡ patch m bump (replicate size 0) x)
    → Keeps m z bump size
zero-Keeps m z bump size zeroed =
    subst (λ (n : ℕ). Keeps m z bump n) (length-replicate size 0)
      (patch-Keeps m z bump (replicate size 0) zeroed)

-- Zeros over a fresh area, and then one slot of another node.
module _ ⦃t : Tagma⦄ (m z k : ℕ → ℕ) (T : List ℕ → ℕ) (rss bump : ℕ) (p : List ℕ) (i : ℕ)
    (maps : (q : List ℕ) → IsPath q → resolve m q ≡ T q) (tree : TreeFits T bump rss)
    (here : IsPath (i ∷ p)) (node : T p ≢ 0) (absent : T (i ∷ p) ≡ 0)
    (zeroed : (x : ℕ) → z x ≡ patch m bump (replicate node_bytes 0) x)
    (kept : Keeps z k (T p) node_bytes) (stored : word k (slot_of (T p) i) ≡ bump)
    (others : (j : ℕ) → j ≢ i → word k (slot_of (T p) j) ≡ word z (slot_of (T p) j)) where
  node-below : (q : List ℕ) → IsPath q → length q < t.depth → T q ≢ 0 → T q + node_bytes ≤ bump
  node-below q h short n = omega (arith, tree.high q h n, extent-node rss q short)

  zero-maps : (q : List ℕ) → IsPath q → resolve z q ≡ T q
  zero-maps =
      resolve-Keeps m z bump node_bytes (zero-Keeps m z bump node_bytes zeroed) T maps
        (λ q h short n. inr (node-below q h short n))

  fresh_empty : (j : ℕ) → IsPath (j ∷ i ∷ p) → word k (slot_of bump j) ≡ 0
  unfolding node_bytes bitmap_bytes
  fresh_empty j h =
      let below = node-below p (IsPath-tail i p here) (omega (arith, here.1)) node in
      word-Keeps z k (T p) node_bytes (slot_of bump j) kept (inl (omega arith))
      ∙ word-zero z (slot_of bump j) (λ x lo hi. ground (
        arith,
        h.0.0,
        zeroed x,
        length-replicate {A = ℕ} node_bytes 0,
        get_or-replicate {A = ℕ} node_bytes 0 (x - bump),
      ))

  pub grow-maps : (q : List ℕ) → IsPath q → resolve k q ≡ relink T (i ∷ p) bump q
  grow-maps =
      relink-maps z k T rss bump p i bump zero-maps tree here node kept stored others
        (λ j h. (absent, λ _. fresh_empty j h))

  -- The bitmap of the new node is clear.
  fresh_clear : (j : ℕ) → IsPath (j ∷ i ∷ p) → bit_at (k (bump + j / 8)) (j % 8) ≡ 0
  unfolding node_bytes bitmap_bytes
  fresh_clear j h =
      let below = node-below p (IsPath-tail i p here) (omega (arith, here.1)) node in
      let same : k (bump + j / 8) ≡ z (bump + j / 8) = kept (bump + j / 8) (inr (omega arith)) in
      let zero : z (bump + j / 8) ≡ 0 = ground (
        arith,
        h.0.0,
        zeroed (bump + j / 8),
        length-replicate {A = ℕ} node_bytes 0,
        get_or-replicate {A = ℕ} node_bytes 0 (j / 8),
      ) in
      ap (λ (b : ℕ). bit_at b (j % 8)) (same ∙ zero) ∙ bit_at_zero (j % 8)

  nothing_below : (j : ℕ) → IsPath (j ∷ i ∷ p) → T (j ∷ i ∷ p) ≡ 0
  unfolding resolve
  nothing_below j h = ground (arith, maps (j ∷ i ∷ p) h, maps (i ∷ p) here, absent)

  pub grow-marks :
      Marked m T
      → ((j : ℕ)
          → j < t.n_valid
          → bit_at (k (T p + j / 8)) (j % 8)
            ≡ (if j == i then mark_of bump else bit_at (z (T p + j / 8)) (j % 8)))
      → Marked k (relink T (i ∷ p) bump)
  grow-marks marks written =
      Marked-relink z k T rss bump p i bump
        (Marked-Keeps m z bump node_bytes (zero-Keeps m z bump node_bytes zeroed) T
          (λ q h short n. inr (node-below q h short n)) marks)
        tree here node kept written (λ j h. (nothing_below j h, λ _. fresh_clear j h))

-- The child was made at the bump pointer, and the records are as before.
module _ ⦃t : Tagma⦄ {S : Type 0} ⦃o : Origin S⦄ (byte : S → ℕ → ℕ) where
  pub record Grown (b : Bound S) (T : List ℕ → ℕ) (free : List ℕ) (vals : List ℕ → List ℕ)
      (p : List ℕ) (i : ℕ) : Type 0 where
    pub after : Bound S
    pub returns : descend (T p) i 0 b ≡ done b.strategy.bump after
    pub strategy_after :
        after.strategy ≡ record b.strategy { bump = b.strategy.bump + b.strategy.node_size }
    pub holds : Holds byte after (relink T (i ∷ p) b.strategy.bump) free
    pub root : root_offset + node_bytes ≤ o.len after.medium
    pub records :
        RecordsBut [] (byte after.medium) (o.len after.medium) b.strategy.record_slot_size T vals

module _ ⦃t : Tagma⦄ {S : Type 0} ⦃o : Origin S⦄ {byte : S → ℕ → ℕ} (medium : IsMedium o byte)
    (b : Bound S) (T : List ℕ → ℕ) (free : List ℕ) (vals : List ℕ → List ℕ) (p : List ℕ) (i : ℕ)
    (h : Holds byte b T free)
    (rs : RecordsBut [] (byte b.medium) (o.len b.medium) b.strategy.record_slot_size T vals)
    (here : IsPath (i ∷ p)) (short : length p + 1 < t.depth) (node : T p ≢ 0)
    (absent : T (i ∷ p) ≡ 0) (space : b.strategy.bump + node_bytes < 2 ^ 64) where
  abbrev bump : ℕ
  bump = b.strategy.bump

  abbrev rss : ℕ
  rss = b.strategy.record_slot_size

  abbrev top : ℕ
  top = bump + node_bytes

  width : length (replicate {A = ℕ} node_bytes 0) ≡ node_bytes
  width = length-replicate {A = ℕ} node_bytes 0

  parent_below : T p + node_bytes ≤ bump
  parent_below =
      omega (arith, h.tree.high p (IsPath-tail i p here) node, extent-node rss p (omega arith))

  first_fits : bump + length (replicate {A = ℕ} node_bytes 0) < 2 ^ 64
  first_fits = omega (arith, width)

  second_fits : T p + node_bytes < 2 ^ 64
  second_fits = omega (arith, parent_below)

  abbrev first : Written o byte bump (replicate node_bytes 0) b.medium
  first = medium.writes b.medium bump (replicate node_bytes 0) first_fits

  abbrev second : SlotStored medium (T p) i bump first.after
  second = write_slot_lem medium (T p) i bump first.after here.0.0 second_fits

  abbrev mark : ℕ
  mark = marked (byte first.after (T p + i / 8)) i bump

  abbrev grown : Bound S
  grown = record {
    strategy = record b.strategy { bump = bump + b.strategy.node_size };
    medium = second.after;
  }

  fresh : Keeps (byte b.medium) (byte first.after) bump node_bytes
  fresh = zero-Keeps (byte b.medium) (byte first.after) bump node_bytes first.byte_after

  kept : Keeps (byte first.after) (byte second.after) (T p) node_bytes
  kept =
      slot-Keeps (byte first.after) (byte second.after) (T p) i bump mark here.0.0 second.byte_after

  longer : (o.len b.medium ≤ o.len second.after) × (top ≤ o.len second.after)
  longer = omega (arith, first.len_after, second.len_after, width)

  advance_returns :
      advance (λ area. area.node_size) b
      ≡ done bump (record b { strategy = record b.strategy { bump = bump + b.strategy.node_size } })
  unfolding advance
  advance_returns = ground (arith, h.node_size)

  alloc_returns :
      alloc_node b
      ≡ done bump (record {
        strategy = record b.strategy { bump = bump + b.strategy.node_size };
        medium = first.after;
      })
  unfolding alloc_node
  alloc_returns = ground (arith, advance_returns, h.node_size, first.returns)

  grow_returns : descend (T p) i 0 b ≡ done bump grown
  unfolding descend
  grow_returns = ground (arith, alloc_returns, second.returns)

  root_below : root_offset + node_bytes ≤ bump
  unfolding resolve
  root_below = ground (
    arith,
    h.maps [] (tt, omega arith),
    h.tree.high [] (tt, omega arith),
    extent-node rss [] (omega arith),
  )

  grow-Loose : Loose T free top rss bump (extent rss (i ∷ p))
  grow-Loose =
      subst (λ (size : ℕ). Loose T free top rss bump size)
        (sym (extent-node rss (i ∷ p) (omega arith)))
        (fresh-Loose T rss free bump node_bytes (omega (arith, root_below)) h.tree h.spare)

  off_fresh : All (λ f. Apart bump node_bytes f rss) free
  off_fresh =
      (fresh-Loose T rss free bump node_bytes (omega (arith, root_below)) h.tree h.spare).off_free

  off_parent : All (λ f. Apart (T p) node_bytes f rss) free
  off_parent =
      subst (λ (size : ℕ). All (λ f. Apart (T p) size f rss) free) (extent-node rss p (omega arith))
        (off_free_of T rss p free bump (IsPath-tail i p here) node h.spare)

  grow-Chain : Chain (byte second.after) (o.len second.after) b.strategy.free_head free
  grow-Chain =
      Chain-Keeps (byte first.after) (byte second.after) (T p) node_bytes kept (o.len first.after)
        (o.len second.after) rss b.strategy.free_head free (omega (arith, second.len_after))
        h.slot_size off_parent
        (Chain-Keeps (byte b.medium) (byte first.after) bump node_bytes fresh (o.len b.medium)
          (o.len first.after) rss b.strategy.free_head free (omega (arith, first.len_after))
          h.slot_size off_fresh h.chain)

  grow_records : RecordsBut [] (byte second.after) (o.len second.after) rss T vals
  grow_records =
      RecordsBut-Keeps (byte first.after) (byte second.after) (T p) node_bytes kept []
        (o.len first.after) (o.len second.after) rss T vals (omega (arith, second.len_after))
        (λ q leaf ne n. ground (
          arith,
          h.tree.apart p q (IsPath-tail i p here) leaf.0,
          extent-node rss p (omega arith),
          extent-leaf rss q leaf.1,
        ))
        (RecordsBut-Keeps (byte b.medium) (byte first.after) bump node_bytes fresh []
          (o.len b.medium) (o.len first.after) rss T vals (omega (arith, first.len_after))
          (λ q leaf ne n. inr (omega (arith, h.tree.high q leaf.0 n, extent-leaf rss q leaf.1))) rs)

  grow_holds : Holds byte grown (relink T (i ∷ p) bump) free
  grow_holds = record {
    node_size = h.node_size;
    slot_size = h.slot_size;
    bump_small = omega (arith, h.node_size);
    maps =
        grow-maps (byte b.medium) (byte first.after) (byte second.after) T rss bump p i h.maps
          h.tree here node absent first.byte_after kept
          (slot-word (byte first.after) (byte second.after) (T p) i bump mark here.0.0
            second.byte_after h.bump_small)
          (slot-others (byte first.after) (byte second.after) (T p) i bump mark here.0.0
            second.byte_after);
    marks =
        grow-marks (byte b.medium) (byte first.after) (byte second.after) T rss bump p i h.maps
          h.tree here node absent first.byte_after kept
          (slot-word (byte first.after) (byte second.after) (T p) i bump mark here.0.0
            second.byte_after h.bump_small)
          (slot-others (byte first.after) (byte second.after) (T p) i bump mark here.0.0
            second.byte_after)
          h.marks
          (slot-marks (byte first.after) (byte second.after) (T p) i bump here.0.0
            second.byte_after);
    tree =
        subst (λ (n : ℕ). TreeFits (relink T (i ∷ p) bump) (bump + n) rss) (sym h.node_size)
          (attach-TreeFits T rss (i ∷ p) bump top free grow-Loose
            (TreeFits-grow T rss bump top (omega arith) h.tree));
    spare =
        subst (λ (n : ℕ). FreeFits (relink T (i ∷ p) bump) free (bump + n) rss) (sym h.node_size)
          (attach-FreeFits T rss (i ∷ p) bump top free grow-Loose.off_free
            (FreeFits-grow T rss free bump top (omega arith) h.spare));
    chain = grow-Chain;
    covered = λ q v ne sh n. ground (arith, longer, h.covered q v ne sh);
  }

  pub grow : Grown byte b T free vals p i
  grow = record {
    after = grown;
    returns = grow_returns;
    strategy_after = refl;
    holds = grow_holds;
    root = omega (arith, longer, root_below);
    records = grow_records;
  }
