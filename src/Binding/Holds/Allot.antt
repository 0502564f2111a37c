-- ===== src/Binding/Holds/Allot.antt =====
-- `alloc_record` hands out a region that nothing else uses: a freed record, or the bump area.
use chton.Prelude.{ℕ, ◌+◌, ◌^◌, ◌≤◌, ◌<◌, ◌≡◌, inr, List, [], ◌∷◌}
use chton.Prelude.{arith, refl}
use chton.Prelude.Outcome.{done}
use chton.Prelude.Word.{word}
use chton.Tagma.{Tagma}
use chton.Origin.{Origin}
use chton.Origin.Laws.{IsMedium}
use chton.Binding.{Bound, TreeStrategy, node_bytes, root_offset}
use chton.Binding.Alloc.{alloc_record, advance}
use chton.Binding.Shape.{resolve}
use chton.Binding.Regions.{Loose}
use chton.Binding.Regions.Changes.{TreeFits-grow, fresh-Loose}
use chton.Binding.Effects.{read_slot_lem}
use chton.Binding.Holds.{Holds}
use chton.Binding.Holds.Frame.{extent-node}

module _ ⦃t : Tagma⦄ {S : Type 0} ⦃o : Origin S⦄ (byte : S → ℕ → ℕ) where
  pub record Allotted (b : Bound S) (T : List ℕ → ℕ) : Type 0 where
    pub strategy : TreeStrategy
    pub rest : List ℕ
    pub x : ℕ
    pub returns : alloc_record b ≡ done x (record { strategy = strategy; medium = b.medium })
    pub holds : Holds byte (record { strategy = strategy; medium = b.medium }) T rest
    pub loose : Loose T rest strategy.bump strategy.record_slot_size x strategy.record_slot_size
    pub same_size : strategy.record_slot_size ≡ b.strategy.record_slot_size
    pub space_used : strategy.bump ≤ b.strategy.bump + b.strategy.record_slot_size

module _ ⦃t : Tagma⦄ {S : Type 0} ⦃o : Origin S⦄ {byte : S → ℕ → ℕ} (medium : IsMedium o byte)
    (b : Bound S) (T : List ℕ → ℕ) where
  -- The bump pointer stands past the header and the root.
  pub bump-past_root :
      (free : List ℕ)
      → 0 < t.depth
      → Holds byte b T free
      → root_offset + node_bytes ≤ b.strategy.bump
  unfolding resolve
  bump-past_root free pos h = ground (
    arith,
    h.maps [] (tt, omega arith),
    h.tree.high [] (tt, omega arith),
    extent-node b.strategy.record_slot_size [] pos,
  )

  abbrev rss : ℕ
  rss = b.strategy.record_slot_size

  abbrev top : ℕ
  top = b.strategy.bump + rss

  allot_bump : 0 < t.depth → Holds byte b T [] → top < 2 ^ 64 → Allotted byte b T
  unfolding alloc_record advance
  allot_bump pos h space = record {
    strategy = record b.strategy { bump = top };
    rest = [];
    x = b.strategy.bump;
    returns = ground (arith, h.chain);
    holds = record {
      node_size = h.node_size;
      slot_size = h.slot_size;
      bump_small = space;
      maps = h.maps;
      marks = h.marks;
      tree = TreeFits-grow T rss b.strategy.bump top (omega arith) h.tree;
      spare = tt;
      chain = h.chain;
      covered = h.covered;
    };
    loose =
        fresh-Loose T rss [] b.strategy.bump rss (omega (arith, bump-past_root [] pos h)) h.tree tt;
    same_size = refl;
    space_used = omega arith;
  }

  allot_free : (f : ℕ) (fs : List ℕ) → Holds byte b T (f ∷ fs) → Allotted byte b T
  unfolding alloc_record
  allot_free f fs h =
      let next = word (byte b.medium) f in
      let (e, fits, chain) = h.chain in
      let (loose, spare) = h.spare in
      let read = read_slot_lem medium b.medium f (inr fits) in
      record {
        strategy = record b.strategy { free_head = next };
        rest = fs;
        x = f;
        returns = ground (arith, e, fits, read, loose.low);
        holds = record {
          node_size = h.node_size;
          slot_size = h.slot_size;
          bump_small = h.bump_small;
          maps = h.maps;
          marks = h.marks;
          tree = h.tree;
          spare = spare;
          chain = chain;
          covered = h.covered;
        };
        loose = loose;
        same_size = refl;
        space_used = omega arith;
      }

  pub allot : (free : List ℕ) → 0 < t.depth → Holds byte b T free → top < 2 ^ 64 → Allotted byte b T
  allot [] pos h space = allot_bump pos h space
  allot (f ∷ fs) pos h space = allot_free f fs h
