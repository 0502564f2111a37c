-- ===== src/Binding/Holds/Front.antt =====
-- A write inside the header changes nothing of the tree, the free list and the records.
use chton.Prelude.{ℕ, ◌^◌, ◌<◌, ◌≡◌, ◌⊎◌, inl, inr, max, List, [], ◌∷◌, All}
use chton.Prelude.{arith}
use chton.Prelude.Word.{Keeps, Apart}
use chton.Tagma.{Tagma}
use chton.Origin.{Origin}
use chton.Binding.{Bound, root_offset}
use chton.Binding.Regions.{FreeFits}
use chton.Binding.Holds.{Ready, RootReady, Chain}
use chton.Binding.Holds.Marks.{Marked-Keeps}
use chton.Binding.Holds.Frame.{Chain-Keeps, RecordsBut-Keeps, resolve-Keeps}

-- The head of the free list is a word and, if there is one, inside the medium.
pub head-inside :
    (m : ℕ → ℕ) (len head : ℕ) (free : List ℕ) → Chain m len head free → (head ≡ 0) ⊎ (head < len)
head-inside m len head [] c = inl c
head-inside m len head (f ∷ fs) c = inr (omega (arith, c.0, c.1))

module _ ⦃t : Tagma⦄ {S : Type 0} ⦃o : Origin S⦄ {byte : S → ℕ → ℕ} (b : Bound S) (T : List ℕ → ℕ)
    (free : List ℕ) (vals : List ℕ → List ℕ) (r : Ready byte b T free vals) where
  pub head-small : b.strategy.free_head < 2 ^ 64
  head-small = below free r.holds.chain r.holds.spare
    where
      below :
          (fs : List ℕ)
          → Chain (byte b.medium) (o.len b.medium) b.strategy.free_head fs
          → FreeFits T fs b.strategy.bump b.strategy.record_slot_size
          → b.strategy.free_head < 2 ^ 64
      below [] c f = omega (arith, c)
      below (g ∷ fs) c f = omega (arith, c.0, f.0.high, r.holds.bump_small, r.holds.slot_size)

  module _ (s' : S) (count : ℕ) (kept : Keeps (byte b.medium) (byte s') 0 root_offset)
      (grown : o.len s' ≡ max (o.len b.medium) root_offset) where
    abbrev rss : ℕ
    rss = b.strategy.record_slot_size

    free_behind :
        (fs : List ℕ) → FreeFits T fs b.strategy.bump rss → All (λ f. Apart 0 root_offset f rss) fs
    free_behind [] f = tt
    free_behind (g ∷ fs) (l, rest) = (inl l.low, free_behind fs rest)

    root : RootReady (o.len b.medium) → RootReady (o.len s')
    root (inl h) = inl (omega arith)
    root (inr h) = inr (omega arith)

    pub front-Ready :
        Ready byte
          (record { strategy = record b.strategy { record_count = count }; medium = s' })
          T
          free
          vals
    front-Ready = record {
      holds = record {
        node_size = r.holds.node_size;
        slot_size = r.holds.slot_size;
        bump_small = r.holds.bump_small;
        maps =
            resolve-Keeps (byte b.medium) (byte s') 0 root_offset kept T r.holds.maps
              (λ q v short n. inl (r.holds.tree.low q v n));
        marks =
            Marked-Keeps (byte b.medium) (byte s') 0 root_offset kept T
              (λ q v short n. inl (r.holds.tree.low q v n)) r.holds.marks;
        tree = r.holds.tree;
        spare = r.holds.spare;
        chain =
            Chain-Keeps (byte b.medium) (byte s') 0 root_offset kept (o.len b.medium) (o.len s') rss
              b.strategy.free_head free (omega arith) r.holds.slot_size
              (free_behind free r.holds.spare) r.holds.chain;
        covered = λ q v ne short n. omega (arith, r.holds.covered q v ne short n);
      };
      root = root r.root;
      records =
          RecordsBut-Keeps (byte b.medium) (byte s') 0 root_offset kept [] (o.len b.medium)
            (o.len s') rss T vals (omega arith) (λ q l ne n. inl (r.holds.tree.low q l.0 n))
            r.records;
    }
