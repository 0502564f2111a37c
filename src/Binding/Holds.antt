-- ===== src/Binding/Holds.antt =====
-- The invariant of a strategy and its origin: the memory holds the tree `T` and the free list
-- `free`, and each record the value that `vals` gives for its path.
pub mod Frame
pub mod Relink
pub mod Locate
pub mod Create
pub mod Allot
pub mod Attach
pub mod Touch
pub mod Detach
pub mod Front
pub mod Grow
pub mod Marks
use chton.Prelude.{ℕ, ◌+◌, ◌^◌, ◌≤◌, ◌<◌, ◌≡◌, ◌≢◌, ◌⊎◌, List, [], ◌∷◌, length}
use chton.Prelude.{◌/◌, ◌%◌}
use chton.Prelude.Bits.{bit_at}
use chton.Binding.Effects.Marks.{mark_of}
use chton.Prelude.Word.{word}
use chton.Prelude.Bytes.{bytes_at}
use chton.Tagma.{Tagma}
use chton.Origin.{Origin}
use chton.Binding.{Bound, bitmap_bytes, node_bytes, root_offset}
use chton.Binding.Shape.{IsPath, resolve}
use chton.Binding.Regions.{TreeFits, FreeFits}

-- The list of freed records, linked through their first words.
abbrev pub Chain : (ℕ → ℕ) → ℕ → ℕ → List ℕ → Type 0
Chain m len head [] = head ≡ 0
Chain m len head (f ∷ fs) = (head ≡ f) × (f + 8 ≤ len) × Chain m len (word m f) fs

-- A record with the value `v`.
pub record RecordAt (m : ℕ → ℕ) (len rss x : ℕ) (v : List ℕ) : Type 0 where
  pub exists : x + 8 + length v ≤ len
  pub room : 8 + length v ≤ rss
  pub prefix : word m x ≡ length v
  pub payload : bytes_at m (x + 8) (length v) ≡ v

module _ ⦃t : Tagma⦄ where
  abbrev pub IsLeaf : List ℕ → Type 0
  IsLeaf q = IsPath q × (length q ≡ t.depth)

  -- The records of all paths but one.
  abbrev pub RecordsBut : List ℕ → (ℕ → ℕ) → ℕ → ℕ → (List ℕ → ℕ) → (List ℕ → List ℕ) → Type 0
  RecordsBut p m len rss T vals =
      (q : List ℕ) → IsLeaf q → q ≢ p → T q ≢ 0 → RecordAt m len rss (T q) (vals q)

  -- The slots of the root are read as a whole or not at all.
  abbrev pub RootReady : ℕ → Type 0
  RootReady len = (len ≤ root_offset) ⊎ (root_offset + node_bytes ≤ len)

  -- The bit of a slot is set exactly if the slot holds something.
  abbrev pub Marked : (ℕ → ℕ) → (List ℕ → ℕ) → Type 0
  Marked m T =
      (q : List ℕ) (i : ℕ)
      → IsPath (i ∷ q)
      → T q ≢ 0
      → bit_at (m (T q + i / 8)) (i % 8) ≡ mark_of (T (i ∷ q))

  module _ {S : Type 0} ⦃o : Origin S⦄ (byte : S → ℕ → ℕ) where
    pub record Holds (b : Bound S) (T : List ℕ → ℕ) (free : List ℕ) : Type 0 where
      pub node_size : b.strategy.node_size ≡ node_bytes
      pub slot_size : 8 ≤ b.strategy.record_slot_size
      pub bump_small : b.strategy.bump < 2 ^ 64
      pub maps : (q : List ℕ) → IsPath q → resolve (byte b.medium) q ≡ T q
      pub marks : Marked (byte b.medium) T
      pub tree : TreeFits T b.strategy.bump b.strategy.record_slot_size
      pub spare : FreeFits T free b.strategy.bump b.strategy.record_slot_size
      pub chain : Chain (byte b.medium) (o.len b.medium) b.strategy.free_head free
      pub covered :
          (q : List ℕ)
          → IsPath q
          → q ≢ []
          → length q < t.depth
          → T q ≢ 0
          → T q + node_bytes ≤ o.len b.medium

    -- The invariant between two operations. The root is no record, so no record is left out.
    pub record Ready (b : Bound S) (T : List ℕ → ℕ) (free : List ℕ) (vals : List ℕ → List ℕ)
        : Type 0 where
      pub holds : Holds b T free
      pub root : RootReady (o.len b.medium)
      pub records :
          RecordsBut [] (byte b.medium) (o.len b.medium) b.strategy.record_slot_size T vals
