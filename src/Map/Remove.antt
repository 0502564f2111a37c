-- ===== src/Map/Remove.antt =====
-- `remove_path` removes a key and nothing else.
use chton.Prelude.{ℕ, suc, ◌-◌, ◌≡◌, ◌≢◌, List, ◌∷◌}
use chton.Prelude.{arith, refl, ap, ◌∙◌, Option, none, some, true}
use native.Mathlib.Decide.{ℕ_discrete}
use chton.Prelude.Outcome.{done, ok}
use chton.Tagma.{Tagma, TagmaLaws}
use chton.Origin.{Origin}
use chton.Origin.Laws.{IsMedium}
use chton.Binding.{Slot}
use chton.Binding.Tree.{slot_at, locate}
use chton.Binding.Shape.{trail, index_at, relink}
use chton.Binding.Holds.Detach.{Detached, detach}
use chton.Binding.Holds.Locate.{locate-tree}
use chton.Map.{CoordMapStore}
use chton.Map.Record.{record_slot_size}
use chton.Map.Store.{remove_path}
use chton.Map.Contents.{Represents, read_tree}
use chton.Map.Ensure.{key-IsLeaf}
use chton.Map.Put.{update}

-- The count of values after a value was removed, or none was there.
abbrev pub len_without : Option (List ℕ) → ℕ → ℕ
len_without none len = len
len_without (some v) len = len - 1

module _ ⦃t : Tagma⦄ {S : Type 0} ⦃o : Origin S⦄ (byte : S → ℕ → ℕ) (last : ℕ) where
  -- A removal that returned: the value that the key had, and a store that represents the map
  -- without it.
  pub record Removed (m : CoordMapStore S) (V : t.CoordPath → Option (List ℕ)) (key : t.CoordPath)
      : Type 0 where
    pub after : CoordMapStore S
    pub returns : remove_path key m ≡ done (V key) after
    pub represents : Represents byte last after (update last V key none)
    pub len_after : after.len ≡ len_without (V key) m.len
    pub same_size : record_slot_size after ≡ record_slot_size m
    pub same_bump : after.bound.strategy.bump ≡ m.bound.strategy.bump

module _ ⦃t : Tagma⦄ (laws : TagmaLaws t) {S : Type 0} ⦃o : Origin S⦄ {byte : S → ℕ → ℕ}
    (medium : IsMedium o byte) (key : t.CoordPath) (last : ℕ) (depth_eq : suc last ≡ t.depth)
    (m : CoordMapStore S) (V : t.CoordPath → Option (List ℕ)) (r : Represents byte last m V) where
  abbrev leaf : List ℕ
  leaf = trail key (suc last)

  -- A key without a value: nothing is done.
  remove_absent :
      (slot : Slot)
      → locate m.bound.medium key ≡ ok slot
      → slot.record_offset ≡ r.tree leaf
      → r.tree leaf ≡ 0
      → Removed byte last m V key
  unfolding remove_path
  remove_absent slot found offset e =
      let missing = r.absent key e in
      record {
        after = m;
        returns = ground (arith, found, offset, missing);
        represents = record {
          tree = r.tree;
          free = r.free;
          vals = r.vals;
          ready = r.ready;
          size_small = r.size_small;
          absent = λ k e'. ground (arith, r.absent k e');
          present = λ k n.
              let other : trail k (suc last) ≢ leaf = λ same. n (ap r.tree same ∙ e) in
              ground (arith, r.present k n);
        };
        len_after = ground (arith, missing);
        same_size = refl;
        same_bump = refl;
      }

  module _ (slot : Slot) (present : r.tree leaf ≢ 0) (node : r.tree (trail key last) ≢ 0)
      (place : slot ≡ slot_at (r.tree (trail key last)) (index_at key last) (r.tree leaf)) where
    abbrev gone : Detached byte m.bound r.tree r.free r.vals (trail key last) (index_at key last)
    gone =
        detach medium m.bound r.tree r.free r.vals (trail key last) (index_at key last) r.ready
          (key-IsLeaf laws key last depth_eq) node present

    remove_present : locate m.bound.medium key ≡ ok slot → Removed byte last m V key
    unfolding remove_path
    remove_present found =
        let old = r.present key present in
        let offset : slot.record_offset ≡ r.tree leaf = ap (λ (s : Slot). s.record_offset) place in
        let read =
          read_tree laws medium last depth_eq m r.tree r.free r.vals key r.ready r.size_small
            present in
        let cut =
          gone.cuts slot (ap (λ (s : Slot). s.leaf_node) place)
            (ap (λ (s : Slot). s.leaf_index) place) in
        record {
          after = record { bound = gone.after; len = m.len - 1; dirty = true };
          returns = ground (arith, found, offset, read, gone.frees, cut, old);
          represents = record {
            tree = relink r.tree leaf 0;
            free = r.tree leaf ∷ r.free;
            vals = r.vals;
            ready = gone.ready;
            size_small = omega (arith, gone.same_size, r.size_small);
            absent = λ k e. ground (arith, r.absent k);
            present = λ k n. ground (arith, r.present k);
          };
          len_after = ground (arith, old);
          same_size = gone.same_size;
          same_bump = gone.same_bump;
        }

  -- On a store that represents a map, a removal returns the value that the key had, if any; the
  -- store then represents the map without that key and counts one value less if there was one.
  pub remove_path-Represents : Removed byte last m V key
  remove_path-Represents =
      let (slot, found, located) =
        locate-tree medium m.bound r.tree r.free r.ready.holds r.ready.root laws key last
          depth_eq in
      elim (ℕ_discrete (r.tree leaf) 0) [
        | yes e ↦ remove_absent slot found located.offset e
        | no n ↦ remove_present slot n (located.place n).0 (located.place n).1 found
      ]
