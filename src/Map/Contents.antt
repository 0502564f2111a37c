-- ===== src/Map/Contents.antt =====
-- What a store represents: a partial map from coordinate paths to byte strings.
use chton.Prelude.{
  ℕ, suc, ◌+◌, ◌-◌, ◌%◌, ◌^◌, ◌≤◌, ◌<◌, ◌≡◌, ◌≢◌, Option, none, some, List, length, replicate,
}
use chton.Prelude.{arith, length-replicate}
use native.Mathlib.Decide.{ℕ_discrete}
use chton.Prelude.Outcome.{ok}
use chton.Prelude.Word.{word}
use chton.Tagma.{Tagma, TagmaLaws}
use chton.Origin.{Origin}
use chton.Origin.Laws.{IsMedium}
use chton.Binding.Effects.{read_full}
use chton.Binding.Shape.{trail}
use chton.Binding.Shape.Trail.{trail-IsPath, length-trail}
use chton.Binding.Holds.{Ready, RecordAt}
use chton.Binding.Holds.Frame.{extent-leaf}
use chton.Binding.Holds.Locate.{locate-tree}
use chton.Map.{CoordMapStore}
use chton.Map.Record.{record_slot_size, max_value_len, read_record}
use chton.Map.Store.{get_path}

module _ ⦃t : Tagma⦄ {S : Type 0} ⦃o : Origin S⦄ (byte : S → ℕ → ℕ) (last : ℕ) where
  -- The tree, the free list and the values are found in the memory; a key has a value when its path
  -- leads to a record. `last` is the last level.
  pub record Represents (m : CoordMapStore S) (V : t.CoordPath → Option (List ℕ)) : Type 0 where
    pub tree : List ℕ → ℕ
    pub free : List ℕ
    pub vals : List ℕ → List ℕ
    pub ready : Ready byte m.bound tree free vals
    pub size_small : record_slot_size m < 2 ^ 64
    pub absent : (key : t.CoordPath) → tree (trail key (suc last)) ≡ 0 → V key ≡ none
    pub present :
        (key : t.CoordPath)
        → tree (trail key (suc last)) ≢ 0
        → V key ≡ some (vals (trail key (suc last)))

module _ {S : Type 0} ⦃o : Origin S⦄ {byte : S → ℕ → ℕ} (medium : IsMedium o byte) where
  pub max_value_len_lem :
      (m : CoordMapStore S)
      → 8 ≤ record_slot_size m
      → record_slot_size m < 2 ^ 64
      → max_value_len m ≡ record_slot_size m - 8
  max_value_len_lem m h small = omega arith

  -- A record reads as its value.
  pub read_record_lem :
      (m : CoordMapStore S) (x : ℕ) (v : List ℕ)
      → record_slot_size m < 2 ^ 64
      → x + record_slot_size m < 2 ^ 64
      → RecordAt (byte m.bound.medium) (o.len m.bound.medium) (record_slot_size m) x v
      → read_record m x ≡ ok v
  unfolding read_record word
  read_record_lem m x v small fits r =
      let s = m.bound.medium in
      let next : (x + 8) % 2 ^ 64 ≡ x + 8 = omega (arith, r.room) in
      let width : length (replicate {A = ℕ} (length v) 0) ≡ length v =
        length-replicate {A = ℕ} (length v) 0 in
      ground (
        arith,
        read_full medium s x (replicate 8 0) (omega (arith, r.exists)),
        read_full medium s (x + 8) (replicate (length v) 0) (omega (arith, r.exists, width)),
        width,
        next,
        r.prefix,
        r.payload,
        r.room,
      )

module _ ⦃t : Tagma⦄ (laws : TagmaLaws t) {S : Type 0} ⦃o : Origin S⦄ {byte : S → ℕ → ℕ}
    (medium : IsMedium o byte) (last : ℕ) (depth_eq : suc last ≡ t.depth) where
  -- The record of a path that the tree has.
  pub read_tree :
      (m : CoordMapStore S) (T : List ℕ → ℕ) (free : List ℕ) (vals : List ℕ → List ℕ)
      → (key : t.CoordPath) → Ready byte m.bound T free vals
      → record_slot_size m < 2 ^ 64
      → T (trail key (suc last)) ≢ 0
      → read_record m (T (trail key (suc last))) ≡ ok (vals (trail key (suc last)))
  read_tree m T free vals key r small n =
      let p = trail key (suc last) in
      let v = trail-IsPath laws key (suc last) (omega arith) in
      let full : length p ≡ t.depth = omega (arith, length-trail laws key (suc last)) in
      read_record_lem medium m (T p) (vals p) small
        (omega (
          arith,
          r.holds.tree.high p v n,
          extent-leaf (record_slot_size m) p full,
          r.holds.bump_small,
        ))
        (r.records p (v, full) (λ e. cc) n)

  -- A store that represents a map answers every key as the map does, and never fails.
  pub get_path-Represents :
      (m : CoordMapStore S) (V : t.CoordPath → Option (List ℕ)) (key : t.CoordPath)
      → Represents byte last m V
      → get_path key m ≡ ok (V key)
  unfolding get_path
  get_path-Represents m V key r =
      let (slot, found, located) =
        locate-tree medium m.bound r.tree r.free r.ready.holds r.ready.root laws key last
          depth_eq in
      elim (ℕ_discrete (r.tree (trail key (suc last))) 0) [
        | yes e ↦ ground (arith, found, located.offset, r.absent key e)
        | no n ↦ ground (
          arith,
          found,
          located.offset,
          r.present key n,
          read_tree m r.tree r.free r.vals key r.ready r.size_small n,
        )
      ]
