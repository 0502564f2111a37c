-- ===== src/Map/Ensure.antt =====
-- `ensure_record`: the slot of a key has a record afterwards, the old one or a new one.
use chton.Prelude.{◌≤◌, ℕ, suc, ◌+◌, ◌%◌, ◌^◌, ◌<◌, ◌≡◌, ◌≢◌, List, length}
use chton.Prelude.{arith, refl, ap, sym, subst, ◌∙◌, ◌==◌, if◌then◌else◌}
use chton.Prelude.Outcome.{done}
use chton.Tagma.{Tagma, TagmaLaws}
use chton.Origin.{Origin}
use chton.Origin.Laws.{IsMedium}
use chton.Binding.{Bound, Slot}
use chton.Binding.Tree.{slot_at}
use chton.Binding.Shape.{trail, index_at, relink}
use chton.Binding.Shape.Trail.{trail-IsPath, length-trail}
use chton.Binding.Holds.{Holds, Ready, RecordsBut, RecordAt, IsLeaf}
use chton.Binding.Holds.Relink.{relink-ne, relink_self}
use chton.Binding.Holds.Allot.{Allotted}
use chton.Binding.Holds.Attach.{attach-returns, attach-Holds, linked, leaf-records}
use chton.Map.{CoordMapStore}
use chton.Map.Record.{record_slot_size}
use chton.Map.Store.{ensure_record}

module _ ⦃t : Tagma⦄ {S : Type 0} ⦃o : Origin S⦄ (byte : S → ℕ → ℕ) where
  pub record Ensured (m : CoordMapStore S) (T : List ℕ → ℕ) (p : List ℕ) (vals : List ℕ → List ℕ)
      (slot : Slot) : Type 0 where
    pub after : CoordMapStore S
    pub tree : List ℕ → ℕ
    pub free : List ℕ
    pub returns : ensure_record slot m ≡ done (tree p) after
    pub holds : Holds byte after.bound tree free
    pub present : tree p ≢ 0
    pub same : (q : List ℕ) → q ≢ p → tree q ≡ T q
    pub others :
        RecordsBut p
          (byte after.bound.medium)
          (o.len after.bound.medium)
          (record_slot_size after)
          tree
          vals
    pub same_size : record_slot_size after ≡ record_slot_size m
    pub space_used : after.bound.strategy.bump ≤ m.bound.strategy.bump + record_slot_size m
    pub len_after : after.len ≡ (if T p == 0 then (m.len + 1) % 2 ^ 64 else m.len)

pub key-IsLeaf :
    ⦃t : Tagma⦄ (laws : TagmaLaws t) (key : t.CoordPath) (last : ℕ)
    → suc last ≡ t.depth
    → IsLeaf (trail key (suc last))
key-IsLeaf laws key last e =
    (trail-IsPath laws key (suc last) (omega arith), omega (arith, length-trail laws key last))

module _ ⦃t : Tagma⦄ (laws : TagmaLaws t) {S : Type 0} ⦃o : Origin S⦄ {byte : S → ℕ → ℕ}
    (medium : IsMedium o byte) (key : t.CoordPath) (last : ℕ) (depth_eq : suc last ≡ t.depth)
    (m : CoordMapStore S) (T : List ℕ → ℕ) (free : List ℕ) (vals : List ℕ → List ℕ)
    (r : Ready byte m.bound T free vals) (node : T (trail key last) ≢ 0) where
  abbrev pub leaf : List ℕ
  leaf = trail key (suc last)

  abbrev pub slot : Slot
  slot = slot_at (T (trail key last)) (index_at key last) (T leaf)

  leaf-IsLeaf : IsLeaf leaf
  leaf-IsLeaf = key-IsLeaf laws key last depth_eq

  pub ensure_present : T leaf ≢ 0 → Ensured byte m T leaf vals slot
  unfolding ensure_record
  ensure_present n = record {
    after = m;
    tree = T;
    free = free;
    returns = ground arith;
    holds = r.holds;
    present = n;
    same = λ q ne. refl;
    others = λ q l ne n'.
        r.records q l (λ e. absurd (omega (arith, l.1, ap (λ (k : List ℕ). length k) e))) n';
    same_size = refl;
    space_used = omega arith;
    len_after = ground arith;
  }

  module _ (absent : T leaf ≡ 0) (a : Allotted byte m.bound T) where
    abbrev allotted : Bound S
    allotted = record { strategy = a.strategy; medium = m.bound.medium }

    x_small : a.x < 2 ^ 64
    x_small = omega (arith, a.loose.high, a.holds.bump_small, a.holds.slot_size)

    abbrev attached : Bound S
    attached =
        linked medium allotted T a.rest (trail key last) (index_at key last) a.x a.holds leaf-IsLeaf
          node x_small

    old-others :
        RecordsBut leaf
          (byte m.bound.medium)
          (o.len m.bound.medium)
          a.strategy.record_slot_size
          T
          vals
    old-others q l ne n =
        subst
          (λ (size : ℕ). RecordAt (byte m.bound.medium) (o.len m.bound.medium) size (T q) (vals q))
          (sym a.same_size)
          (r.records q l (λ e. absurd (omega (arith, l.1, ap (λ (k : List ℕ). length k) e))) n)

    new-others :
        RecordsBut leaf
          (byte attached.medium)
          (o.len attached.medium)
          a.strategy.record_slot_size
          (relink T leaf a.x)
          vals
    new-others q l ne n =
        let e : relink T leaf a.x q ≡ T q = relink-ne T leaf q a.x ne in
        subst
          (λ (y : ℕ).
            RecordAt (byte attached.medium) (o.len attached.medium) a.strategy.record_slot_size y
              (vals q))
          (sym e)
          (leaf-records medium allotted T a.rest (trail key last) (index_at key last) a.x a.holds
            leaf-IsLeaf node x_small vals old-others q l ne (λ z. n (e ∙ z)))

    pub ensure_absent : Ensured byte m T leaf vals slot
    unfolding ensure_record
    ensure_absent =
        let self = relink_self T leaf a.x in
        let linked_up =
          attach-returns medium allotted T a.rest (trail key last) (index_at key last) a.x a.holds
            leaf-IsLeaf node x_small slot refl refl in
        record {
          after = record m { bound = attached; len = (m.len + 1) % 2 ^ 64 };
          tree = relink T leaf a.x;
          free = a.rest;
          returns = ground (arith, absent, a.returns, linked_up, self);
          holds =
              attach-Holds medium allotted T a.rest (trail key last) (index_at key last) a.x a.holds
                leaf-IsLeaf node x_small a.loose;
          present = omega (arith, self, a.loose.low);
          same = λ q ne. relink-ne T leaf q a.x ne;
          others = new-others;
          same_size = a.same_size;
          space_used = a.space_used;
          len_after = ground (arith, absent);
        }
