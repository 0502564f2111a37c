-- ===== src/Map/Put.antt =====
-- `put_path` stores a value under its key and nowhere else.
use chton.Prelude.{ℕ, suc, ◌+◌, ◌*◌, ◌%◌, ◌^◌, ◌≤◌, ◌<◌, ◌≡◌, ◌≢◌, inr, List, [], length}
use chton.Prelude.{arith, refl, ap, sym, subst, ◌∙◌, true, Option, none, some}
use mathlib.Core.Logic.{ite}
use native.Mathlib.Decide.{ℕ_discrete}
use chton.Prelude.Outcome.{done}
use chton.Tagma.{Tagma, TagmaLaws}
use chton.Origin.{Origin}
use chton.Origin.Laws.{IsMedium}
use chton.Binding.{TreeStrategy, node_bytes, root_offset}
use chton.Binding.Tree.{slot_at}
use chton.Binding.Shape.{trail, index_at, path_discrete, resolve}
use chton.Binding.Shape.Trail.{trail-injective}
use chton.Binding.Holds.{Ready, RecordAt}
use chton.Binding.Holds.Frame.{extent-node, extent-leaf}
use chton.Binding.Holds.Create.{create}
use chton.Binding.Holds.Allot.{allot}
use chton.Map.{CoordMapStore}
use chton.Map.Record.{record_slot_size}
use chton.Map.Store.{put_path, previous}
use chton.Map.Contents.{Represents, read_tree, max_value_len_lem}
use chton.Map.Ensure.{Ensured, ensure_present, ensure_absent, key-IsLeaf}
use chton.Map.Inscribe.{Inscribed, inscribe, moved}

-- The values after a record was written.
abbrev pub revalue : (List ℕ → List ℕ) → List ℕ → List ℕ → List ℕ → List ℕ
revalue vals p v q = ite (path_discrete q p) v (vals q)

revalue_self : (vals : List ℕ → List ℕ) (p v : List ℕ) → revalue vals p v p ≡ v
revalue_self vals p v = ground arith

revalue-ne : (vals : List ℕ → List ℕ) (p v q : List ℕ) → q ≢ p → revalue vals p v q ≡ vals q
revalue-ne vals p v q ne = ground arith

module _ ⦃t : Tagma⦄ (last : ℕ) where
  -- A map with one key given anew.
  abbrev pub update :
      {W : Type 0} → (t.CoordPath → Option W) → t.CoordPath → Option W → t.CoordPath → Option W
  update V key r k = ite (path_discrete (trail k (suc last)) (trail key (suc last))) r (V k)

  module _ {W : Type 0} (V : t.CoordPath → Option W) (key : t.CoordPath) (r : Option W) where
    pub update_self : update V key r key ≡ r
    update_self = ground arith

    pub update-ne :
        (k : t.CoordPath) → TagmaLaws t → suc last ≡ t.depth → k ≢ key → update V key r k ≡ V k
    update-ne k laws depth_eq ne =
        let differs : trail k (suc last) ≢ trail key (suc last) = λ e.
          ne (trail-injective laws k key (subst (λ (d : ℕ). trail k d ≡ trail key d) depth_eq e)) in
        ground arith

-- The count of values, a `usize`, after a value was put.
abbrev pub len_with : Option (List ℕ) → ℕ → ℕ
len_with none len = (len + 1) % 2 ^ 64
len_with (some v) len = len

module _ ⦃t : Tagma⦄ {S : Type 0} ⦃o : Origin S⦄ (byte : S → ℕ → ℕ) (last : ℕ) where
  -- A put that returned: the value that the key had, and a store that represents the map with the
  -- key given anew.
  pub record Put (m : CoordMapStore S) (V : t.CoordPath → Option (List ℕ)) (key : t.CoordPath)
      (v : List ℕ) : Type 0 where
    pub after : CoordMapStore S
    pub returns : put_path key v m ≡ done (V key) after
    pub represents : Represents byte last after (update last V key (some v))
    pub len_after : after.len ≡ len_with (V key) m.len
    pub buffered : after.dirty ≡ true
    pub same_size : record_slot_size after ≡ record_slot_size m
    pub space_used :
        after.bound.strategy.bump ≤ m.bound.strategy.bump + last * node_bytes + record_slot_size m

module _ ⦃t : Tagma⦄ (laws : TagmaLaws t) {S : Type 0} ⦃o : Origin S⦄ {byte : S → ℕ → ℕ}
    (medium : IsMedium o byte) (key : t.CoordPath) (last : ℕ) (depth_eq : suc last ≡ t.depth)
    (m : CoordMapStore S) (T : List ℕ → ℕ) (free : List ℕ) (vals : List ℕ → List ℕ)
    (v : List ℕ) where
  abbrev leaf : List ℕ
  leaf = trail key (suc last)

  abbrev Ensures : Type 0
  Ensures = Ensured byte m T leaf vals (slot_at (T (trail key last)) (index_at key last) (T leaf))

  -- A record lies past the root, so its write covers the root.
  root_covered :
      (en : Ensures)
      → Inscribed byte en.after en.tree en.free leaf vals v
      → (ins_len : ℕ) → en.tree leaf + 8 ≤ ins_len
      → root_offset + node_bytes ≤ ins_len
  unfolding resolve
  root_covered en ins len h =
      let l = key-IsLeaf laws key last depth_eq in
      let size = record_slot_size en.after in
      ground (
        arith,
        en.holds.maps [] (tt, omega arith),
        en.holds.tree.apart [] leaf (tt, omega arith) l.0 (λ e. cc),
        en.holds.tree.low leaf l.0 en.present,
        en.present,
        en.holds.slot_size,
        extent-node size [] (omega arith),
        extent-leaf size leaf l.1,
      )

  -- From the slot on: the store with the record written is ready again.
  write-Ready :
      (en : Ensures)
      → (ins : Inscribed byte en.after en.tree en.free leaf vals v)
      → Ready byte (moved en.after ins.after).bound en.tree en.free (revalue vals leaf v)
  write-Ready en ins = record {
    holds = ins.holds;
    root = inr (root_covered en ins (o.len ins.after) (omega (arith, ins.written.exists)));
    records = λ q lq ne n. elim (path_discrete q leaf) [
      | yes e ↦
          subst
            (λ (y : List ℕ).
              RecordAt (byte ins.after) (o.len ins.after) (record_slot_size en.after) (en.tree y)
                (revalue vals leaf v y))
            (sym e)
            (subst
              (λ (y : List ℕ).
                RecordAt (byte ins.after) (o.len ins.after) (record_slot_size en.after)
                  (en.tree leaf) y)
              (sym (revalue_self vals leaf v)) ins.written)
      | no other ↦
          subst
            (λ (y : List ℕ).
              RecordAt (byte ins.after) (o.len ins.after) (record_slot_size en.after) (en.tree q) y)
            (sym (revalue-ne vals leaf v q other)) (ins.others q lq other n)
    ];
  }

  -- The value that the slot had.
  previous_lem :
      (V : t.CoordPath → Option (List ℕ))
      → Ready byte m.bound T free vals
      → record_slot_size m < 2 ^ 64
      → (T leaf ≡ 0 → V key ≡ none)
      → (T leaf ≢ 0 → V key ≡ some (vals leaf))
      → previous (slot_at (T (trail key last)) (index_at key last) (T leaf)) m ≡ done (V key) m
  previous_lem V r small none_if some_if = elim (ℕ_discrete (T leaf) 0) [
    | yes e ↦ ground (arith, none_if e)
    | no n ↦
        ground (arith, some_if n, read_tree laws medium last depth_eq m T free vals key r small n)
  ]

  ensured :
      Ready byte m.bound T free vals
      → T (trail key last) ≢ 0
      → m.bound.strategy.bump + record_slot_size m < 2 ^ 64
      → Ensures
  ensured r node space = elim (ℕ_discrete (T leaf) 0) [
    | yes e ↦
        ensure_absent laws medium key last depth_eq m T free vals r node e
          (allot medium m.bound T free (omega arith) r.holds space)
    | no n ↦ ensure_present laws medium key last depth_eq m T free vals r node n
  ]

module _ ⦃t : Tagma⦄ (laws : TagmaLaws t) {S : Type 0} ⦃o : Origin S⦄ {byte : S → ℕ → ℕ}
    (medium : IsMedium o byte) (key : t.CoordPath) (last : ℕ) (depth_eq : suc last ≡ t.depth)
    (m : CoordMapStore S) (V : t.CoordPath → Option (List ℕ)) (v : List ℕ) where
  -- On a store that represents a map, with room for the value and for a path of nodes and a record
  -- below 2 ^ 64, a put returns the value that the key had; the store then represents the map with
  -- the key given anew, counts one value more if the key had none, and is buffered.
  pub put_path-Represents :
      Represents byte last m V
      → 8 + length v ≤ record_slot_size m
      → m.bound.strategy.bump + last * node_bytes + record_slot_size m < 2 ^ 64
      → Put byte last m V key v
  unfolding put_path
  put_path-Represents r room space =
      let p = trail key (suc last) in
      let leaf = key-IsLeaf laws key last depth_eq in
      let (c, created) =
        create medium laws key last depth_eq r.free r.vals m.bound r.tree r.ready (omega arith) in
      let m' : CoordMapStore S = record m { bound = c.after } in
      let size : record_slot_size m' ≡ record_slot_size m =
        ap (λ (s : TreeStrategy). s.record_slot_size) c.strategy_after in
      let same = c.leaves p leaf in
      let before =
        previous_lem laws medium key last depth_eq m' c.tree r.free r.vals v V c.ready
          (omega (arith, size, r.size_small)) (λ e. r.absent key (sym same ∙ e))
          (λ n. r.present key (λ e. n (same ∙ e))) in
      let en =
        ensured laws medium key last depth_eq m' c.tree r.free r.vals v c.ready c.node
          (omega (arith, size, c.space_used)) in
      let ins =
        inscribe medium en.after en.tree en.free p r.vals v en.holds leaf en.present en.others
          (omega (arith, size, en.same_size)) in
      let ready = write-Ready laws medium key last depth_eq m' c.tree r.free r.vals v en ins in
      record {
        after = record (moved en.after ins.after) { dirty = true };
        returns = ground (
          arith,
          max_value_len_lem medium m r.ready.holds.slot_size r.size_small,
          created,
          before,
          en.returns,
          ins.returns,
        );
        represents = record {
          tree = en.tree;
          free = en.free;
          vals = revalue r.vals p v;
          ready = ready;
          size_small = omega (arith, size, en.same_size, r.size_small);
          absent = λ k e.
              let q = trail k (suc last) in
              ground (
                arith,
                en.present,
                en.same q,
                c.leaves q (key-IsLeaf laws k last depth_eq),
                r.absent k,
              );
          present = λ k n.
              let q = trail k (suc last) in
              ground (arith, en.same q, c.leaves q (key-IsLeaf laws k last depth_eq), r.present k);
        };
        len_after = elim (ℕ_discrete (r.tree p) 0) [
          | yes e ↦ ground (arith, en.len_after, same, r.absent key e)
          | no n ↦ ground (arith, en.len_after, same, r.present key n)
        ];
        buffered = refl;
        same_size = en.same_size ∙ size;
        space_used = omega (arith, en.space_used, c.space_used, size);
      }
