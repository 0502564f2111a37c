-- ===== src/Map/Bare.antt =====
-- A store whose root node is blank represents the map without values.
use chton.Prelude.{ℕ, suc, ◌+◌, ◌^◌, ◌≤◌, ◌<◌, ◌≡◌, none, List, [], ◌∷◌}
use chton.Prelude.{arith, refl}
use chton.Prelude.Word.{word-zero}
use chton.Tagma.{Tagma}
use chton.Origin.{Origin}
use chton.Binding.{node_bytes, bitmap_bytes, root_offset}
use chton.Binding.Shape.{IsPath, resolve, slot_of, relink}
use chton.Binding.Shape.Link.{IsPath-tail}
use chton.Binding.Holds.{RootReady, Marked}
use chton.Binding.Effects.Marks.{mark_of}
use chton.Prelude.Bits.{bit_at, bit_at_zero}
use chton.Prelude.{◌/◌, ◌%◌, ap, sym, ◌∙◌}
use chton.Binding.Holds.Frame.{extent-node}
use chton.Map.{CoordMapStore}
use chton.Map.Record.{record_slot_size}
use chton.Map.Contents.{Represents}

-- A tree that is only the root.
abbrev pub bare : List ℕ → ℕ
bare = relink (λ q. 0) [] root_offset

module _ ⦃t : Tagma⦄ where
  -- The bytes of the root node are zero.
  abbrev pub BlankRoot : (ℕ → ℕ) → Type 0
  BlankRoot m = (i : ℕ) → root_offset ≤ i → i < root_offset + node_bytes → m i ≡ 0

  bare-maps : (m : ℕ → ℕ) → BlankRoot m → (q : List ℕ) → IsPath q → resolve m q ≡ bare q
  unfolding resolve node_bytes bitmap_bytes
  bare-maps m zeros [] v = ground arith
  bare-maps m zeros (i ∷ []) v =
      let blank =
        word-zero m (slot_of root_offset i)
          (λ j a b. zeros j (omega arith) (omega (arith, v.0.0))) in
      ground (arith, blank)
  bare-maps m zeros (i ∷ j ∷ p) v =
      ground (arith, bare-maps m zeros (j ∷ p) (IsPath-tail i (j ∷ p) v))

  bare-marks : (m : ℕ → ℕ) → BlankRoot m → Marked m bare
  unfolding node_bytes bitmap_bytes
  bare-marks m zeros [] i h n =
      let clear : m (root_offset + i / 8) ≡ 0 =
        zeros (root_offset + i / 8) (omega arith) (omega (arith, h.0.0)) in
      let root : bare [] ≡ root_offset = ground arith in
      let child : bare (i ∷ []) ≡ 0 = ground arith in
      ap (λ (a : ℕ). bit_at (m (a + i / 8)) (i % 8)) root
      ∙ ap (λ (b : ℕ). bit_at b (i % 8)) clear
      ∙ bit_at_zero (i % 8)
      ∙ sym (ap mark_of child)
  bare-marks m zeros (j ∷ q) i h n = absurd (n (ground arith))

module _ ⦃t : Tagma⦄ {S : Type 0} ⦃o : Origin S⦄ {byte : S → ℕ → ℕ} (last : ℕ)
    (depth_eq : suc last ≡ t.depth) (m : CoordMapStore S)
    (node_size : m.bound.strategy.node_size ≡ node_bytes)
    (bump : m.bound.strategy.bump ≡ root_offset + node_bytes)
    (head : m.bound.strategy.free_head ≡ 0) (header_fits : 8 ≤ record_slot_size m)
    (small : record_slot_size m < 2 ^ 64) (bump_small : m.bound.strategy.bump < 2 ^ 64)
    (blank : BlankRoot (byte m.bound.medium)) (root : RootReady (o.len m.bound.medium)) where
  pub bare-Represents : Represents byte last m (λ key. none)
  bare-Represents = record {
    tree = bare;
    free = [];
    vals = λ q. [];
    ready = record {
      holds = record {
        node_size = node_size;
        slot_size = header_fits;
        bump_small = bump_small;
        maps = bare-maps (byte m.bound.medium) blank;
        marks = bare-marks (byte m.bound.medium) blank;
        tree = record {
          low = λ q v n. ground arith;
          high = λ q v n. ground (arith, bump, extent-node (record_slot_size m) [] (omega arith));
          apart = λ p q v w ne n n'. ground arith;
        };
        spare = tt;
        chain = head;
        covered = λ q v ne short n. ground arith;
      };
      root = root;
      records = λ q l ne n. ground arith;
    };
    size_small = small;
    absent = λ key e. refl;
    present = λ key n. ground arith;
  }
