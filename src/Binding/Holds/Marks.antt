-- ===== src/Binding/Holds/Marks.antt =====
-- The bitmaps after a write that meets no node, and after a write of one slot.
use chton.Prelude.{
  ℕ, ◌+◌, ◌/◌, ◌%◌, ◌<◌, ◌≡◌, ◌≢◌, inl, inr, List, ◌∷◌, length, arith, ap, ap₂, sym, subst, ◌∙◌,
  ◌==◌, if◌then◌else◌,
}
use native.Mathlib.Decide.{ℕ_discrete}
use chton.Prelude.Bits.{bit_at}
use chton.Prelude.Word.{Keeps, Apart}
use chton.Tagma.{Tagma}
use chton.Binding.{bitmap_bytes, node_bytes}
use chton.Binding.Effects.Marks.{mark_of}
use chton.Binding.Shape.{IsPath, relink, path_discrete}
use chton.Binding.Shape.Link.{IsPath-tail}
use chton.Binding.Regions.{TreeFits}
use chton.Binding.Holds.{Marked}
use chton.Binding.Holds.Frame.{extent-node}
use chton.Binding.Holds.Relink.{relink-ne, relink_self}

module _ ⦃t : Tagma⦄ (m k : ℕ → ℕ) (w size : ℕ) (kept : Keeps m k w size) (T : List ℕ → ℕ)
    (off : (q : List ℕ)
      → IsPath q
      → length q < t.depth
      → T q ≢ 0
      → Apart w size (T q) node_bytes) where
  same_byte : (q : List ℕ) (i : ℕ) → IsPath (i ∷ q) → T q ≢ 0 → k (T q + i / 8) ≡ m (T q + i / 8)
  unfolding node_bytes bitmap_bytes
  same_byte q i h n =
      let apart : Apart w size (T q) node_bytes =
        off q (IsPath-tail i q h) (omega (arith, h.1)) n in
      elim apart [
        | inl low ↦ kept (T q + i / 8) (inr (omega arith))
        | inr high ↦ kept (T q + i / 8) (inl (omega (arith, h.0.0)))
      ]

  pub Marked-Keeps : Marked m T → Marked k T
  Marked-Keeps marks q i h n = ap (λ (b : ℕ). bit_at b (i % 8)) (same_byte q i h n) ∙ marks q i h n

module _ ⦃t : Tagma⦄ (m k : ℕ → ℕ) (T : List ℕ → ℕ) (rss bump : ℕ) (p : List ℕ) (i v : ℕ)
    (marks : Marked m T) (tree : TreeFits T bump rss) (here : IsPath (i ∷ p)) (node : T p ≢ 0)
    (kept : Keeps m k (T p) node_bytes)
    (written : (j : ℕ)
      → j < t.n_valid
      → bit_at (k (T p + j / 8)) (j % 8)
        ≡ (if j == i then mark_of v else bit_at (m (T p + j / 8)) (j % 8)))
    (below : (j : ℕ)
      → IsPath (j ∷ i ∷ p)
      → (T (j ∷ i ∷ p) ≡ 0) × (v ≢ 0 → bit_at (k (v + j / 8)) (j % 8) ≡ 0)) where
  -- Another node keeps its bitmap.
  other_bits :
      (q : List ℕ) (j : ℕ)
      → IsPath (j ∷ q)
      → T q ≢ 0
      → q ≢ p
      → bit_at (k (T q + j / 8)) (j % 8) ≡ mark_of (T (j ∷ q))
  unfolding node_bytes bitmap_bytes
  other_bits q j h n ne =
      let short : length q < t.depth = omega (arith, h.1) in
      let short' : length p < t.depth = omega (arith, here.1) in
      let apart : Apart (T p) node_bytes (T q) node_bytes = ground (
        arith,
        tree.apart p q (IsPath-tail i p here) (IsPath-tail j q h),
        extent-node rss p short',
        extent-node rss q short,
      ) in
      let same : k (T q + j / 8) ≡ m (T q + j / 8) = elim apart [
        | inl low ↦ kept (T q + j / 8) (inr (omega arith))
        | inr high ↦ kept (T q + j / 8) (inl (omega (arith, h.0.0)))
      ] in
      ap (λ (b : ℕ). bit_at b (j % 8)) same ∙ marks q j h n

  at_node : (q : List ℕ) → q ≡ p → relink T (i ∷ p) v q ≡ T p
  at_node q e =
      let other : q ≢ i ∷ p =
        λ f. omega (arith, ap (λ (l : List ℕ). length l) e, ap (λ (l : List ℕ). length l) f) in
      relink-ne T (i ∷ p) q v other ∙ ap T e

  pub Marked-relink : Marked k (relink T (i ∷ p) v)
  Marked-relink q j h n = elim (path_discrete q (i ∷ p)) [
    | yes child ↦
        let node_at : relink T (i ∷ p) v q ≡ v =
          ap (relink T (i ∷ p) v) child ∙ relink_self T (i ∷ p) v in
        let longer : ¬ (◌≡◌ {A = List ℕ} (j ∷ q) (i ∷ p)) = λ e.
          omega (arith, ap (λ (l : List ℕ). length l) e, ap (λ (l : List ℕ). length l) child) in
        let held : relink T (i ∷ p) v (j ∷ q) ≡ T (j ∷ i ∷ p) =
          relink-ne T (i ∷ p) (j ∷ q) v longer ∙ ap (λ (l : List ℕ). T (j ∷ l)) child in
        let under : IsPath (j ∷ i ∷ p) = subst (λ (l : List ℕ). IsPath (j ∷ l)) child h in
        let (nothing, clear) = below j under in
        ap (λ (a : ℕ). bit_at (k (a + j / 8)) (j % 8)) node_at
        ∙ clear (λ e. n (node_at ∙ e))
        ∙ sym (ap mark_of (held ∙ nothing))
    | no differs ↦ elim (path_discrete q p) [
      | yes parent ↦ elim (ℕ_discrete j i) [
        | yes slot ↦
            let held : relink T (i ∷ p) v (j ∷ q) ≡ v =
              ap₂ (λ (a : ℕ) (l : List ℕ). relink T (i ∷ p) v (a ∷ l)) slot parent
              ∙ relink_self T (i ∷ p) v in
            ground (arith, at_node q parent, written j h.0.0, slot, held)
        | no elsewhere ↦
            let held : relink T (i ∷ p) v (j ∷ q) ≡ T (j ∷ p) =
              relink-ne T (i ∷ p) (j ∷ q) v (λ e. elsewhere cc)
              ∙ ap (λ (l : List ℕ). T (j ∷ l)) parent in
            ground (
              arith,
              at_node q parent,
              written j h.0.0,
              elsewhere,
              held,
              marks p j (subst (λ (l : List ℕ). IsPath (j ∷ l)) parent h) node,
            )
      ]
      | no different ↦
          let same : relink T (i ∷ p) v q ≡ T q = relink-ne T (i ∷ p) q v differs in
          let held : relink T (i ∷ p) v (j ∷ q) ≡ T (j ∷ q) =
            relink-ne T (i ∷ p) (j ∷ q) v (λ e. different cc) in
          ap (λ (a : ℕ). bit_at (k (a + j / 8)) (j % 8)) same
          ∙ other_bits q j h (λ e. n (same ∙ e)) different
          ∙ sym (ap mark_of held)
    ]
  ]
