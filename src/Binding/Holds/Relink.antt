-- ===== src/Binding/Holds/Relink.antt =====
-- A slot of one node is written: the tree is relinked at that path, and nothing else changes.
use chton.Prelude.{ℕ, ◌<◌, ◌≡◌, ◌≢◌, List, ◌∷◌, length, arith, subst, sym}
use chton.Prelude.Word.{word, Keeps, word-Keeps}
use chton.Tagma.{Tagma}
use chton.Binding.{bitmap_bytes, node_bytes}
use chton.Binding.Shape.{IsPath, resolve, slot_of, relink, path_discrete}
use chton.Binding.Shape.Link.{resolve-relink, IsPath-tail}
use chton.Binding.Regions.{TreeFits}
use chton.Binding.Holds.Frame.{extent-node}

pub relink-ne : (T : List ℕ → ℕ) (p q : List ℕ) (v : ℕ) → q ≢ p → relink T p v q ≡ T q
relink-ne T p q v ne = ground arith

pub relink_self : (T : List ℕ → ℕ) (p : List ℕ) (v : ℕ) → relink T p v p ≡ v
relink_self T p v = ground arith

module _ ⦃t : Tagma⦄ (m k : ℕ → ℕ) (T : List ℕ → ℕ) (rss bump : ℕ) (p : List ℕ) (i v : ℕ)
    (maps : (q : List ℕ) → IsPath q → resolve m q ≡ T q) (tree : TreeFits T bump rss)
    (here : IsPath (i ∷ p)) (node : T p ≢ 0) (kept : Keeps m k (T p) node_bytes)
    (stored : word k (slot_of (T p) i) ≡ v)
    (others : (j : ℕ) → j ≢ i → word k (slot_of (T p) j) ≡ word m (slot_of (T p) j)) where
  other_node :
      (q : List ℕ) (j : ℕ)
      → IsPath (j ∷ q)
      → T q ≢ 0
      → q ≢ p
      → word k (slot_of (T q) j) ≡ word m (slot_of (T q) j)
  unfolding node_bytes bitmap_bytes
  other_node q j h n ne =
      let short : length q < t.depth = omega (arith, h.1) in
      let short' : length p < t.depth = omega (arith, here.1) in
      word-Keeps m k (T p) node_bytes (slot_of (T q) j) kept (
        ground (
          arith,
          h.0.0,
          tree.apart p q (IsPath-tail i p here) (IsPath-tail j q h),
          extent-node rss p short',
          extent-node rss q short,
        ))

  other_slot :
      (q : List ℕ) (j : ℕ)
      → IsPath (j ∷ q)
      → T q ≢ 0
      → ¬ (◌≡◌ {A = List ℕ} (j ∷ q) (i ∷ p))
      → word k (slot_of (T q) j) ≡ word m (slot_of (T q) j)
  other_slot q j h n ne = elim (path_discrete q p) [
    | yes e ↦
        let differs : j ≢ i = λ (s : j ≡ i). ne (cc) in
        subst (λ (r : List ℕ). word k (slot_of (T r) j) ≡ word m (slot_of (T r) j)) (sym e)
          (others j differs)
    | no different ↦ other_node q j h n different
  ]

  -- Nothing may hang below the slot, and a new child must be empty.
  pub relink-maps :
      ((j : ℕ) → IsPath (j ∷ i ∷ p) → (T (i ∷ p) ≡ 0) × (v ≢ 0 → word k (slot_of v j) ≡ 0))
      → (q : List ℕ) → IsPath q
      → resolve k q ≡ relink T (i ∷ p) v q
  relink-maps = resolve-relink m k T p i v maps node stored other_slot
