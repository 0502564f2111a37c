-- ===== src/Binding/Shape/Link.antt =====
-- How the tree changes when memory does.
use chton.Prelude.{ℕ, ◌≡◌, ◌≢◌, List, [], ◌∷◌}
use chton.Prelude.{subst, arith}
use chton.Prelude.Word.{word}
use chton.Tagma.{Tagma}
use chton.Binding.Shape.{slot_of, resolve, IsPath, path_discrete, relink}

module _ ⦃t : Tagma⦄ where
  pub IsPath-tail : (i : ℕ) (p : List ℕ) → IsPath (i ∷ p) → IsPath p
  IsPath-tail i p h = (h.0.1, omega arith)

  -- Memories with the same slots in every node have the same tree.
  pub resolve-same :
      (m k : ℕ → ℕ) (T : List ℕ → ℕ)
      → ((q : List ℕ) → IsPath q → resolve m q ≡ T q)
      → ((p : List ℕ) (i : ℕ)
          → IsPath (i ∷ p)
          → T p ≢ 0
          → word k (slot_of (T p) i) ≡ word m (slot_of (T p) i))
      → (q : List ℕ) → IsPath q
      → resolve k q ≡ T q
  unfolding resolve
  resolve-same m k T maps same [] h = maps [] h
  resolve-same m k T maps same (i ∷ p) h = ground (
    arith,
    resolve-same m k T maps same p (IsPath-tail i p h),
    maps p (IsPath-tail i p h),
    maps (i ∷ p) h,
    same p i h,
  )

  module _ (m k : ℕ → ℕ) (T : List ℕ → ℕ) (p : List ℕ) (i v : ℕ)
      (maps : (q : List ℕ) → IsPath q → resolve m q ≡ T q) (node : T p ≢ 0)
      (stored : word k (slot_of (T p) i) ≡ v)
      (others : (q : List ℕ) (j : ℕ)
        → IsPath (j ∷ q)
        → T q ≢ 0
        → ¬ (◌≡◌ {A = List ℕ} (j ∷ q) (i ∷ p))
        → word k (slot_of (T q) j) ≡ word m (slot_of (T q) j))
      (empty : (j : ℕ)
        → IsPath (j ∷ i ∷ p)
        → (T (i ∷ p) ≡ 0) × (v ≢ 0 → word k (slot_of v j) ≡ 0)) where
    -- Storing `v` in one slot relinks that path and no other, if nothing hung below it and `v` is
    -- no node or an empty one.
    pub resolve-relink : (q : List ℕ) → IsPath q → resolve k q ≡ relink T (i ∷ p) v q
    unfolding resolve
    resolve-relink [] h = ground (arith, maps [] h)
    resolve-relink (j ∷ q) h = elim (path_discrete q (i ∷ p)) [
      | yes e ↦
          let below : IsPath (j ∷ i ∷ p) = subst (λ (r : List ℕ). IsPath (j ∷ r)) e h in
          ground (
            arith,
            resolve-relink q (IsPath-tail j q h),
            maps q (IsPath-tail j q h),
            maps (j ∷ q) h,
            empty j below,
          )
      | no ne ↦ ground (
        arith,
        resolve-relink q (IsPath-tail j q h),
        maps q (IsPath-tail j q h),
        maps (j ∷ q) h,
        others q j h,
      )
    ]
