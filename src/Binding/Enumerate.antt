-- ===== src/Binding/Enumerate.antt =====
-- What the enumeration of a tree lists: the paths of its records, in depth-first order.
pub mod Spelling
pub mod Bitmap
pub mod Slots
pub mod Laws
pub mod Complete
pub mod Distinct
pub mod Count
use chton.Prelude.{
  ◌≢◌, subst, sym, ℕ, zero, suc, ◌+◌, ◌≡◌, refl, arith, List, [], ◌∷◌, ◌++◌, ◌==◌, if◌then◌else◌,
}
use chton.Tagma.{Tagma}

-- The lists for the slots from `index` on, `left` of them.
unfoldable pub leaves_from : (List ℕ → List (List ℕ)) → List ℕ → ℕ → ℕ → List (List ℕ)
leaves_from child q zero index = []
leaves_from child q (suc left) index = child (index ∷ q) ++ leaves_from child q left (index + 1)

module _ ⦃t : Tagma⦄ where
  -- The paths of the records at and below `q`, with `levels` to go.
  unfoldable pub leaves : (List ℕ → ℕ) → ℕ → List ℕ → List (List ℕ)
  unfolding leaves_from
  leaves T zero q = if T q == 0 then [] else q ∷ []
  leaves T (suc levels) q =
      let below = leaves_from (λ p. leaves T levels p) q t.n_valid 0 in
      if T q == 0 then [] else below

  pub leaves_absent : (T : List ℕ → ℕ) (levels : ℕ) (q : List ℕ) → T q ≡ 0 → leaves T levels q ≡ []
  unfolding leaves
  leaves_absent T zero q e = ground (arith, e)
  leaves_absent T (suc levels) q e = ground (arith, e)

  pub leaves_here :
      (T : List ℕ → ℕ) (levels : ℕ) (q : List ℕ) → levels ≡ 0 → T q ≢ 0 → leaves T levels q ≡ q ∷ []
  unfolding leaves
  leaves_here T zero q e n = ground (arith, n)
  leaves_here T (suc levels) q e n = absurd (omega arith)
