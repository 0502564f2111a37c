-- ===== src/Binding/Enumerate/Complete.antt =====
-- The paths that are listed are those of the records.
use chton.Prelude.{
  ℕ, zero, suc, ◌+◌, ◌≤◌, ◌<◌, ◌≡◌, ◌≢◌, ap, sym, subst, arith, List, [], ◌∷◌, ◌++◌, All,
}
use native.Mathlib.Decide.{ℕ_discrete}
use mathlib.Core.List.{Mem, mem-append_left, mem-append_right, mem-cons_self}
use chton.Tagma.{Tagma, TagmaLaws}
use chton.Binding.Shape.{trail, index_at}
use chton.Binding.Shape.Trail.{index_at-lt}
use chton.Binding.Enumerate.{leaves, leaves_from}

module _ ⦃t : Tagma⦄ (T : List ℕ → ℕ) where
  held_both :
      (xs ys : List (List ℕ))
      → All (λ r. T r ≢ 0) xs
      → All (λ r. T r ≢ 0) ys
      → All (λ r. T r ≢ 0) (xs ++ ys)
  held_both [] ys h h' = h'
  held_both (x ∷ xs) ys h h' = (h.0, held_both xs ys h.1 h')

  from_held :
      (child : List ℕ → List (List ℕ)) (q : List ℕ) (left index : ℕ)
      → ((p : List ℕ) → All (λ r. T r ≢ 0) (child p))
      → All (λ r. T r ≢ 0) (leaves_from child q left index)
  unfolding leaves_from
  from_held child q zero index each = tt
  from_held child q (suc left) index each =
      held_both (child (index ∷ q)) _ (each (index ∷ q)) (from_held child q left (index + 1) each)

  -- Every path that is listed has a record.
  pub leaves_held : (levels : ℕ) (q : List ℕ) → All (λ r. T r ≢ 0) (leaves T levels q)
  unfolding leaves
  leaves_held zero q = elim (ℕ_discrete (T q) 0) [
    | yes empty ↦ ground (arith, empty)
    | no held ↦ ground (arith, held)
  ]
  leaves_held (suc levels) q =
      let below = from_held (λ p. leaves T levels p) q t.n_valid 0 (λ p. leaves_held levels p) in
      ground (arith, below)

  from_member :
      (child : List ℕ → List (List ℕ)) (q : List ℕ) (left index i : ℕ) (x : List ℕ)
      → index ≤ i
      → i < index + left
      → Mem x (child (i ∷ q))
      → Mem x (leaves_from child q left index)
  unfolding leaves_from
  from_member child q zero index i x low high m = absurd (omega arith)
  from_member child q (suc left) index i x low high m = elim (ℕ_discrete i index) [
    | yes same ↦ mem-append_left _ (subst (λ (j : ℕ). Mem x (child (j ∷ q))) same m)
    | no later ↦
        mem-append_right (child (index ∷ q))
          (from_member child q left (index + 1) i x (omega arith) (omega arith) m)
  ]

  -- The record of a key is listed.
  pub leaves_member :
      (laws : TagmaLaws t) (key : t.CoordPath)
      → ((n : ℕ) → n ≤ t.depth → T (trail key n) ≢ 0)
      → (levels n : ℕ) → n + levels ≡ t.depth
      → Mem (trail key t.depth) (leaves T levels (trail key n))
  unfolding leaves
  leaves_member laws key held zero n e =
      let single : leaves T zero (trail key n) ≡ trail key n ∷ [] =
        ground (arith, held n (omega arith)) in
      let same : trail key t.depth ≡ trail key n =
        ap (λ (k : ℕ). trail key k) {x = t.depth} {y = n} (omega arith) in
      subst (Mem (trail key t.depth)) (sym single)
        (subst (λ (x : List ℕ). Mem x (trail key n ∷ [])) (sym same) mem-cons_self)
  leaves_member laws key held (suc levels) n e =
      let below : leaves T (suc levels) (trail key n)
          ≡ leaves_from (λ p. leaves T levels p) (trail key n) t.n_valid 0 =
        ground (arith, held n (omega arith)) in
      subst (Mem (trail key t.depth)) (sym below) (
        from_member (λ p. leaves T levels p) (trail key n) t.n_valid 0 (index_at key n)
          (trail key t.depth) (omega arith) (omega (arith, index_at-lt laws key n))
          (leaves_member laws key held levels (suc n) (omega arith)))
