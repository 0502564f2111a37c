-- ===== src/Binding/Shape/Trail.antt =====
-- The indices of a key, level by level.
use chton.Prelude.{ℕ, zero, suc, ◌≤◌, ◌<◌, ◌≡◌, some, List, [], ◌∷◌, length, get_elem?}
use native.Mathlib.Decide.{ℕ_discrete}
use chton.Prelude.{Option-cases, inl, inr, arith, refl, ap, sym, ◌∙◌}
use chton.Tagma.{Tagma, TagmaLaws}
use chton.Binding.Shape.{IsPath, index_at, trail}

get_elem?-some {ℓ} :
    {A : Type ℓ} (xs : List A) (i : ℕ) → i < length xs → (x : A) × (get_elem? xs i ≡ some x)
get_elem?-some [] i h = absurd (omega arith)
get_elem?-some (x ∷ xs) zero h = (x, refl)
get_elem?-some (x ∷ xs) (suc i) h = get_elem?-some xs i (omega arith)

module _ ⦃t : Tagma⦄ (laws : TagmaLaws t) (key : t.CoordPath) where
  -- A key has a coordinate at every level.
  pub get-some : (n : ℕ) → n < t.depth → (c : t.Coord) × (t.get key n ≡ some c)
  get-some n h =
      let (c, e) = get_elem?-some (t.coords key) n (omega (arith, laws.length-coords key)) in
      (c, laws.get_lem key n ∙ e)

  pub index_at-lt : (n : ℕ) → index_at key n < t.n_valid
  index_at-lt n = elim (Option-cases (t.get key n)) [
    | inl e ↦ ground (arith, laws.n_valid_pos)
    | inr (c, e) ↦ ground (arith, laws.index-lt c)
  ]

  pub length-trail : (n : ℕ) → length (trail key n) ≡ n
  length-trail zero = refl
  length-trail (suc n) = ap suc (length-trail n)

  pub trail-IsPath : (n : ℕ) → n ≤ t.depth → IsPath (trail key n)
  trail-IsPath zero h = (tt, omega arith)
  trail-IsPath (suc n) h =
      ((index_at-lt n, (trail-IsPath n (omega arith)).0), omega (arith, length-trail n))

get_elem?-ext {ℓ} :
    {A : Type ℓ} (xs ys : List A)
    → length xs ≡ length ys
    → ((i : ℕ) → i < length xs → get_elem? xs i ≡ get_elem? ys i)
    → xs ≡ ys
get_elem?-ext [] [] e h = refl
get_elem?-ext [] (y ∷ ys) e h = absurd (omega arith)
get_elem?-ext (x ∷ xs) [] e h = absurd (omega arith)
get_elem?-ext (x ∷ xs) (y ∷ ys) e h =
    cc (h 0 (omega arith), get_elem?-ext xs ys (omega arith) (λ i p. h (suc i) (omega arith)))

module _ ⦃t : Tagma⦄ (laws : TagmaLaws t) (key other : t.CoordPath) where
  trail-index :
      (n : ℕ) → trail key n ≡ trail other n → (i : ℕ) → i < n → index_at key i ≡ index_at other i
  trail-index zero e i h = absurd (omega arith)
  trail-index (suc n) e i h = elim (ℕ_discrete i n) [
    | yes same ↦ cc
    | no differs ↦ trail-index n (cc) i (omega arith)
  ]

  same_coord :
      trail key t.depth ≡ trail other t.depth
      → (i : ℕ) → i < t.depth
      → get_elem? (t.coords key) i ≡ get_elem? (t.coords other) i
  same_coord e i h =
      let (c, at) = get-some laws key i h in
      let (d, at') = get-some laws other i h in
      let indices : t.index c ≡ t.index d = ground (arith, at, at', trail-index t.depth e i h) in
      cc (at, at', laws.get_lem key i, laws.get_lem other i, laws.index_injective c d indices)

  -- Keys with the same trail are the same.
  pub trail-injective : trail key t.depth ≡ trail other t.depth → key ≡ other
  trail-injective e =
      let coords : t.coords key ≡ t.coords other =
        get_elem?-ext (t.coords key) (t.coords other)
          (omega (arith, laws.length-coords key, laws.length-coords other))
          (λ i h. same_coord e i (omega (arith, laws.length-coords key))) in
      sym (laws.new-coords key) ∙ ap t.path_new coords ∙ laws.new-coords other
