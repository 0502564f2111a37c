-- ===== src/Binding/Enumerate/Distinct.antt =====
-- No path is listed twice.
use chton.Prelude.{
  ℕ, zero, suc, ◌+◌, ◌≤◌, ◌≡◌, ◌≢◌, ap, sym, ◌∙◌, arith, List, [], ◌∷◌, ◌++◌, All, drop, map,
}
use native.Mathlib.Decide.{ℕ_discrete}
use chton.Tagma.{Tagma}
use chton.Binding.Enumerate.{leaves, leaves_from}

-- No entry twice.
abbrev pub IsDistinct {ℓ} : {A : Type ℓ} → List A → Type ℓ
IsDistinct [] = Unit
IsDistinct (x ∷ xs) = All (λ y. x ≢ y) xs × IsDistinct xs

unmap_all {ℓ κ} :
    {A : Type ℓ} {B : Type κ} (f : A → B) (x : A) (xs : List A)
    → All (λ y. f x ≢ y) (map f xs)
    → All (λ y. x ≢ y) xs
unmap_all f x [] h = tt
unmap_all f x (y ∷ xs) h = ((λ e. h.0 (ap f e)), unmap_all f x xs h.1)

pub IsDistinct-map {ℓ κ} :
    {A : Type ℓ} {B : Type κ} (f : A → B) (xs : List A) → IsDistinct (map f xs) → IsDistinct xs
IsDistinct-map f [] h = tt
IsDistinct-map f (x ∷ xs) h = (unmap_all f x xs h.0, IsDistinct-map f xs h.1)

module _ ⦃t : Tagma⦄ (T : List ℕ → ℕ) where
  -- A path that is `n` levels below the slots of `q` from `index` on.
  abbrev IsBelow : ℕ → List ℕ → ℕ → List ℕ → Type 0
  IsBelow n q index r = (i : ℕ) × (index ≤ i) × (drop n r ≡ i ∷ q)

  both : (P : List ℕ → Type 0) (xs ys : List (List ℕ)) → All P xs → All P ys → All P (xs ++ ys)
  both P [] ys h h' = h'
  both P (x ∷ xs) ys h h' = (h.0, both P xs ys h.1 h')

  mapped :
      (P Q : List ℕ → Type 0) (xs : List (List ℕ))
      → ((r : List ℕ) → P r → Q r)
      → All P xs
      → All Q xs
  mapped P Q [] f h = tt
  mapped P Q (x ∷ xs) f h = (f x h.0, mapped P Q xs f h.1)

  drop_down : (n : ℕ) (r q : List ℕ) (i : ℕ) → drop n r ≡ i ∷ q → drop (suc n) r ≡ q
  drop_down zero [] q i e = absurd (cc)
  drop_down zero (x ∷ r) q i e = cc
  drop_down (suc n) [] q i e = absurd (cc)
  drop_down (suc n) (x ∷ r) q i e = drop_down n r q i e

  from_IsBelow :
      (n : ℕ) (q : List ℕ) (left index : ℕ)
      → ((p : List ℕ) → All (λ r. drop n r ≡ p) (leaves T n p))
      → All (IsBelow n q index) (leaves_from (λ p. leaves T n p) q left index)
  unfolding leaves_from
  from_IsBelow n q zero index each = tt
  from_IsBelow n q (suc left) index each =
      both (IsBelow n q index) (leaves T n (index ∷ q)) _
        (mapped (λ r. drop n r ≡ index ∷ q) (IsBelow n q index) (leaves T n (index ∷ q))
          (λ r e. (index, omega arith, e)) (each (index ∷ q)))
        (mapped (IsBelow n q (index + 1)) (IsBelow n q index) _
          (λ r (i, le, e). (i, omega arith, e)) (from_IsBelow n q left (index + 1) each))

  leaves_below : (n : ℕ) (q : List ℕ) → All (λ r. drop n r ≡ q) (leaves T n q)
  unfolding leaves
  leaves_below zero q = elim (ℕ_discrete (T q) 0) [
    | yes empty ↦ ground (arith, empty)
    | no held ↦ ground (arith, held)
  ]
  leaves_below (suc n) q =
      let below =
        mapped (IsBelow n q 0) (λ r. drop (suc n) r ≡ q) _ (λ r (i, le, e). drop_down n r q i e)
          (from_IsBelow n q t.n_valid 0 (leaves_below n)) in
      elim (ℕ_discrete (T q) 0) [
        | yes empty ↦ ground (arith, empty)
        | no held ↦ ground (arith, held, below)
      ]

  append-IsDistinct :
      (xs ys : List (List ℕ)) (P Q : List ℕ → Type 0)
      → ((x y : List ℕ) → P x → Q y → x ≢ y)
      → All P xs
      → All Q ys
      → IsDistinct xs
      → IsDistinct ys
      → IsDistinct (xs ++ ys)
  append-IsDistinct [] ys P Q apart hx hy d d' = d'
  append-IsDistinct (x ∷ xs) ys P Q apart hx hy d d' = (
    both (λ y. x ≢ y) xs ys d.0 (mapped Q (λ y. x ≢ y) ys (λ y k. apart x y hx.0 k) hy),
    append-IsDistinct xs ys P Q apart hx.1 hy d.1 d',
  )

  from_IsDistinct :
      (n : ℕ) (q : List ℕ) (left index : ℕ)
      → ((p : List ℕ) → IsDistinct (leaves T n p))
      → IsDistinct (leaves_from (λ p. leaves T n p) q left index)
  unfolding leaves_from
  from_IsDistinct n q zero index each = tt
  from_IsDistinct n q (suc left) index each =
      append-IsDistinct (leaves T n (index ∷ q)) _ (λ r. drop n r ≡ index ∷ q)
        (IsBelow n q (index + 1))
        (λ x y e (i, le, e') same.
          let heads : index ∷ q ≡ i ∷ q = sym e ∙ ap (drop n) same ∙ e' in
          let equal : index ≡ i = cc (heads) in omega arith)
        (leaves_below n (index ∷ q)) (from_IsBelow n q left (index + 1) (leaves_below n))
        (each (index ∷ q)) (from_IsDistinct n q left (index + 1) each)

  -- No path is listed twice.
  pub leaves-IsDistinct : (n : ℕ) (q : List ℕ) → IsDistinct (leaves T n q)
  unfolding leaves
  leaves-IsDistinct zero q = elim (ℕ_discrete (T q) 0) [
    | yes empty ↦ ground (arith, empty)
    | no held ↦ ground (arith, held)
  ]
  leaves-IsDistinct (suc n) q =
      let below = from_IsDistinct n q t.n_valid 0 (leaves-IsDistinct n) in
      elim (ℕ_discrete (T q) 0) [
        | yes empty ↦ ground (arith, empty)
        | no held ↦ ground (arith, held, below)
      ]
