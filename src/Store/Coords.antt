-- ===== src/Store/Coords.antt =====
-- The coordinates of digits and of letters determine them.
use chton.Prelude.{ℕ, suc, ◌≡◌, ◌⊎◌, inl, inr, some, Option-cases}
use chton.Prelude.{List, [], ◌∷◌, length, map, arith, refl, ap, ap₂, sym, subst, ◌∙◌}
use native.Mathlib.Decide.{dec_lt}
use chton.Prelude.Outcome.{Result, ok, err}
use chton.Tagma.{Tagma, TagmaLaws}
use chton.Store.Key.{coords_of, letters}

pub Result-cases {ℓ κ} :
    {E : Type ℓ} {A : Type κ} (r : Result E A) → ((a : A) × (r ≡ ok a)) ⊎ ((e : E) × (r ≡ err e))
Result-cases (ok a) = inl (a, refl)
Result-cases (err e) = inr (e, refl)

module _ ⦃t : Tagma⦄ (laws : TagmaLaws t) where
  pub new-index : (i : ℕ) (c : t.Coord) → t.coord_new i ≡ some c → t.index c ≡ i
  new-index i c e = elim (dec_lt i t.n_valid) [
    | yes h ↦
        let (d, at, same) = laws.new_valid i h in
        let coord : d ≡ c = ground (arith, at) in ground (arith, same, coord)
    | no h ↦ absurd (ground (arith, laws.new_invalid i (omega arith)))
  ]

  -- The indices of the coordinates are the digits.
  pub coords_of-index :
      (ds : List ℕ) (cs : List t.Coord) → coords_of ds ≡ ok cs → map (λ c. t.index c) cs ≡ ds
  unfolding coords_of
  coords_of-index [] cs e =
      let same : [] ≡ cs = ground (arith, e) in
      subst (λ (l : List t.Coord). map (λ c. t.index c) l ≡ []) same refl
  coords_of-index (d ∷ ds) cs e = elim (Option-cases (t.coord_new d)) [
    | inl missing ↦ absurd (ground (arith, missing))
    | inr (c, at) ↦ elim (Result-cases (coords_of ds)) [
      | inr (f, failed) ↦ absurd (ground (arith, at, failed))
      | inl (rest, found) ↦
          let same : c ∷ rest ≡ cs = ground (arith, at, found) in
          subst (λ (l : List t.Coord). map (λ c. t.index c) l ≡ d ∷ ds) same
            (ap₂ ◌∷◌ (new-index d c at) (coords_of-index ds rest found))
    ]
  ]

  -- The letters of a list of coordinates.
  letters-cons :
      (ch : ℕ) (chs : List ℕ) (cs : List t.Coord)
      → letters (ch ∷ chs) ≡ some cs
      → (c : t.Coord) × (rest : List t.Coord) × (cs ≡ c ∷ rest)
        × (t.from_char ch ≡ some c)
        × (letters chs ≡ some rest)
  unfolding letters
  letters-cons ch chs cs e = elim (Option-cases (t.from_char ch)) [
    | inl missing ↦ absurd (ground (arith, missing))
    | inr (c, at) ↦ elim (Option-cases (letters chs)) [
      | inl missing ↦ absurd (ground (arith, at, missing))
      | inr (rest, found) ↦ (c, rest, ground (arith, at, found), at, found)
    ]
  ]

  pub letters-length :
      (chs : List ℕ) (cs : List t.Coord) → letters chs ≡ some cs → length cs ≡ length chs
  unfolding letters
  letters-length [] cs e =
      let same : [] ≡ cs = ground (arith, e) in ap (λ (l : List t.Coord). length l) (sym same)
  letters-length (ch ∷ chs) cs e =
      let (c, rest, same, at, found) = letters-cons ch chs cs e in
      ap (λ (l : List t.Coord). length l) same ∙ ap suc (letters-length chs rest found)

  pub letters-injective :
      (a b : List ℕ) (cs : List t.Coord) → letters a ≡ some cs → letters b ≡ some cs → a ≡ b
  letters-injective [] [] cs e e' = refl
  letters-injective [] (y ∷ b) cs e e' =
      absurd (omega (arith, letters-length [] cs e, letters-length (y ∷ b) cs e'))
  letters-injective (x ∷ a) [] cs e e' =
      absurd (omega (arith, letters-length (x ∷ a) cs e, letters-length [] cs e'))
  letters-injective (x ∷ a) (y ∷ b) cs e e' =
      let (c, rest, same, at, found) = letters-cons x a cs e in
      let (d, rest', same', at', found') = letters-cons y b cs e' in
      let heads : c ≡ d = cc (same, same') in
      let tails : rest' ≡ rest = cc (same, same') in
      ap₂ ◌∷◌ (laws.from_char_injective x y c at (at' ∙ ap some (sym heads)))
        (letters-injective a b rest found (found' ∙ ap some tails))
