-- ===== src/Store/Injective.antt =====
-- Different keys have different paths.
use chton.Prelude.{ℕ, suc, ◌-◌, ◌≤◌, ◌≡◌, inl, inr, some, List, [], ◌∷◌, ◌++◌}
use chton.Prelude.{All, length, take, get_or, replicate, map, arith, refl, ap, sym, ◌∙◌}
use chton.Prelude.{length-append, length-take, length-replicate, get_or-take}
use chton.Prelude.Outcome.{ok}
use chton.Prelude.Bytes.{IsByte}
use chton.Tagma.{Tagma, TagmaLaws}
use chton.Store.Key.{str_to_coordpath}
use chton.Store.Digits.{digits_loop-injective, length-digits_loop, from_be_same}
use chton.Store.Coords.{new-index, coords_of-index, letters-length, letters-injective}
use chton.Store.Shapes.{General, Canonical, digits_of, str_to_coordpath-shape}

length-map : {A : Type 0} (f : A → ℕ) (xs : List A) → length (map f xs) ≡ length xs
length-map f [] = refl
length-map f (x ∷ xs) = ap suc (length-map f xs)

append-injective :
    {A : Type 0} (xs ys : List A) (x y : A)
    → length xs ≡ length ys
    → xs ++ (x ∷ []) ≡ ys ++ (y ∷ [])
    → (xs ≡ ys) × (x ≡ y)
append-injective [] [] x y l e = (refl, cc)
append-injective [] (b ∷ ys) x y l e = absurd (omega arith)
append-injective (a ∷ xs) [] x y l e = absurd (omega arith)
append-injective (a ∷ xs) (b ∷ ys) x y l e =
    let tails : xs ++ (x ∷ []) ≡ ys ++ (y ∷ []) = cc in
    let (rest, last) = append-injective xs ys x y (omega arith) tails in (cc, last)

module _ ⦃t : Tagma⦄ (laws : TagmaLaws t) (deep : 1 ≤ t.depth) where
  -- A path of `depth` coordinates determines them.
  path-parts :
      (xs ys : List t.Coord) (x y : t.Coord)
      → length xs ≡ t.depth - 1
      → length ys ≡ t.depth - 1
      → t.path_new (xs ++ (x ∷ [])) ≡ t.path_new (ys ++ (y ∷ []))
      → (xs ≡ ys) × (x ≡ y)
  path-parts xs ys x y l l' e = append-injective xs ys x y (omega arith) (
      sym (laws.coords-new (xs ++ (x ∷ [])) (omega (arith, length-append xs (x ∷ []))))
      ∙ ap t.coords e
      ∙ laws.coords-new (ys ++ (y ∷ [])) (omega (arith, length-append ys (y ∷ []))))

  digits-length : (bytes : List ℕ) → length (digits_of bytes).0 ≡ t.depth
  digits-length bytes =
      length-digits_loop (t.depth - 1) bytes (replicate t.depth 0)
      ∙ length-replicate {A = ℕ} t.depth 0

  General-length :
      (bytes : List ℕ) (p : t.CoordPath) (g : General bytes p) → length g.payload ≡ t.depth - 1
  General-length bytes p g = omega (
    arith,
    length-map (λ c. t.index c) g.payload,
    ap (λ (l : List ℕ). length l) (coords_of-index laws _ g.payload g.payload_eq),
    length-take (t.depth - 1) (digits_of bytes).0,
    digits-length bytes,
  )

  Canonical-length :
      (chs : List ℕ) (p : t.CoordPath) (c : Canonical chs p) → length c.coords ≡ t.depth - 1
  Canonical-length chs p c = letters-length laws chs c.coords c.letters_eq ∙ c.full

  -- The formats do not meet: one has the marker 0, the other the length.
  formats-differ : (chs b : List ℕ) (p : t.CoordPath) → Canonical chs p → General b p → length b ≡ 0
  formats-differ chs b p c g =
      let (front, marker) =
        path-parts c.coords g.payload c.first g.last (Canonical-length chs p c)
          (General-length b p g) (sym c.path_eq ∙ g.path_eq) in
      sym (new-index laws (length b) g.last g.marker_eq)
      ∙ ap t.index (sym marker)
      ∙ new-index laws 0 c.first c.marker_eq

  General-injective :
      (a b : List ℕ) (p : t.CoordPath)
      → All IsByte a
      → All IsByte b
      → General a p
      → General b p
      → a ≡ b
  General-injective a b p bytes bytes' g h =
      let (front, marker) =
        path-parts g.payload h.payload g.last h.last (General-length a p g) (General-length b p h)
          (sym g.path_eq ∙ h.path_eq) in
      let lengths : length a ≡ length b =
        sym (new-index laws (length a) g.last g.marker_eq)
        ∙ ap t.index marker
        ∙ new-index laws (length b) h.last h.marker_eq in
      let digits : take (t.depth - 1) (digits_of a).0 ≡ take (t.depth - 1) (digits_of b).0 =
        sym (coords_of-index laws _ g.payload g.payload_eq)
        ∙ ap (λ (l : List t.Coord). map (λ c. t.index c) l) front
        ∙ coords_of-index laws _ h.payload h.payload_eq in
      from_be_same a b bytes bytes' lengths (
        digits_loop-injective (t.depth - 1) a b (replicate t.depth 0) (replicate t.depth 0) bytes
          bytes' (omega (arith, length-replicate {A = ℕ} t.depth 0))
          (omega (arith, length-replicate {A = ℕ} t.depth 0))
          (λ j low. ground (
            arith,
            get_or-take (t.depth - 1) (digits_of a).0 j 0,
            get_or-take (t.depth - 1) (digits_of b).0 j 0,
            ap (λ (l : List ℕ). get_or l j 0) digits,
          ))
          g.used_up h.used_up)

  -- At a depth from 1 on, two keys of bytes with the same path are the same, if strings with the
  -- same characters are.
  pub str_to_coordpath-injective :
      (chars : List ℕ → List ℕ)
      → ((x y : List ℕ) → chars x ≡ chars y → x ≡ y)
      → (a b : List ℕ) → (p : t.CoordPath) → All IsByte a
      → All IsByte b
      → str_to_coordpath chars a ≡ ok p
      → str_to_coordpath chars b ≡ ok p
      → a ≡ b
  str_to_coordpath-injective chars decodes a b p bytes bytes' e e' =
      elim (str_to_coordpath-shape chars a p e) [
        | inl c ↦ elim (str_to_coordpath-shape chars b p e') [
          | inl d ↦
              let (same, marker) =
                path-parts c.coords d.coords c.first d.first (Canonical-length (chars a) p c)
                  (Canonical-length (chars b) p d) (sym c.path_eq ∙ d.path_eq) in
              decodes a b (
                letters-injective laws (chars a) (chars b) d.coords (c.letters_eq ∙ ap some same)
                  d.letters_eq)
          | inr g ↦ absurd (g.some_byte (formats-differ (chars a) b p c g))
        ]
        | inr g ↦ elim (str_to_coordpath-shape chars b p e') [
          | inl d ↦ absurd (g.some_byte (formats-differ (chars b) a p d g))
          | inr h ↦ General-injective a b p bytes bytes' g h
        ]
      ]
