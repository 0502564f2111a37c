-- ===== src/Binding/Enumerate/Spelling.antt =====
-- The array of coordinates that the walk fills, level by level.
use chton.Prelude.{
  ℕ, zero, suc, ◌≤◌, ◌<◌, ◌≡◌, refl, ap, ap₂, ◌∙◌, arith, Option, none, some, List, [], ◌∷◌, length,
  set, get_elem?,
}
use chton.Tagma.{Tagma, TagmaLaws}
use chton.Binding.Shape.{trail}

pub length-set {ℓ} : {A : Type ℓ} (xs : List A) (i : ℕ) (v : A) → length (set xs i v) ≡ length xs
length-set [] i v = refl
length-set (x ∷ xs) zero v = refl
length-set (x ∷ xs) (suc i) v = ap suc (length-set xs i v)

get_elem?-set_same {ℓ} :
    {A : Type ℓ} (xs : List A) (i : ℕ) (v : A) → i < length xs → get_elem? (set xs i v) i ≡ some v
get_elem?-set_same [] i v h = absurd (omega arith)
get_elem?-set_same (x ∷ xs) zero v h = refl
get_elem?-set_same (x ∷ xs) (suc i) v h = get_elem?-set_same xs i v (omega arith)

get_elem?-set_before {ℓ} :
    {A : Type ℓ} (xs : List A) (i j : ℕ) (v : A) → j < i → get_elem? (set xs i v) j ≡ get_elem? xs j
get_elem?-set_before xs zero j v h = absurd (omega arith)
get_elem?-set_before [] (suc i) j v h = refl
get_elem?-set_before (x ∷ xs) (suc i) zero v h = refl
get_elem?-set_before (x ∷ xs) (suc i) (suc j) v h = get_elem?-set_before xs i j v (omega arith)

module _ ⦃t : Tagma⦄ where
  -- The index of an entry of the array.
  abbrev pub number_of : Option t.Coord → ℕ
  number_of none = 0
  number_of (some c) = t.index c

  -- The indices of the first `n` coordinates, the last first.
  abbrev pub spell : List t.Coord → ℕ → List ℕ
  spell path zero = []
  spell path (suc n) = number_of (get_elem? path n) ∷ spell path n

  pub spell-set :
      (path : List t.Coord) (n m : ℕ) (c : t.Coord) → m ≤ n → spell (set path n c) m ≡ spell path m
  spell-set path n zero c h = refl
  spell-set path n (suc m) c h =
      ap₂ ◌∷◌ (ap number_of (get_elem?-set_before path n m c (omega arith)))
        (spell-set path n m c (omega arith))

  pub spell-set_same :
      (path : List t.Coord) (n : ℕ) (c : t.Coord)
      → n < length path
      → spell (set path n c) (suc n) ≡ t.index c ∷ spell path n
  spell-set_same path n c h =
      ap₂ ◌∷◌ (ap number_of (get_elem?-set_same path n c h)) (spell-set path n n c (omega arith))

  pub trail-path_new :
      (laws : TagmaLaws t) (path : List t.Coord) (n : ℕ)
      → length path ≡ t.depth
      → trail (t.path_new path) n ≡ spell path n
  trail-path_new laws path zero full = refl
  trail-path_new laws path (suc n) full =
      let at : t.get (t.path_new path) n ≡ get_elem? path n =
        laws.get_lem (t.path_new path) n
        ∙ ap (λ (cs : List t.Coord). get_elem? cs n) (laws.coords-new path full) in
      ap₂ ◌∷◌ (ground (arith, at)) (trail-path_new laws path n full)
