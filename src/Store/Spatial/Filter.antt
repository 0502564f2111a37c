-- ===== src/Store/Spatial/Filter.antt =====
-- `axis_filtered` agrees with the full scan, also where it walks a subtree only.
use chton.Prelude.{
  ℕ, zero, suc, ◌+◌, ◌<◌, ◌≤◌, ◌≡◌, Bool, true, false, none, some, Option-cases, inl, inr,
}
use chton.Prelude.{
  List, [], ◌∷◌, map, length, get_elem?, drop, ◌==◌, ◌&&◌, if◌then◌else◌, arith, refl, ap, ap₂, ◌∙◌,
}
use native.Mathlib.Decide.{dec_lt}
use chton.Tagma.{Tagma, TagmaLaws}
use chton.Store.Coords.{new-index}
use chton.Store.Spatial.{
  CoordSpaceN, passing, prefix_len, contiguous_prefix, prefix_coords, passes, axis_filtered,
}

-- The entries that pass a test.
abbrev pub kept : {A : Type 0} → (A → Bool) → List A → List A
kept test [] = []
kept test (x ∷ xs) = let rest = kept test xs in if test x then x ∷ rest else rest

module _ ⦃t : Tagma⦄ where
  abbrev pub begins : List t.Coord → List t.Coord → Bool
  begins [] coords = true
  begins (p ∷ prefix) [] = false
  begins (p ∷ prefix) (c ∷ coords) = (t.index c == t.index p) && begins prefix coords

  abbrev pub is_under : {V : Type 0} → List t.Coord → t.CoordPath × V → Bool
  is_under prefix entry = begins prefix (t.coords entry.0)

-- What the code relies on of `iter_prefix`: it yields the entries of `iter_tree` below the prefix, in
-- their order, and nothing at all only where there are none.
pub record PrefixLaws {t : Tagma} {V : Type 0} (c : CoordSpaceN t V) : Type 0 where
  pub some_below :
      (prefix : List t.Coord) (s : c.Space) (entries : List (t.CoordPath × V))
      → c.iter_prefix prefix s ≡ some entries
      → entries ≡ kept (is_under ⦃t = t⦄ prefix) (c.iter_tree s)
  pub none_below :
      (prefix : List t.Coord) (s : c.Space)
      → c.iter_prefix prefix s ≡ none
      → kept (is_under ⦃t = t⦄ prefix) (c.iter_tree s) ≡ []

passing-kept :
    {P V : Type 0} (test other : P × V → Bool) (entries : List (P × V))
    → ((entry : P × V) → test entry ≡ other entry)
    → passing test entries ≡ map (λ entry. entry.1) (kept other entries)
unfolding passing
passing-kept test other [] same = refl
passing-kept test other (e ∷ entries) same =
    ground (arith, same e, passing-kept test other entries same)

passing_none :
    {P V : Type 0} (test : P × V → Bool) (entries : List (P × V))
    → ((entry : P × V) → test entry ≡ false)
    → passing test entries ≡ []
unfolding passing
passing_none test [] never = refl
passing_none test (e ∷ entries) never = ground (arith, never e, passing_none test entries never)

-- The checks are of the axes from `i` on.
abbrev IsFrom : ℕ → List (ℕ × ℕ) → Type 0
IsFrom i [] = Unit {0}
IsFrom i ((axis, val) ∷ checks) = (axis ≡ i) × IsFrom (i + 1) checks

prefix_len-le : (i : ℕ) (checks : List (ℕ × ℕ)) → prefix_len i checks ≤ i + length checks
unfolding prefix_len
prefix_len-le i [] = omega arith
prefix_len-le i ((axis, val) ∷ checks) = ground (arith, prefix_len-le (i + 1) checks)

prefix_len-IsFrom :
    (i : ℕ) (checks : List (ℕ × ℕ)) → prefix_len i checks ≡ i + length checks → IsFrom i checks
unfolding prefix_len
prefix_len-IsFrom i [] e = tt
prefix_len-IsFrom i ((axis, val) ∷ checks) e =
    (ground (arith, prefix_len-le (i + 1) checks), prefix_len-IsFrom (i + 1) checks (ground arith))

drop_here {ℓ} :
    {A : Type ℓ} (xs : List A) (i : ℕ)
    → i < length xs
    → (x : A) × (get_elem? xs i ≡ some x) × (drop i xs ≡ x ∷ drop (suc i) xs)
drop_here [] i h = absurd (omega arith)
drop_here (x ∷ xs) zero h = (x, refl, refl)
drop_here (x ∷ xs) (suc i) h = drop_here xs i (omega arith)

drop_past {ℓ} : {A : Type ℓ} (xs : List A) (i : ℕ) → length xs ≤ i → drop i xs ≡ []
drop_past [] zero h = refl
drop_past [] (suc i) h = refl
drop_past (x ∷ xs) zero h = absurd (omega arith)
drop_past (x ∷ xs) (suc i) h = drop_past xs i (omega arith)

module _ ⦃t : Tagma⦄ (laws : TagmaLaws t) where
  no_coord : (val : ℕ) → t.coord_new val ≡ none → t.n_valid ≤ val
  no_coord val e = elim (dec_lt val t.n_valid) [
    | yes h ↦ let (c, at, same) = laws.new_valid val h in absurd (ground (arith, e, at))
    | no h ↦ omega arith
  ]

  prefix_coords-cons :
      (axis val : ℕ) (checks : List (ℕ × ℕ)) (prefix : List t.Coord)
      → prefix_coords ((axis, val) ∷ checks) ≡ some prefix
      → (p : t.Coord) × (rest : List t.Coord) × (prefix ≡ p ∷ rest)
        × (t.index p ≡ val)
        × (prefix_coords checks ≡ some rest)
  unfolding prefix_coords
  prefix_coords-cons axis val checks prefix e = elim (Option-cases (t.coord_new val)) [
    | inl missing ↦ absurd (ground (arith, missing))
    | inr (p, at) ↦ elim (Option-cases (prefix_coords checks)) [
      | inl missing ↦ absurd (ground (arith, at, missing))
      | inr (rest, found) ↦ (p, rest, ground (arith, at, found), new-index laws val p at, found)
    ]
  ]

  -- The checks on the axes from `i` on are a test for a prefix.
  passes-begins :
      (i : ℕ) (checks : List (ℕ × ℕ)) (coords prefix : List t.Coord)
      → IsFrom i checks
      → length coords ≡ t.depth
      → prefix_coords checks ≡ some prefix
      → passes checks coords ≡ begins prefix (drop i coords)
  unfolding passes prefix_coords
  passes-begins i [] coords prefix from full e =
      let same : [] ≡ prefix = ground (arith, e) in
      ap (λ (l : List t.Coord). begins l (drop i coords)) same
  passes-begins i ((axis, val) ∷ checks) coords prefix (here, from) full e =
      let (p, rest, shape, value, found) = prefix_coords-cons axis val checks prefix e in
      let next = passes-begins (i + 1) checks coords rest from full found in
      elim (dec_lt i (length coords)) [
        | yes low ↦
            let (x, at, split) = drop_here coords i low in
            let at' : get_elem? coords axis ≡ some x =
              ap (λ (j : ℕ). get_elem? coords j) here ∙ at in
            let one : drop (i + 1) coords ≡ drop (suc i) coords =
              ap (λ (j : ℕ). drop j coords) {x = i + 1} {y = suc i} (omega arith) in
            let right : begins prefix (drop i coords)
                ≡ ((t.index x == t.index p) && begins rest (drop (suc i) coords)) =
              ap₂ (λ (a b : List t.Coord). begins a b) shape split in
            ground (arith, at', one, next, value, right)
        | no high ↦
            let right : begins prefix (drop i coords) ≡ false =
              ap₂ (λ (a b : List t.Coord). begins a b) shape (drop_past coords i (omega arith)) in
            ground (arith, right)
      ]

  -- A check on a value that is no coordinate fails everywhere.
  passes-none :
      (checks : List (ℕ × ℕ)) (coords : List t.Coord)
      → prefix_coords checks ≡ none
      → passes checks coords ≡ false
  unfolding passes prefix_coords
  passes-none [] coords e = absurd (ground (arith, e))
  passes-none ((axis, val) ∷ checks) coords e = elim (Option-cases (t.coord_new val)) [
    | inl missing ↦ elim (Option-cases (get_elem? coords axis)) [
      | inl beyond ↦ ground (arith, beyond)
      | inr (x, at) ↦ ground (arith, at, laws.index-lt x, no_coord val missing)
    ]
    | inr (p, at) ↦ elim (Option-cases (get_elem? coords axis)) [
      | inl beyond ↦ ground (arith, beyond)
      | inr (x, here) ↦ ground (arith, here, at, passes-none checks coords)
    ]
  ]

  module _ {V : Type 0} (c : CoordSpaceN t V) (prefixes : PrefixLaws c)
      (chars : List ℕ → List ℕ) where
    -- Over a space whose prefixes iterate what they should, `axis_filtered` returns the values of the
    -- entries that pass all checks, in the order of the full iteration, whatever the checks are.
    pub axis_filtered-scan :
        (checks : List (ℕ × ℕ)) (s : c.Space)
        → axis_filtered c chars checks s
          ≡ passing (λ (entry : t.CoordPath × V). passes checks (t.coords entry.0)) (c.iter_tree s)
    unfolding axis_filtered contiguous_prefix
    axis_filtered-scan checks s = elim (Option-cases (contiguous_prefix checks)) [
      | inl scan ↦ ground (arith, scan)
      | inr (n, contiguous) ↦
          let from : IsFrom 0 checks = prefix_len-IsFrom 0 checks (ground (arith, contiguous)) in
          elim (Option-cases (prefix_coords checks)) [
            | inl invalid ↦
                let nothing =
                  passing_none (λ (entry : t.CoordPath × V). passes checks (t.coords entry.0))
                    (c.iter_tree s) (λ entry. passes-none checks (t.coords entry.0) invalid) in
                ground (arith, contiguous, invalid, nothing)
            | inr (prefix, found) ↦
                let scan =
                  passing-kept (λ (entry : t.CoordPath × V). passes checks (t.coords entry.0))
                    (is_under prefix) (c.iter_tree s)
                    (λ entry.
                      passes-begins 0 checks (t.coords entry.0) prefix from
                        (laws.length-coords entry.0) found) in
                elim (Option-cases (c.iter_prefix prefix s)) [
                  | inl missing ↦ ground (
                    arith,
                    contiguous,
                    found,
                    missing,
                    scan,
                    ap (map (λ (entry : t.CoordPath × V). entry.1))
                        (prefixes.none_below prefix s missing),
                  )
                  | inr (entries, below) ↦ ground (
                    arith,
                    contiguous,
                    found,
                    below,
                    scan,
                    ap (map (λ (entry : t.CoordPath × V). entry.1))
                        (prefixes.some_below prefix s entries below),
                  )
                ]
          ]
    ]
