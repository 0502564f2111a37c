-- ===== src/Map/Answers.antt =====
-- The queries of a store that represents a map.
use chton.Prelude.{
  Option-cases, ltb, Bool-cases, true, inr, inl, false, sym, subst, ◌⊎◌, ◌+◌, ◌^◌, ◌≤◌, ◌*◌, ◌<◌, ℕ,
  suc, ◌≡◌, Option, none, some, List, [], ◌∷◌, arith, refl,
}
use native.Mathlib.Decide.{dec_lt}
use native.Mathlib.Nat.{one-le-pow, pow-succ'}
use chton.Prelude.Outcome.{panic, err, Fault, Result, ok}
use chton.Tagma.{Tagma, TagmaLaws}
use chton.Origin.{Origin}
use chton.Origin.Laws.{IsMedium}
use chton.Map.{MapError, Bool, CoordMapStore}
use chton.Map.Contents.{Represents, get_path-Represents}
use chton.Map.Surface.{word, cube_capacity, reserved, found_on, proximity, bounding_box_range}

-- The values of a map along a list of paths.
abbrev pub listed : {P V : Type 0} → (P → Option V) → List P → List (P × V)
listed f [] = []
listed f (p ∷ ps) = let rest = listed f ps in elim (f p) [ none ↦ rest | some v ↦ (p, v) ∷ rest ]

-- The outcome of a query that reserves `size` bytes, and computes that in `usize`.
abbrev pub IsNear : {A : Type 0} → Bool → ℕ → Result (Fault MapError) A → A → Type 0
IsNear checks size out answer =
    (size < 2 ^ 63) × (out ≡ ok answer)
    ⊎ (2 ^ 63 ≤ size) × ((out ≡ err panic) ⊎ (checks ≡ false) × (out ≡ ok answer))

-- The outcome of a query that reserves `counted` items.
abbrev pub IsBoxed : {A : Type 0} → ℕ → Option ℕ → Result (Fault MapError) A → A → Type 0
IsBoxed item none out answer = out ≡ err panic
IsBoxed item (some n) out answer =
    (n * item < 2 ^ 63) × (out ≡ ok answer) ⊎ (2 ^ 63 ≤ n * item) × (out ≡ err panic)

boxed :
    {A : Type 0} (item : ℕ) (counted : Option ℕ) (answer : A)
    → IsBoxed item counted (reserved item counted (ok answer)) answer
unfolding reserved
boxed item none answer = refl
boxed item (some n) answer = elim (dec_lt (n * item) (2 ^ 63)) [
  | yes fits ↦ inl (fits, ground arith)
  | no big ↦ inr (omega arith, ground arith)
]

le_times : (x item : ℕ) → 0 < item → x ≤ x * item
le_times x item h = grind arith

le_power : (x n : ℕ) → 0 < x → x ≤ x ^ suc n
le_power x n h = grind (arith, one-le-pow n x h, pow-succ' x n)

module _ ⦃t : Tagma⦄ (last : ℕ) (depth_eq : suc last ≡ t.depth) where
  side_le : (radius : ℕ) → 2 * radius + 1 ≤ (2 * radius + 1) ^ t.depth
  side_le radius =
      subst (λ (n : ℕ). 2 * radius + 1 ≤ (2 * radius + 1) ^ n) depth_eq
        (le_power (2 * radius + 1) last (omega arith))

  cube_capacity_fits :
      (checks : Bool) (radius : ℕ)
      → (2 * radius + 1) ^ t.depth < 2 ^ 64
      → cube_capacity checks radius ≡ some ((2 * radius + 1) ^ t.depth)
  unfolding cube_capacity word
  cube_capacity_fits checks radius h =
      let short : ltb (2 * radius + 1) (2 ^ 64) ≡ true = ground (arith, side_le radius) in
      ground (arith, short)

  cube_capacity_overflows :
      (radius : ℕ) → 2 ^ 64 ≤ (2 * radius + 1) ^ t.depth → cube_capacity true radius ≡ none
  unfolding cube_capacity word
  cube_capacity_overflows radius h = elim (Bool-cases (ltb (2 * radius + 1) (2 ^ 64))) [
    | inl short ↦ ground (arith, short)
    | inr long ↦ ground (arith, long)
  ]

  too_big :
      {A : Type 0} (checks : Bool) (item radius : ℕ)
      → 2 ^ 63 ≤ (2 * radius + 1) ^ t.depth * item
      → (answer : A)
      → let out = reserved {E = MapError} item (cube_capacity checks radius) (ok answer) in
        (out ≡ err panic) ⊎ (checks ≡ false) × (out ≡ ok answer)
  unfolding reserved
  too_big true item radius big answer = elim (dec_lt ((2 * radius + 1) ^ t.depth) (2 ^ 64)) [
    | yes fits ↦ inl (ground (arith, cube_capacity_fits true radius fits))
    | no over ↦ inl (ground (arith, cube_capacity_overflows radius (omega arith)))
  ]
  too_big false item radius big answer = elim (Option-cases (cube_capacity false radius)) [
    | inl missing ↦ inl (ground (arith, missing))
    | inr (n, found) ↦ elim (Bool-cases (ltb (n * item) (2 ^ 63))) [
      | inl fits ↦ inr (refl, ground (arith, found, fits))
      | inr beyond ↦ inl (ground (arith, found, beyond))
    ]
  ]

  near :
      {A : Type 0} (checks : Bool) (item radius : ℕ)
      → 0 < item
      → (answer : A)
      → IsNear checks
          ((2 * radius + 1) ^ t.depth * item)
          (reserved item (cube_capacity checks radius) (ok answer))
          answer
  unfolding reserved
  near checks item radius h answer =
      let power = (2 * radius + 1) ^ t.depth in
      let bytes : power ≤ power * item = le_times power item h in
      elim (dec_lt (power * item) (2 ^ 63)) [
        | yes fits ↦
            inl (fits, ground (arith, cube_capacity_fits checks radius (omega (arith, bytes))))
        | no big ↦ inr (omega arith, too_big checks item radius (omega arith) answer)
      ]

module _ ⦃t : Tagma⦄ (laws : TagmaLaws t) {S : Type 0} ⦃o : Origin S⦄ {byte : S → ℕ → ℕ}
    (medium : IsMedium o byte) (last : ℕ) (depth_eq : suc last ≡ t.depth) (m : CoordMapStore S)
    (V : t.CoordPath → Option (List ℕ)) (r : Represents byte last m V) where
  found_on-listed : (paths : List t.CoordPath) → found_on paths m ≡ ok (listed V paths)
  unfolding found_on
  found_on-listed [] = refl
  found_on-listed (p ∷ ps) =
      ground (arith, get_path-Represents laws medium last depth_eq m V p r, found_on-listed ps)

  -- On a store that represents a map, a proximity query returns the values of the map along the paths
  -- of the cube, in their order, if (2 * radius + 1) ^ N items take less than 2 ^ 63 bytes. If they do
  -- not, it panics, unless the build does not check for overflow: there it panics or returns those
  -- values. A query of a box returns the values along the paths of the box, in their order, if the
  -- counted items take less than 2 ^ 63 bytes, and panics if they do not or if the count panics.
  pub queries-listed :
      (checks : Bool) (item : ℕ)
      → 0 < item
      → (cube : t.CoordPath → ℕ → List t.CoordPath) (center : t.CoordPath) (radius : ℕ)
      → (count_paths : List (ℕ × ℕ) → Option ℕ) (box : List (ℕ × ℕ) → List t.CoordPath)
      → (ranges : List (ℕ × ℕ))
      → IsNear checks
          ((2 * radius + 1) ^ t.depth * item)
          (proximity checks item cube center radius m)
          (listed V (cube center radius))
        × IsBoxed item
            (count_paths ranges)
            (bounding_box_range item count_paths box ranges m)
            (listed V (box ranges))
  unfolding proximity bounding_box_range
  queries-listed checks item some_byte cube center radius count_paths box ranges = (
    subst
        (λ (out : Result (Fault MapError) (List (t.CoordPath × List ℕ))).
          IsNear checks ((2 * radius + 1) ^ t.depth * item)
            (reserved item (cube_capacity checks radius) out) (listed V (cube center radius)))
        (sym (found_on-listed (cube center radius)))
        (near last depth_eq checks item radius some_byte (listed V (cube center radius))),
    subst
        (λ (out : Result (Fault MapError) (List (t.CoordPath × List ℕ))).
          IsBoxed item (count_paths ranges) (reserved item (count_paths ranges) out)
            (listed V (box ranges)))
        (sym (found_on-listed (box ranges)))
        (boxed item (count_paths ranges) (listed V (box ranges))),
  )
