-- ===== src/Store/Safe.antt =====
-- `str_to_coordpath` never panics.
use chton.Prelude.{ℕ, zero, suc, ◌-◌, ◌<◌, ◌≤◌, ◌≡◌, ◌≢◌, inl, inr, some, Option-cases}
use chton.Prelude.{List, [], ◌∷◌, All, length, take, set, replicate, arith, refl}
use chton.Prelude.Outcome.{ok, err, panic}
use chton.Prelude.Bytes.{IsByte}
use chton.Tagma.{Tagma, TagmaLaws}
use chton.Store.Key.{
  base, coords_of, digits_loop, divmod_11172, encode_general, letters, str_to_coordpath,
}
use chton.Store.Division.{divmod_11172-from_be}

abbrev IsDigit : ℕ → Type 0
IsDigit d = d < base

set-All : (xs : List ℕ) (i v : ℕ) → All IsDigit xs → v < base → All IsDigit (set xs i v)
set-All [] i v h small = tt
set-All (x ∷ xs) zero v h small = (small, h.1)
set-All (x ∷ xs) (suc i) v h small = (h.0, set-All xs i v h.1 small)

take-All : (n : ℕ) (xs : List ℕ) → All IsDigit xs → All IsDigit (take n xs)
take-All zero xs h = tt
take-All (suc n) [] h = tt
take-All (suc n) (x ∷ xs) h = (h.0, take-All n xs h.1)

replicate-All : (n : ℕ) → All IsDigit (replicate n 0)
replicate-All zero = tt
replicate-All (suc n) = (omega arith, replicate-All n)

-- Every digit that is extracted is below the base.
digits_loop-All :
    (left : ℕ) (value digits : List ℕ)
    → All IsByte value
    → All IsDigit digits
    → All IsDigit (digits_loop left value digits).0
unfolding digits_loop
digits_loop-All zero value digits bytes h = h
digits_loop-All (suc left) value digits bytes h =
    let (total, less, quotient) = divmod_11172-from_be value bytes in
    digits_loop-All left (divmod_11172 value).0 (set digits left (divmod_11172 value).1) quotient
      (set-All digits left (divmod_11172 value).1 h less)

module _ ⦃t : Tagma⦄ (laws : TagmaLaws t) (wide : base ≤ t.n_valid) where
  new_digit : (d : ℕ) → d < base → (c : t.Coord) × (t.coord_new d ≡ some c)
  new_digit d small = let (c, at, same) = laws.new_valid d (omega arith) in (c, at)

  coords_of-safe : (ds : List ℕ) → All IsDigit ds → (cs : List t.Coord) × (coords_of ds ≡ ok cs)
  unfolding coords_of
  coords_of-safe [] h = ([], refl)
  coords_of-safe (d ∷ ds) (small, h) =
      let (c, at) = new_digit d small in
      let (cs, found) = coords_of-safe ds h in (c ∷ cs, ground (arith, at, found))

  encode_general-safe : (key : List ℕ) → All IsByte key → encode_general key ≢ err panic
  unfolding encode_general
  encode_general-safe key bytes e =
      let (first, zeroth) = new_digit 0 (omega arith) in
      let (payload, found) =
        coords_of-safe (take (t.depth - 1) (digits_loop (t.depth - 1) key (replicate t.depth 0)).0)
          (take-All (t.depth - 1) _ (
            digits_loop-All (t.depth - 1) key (replicate t.depth 0) bytes
              (replicate-All t.depth))) in
      elim (Option-cases (t.coord_new (length key))) [
        | inl missing ↦ ground (arith, zeroth, found, missing)
        | inr (last, marked) ↦ ground (arith, zeroth, found, marked)
      ]

  -- Where the digits of the base are coordinates, no key of bytes makes `str_to_coordpath` panic,
  -- whatever the decoding of strings.
  pub str_to_coordpath-safe :
      (chars : List ℕ → List ℕ) (key : List ℕ)
      → All IsByte key
      → str_to_coordpath chars key ≢ err panic
  unfolding str_to_coordpath
  str_to_coordpath-safe chars key bytes e =
      let (first, zeroth) = new_digit 0 (omega arith) in
      let general = encode_general-safe key bytes in
      elim (Option-cases (letters (chars key))) [
        | inl other ↦ ground (arith, zeroth, other, general)
        | inr (cs, found) ↦ ground (arith, zeroth, found, general)
      ]
