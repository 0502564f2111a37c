-- ===== src/Store/Key.antt =====
-- `str_to_coordpath`: string keys as coordinate paths. A string is given by its bytes; `chars` is
-- the standard library's decoding of UTF-8. The bounds on the depth, at least 2 and at most 1024, are
-- checked when the crate is compiled.
use chton.Prelude.{ℕ, zero, suc, ◌+◌, ◌-◌, ◌*◌, ◌/◌, ◌%◌, ◌^◌, Bool, true, false, not, ◌&&◌, ◌||◌}
use chton.Prelude.{
  Option, none, some, List, [], ◌∷◌, ◌++◌, length, take, set, replicate, ltb, ◌==◌, if◌then◌else◌,
}
use chton.Prelude.Outcome.{Result, ok, err, Fault, panic, error}
use chton.Prelude.Outcome.Fallible.{◌>>=◌}
use chton.Tagma.{Tagma}

pub data KeyError : Type 0 where
  empty : KeyError
  too_long : ℕ → ℕ → KeyError

abbrev pub base : ℕ
base = 11172

-- The loop of `divmod_11172`: the digits that are pushed and the remainder, a `u32`.
unfoldable pub divide : List ℕ → ℕ → Bool → List ℕ × ℕ
divide [] rem started = ([], rem)
divide (b ∷ bs) rem started =
    let cur = (rem * 256 + b) % 2 ^ 32 in
    let q = cur / base in
    let pushed = divide bs (cur % base) true in
    let skipped = divide bs (cur % base) false in
    if not (q == 0) || started then (q % 2 ^ 8 ∷ pushed.0, pushed.1) else skipped

abbrev pub or_zero : List ℕ → List ℕ
or_zero [] = 0 ∷ []
or_zero (q ∷ qs) = q ∷ qs

unfoldable pub divmod_11172 : List ℕ → List ℕ × ℕ
unfolding divide
divmod_11172 value = let out = divide value 0 false in (or_zero out.0, out.1 % 2 ^ 16)

-- The loop over the digits, the least significant first; `left` are to go. What is left of the value
-- comes back with them.
unfoldable pub digits_loop : ℕ → List ℕ → List ℕ → List ℕ × List ℕ
unfolding divmod_11172
digits_loop zero value digits = (digits, value)
digits_loop (suc left) value digits =
    let out = divmod_11172 value in digits_loop left out.0 (set digits left out.1)

abbrev pub all_zero : List ℕ → Bool
all_zero [] = true
all_zero (b ∷ bs) = (b == 0) && all_zero bs

module _ ⦃t : Tagma⦄ where
  -- `Coord::new(…).unwrap()`
  abbrev pub unwrap_coord : ℕ → Result (Fault KeyError) t.Coord
  unwrap_coord i = elim (t.coord_new i) [ none ↦ err panic | some c ↦ ok c ]

  unfoldable pub coords_of : List ℕ → Result (Fault KeyError) (List t.Coord)
  coords_of [] = ok []
  coords_of (d ∷ ds) = let rest = coords_of ds in (do c ← unwrap_coord d; cs ← rest; ok (c ∷ cs))

  -- `ok_or` of the marker.
  abbrev pub marker : ℕ → Result (Fault KeyError) t.Coord
  marker len =
      let rejected = err (error (too_long len (t.depth - 1))) in
      if ltb len (2 ^ 16)
      then elim (t.coord_new len) [ none ↦ rejected | some c ↦ ok c ]
      else rejected

  -- The array starts as zeros; its first `M - 1` places and then the last are overwritten.
  unfoldable pub encode_general : List ℕ → Result (Fault KeyError) t.CoordPath
  unfolding digits_loop coords_of
  encode_general bytes =
      let len = length bytes in
      let out = digits_loop (t.depth - 1) bytes (replicate t.depth 0) in
      let path = (do
        first ← unwrap_coord 0
        payload ← coords_of (take (t.depth - 1) out.0)
        last ← marker len
        ok (t.path_new (payload ++ (last ∷ [])))) in
      if len == 0
      then err (error empty)
      else if not (all_zero out.1)
      then err (error (too_long len (t.depth - 1)))
      else path

  -- `all(|c| Coord::from_char(*c).is_some())` with the coordinates that it finds.
  unfoldable pub letters : List ℕ → Option (List t.Coord)
  letters [] = some []
  letters (ch ∷ chs) =
      let rest = letters chs in
      elim (t.from_char ch) [
        | none ↦ none
        | some c ↦ elim rest [ none ↦ none | some cs ↦ some (c ∷ cs) ]
      ]

  unfoldable pub str_to_coordpath : (List ℕ → List ℕ) → List ℕ → Result (Fault KeyError) t.CoordPath
  unfolding encode_general letters
  str_to_coordpath chars key =
      let canonical =
        λ (cs : List t.Coord). (do first ← unwrap_coord 0; ok (t.path_new (cs ++ (first ∷ [])))) in
      if length (chars key) == t.depth - 1
      then elim (letters (chars key)) [ none ↦ encode_general key | some cs ↦ canonical cs ]
      else encode_general key

  -- `none` is the panic.
  unfoldable pub map_key_or_panic : (List ℕ → List ℕ) → List ℕ → Option t.CoordPath
  unfolding str_to_coordpath
  map_key_or_panic chars key = elim (str_to_coordpath chars key) [ ok p ↦ some p | err e ↦ none ]
