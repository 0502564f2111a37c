-- ===== src/Store/Shapes.antt =====
-- What a key's path is made of, in each of the two formats.
use chton.Prelude.{ℕ, ◌-◌, ◌≡◌, ◌≢◌, ◌⊎◌, inl, inr, some, true, Option-cases}
use chton.Prelude.{List, [], ◌∷◌, ◌++◌, length, take, replicate, arith}
use chton.Prelude.{Bool-cases}
use native.Mathlib.Decide.{ℕ_discrete}
use chton.Prelude.Outcome.{ok}
use chton.Tagma.{Tagma}
use chton.Store.Key.{coords_of, digits_loop, all_zero, encode_general, letters, str_to_coordpath}
use chton.Store.Coords.{Result-cases}

module _ ⦃t : Tagma⦄ where
  abbrev pub digits_of : List ℕ → List ℕ × List ℕ
  digits_of bytes = digits_loop (t.depth - 1) bytes (replicate t.depth 0)

  pub record General (bytes : List ℕ) (p : t.CoordPath) : Type 0 where
    pub payload : List t.Coord
    pub last : t.Coord
    pub path_eq : p ≡ t.path_new (payload ++ (last ∷ []))
    pub payload_eq : coords_of (take (t.depth - 1) (digits_of bytes).0) ≡ ok payload
    pub marker_eq : t.coord_new (length bytes) ≡ some last
    pub some_byte : length bytes ≢ 0
    pub used_up : all_zero (digits_of bytes).1 ≡ true

  pub encode_general-General :
      (bytes : List ℕ) (p : t.CoordPath) → encode_general bytes ≡ ok p → General bytes p
  unfolding encode_general
  encode_general-General bytes p e = elim (ℕ_discrete (length bytes) 0) [
    | yes z ↦ absurd (ground (arith, z))
    | no n ↦ elim (Bool-cases (all_zero (digits_of bytes).1)) [
      | inr over ↦ absurd (ground (arith, n, over))
      | inl used ↦ elim (Option-cases (t.coord_new 0)) [
        | inl missing ↦ absurd (ground (arith, n, used, missing))
        | inr (first, zeroth) ↦
            elim (Result-cases (coords_of (take (t.depth - 1) (digits_of bytes).0))) [
              | inr (f, failed) ↦ absurd (ground (arith, n, used, zeroth, failed))
              | inl (payload, found) ↦ elim (Option-cases (t.coord_new (length bytes))) [
                | inl missing ↦ absurd (ground (arith, n, used, zeroth, found, missing))
                | inr (last, marked) ↦ record {
                  payload = payload;
                  last = last;
                  path_eq = ground (arith, n, used, zeroth, found, marked);
                  payload_eq = found;
                  marker_eq = marked;
                  some_byte = n;
                  used_up = used;
                }
              ]
            ]
      ]
    ]
  ]

  pub record Canonical (chs : List ℕ) (p : t.CoordPath) : Type 0 where
    pub coords : List t.Coord
    pub first : t.Coord
    pub path_eq : p ≡ t.path_new (coords ++ (first ∷ []))
    pub letters_eq : letters chs ≡ some coords
    pub marker_eq : t.coord_new 0 ≡ some first
    pub full : length chs ≡ t.depth - 1

  pub str_to_coordpath-shape :
      (chars : List ℕ → List ℕ) (key : List ℕ) (p : t.CoordPath)
      → str_to_coordpath chars key ≡ ok p
      → Canonical (chars key) p ⊎ General key p
  unfolding str_to_coordpath
  str_to_coordpath-shape chars key p e = elim (ℕ_discrete (length (chars key)) (t.depth - 1)) [
    | no n ↦ inr (encode_general-General key p (ground (arith, n)))
    | yes full ↦ elim (Option-cases (letters (chars key))) [
      | inl other ↦ inr (encode_general-General key p (ground (arith, full, other)))
      | inr (cs, found) ↦ elim (Option-cases (t.coord_new 0)) [
        | inl missing ↦ absurd (ground (arith, full, found, missing))
        | inr (first, zeroth) ↦ inl (record {
          coords = cs;
          first = first;
          path_eq = ground (arith, full, found, zeroth);
          letters_eq = found;
          marker_eq = zeroth;
          full = full;
        })
      ]
    ]
  ]
