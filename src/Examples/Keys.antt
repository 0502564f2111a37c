-- ===== src/Examples/Keys.antt =====
-- Keys of a few bytes.
use chton.Prelude.{ℕ, ◌+◌, ◌*◌, ◌<◌, ◌≡◌, List, [], ◌∷◌, All, arith, refl}
use chton.Prelude.Outcome.{ok}
use chton.Prelude.Bytes.{IsByte}
use chton.Store.Key.{
  base, divmod_11172, divide, digits_loop, coords_of, letters, encode_general, str_to_coordpath,
}
use chton.Store.Injective.{str_to_coordpath-injective}
use chton.Examples.Alphabet.{cell_b, Pair, two_letters, two_letters-laws}
use chton.Store.Division.{from_be, divmod_11172-from_be}

abbrev abc : List ℕ
abc = 97 ∷ 98 ∷ 99 ∷ []

divmod_11172-from_be_example :
    (from_be 0 abc ≡ from_be 0 (divmod_11172 abc).0 * base + (divmod_11172 abc).1)
    × ((divmod_11172 abc).1 < base)
    × All IsByte (divmod_11172 abc).0
divmod_11172-from_be_example =
    divmod_11172-from_be abc (omega arith, (omega arith, (omega arith, tt)))

abbrev as_bytes : List ℕ → List ℕ
as_bytes key = key

abbrev path_bb : Pair
path_bb = record { first = cell_b; second = cell_b }

-- A byte that is no letter takes the general format.
one_byte : str_to_coordpath as_bytes (1 ∷ []) ≡ ok path_bb
unfolding str_to_coordpath encode_general letters digits_loop divmod_11172 divide coords_of
one_byte = refl

str_to_coordpath-injective_example : ◌≡◌ {A = List ℕ} (1 ∷ []) (1 ∷ [])
str_to_coordpath-injective_example =
    str_to_coordpath-injective two_letters-laws (omega arith) as_bytes (λ x y e. e) (1 ∷ [])
      (1 ∷ []) path_bb (omega arith, tt) (omega arith, tt) one_byte one_byte
