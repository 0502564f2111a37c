-- ===== src/Examples/Alphabet.antt =====
-- Paths of two coordinates over an alphabet of two, `A` and `B`.
use chton.Prelude.{
  ℕ, zero, suc, ◌<◌, ◌≤◌, ◌≡◌, refl, arith, Option, none, some, List, [], ◌∷◌, length, get_elem?,
}
use chton.Prelude.{◌==◌, if◌then◌else◌}
use chton.Tagma.{Tagma, TagmaLaws}

pub data Cell : Type 0 where
  cell_a cell_b : Cell

pub record Pair : Type 0 where
  pub first : Cell
  pub second : Cell

abbrev pub number : Cell → ℕ
number cell_a = 0
number cell_b = 1

abbrev pub cell_of : ℕ → Option Cell
cell_of zero = some cell_a
cell_of (suc zero) = some cell_b
cell_of (suc (suc n)) = none

abbrev pub cells : Pair → List Cell
cells p = p.first ∷ p.second ∷ []

abbrev pub pair_of : List Cell → Pair
pair_of [] = record { first = cell_a; second = cell_a }
pair_of (a ∷ []) = record { first = a; second = cell_a }
pair_of (a ∷ b ∷ rest) = record { first = a; second = b }

abbrev pub read_letter : ℕ → Option Cell
read_letter ch = if ch == 65 then some cell_a else (if ch == 66 then some cell_b else none)

instance abbrev pub two_letters : Tagma
two_letters = record {
  Coord = Cell;
  CoordPath = Pair;
  depth = 2;
  n_valid = 2;
  coord_new = cell_of;
  index = number;
  from_char = read_letter;
  path_new = pair_of;
  coords = cells;
  get = λ p i. get_elem? (cells p) i;
}

number-lt : (c : Cell) → number c < 2
number-lt cell_a = omega arith
number-lt cell_b = omega arith

number-injective : (c d : Cell) → number c ≡ number d → c ≡ d
number-injective cell_a cell_a e = refl
number-injective cell_a cell_b e = absurd (omega arith)
number-injective cell_b cell_a e = absurd (omega arith)
number-injective cell_b cell_b e = refl

cell_of_valid : (i : ℕ) → i < 2 → (c : Cell) × (cell_of i ≡ some c) × (number c ≡ i)
cell_of_valid zero h = (cell_a, refl, refl)
cell_of_valid (suc zero) h = (cell_b, refl, refl)
cell_of_valid (suc (suc i)) h = absurd (omega arith)

cell_of_invalid : (i : ℕ) → 2 ≤ i → cell_of i ≡ none
cell_of_invalid zero h = absurd (omega arith)
cell_of_invalid (suc zero) h = absurd (omega arith)
cell_of_invalid (suc (suc i)) h = refl

read_letter-injective :
    (a b : ℕ) (c : Cell) → read_letter a ≡ some c → read_letter b ≡ some c → a ≡ b
read_letter-injective a b cell_a e e' = ground arith
read_letter-injective a b cell_b e e' = ground arith

cells-pair_of : (cs : List Cell) → length cs ≡ 2 → cells (pair_of cs) ≡ cs
cells-pair_of [] e = absurd (omega arith)
cells-pair_of (a ∷ []) e = absurd (omega arith)
cells-pair_of (a ∷ b ∷ []) e = refl
cells-pair_of (a ∷ b ∷ c ∷ cs) e = absurd (omega arith)

pub two_letters-laws : TagmaLaws two_letters
two_letters-laws = record {
  n_valid_small = omega arith;
  n_valid_pos = omega arith;
  index-lt = number-lt;
  index_injective = number-injective;
  new_valid = cell_of_valid;
  new_invalid = cell_of_invalid;
  from_char_injective = read_letter-injective;
  length-coords = λ p. refl;
  coords-new = cells-pair_of;
  new-coords = λ p. refl;
  get_lem = λ p i. refl;
}
