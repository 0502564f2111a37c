-- ===== src/Tagma.antt =====
-- The names of the crate tagma_core that chton uses, at one depth `N` of `CoordPath<N>`. The crate
-- is not part of the repository, so it is a parameter of all that follows: `Tagma` holds its types
-- and functions, `TagmaLaws` what the code relies on.
use chton.Prelude.{ℕ, ◌<◌, ◌≤◌, ◌≡◌, Option, none, some, List, length, get_elem?}

pub record Tagma : Type 1 where
  pub Coord : Type 0
  pub CoordPath : Type 0
  -- The depth `N`, `Coord::N_VALID`, `Coord::new`, `Coord::index` and `Coord::from_char`.
  pub depth : ℕ
  pub n_valid : ℕ
  pub coord_new : ℕ → Option Coord
  pub index : Coord → ℕ
  pub from_char : ℕ → Option Coord
  -- `CoordPath::new`, `coords` (also what `iter` runs through) and `get`.
  pub path_new : List Coord → CoordPath
  pub coords : CoordPath → List Coord
  pub get : CoordPath → ℕ → Option Coord

-- A coordinate is an index below `n_valid`, which fits the 16 bits that it is held in, and a path
-- is an array of `depth` coordinates. The count of bytes of a node fits a 64-bit word.
pub record TagmaLaws (t : Tagma) : Type 0 where
  pub n_valid_small : t.n_valid < 65536
  pub n_valid_pos : 0 < t.n_valid
  pub index-lt : (c : t.Coord) → t.index c < t.n_valid
  pub index_injective : (c d : t.Coord) → t.index c ≡ t.index d → c ≡ d
  pub new_valid :
      (i : ℕ) → i < t.n_valid → (c : t.Coord) × (t.coord_new i ≡ some c) × (t.index c ≡ i)
  pub new_invalid : (i : ℕ) → t.n_valid ≤ i → t.coord_new i ≡ none
  pub from_char_injective :
      (a b : ℕ) (c : t.Coord) → t.from_char a ≡ some c → t.from_char b ≡ some c → a ≡ b
  pub length-coords : (p : t.CoordPath) → length (t.coords p) ≡ t.depth
  pub coords-new : (cs : List t.Coord) → length cs ≡ t.depth → t.coords (t.path_new cs) ≡ cs
  pub new-coords : (p : t.CoordPath) → t.path_new (t.coords p) ≡ p
  pub get_lem : (p : t.CoordPath) (i : ℕ) → t.get p i ≡ get_elem? (t.coords p) i
