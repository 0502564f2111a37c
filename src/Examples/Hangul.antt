-- ===== src/Examples/Hangul.antt =====
-- Paths of two coordinates over the 11172 syllables of Hangul.
use chton.Prelude.{
  ℕ, ◌-◌, ◌<◌, ◌≤◌, ◌≡◌, refl, arith, Option, none, some, List, [], ◌∷◌, length, get_elem?,
}
use native.Mathlib.Decide.{dec_lt}
use mathlib.Core.HLevel.{is_prop→PathP}
use native.Mathlib.Bridge.{le_prop}
use chton.Store.Key.{base}
use chton.Tagma.{Tagma, TagmaLaws}

abbrev pub Syllable : Type 0
Syllable = (i : ℕ) × (i < 11172)

pub record Word : Type 0 where
  pub first : Syllable
  pub second : Syllable

abbrev pub syllables : Word → List Syllable
syllables w = w.first ∷ w.second ∷ []

abbrev pub ga : Syllable
ga = (0, omega arith)

abbrev pub word_of : List Syllable → Word
word_of [] = record { first = ga; second = ga }
word_of (a ∷ []) = record { first = a; second = ga }
word_of (a ∷ b ∷ rest) = record { first = a; second = b }

abbrev pub decided : (i : ℕ) → Dec (i < 11172) → Option Syllable
decided i (yes h) = some (i, h)
decided i (no h) = none

abbrev pub syllable : ℕ → Option Syllable
syllable i = decided i (dec_lt i 11172)

-- The syllables are the code points from 44032 to 55203.
abbrev pub read_syllable : ℕ → Option Syllable
read_syllable ch = elim (dec_lt ch 44032) [ yes h ↦ none | no h ↦ syllable (ch - 44032) ]

abbrev pub hangul : Tagma
hangul = record {
  Coord = Syllable;
  CoordPath = Word;
  depth = 2;
  n_valid = 11172;
  coord_new = syllable;
  index = λ c. c.0;
  from_char = read_syllable;
  path_new = word_of;
  coords = syllables;
  get = λ p i. get_elem? (syllables p) i;
}

pub same_syllable : (c d : Syllable) → c.0 ≡ d.0 → c ≡ d
same_syllable c d e = λ i. (e i, is_prop→PathP (λ j. e j < 11172) (λ j. le_prop) c.1 d.1 i)

decided_valid :
    (i : ℕ) (d : Dec (i < 11172)) → i < 11172 → (c : Syllable) × (decided i d ≡ some c) × (c.0 ≡ i)
decided_valid i (yes h) small = ((i, h), refl, refl)
decided_valid i (no h) small = absurd (h small)

pub syllable_valid : (i : ℕ) → i < 11172 → (c : Syllable) × (syllable i ≡ some c) × (c.0 ≡ i)
syllable_valid i h = decided_valid i (dec_lt i 11172) h

syllable_invalid : (i : ℕ) → 11172 ≤ i → syllable i ≡ none
syllable_invalid i h = ground arith

syllable-index : (i : ℕ) (c : Syllable) → syllable i ≡ some c → c.0 ≡ i
syllable-index i c e = ground arith

read_syllable-injective :
    (a b : ℕ) (c : Syllable) → read_syllable a ≡ some c → read_syllable b ≡ some c → a ≡ b
read_syllable-injective a b c e e' = ground arith

syllables-word_of : (cs : List Syllable) → length cs ≡ 2 → syllables (word_of cs) ≡ cs
syllables-word_of [] e = absurd (omega arith)
syllables-word_of (a ∷ []) e = absurd (omega arith)
syllables-word_of (a ∷ b ∷ []) e = refl
syllables-word_of (a ∷ b ∷ c ∷ cs) e = absurd (omega arith)

pub hangul-laws : TagmaLaws hangul
hangul-laws = record {
  n_valid_small = omega arith;
  n_valid_pos = omega arith;
  index-lt = λ c. c.1;
  index_injective = same_syllable;
  new_valid = syllable_valid;
  new_invalid = syllable_invalid;
  from_char_injective = read_syllable-injective;
  length-coords = λ p. refl;
  coords-new = syllables-word_of;
  new-coords = λ p. refl;
  get_lem = λ p i. refl;
}

pub wide_enough : base ≤ 11172
wide_enough = omega arith
