-- ===== src/Examples/Spaces.antt =====
-- A space that holds its entries in a list, the last placed first.
use chton.Prelude.{ℕ, ◌≡◌, ◌≢◌, Option, none, some, List, [], ◌∷◌, length, arith, refl}
use mathlib.Core.Logic.{ite}
use chton.Tagma.{Tagma, TagmaLaws}
use chton.Binding.Shape.{path_discrete, trail}
use chton.Binding.Shape.Trail.{trail-injective}
use chton.Store.Spatial.{CoordSpaceN}
use chton.Store.Spatial.Laws.{SpaceLaws}
use chton.Store.Spatial.Filter.{PrefixLaws, kept, is_under}

module _ (t : Tagma) where
  abbrev pub Entries : Type 0
  Entries = List (t.CoordPath × ℕ)

  abbrev pub same_path :
      (p q : t.CoordPath) → Dec (trail ⦃t = t⦄ p t.depth ≡ trail ⦃t = t⦄ q t.depth)
  same_path p q = path_discrete (trail ⦃t = t⦄ p t.depth) (trail ⦃t = t⦄ q t.depth)

  abbrev pub value_at : t.CoordPath → Entries → Option ℕ
  value_at p [] = none
  value_at p ((q, v) ∷ entries) = ite (same_path p q) (some v) (value_at p entries)

  abbrev pub removed : t.CoordPath → Entries → Entries
  removed p [] = []
  removed p ((q, v) ∷ entries) =
      ite (same_path p q) (removed p entries) ((q, v) ∷ removed p entries)

  abbrev pub list_space : CoordSpaceN t ℕ
  list_space = record {
    Space = Entries;
    space_new = [];
    at_path = value_at;
    place_path = λ p v s. (value_at p s, (p, v) ∷ removed p s);
    vacate_path = λ p s. (value_at p s, removed p s);
    count = λ s. length s;
    cleared = λ s. [];
    iter_tree = λ s. s;
    iter_prefix = λ prefix s. some (kept (is_under ⦃t = t⦄ prefix) s);
  }

  value_at-removed : (p : t.CoordPath) (s : Entries) → value_at p (removed p s) ≡ none
  value_at-removed p [] = refl
  value_at-removed p ((q, v) ∷ s) = ground (arith, value_at-removed p s)

  module _ (laws : TagmaLaws t) where
    value_at-removed_ne :
        (p q : t.CoordPath) (s : Entries) → q ≢ p → value_at q (removed p s) ≡ value_at q s
    value_at-removed_ne p q [] ne = refl
    value_at-removed_ne p q ((r, v) ∷ s) ne = elim (same_path p r) [
      | yes same ↦ elim (same_path q r) [
        | yes also ↦ absurd (ne (trail-injective ⦃t = t⦄ laws q p (cc (same, also))))
        | no other ↦ ground (arith, same, other, value_at-removed_ne p q s ne)
      ]
      | no differs ↦ ground (arith, differs, value_at-removed_ne p q s ne)
    ]

    placed_ne :
        (s : Entries) (p : t.CoordPath) (v : ℕ) (q : t.CoordPath)
        → q ≢ p
        → value_at q ((p, v) ∷ removed p s) ≡ value_at q s
    placed_ne s p v q ne = elim (same_path q p) [
      | yes same ↦ absurd (ne (trail-injective ⦃t = t⦄ laws q p same))
      | no differs ↦ ground (arith, differs, value_at-removed_ne p q s ne)
    ]

    pub list_space-SpaceLaws : SpaceLaws list_space
    list_space-SpaceLaws = record {
      at-new = λ p. refl;
      at-cleared = λ s p. refl;
      placed = λ s p v. refl;
      at-place = λ s p v. ground arith;
      at-place_ne = λ s p v q ne. placed_ne s p v q ne;
      vacated = λ s p. refl;
      at-vacate = λ s p. value_at-removed p s;
      at-vacate_ne = λ s p q ne. value_at-removed_ne p q s ne;
    }

  pub list_space-PrefixLaws : PrefixLaws list_space
  list_space-PrefixLaws = record {
    some_below = λ prefix s entries e. ground arith;
    none_below = λ prefix s e. absurd (ground arith);
  }
