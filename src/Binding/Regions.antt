-- ===== src/Binding/Regions.antt =====
-- Nodes, records and freed records are regions that do not meet, all between the header and the
-- bump pointer. `T` is the tree as a map from paths to addresses.
pub mod Changes
use chton.Prelude.{ℕ, ◌+◌, ◌≤◌, ◌≡◌, ◌≢◌, List, [], ◌∷◌, All}
use chton.Prelude.Word.{Apart}
use chton.Tagma.{Tagma}
use chton.Binding.{root_offset}
use chton.Binding.Shape.{IsPath, extent}

module _ ⦃t : Tagma⦄ where
  pub record TreeFits (T : List ℕ → ℕ) (bump rss : ℕ) : Type 0 where
    pub low : (q : List ℕ) → IsPath q → T q ≢ 0 → root_offset ≤ T q
    pub high : (q : List ℕ) → IsPath q → T q ≢ 0 → T q + extent rss q ≤ bump
    pub apart :
        (p q : List ℕ)
        → IsPath p
        → IsPath q
        → p ≢ q
        → T p ≢ 0
        → T q ≢ 0
        → Apart (T p) (extent rss p) (T q) (extent rss q)

  -- A region that meets neither the tree nor the freed records.
  pub record Loose (T : List ℕ → ℕ) (free : List ℕ) (bump rss x size : ℕ) : Type 0 where
    pub low : root_offset ≤ x
    pub high : x + size ≤ bump
    pub off_tree : (q : List ℕ) → IsPath q → T q ≢ 0 → Apart x size (T q) (extent rss q)
    pub off_free : All (λ f. Apart x size f rss) free

  abbrev pub FreeFits : (List ℕ → ℕ) → List ℕ → ℕ → ℕ → Type 0
  FreeFits T [] bump rss = Unit {0}
  FreeFits T (f ∷ fs) bump rss = Loose T fs bump rss f rss × FreeFits T fs bump rss
