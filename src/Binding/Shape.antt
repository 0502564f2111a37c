-- ===== src/Binding/Shape.antt =====
-- The tree as a partial map from paths to addresses. A path is the list of the slot indices from
-- the last level up to the root, so that its tail is the path of the parent.
pub mod Link
pub mod Trail
use chton.Prelude.{ℕ, zero, suc, ◌+◌, ◌*◌, ◌≤◌, ◌<◌, ◌≡◌, ◌≢◌, List, [], ◌∷◌, length, All}
use chton.Prelude.{none, some, ltb, ◌==◌, if◌then◌else◌}
use chton.Prelude.Word.{word}
use mathlib.Core.Logic.{ite}
use native.Mathlib.Decide.{ℕ_discrete}
use chton.Tagma.{Tagma}
use chton.Binding.{bitmap_bytes, slot_bytes, root_offset, node_bytes}

module _ ⦃t : Tagma⦄ where
  -- The slot of `index` in a node, as a plain sum.
  abbrev pub slot_of : ℕ → ℕ → ℕ
  slot_of node index = node + bitmap_bytes + index * slot_bytes

  -- What a path leads to in a memory: a node, a record, or 0 for nothing.
  unfoldable pub resolve : (ℕ → ℕ) → List ℕ → ℕ
  resolve m [] = root_offset
  resolve m (i ∷ p) = if resolve m p == 0 then 0 else word m (slot_of (resolve m p) i)

  abbrev pub IsPath : List ℕ → Type 0
  IsPath p = All (λ i. i < t.n_valid) p × (length p ≤ t.depth)

  -- The size of what a path leads to.
  unfoldable pub extent : ℕ → List ℕ → ℕ
  extent record_size p = if ltb (length p) t.depth then node_bytes else record_size

  -- The indices of the first `n` coordinates of a key, the last first.
  abbrev pub index_at : t.CoordPath → ℕ → ℕ
  index_at key n = elim (t.get key n) [ none ↦ 0 | some c ↦ t.index c ]

  abbrev pub trail : t.CoordPath → ℕ → List ℕ
  trail key zero = []
  trail key (suc n) = index_at key n ∷ trail key n

pub path_discrete : Discrete (List ℕ)
path_discrete = hlevel ℕ_discrete

-- A tree in which one path leads to `v`.
abbrev pub relink : (List ℕ → ℕ) → List ℕ → ℕ → List ℕ → ℕ
relink T p v q = ite (path_discrete q p) v (T q)
