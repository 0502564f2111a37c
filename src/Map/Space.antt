-- ===== src/Map/Space.antt =====
-- The bytes of the medium that puts take.
use chton.Prelude.{ℕ, ◌+◌, ◌*◌, List, [], ◌∷◌}
use chton.Tagma.{Tagma}
use chton.Binding.{node_bytes}

module _ ⦃t : Tagma⦄ (last : ℕ) where
  -- What one put takes at most, with records of `size` bytes: the nodes of a path and a record.
  abbrev pub cost : ℕ → ℕ
  cost size = last * node_bytes + size

  -- The same for each of a list.
  abbrev pub cost_all {ℓ} : {E : Type ℓ} → List E → ℕ → ℕ
  cost_all [] size = 0
  cost_all (entry ∷ entries) size = cost size + cost_all entries size
