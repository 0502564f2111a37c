-- ===== src/Map/Fresh.antt =====
-- A store over an empty medium.
use chton.Prelude.{ℕ, suc, ◌+◌, ◌^◌, ◌≤◌, ◌<◌, ◌≡◌, inl, none, some}
use chton.Prelude.{arith, refl, false}
use chton.Tagma.{Tagma}
use chton.Origin.{Origin}
use chton.Origin.Laws.{IsMedium}
use chton.Binding.{node_bytes, root_offset}
use chton.Binding.Tree
use chton.Map.{CoordMapStore}
use chton.Map.Store.{new}
use chton.Map.Contents.{Represents}
use chton.Map.Bare.{bare-Represents}

-- The store that `new` makes.
abbrev pub fresh_store : ⦃t : Tagma⦄ {S : Type 0} → S → ℕ → CoordMapStore S
fresh_store s size = record {
  bound = record {
    strategy = record {
      record_slot_size = size;
      bump = root_offset + node_bytes;
      free_head = 0;
      node_size = node_bytes;
      record_count = 0;
    };
    medium = s;
  };
  len = 0;
  dirty = false;
}

module _ ⦃t : Tagma⦄ {S : Type 0} ⦃o : Origin S⦄ {byte : S → ℕ → ℕ} (medium : IsMedium o byte)
    (last : ℕ) (depth_eq : suc last ≡ t.depth) where
  module _ (s : S) (size : ℕ) (empty : o.len s ≡ 0) (header_fits : 8 ≤ size) (small : size < 2 ^ 64)
      (node_small : root_offset + node_bytes < 2 ^ 64) where
    pub fresh-Represents : Represents byte last (fresh_store s size) (λ key. none)
    fresh-Represents =
        bare-Represents last depth_eq (fresh_store s size) refl refl refl header_fits small
          node_small (λ i low high. medium.zero_beyond s i (omega (arith, empty)))
          (inl (omega (arith, empty)))

    -- Over a medium without bytes, with a record slot size from 8 on and a root node below 2 ^ 64,
    -- `new` returns a store, and it represents the map without values.
    pub new-Represents :
        (new s size ≡ some (fresh_store s size))
        × Represents byte last (fresh_store s size) (λ key. none)
    unfolding new Tree.new
    new-Represents = (ground arith, fresh-Represents)
