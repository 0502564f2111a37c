-- ===== src/Binding/Effects/Slots.antt =====
-- The words of a node after one of its slots and its bitmap byte were written.
use chton.Prelude.{ℕ, ◌+◌, ◌/◌, ◌^◌, ◌<◌, ◌≡◌, ◌≢◌, inl, ◌∙◌, refl}
use chton.Prelude.{arith, [], ◌∷◌}
use chton.Prelude.Bytes.{patch, to_le, length-to_le}
use chton.Prelude.Word.{word, Keeps, word-Keeps, word-patch_self, patch-Keeps}
use chton.Tagma.{Tagma}
use chton.Binding.{bitmap_bytes, node_bytes}
use chton.Binding.Shape.{slot_of}

module _ ⦃t : Tagma⦄ (m k : ℕ → ℕ) (node index value mark : ℕ) (small : index < t.n_valid)
    (after : (i : ℕ)
      → k i
        ≡ patch
            (patch m (slot_of node index) (to_le 8 value))
            (node + index / 8)
            (mark ∷ [])
            i) where
  -- The memory between the two writes.
  abbrev between : ℕ → ℕ
  between = patch m (slot_of node index) (to_le 8 value)

  pub slot-Keeps : Keeps m k node node_bytes
  unfolding node_bytes bitmap_bytes
  slot-Keeps i h = ground (arith, after i, length-to_le 8 value)

  between-word : (j : ℕ) → word k (slot_of node j) ≡ word between (slot_of node j)
  unfolding bitmap_bytes
  between-word j =
      word-Keeps between k (node + index / 8) 1 (slot_of node j)
        (patch-Keeps between k (node + index / 8) (mark ∷ []) after) (inl (omega arith))

  pub slot-word : value < 2 ^ 64 → word k (slot_of node index) ≡ value
  slot-word h =
      between-word index ∙ word-patch_self m between (slot_of node index) value h (λ i. refl)

  pub slot-others : (j : ℕ) → j ≢ index → word k (slot_of node j) ≡ word m (slot_of node j)
  unfolding to_le
  slot-others j ne =
      between-word j
      ∙ word-Keeps m between (slot_of node index) 8 (slot_of node j)
          (patch-Keeps m between (slot_of node index) (to_le 8 value) (λ i. refl)) (ground arith)
