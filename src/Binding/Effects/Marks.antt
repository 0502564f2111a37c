-- ===== src/Binding/Effects/Marks.antt =====
-- The bits of a node's bitmap after one of its slots and its bitmap byte were written.
use chton.Prelude.{ℕ, ◌+◌, ◌/◌, ◌%◌, ◌<◌, ◌≡◌, arith, [], ◌∷◌, ◌==◌, if◌then◌else◌, ap, ◌∙◌}
use native.Mathlib.Decide.{ℕ_discrete}
use chton.Prelude.Bits.{bit_at, bit_at-clear, bit_at-set}
use chton.Prelude.Bytes.{patch, to_le, length-to_le}
use chton.Tagma.{Tagma}
use chton.Binding.{bitmap_bytes}
use chton.Binding.Write.{marked}
use chton.Binding.Shape.{slot_of}

-- The bit of a slot that holds `value`.
abbrev pub mark_of : ℕ → ℕ
mark_of value = if value == 0 then 0 else 1

bit_at-marked :
    (byte index value j : ℕ)
    → j < 8
    → bit_at (marked byte index value) j ≡ (if j == index % 8 then mark_of value else bit_at byte j)
unfolding marked
bit_at-marked byte index value j h =
    ground (arith, bit_at-clear byte (index % 8) j, bit_at-set byte (index % 8) j)

module _ ⦃t : Tagma⦄ (m k : ℕ → ℕ) (node index value : ℕ) (small : index < t.n_valid)
    (after : (i : ℕ)
      → k i
        ≡ patch
            (patch m (slot_of node index) (to_le 8 value))
            (node + index / 8)
            (marked (m (node + index / 8)) index value ∷ [])
            i) where
  pub slot-marks :
      (j : ℕ)
      → j < t.n_valid
      → bit_at (k (node + j / 8)) (j % 8)
        ≡ (if j == index then mark_of value else bit_at (m (node + j / 8)) (j % 8))
  unfolding bitmap_bytes
  slot-marks j h = elim (ℕ_discrete (j / 8) (index / 8)) [
    | yes same ↦
        let written : k (node + j / 8) ≡ marked (m (node + j / 8)) index value =
          ground (arith, after (node + j / 8), same) in
        ap (λ (b : ℕ). bit_at b (j % 8)) written
        ∙ ground (arith, bit_at-marked (m (node + j / 8)) index value (j % 8), same)
    | no other ↦
        let kept : k (node + j / 8) ≡ m (node + j / 8) =
          ground (arith, after (node + j / 8), length-to_le 8 value, other) in
        ap (λ (b : ℕ). bit_at b (j % 8)) kept ∙ ground (arith, other)
  ]
