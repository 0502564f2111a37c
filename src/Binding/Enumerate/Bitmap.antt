-- ===== src/Binding/Enumerate/Bitmap.antt =====
-- The bitmap that is read of a node.
use chton.Prelude.{
  ℕ, ◌+◌, ◌*◌, ◌/◌, ◌%◌, ◌^◌, ◌≤◌, ◌<◌, ◌≡◌, ◌≢◌, ◌⊎◌, inl, inr, arith, refl, ap, sym, ◌∙◌, List,
  [], ◌∷◌, length, replicate, get_or, ◌==◌, length-replicate, get_or-replicate,
}
use native.Mathlib.Decide.{ℕ_discrete}
use chton.Prelude.Bits.{bit_at, bit_and-pow, pow-pos}
use chton.Prelude.Bytes.{bytes_at, get_or-bytes_at}
use chton.Prelude.Outcome.{ok}
use chton.Tagma.{Tagma}
use chton.Origin.{Origin}
use chton.Origin.Laws.{IsMedium}
use chton.Binding.{Bound, bitmap_bytes, node_bytes, root_offset}
use chton.Binding.Read.{read_bitmap}
use chton.Binding.Walk.{is_clear}
use chton.Binding.Effects.{read_full}
use chton.Binding.Effects.Marks.{mark_of}
use chton.Binding.Shape.{IsPath}
use chton.Binding.Holds.{Holds, RootReady}
use chton.Binding.Holds.Locate.{root-eq}

-- A slot's bit, as the walk tests it.
is_clear_lem :
    (bitmap : List ℕ) (index byte value : ℕ)
    → get_or bitmap (index / 8) 0 ≡ byte
    → bit_at byte (index % 8) ≡ mark_of value
    → is_clear bitmap index ≡ (value == 0)
unfolding is_clear
is_clear_lem bitmap index byte value here bit =
    let tested = bit_and-pow byte (index % 8) in
    elim (ℕ_discrete value 0) [
      | yes zeroth ↦
          let off : bit_at byte (index % 8) * 2 ^ (index % 8) ≡ 0 * 2 ^ (index % 8) =
            ap (λ (b : ℕ). b * 2 ^ (index % 8)) (ground (arith, bit, zeroth)) in
          ground (arith, here, tested, off, zeroth)
      | no held ↦
          let on : bit_at byte (index % 8) * 2 ^ (index % 8) ≡ 1 * 2 ^ (index % 8) =
            ap (λ (b : ℕ). b * 2 ^ (index % 8)) (ground (arith, bit, held)) in
          ground (arith, here, tested, on, held, pow-pos (index % 8))
    ]

path_cases : (q : List ℕ) → (q ≡ []) ⊎ (q ≢ [])
path_cases [] = inl refl
path_cases (i ∷ q) = inr (λ e. cc)

module _ ⦃t : Tagma⦄ {S : Type 0} ⦃o : Origin S⦄ {byte : S → ℕ → ℕ} (medium : IsMedium o byte)
    (b : Bound S) (T : List ℕ → ℕ) (free : List ℕ) (h : Holds byte b T free)
    (root : RootReady (o.len b.medium)) (q : List ℕ) (v : IsPath q) (short : length q < t.depth)
    (node : T q ≢ 0) where
  -- The node lies in the medium, or beyond its end.
  node_whole : (o.len b.medium ≤ T q) ⊎ (T q + node_bytes ≤ o.len b.medium)
  node_whole = elim (path_cases q) [
    | inl empty ↦
        let at_root : T q ≡ root_offset = ap T empty ∙ root-eq medium b T free h root in
        omega (arith, at_root, root)
    | inr ne ↦ inr (h.covered q v ne short node)
  ]

  -- A read of the bitmap returns, with a bit for each slot that holds something.
  pub read_bitmap-tree :
      (bitmap : List ℕ) × (read_bitmap b.medium (T q) ≡ ok bitmap)
      × ((i : ℕ) → i < t.n_valid → is_clear bitmap i ≡ (T (i ∷ q) == 0))
  unfolding read_bitmap bitmap_bytes node_bytes
  read_bitmap-tree = elim node_whole [
    | inl beyond ↦ (
      replicate bitmap_bytes 0,
      ground (arith, beyond),
      λ i small.
          is_clear_lem (replicate bitmap_bytes 0) i (byte b.medium (T q + i / 8)) (T (i ∷ q))
            (get_or-replicate {A = ℕ} bitmap_bytes 0 (i / 8)
              ∙ sym (medium.zero_beyond b.medium (T q + i / 8) (omega arith)))
            (h.marks q i ((small, v.0), omega arith) node),
    )
    | inr inside ↦
        let read =
          read_full medium b.medium (T q) (replicate bitmap_bytes 0)
            (omega (arith, length-replicate {A = ℕ} bitmap_bytes 0)) in
        (
          bytes_at (byte b.medium) (T q) (length (replicate {A = ℕ} bitmap_bytes 0)),
          ground (arith, read, inside, length-replicate {A = ℕ} bitmap_bytes 0),
          λ i small.
              is_clear_lem _ i (byte b.medium (T q + i / 8)) (T (i ∷ q))
                (get_or-bytes_at (byte b.medium) (T q) _ (i / 8)
                  (omega (arith, length-replicate {A = ℕ} bitmap_bytes 0)))
                (h.marks q i ((small, v.0), omega arith) node),
        )
  ]
