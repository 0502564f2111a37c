-- ===== src/Binding/Enumerate/Count.antt =====
-- `count_records` counts what `iter` lists.
use chton.Prelude.{
  ℕ, zero, suc, ◌+◌, ◌%◌, ◌^◌, ◌<◌, ◌≡◌, ◌≢◌, refl, ap, ap₂, sym, ◌∙◌, arith, List, [], ◌∷◌, ◌++◌,
  map, length, length-append, ◌==◌,
}
use native.Mathlib.Decide.{ℕ_discrete}
use chton.Prelude.Outcome.{ok}
use chton.Tagma.{Tagma, TagmaLaws}
use chton.Origin.{Origin}
use chton.Origin.Laws.{IsMedium}
use chton.Binding.{Bound, root_offset}
use chton.Binding.Walk.{is_clear, count_slots, count_node, count_records, iter}
use chton.Binding.Shape.{IsPath}
use chton.Binding.Holds.{Holds, RootReady}
use chton.Binding.Holds.Locate.{read_slot-tree, check_child-tree, root-eq}
use chton.Binding.Enumerate.{leaves, leaves_from, leaves_absent, leaves_here}
use chton.Binding.Enumerate.Bitmap.{read_bitmap-tree}
use chton.Binding.Enumerate.Slots.{entry_of}
use chton.Binding.Enumerate.Laws.{iter-leaves}

length-map {ℓ κ} :
    {A : Type ℓ} {B : Type κ} (f : A → B) (xs : List A) → length (map f xs) ≡ length xs
length-map f [] = refl
length-map f (x ∷ xs) = ap suc (length-map f xs)

module _ ⦃t : Tagma⦄ {S : Type 0} ⦃o : Origin S⦄ {byte : S → ℕ → ℕ} (medium : IsMedium o byte)
    (b : Bound S) (T : List ℕ → ℕ) (free : List ℕ) (h : Holds byte b T free)
    (root : RootReady (o.len b.medium)) where
  -- What the count of one level down returns.
  abbrev Counts : ℕ → List ℕ → Type 0
  Counts levels q =
      (i : ℕ)
      → IsPath (i ∷ q)
      → T (i ∷ q) ≢ 0
      → length q + 1 ≢ t.depth
      → count_node b.medium levels (T (i ∷ q)) (length q + 1)
        ≡ ok (length (leaves T levels (i ∷ q)) % 2 ^ 64)

  module _ (q : List ℕ) (v : IsPath q) (node : T q ≢ 0) (levels : ℕ)
      (here : length q + 1 + levels ≡ t.depth) (counts : Counts levels q) (bitmap : List ℕ)
      (bits : (i : ℕ) → i < t.n_valid → is_clear bitmap i ≡ (T (i ∷ q) == 0)) where
    abbrev after : ℕ → ℕ → List (List ℕ)
    after left index = leaves_from (λ p. leaves T levels p) q left index

    slots-counted :
        (left index count : ℕ)
        → index + left ≡ t.n_valid
        → count < 2 ^ 64
        → count_slots
            (λ value. count_node b.medium levels value (length q + 1))
            b.medium
            bitmap
            (T q)
            (length q)
            left
            index
            count
          ≡ ok ((count + length (after left index)) % 2 ^ 64)
    unfolding count_slots leaves_from
    slots-counted zero index count whole small = ap ok (omega arith)
    slots-counted (suc left) index count whole small =
        let path : IsPath (index ∷ q) = ((omega arith, v.0), omega arith) in
        let bit = bits index (omega arith) in
        let below = leaves T levels (index ∷ q) in
        let sum = length-append below (after left (index + 1)) in
        elim (ℕ_discrete (T (index ∷ q)) 0) [
          | yes empty ↦
              let none_below : length below ≡ 0 =
                ap (λ (l : List (List ℕ)). length l) (leaves_absent T levels (index ∷ q) empty) in
              ground (
                arith,
                bit,
                empty,
                slots-counted left (index + 1) count (omega arith) small,
                ap (λ (n : ℕ). (count + n) % 2 ^ 64) {x = length (after left (index + 1))}
                    {y = length (below ++ after left (index + 1))} (omega (arith, sum, none_below)),
              )
          | no held ↦
              let read = read_slot-tree medium b T free h root q index path node in
              let next = (count + length below % 2 ^ 64) % 2 ^ 64 in
              let rest = slots-counted left (index + 1) next (omega arith) (omega arith) in
              let total : (next + length (after left (index + 1))) % 2 ^ 64
                  ≡ (count + length (below ++ after left (index + 1))) % 2 ^ 64 =
                omega (arith, sum) in
              elim (ℕ_discrete (length q + 1) t.depth) [
                | yes leaf ↦
                    let single : length below ≡ 1 =
                      ap (λ (l : List (List ℕ)). length l)
                        (leaves_here T levels (index ∷ q) (omega arith) held) in
                    let one : (count + 1) % 2 ^ 64 ≡ next = omega (arith, single) in
                    ground (arith, bit, held, read, leaf, one, rest, total)
                | no inner ↦
                    let check =
                      check_child-tree medium b T free h root (index ∷ q) path (λ e. cc)
                        (omega (arith, path.1)) held in
                    ground (
                      arith,
                      bit,
                      held,
                      read,
                      inner,
                      check,
                      counts index path held inner,
                      rest,
                      total,
                    )
              ]
        ]

  level-counted :
      (levels : ℕ) (q : List ℕ)
      → Counts levels q
      → IsPath q
      → T q ≢ 0
      → length q + 1 + levels ≡ t.depth
      → count_node b.medium (suc levels) (T q) (length q)
        ≡ ok (length (leaves T (suc levels) q) % 2 ^ 64)
  unfolding count_node leaves
  level-counted levels q counts v n here =
      let (bitmap, read, bits) = read_bitmap-tree medium b T free h root q v (omega arith) n in
      ground (
        arith,
        n,
        read,
        slots-counted q v n levels here counts bitmap bits t.n_valid 0 0 (omega arith)
            (omega arith),
      )

  node-counted :
      (levels : ℕ) (q : List ℕ)
      → IsPath q
      → T q ≢ 0
      → length q + 1 + levels ≡ t.depth
      → count_node b.medium (suc levels) (T q) (length q)
        ≡ ok (length (leaves T (suc levels) q) % 2 ^ 64)
  node-counted zero q v n here =
      level-counted zero q (λ i v' n' ne. absurd (ne (omega arith))) v n here
  node-counted (suc levels) q v n here =
      level-counted (suc levels) q
        (λ i v' n' ne.
          ap (λ (d : ℕ). count_node b.medium (suc levels) (T (i ∷ q)) d) {x = length q + 1}
            {y = length (i ∷ q)} (omega arith)
          ∙ node-counted levels (i ∷ q) v' n' (omega arith))
        v n here

  -- Over a working medium and a memory that holds a tree, at a depth from 1 on, `iter` and
  -- `count_records` return, and the count is that of the entries that `iter` lists, modulo 2 ^ 64.
  pub count_records-iter :
      TagmaLaws t
      → (last : ℕ) → suc last ≡ t.depth
      → (out : List (t.CoordPath × ℕ)) × (iter b.medium ≡ ok out)
        × (count_records b.medium ≡ ok (length out % 2 ^ 64))
  unfolding count_records
  count_records-iter laws last depth_eq =
      let (out, walk, named) = iter-leaves medium b T free h root laws last depth_eq in
      let count =
        node-counted last [] (tt, omega arith)
          (λ e. omega (arith, e, root-eq medium b T free h root)) (omega arith) in
      let counted : count_node b.medium t.depth root_offset 0
          ≡ ok (length (leaves T t.depth []) % 2 ^ 64) =
        ap₂ (λ (n x : ℕ). count_node b.medium n x 0) (sym depth_eq)
          (sym (root-eq medium b T free h root))
        ∙ count
        ∙ ap (λ (n : ℕ). ok (length (leaves T n []) % 2 ^ 64)) depth_eq in
      let same : length (leaves T t.depth []) ≡ length out =
        sym (length-map (λ q. (q, T q)) (leaves T t.depth []))
        ∙ ap (λ (l : List (List ℕ × ℕ)). length l) (sym named)
        ∙ length-map entry_of out in
      (out, walk, counted ∙ ap (λ (n : ℕ). ok (n % 2 ^ 64)) same)
