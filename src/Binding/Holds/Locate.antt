-- ===== src/Binding/Holds/Locate.antt =====
-- `locate` finds what the tree says.
use chton.Prelude.{ℕ, zero, suc, ◌+◌, ◌^◌, ◌≤◌, ◌<◌, ◌≡◌, ◌≢◌, ◌⊎◌, inr, List, [], ◌∷◌, length}
use native.Mathlib.Decide.{dec_le, ℕ_discrete}
use chton.Prelude.{subst, arith, refl, ap, sym, ◌∙◌}
use chton.Prelude.Outcome.{ok}
use chton.Prelude.Word.{word}
use chton.Tagma.{Tagma, TagmaLaws}
use chton.Origin.{Origin}
use chton.Origin.Laws.{IsMedium}
use chton.Binding.{Bound, Slot, bitmap_bytes, node_bytes, root_offset}
use chton.Binding.Read.{read_slot, slot_pos, check_child_in_bounds}
use chton.Binding.Tree.{locate, locate_loop, slot_at}
use chton.Binding.Shape.{IsPath, resolve, slot_of, trail, index_at}
use chton.Binding.Shape.Link.{IsPath-tail}
use chton.Binding.Shape.Trail.{get-some, trail-IsPath, length-trail}
use chton.Binding.Effects.{read_slot_lem, slot_pos_lem}
use chton.Binding.Holds.{Holds, RootReady}
use chton.Binding.Holds.Frame.{extent-node}

module _ ⦃t : Tagma⦄ {S : Type 0} ⦃o : Origin S⦄ {byte : S → ℕ → ℕ} (medium : IsMedium o byte)
    (b : Bound S) (T : List ℕ → ℕ) (free : List ℕ) (h : Holds byte b T free)
    (root : RootReady (o.len b.medium)) where
  pub root-eq : T [] ≡ root_offset
  unfolding resolve
  root-eq = sym (h.maps [] (tt, omega arith))

  pub node-fits : (p : List ℕ) → IsPath p → length p < t.depth → T p ≢ 0 → T p + node_bytes < 2 ^ 64
  node-fits p v short n =
      omega
        (arith, h.tree.high p v n, extent-node b.strategy.record_slot_size p short, h.bump_small)

  slot_whole :
      (p : List ℕ) (i : ℕ)
      → IsPath (i ∷ p)
      → T p ≢ 0
      → (o.len b.medium ≤ slot_of (T p) i) ⊎ (slot_of (T p) i + 8 ≤ o.len b.medium)
  unfolding node_bytes bitmap_bytes
  slot_whole [] i v n = ground (arith, root, root-eq, v.0.0)
  slot_whole (j ∷ p) i v n = inr (
      omega (
        arith,
        v.0.0,
        h.covered (j ∷ p) (IsPath-tail i (j ∷ p) v) (λ e. cc) (omega (arith, v.1)) n,
      ))

  slot-word :
      (p : List ℕ) (i : ℕ)
      → IsPath (i ∷ p)
      → T p ≢ 0
      → word (byte b.medium) (slot_of (T p) i) ≡ T (i ∷ p)
  unfolding resolve
  slot-word p i v n = ground (arith, h.maps p (IsPath-tail i p v), h.maps (i ∷ p) v)

  -- A slot of a node reads as the child or record that the tree has there.
  pub read_slot-tree :
      (p : List ℕ) (i : ℕ)
      → IsPath (i ∷ p)
      → T p ≢ 0
      → read_slot b.medium (slot_pos (T p) i) ≡ ok (T (i ∷ p))
  read_slot-tree p i v n =
      rw
        (slot_pos_lem medium (T p) i v.0.0 (node-fits p (IsPath-tail i p v) (omega (arith, v.1)) n))
        (read_slot_lem medium b.medium (slot_of (T p) i) (slot_whole p i v n)
          ∙ ap ok (slot-word p i v n))

  -- A child node that the tree has passes the check of its bounds.
  pub check_child-tree :
      (p : List ℕ)
      → IsPath p
      → p ≢ []
      → length p < t.depth
      → T p ≢ 0
      → check_child_in_bounds b.medium (T p) ≡ ok tt
  unfolding check_child_in_bounds
  check_child-tree p v ne short n = ground (arith, node-fits p v short n, h.covered p v ne short n)

  -- The slot is that of the whole path, if the path leads to a record; otherwise its record is 0.
  -- The last level is `last`.
  pub record Located (key : t.CoordPath) (last : ℕ) (s : Slot) : Type 0 where
    pub offset : s.record_offset ≡ T (trail key (suc last))
    pub place :
        T (trail key (suc last)) ≢ 0
        → (T (trail key last) ≢ 0)
          × (s ≡ slot_at (T (trail key last)) (index_at key last) (T (trail key (suc last))))

  -- Nothing hangs below a missing node.
  pub below_absent :
      (key : t.CoordPath) (n d : ℕ)
      → TagmaLaws t
      → n ≤ d
      → d ≤ t.depth
      → T (trail key n) ≡ 0
      → T (trail key d) ≡ 0
  unfolding resolve
  below_absent key n zero laws le up e =
      subst (λ (x : ℕ). T (trail key x) ≡ 0) {y = 0} (omega arith) e
  below_absent key n (suc d) laws le up e = elim (dec_le n d) [
    | yes le' ↦ ground (
      arith,
      below_absent key n d laws le' (omega arith) e,
      h.maps (trail key d) (trail-IsPath laws key d (omega arith)),
      h.maps (trail key (suc d)) (trail-IsPath laws key (suc d) up),
    )
    | no gt ↦ subst (λ (x : ℕ). T (trail key x) ≡ 0) {y = suc d} (omega arith) e
  ]

  module _ (laws : TagmaLaws t) (key : t.CoordPath) (last : ℕ) (depth_eq : suc last ≡ t.depth) where
    abbrev Descent : ℕ → ℕ → Type 0
    Descent left depth =
        (s : Slot) × (locate_loop b.medium key left depth (T (trail key depth)) ≡ ok s)
        × Located key last s

    last_step : T (trail key last) ≢ 0 → Descent 1 last
    unfolding locate_loop
    last_step n =
        let (c, e) = get-some laws key last (omega arith) in
        let read =
          read_slot-tree (trail key last) (index_at key last)
            (trail-IsPath laws key (suc last) (omega arith)) n in
        (
          slot_at (T (trail key last)) (index_at key last) (T (trail key (suc last))),
          ground (arith, e, read),
          record { offset = refl; place = λ m. (n, refl) },
        )

    inner_step :
        (left depth : ℕ)
        → suc (suc left) + depth ≡ t.depth
        → T (trail key depth) ≢ 0
        → (T (trail key (suc depth)) ≢ 0 → Descent (suc left) (suc depth))
        → Descent (suc (suc left)) depth
    unfolding locate_loop
    inner_step left depth e n next =
        let (c, at) = get-some laws key depth (omega arith) in
        let here = trail-IsPath laws key (suc depth) (omega arith) in
        let read = read_slot-tree (trail key depth) (index_at key depth) here n in
        elim (ℕ_discrete (T (trail key (suc depth))) 0) [
          | yes absent ↦ (
            slot_at (T (trail key depth)) (index_at key depth) 0,
            ground (arith, at, read),
            record {
              offset =
                  sym (
                    below_absent key (suc depth) (suc last) laws (omega arith) (omega arith)
                      absent);
              place = λ m. absurd (
                  m (
                    below_absent key (suc depth) (suc last) laws (omega arith) (omega arith)
                      absent));
            },
          )
          | no present ↦
              let (s, found, located) = next present in
              let checked =
                check_child-tree (trail key (suc depth)) here (λ e. cc)
                  (omega (arith, length-trail laws key depth)) present in
              let one : depth + 1 ≡ suc depth = omega arith in
              (s, ground (arith, at, read, checked, one, found), located)
        ]

    locate_loop-tree :
        (left depth : ℕ)
        → suc left + depth ≡ t.depth
        → T (trail key depth) ≢ 0
        → Descent (suc left) depth
    locate_loop-tree zero depth e n =
        let same : last ≡ depth = omega arith in
        subst (λ (d : ℕ). Descent 1 d) same
          (last_step (subst (λ (d : ℕ). T (trail key d) ≢ 0) (sym same) n))
    locate_loop-tree (suc left) depth e n =
        inner_step left depth e n (locate_loop-tree left (suc depth) (omega arith))

    -- In a memory that holds a tree, `locate` returns for every key the address of its record, 0 if
    -- it has none, and if it has one also the slot that the address stands in.
    pub locate-tree : (s : Slot) × (locate b.medium key ≡ ok s) × Located key last s
    unfolding locate
    locate-tree =
        let (s, found, located) = locate_loop-tree last 0 (omega arith) (omega (arith, root-eq)) in
        (s, ground (arith, found, root-eq), located)
