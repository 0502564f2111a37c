-- ===== src/Binding/Enumerate/Laws.antt =====
-- `iter` lists the records of the tree.
use chton.Prelude.{
  ℕ, zero, suc, ◌+◌, ◌≡◌, ◌≢◌, refl, ap, ap₂, sym, ◌∙◌, arith, List, [], ◌∷◌, ◌++◌, subst, map,
  length, replicate, length-replicate,
}
use chton.Prelude.Outcome.{ok}
use chton.Tagma.{Tagma, TagmaLaws}
use chton.Origin.{Origin}
use chton.Origin.Laws.{IsMedium}
use chton.Binding.{Bound, root_offset}
use chton.Binding.Walk.{Found, iter_node, iter}
use chton.Binding.Shape.{IsPath}
use chton.Binding.Holds.{Holds, RootReady}
use chton.Binding.Holds.Locate.{root-eq}
use chton.Binding.Enumerate.{leaves}
use chton.Binding.Enumerate.Bitmap.{read_bitmap-tree}
use chton.Binding.Enumerate.Slots.{entry_of, tagged, IsAt, Walked, slots-Walked}

module _ ⦃t : Tagma⦄ {S : Type 0} ⦃o : Origin S⦄ {byte : S → ℕ → ℕ} (medium : IsMedium o byte)
    (b : Bound S) (T : List ℕ → ℕ) (free : List ℕ) (h : Holds byte b T free)
    (root : RootReady (o.len b.medium)) (laws : TagmaLaws t) where
  -- What the walk of one level down does.
  abbrev Descends : ℕ → List ℕ → Type 0
  Descends levels q =
      (i : ℕ) (found : Found)
      → IsPath (i ∷ q)
      → T (i ∷ q) ≢ 0
      → length q + 1 ≢ t.depth
      → IsAt found (i ∷ q)
      → Walked found (i ∷ q) (tagged T (leaves T levels (i ∷ q)))
          (iter_node b.medium levels (T (i ∷ q)) (length q + 1) found)

  level-Walked :
      (levels : ℕ) (q : List ℕ) (found : Found)
      → Descends levels q
      → IsPath q
      → T q ≢ 0
      → length q + 1 + levels ≡ t.depth
      → IsAt found q
      → Walked found q
          (tagged T (leaves T (suc levels) q))
          (iter_node b.medium (suc levels) (T q) (length q) found)
  unfolding iter_node leaves
  level-Walked levels q found descends v n here at =
      let (bitmap, read, bits) = read_bitmap-tree medium b T free h root q v (omega arith) n in
      let walk =
        slots-Walked medium b T free h root laws q v n levels here
          (λ value f. iter_node b.medium levels value (length q + 1) f) descends bitmap bits
          t.n_valid 0 found (omega arith) at in
      record {
        after = walk.after;
        returns = ground (arith, read, walk.returns);
        place = walk.place;
        listed =
            walk.listed
            ∙ ap (λ (l : List (List ℕ)). map entry_of found.out ++ tagged T l) (ground (arith, n));
      }

  node-Walked :
      (levels : ℕ) (q : List ℕ) (found : Found)
      → IsPath q
      → T q ≢ 0
      → length q + 1 + levels ≡ t.depth
      → IsAt found q
      → Walked found q
          (tagged T (leaves T (suc levels) q))
          (iter_node b.medium (suc levels) (T q) (length q) found)
  node-Walked zero q found v n here at =
      level-Walked zero q found (λ i f v' n' ne at'. absurd (ne (omega arith))) v n here at
  node-Walked (suc levels) q found v n here at =
      level-Walked (suc levels) q found
        (λ i f v' n' ne at'.
          subst
            (λ (d : ℕ).
              Walked f (i ∷ q) (tagged T (leaves T (suc levels) (i ∷ q)))
                (iter_node b.medium (suc levels) (T (i ∷ q)) d f))
            {x = length (i ∷ q)} {y = length q + 1} (omega arith)
            (node-Walked levels (i ∷ q) f v' n' (omega arith) at'))
        v n here at

  -- Over a working medium and a memory that holds a tree, `iter` returns the keys and addresses of all
  -- records, in depth-first ascending order, at a depth from 1 on.
  pub iter-leaves :
      (last : ℕ)
      → suc last ≡ t.depth
      → (out : List (t.CoordPath × ℕ)) × (iter b.medium ≡ ok out)
        × (map entry_of out ≡ tagged T (leaves T t.depth []))
  unfolding iter
  iter-leaves last depth_eq =
      let (c, new, e) = laws.new_valid 0 laws.n_valid_pos in
      let start : Found = record { path = replicate t.depth c; out = [] } in
      let walk =
        node-Walked last [] start (tt, omega arith)
          (λ e. omega (arith, e, root-eq medium b T free h root)) (omega arith)
          (record { full = length-replicate t.depth c; spelled = refl }) in
      let walked : iter_node b.medium t.depth root_offset 0 start ≡ ok walk.after =
        ap₂ (λ (n x : ℕ). iter_node b.medium n x 0 start) (sym depth_eq)
          (sym (root-eq medium b T free h root))
        ∙ walk.returns in
      (
        walk.after.out,
        ground (arith, new, walked, depth_eq),
        walk.listed ∙ ap (λ (n : ℕ). tagged T (leaves T n [])) depth_eq,
      )
