-- ===== src/Binding/Holds/Touch.antt =====
-- A write inside one record changes no path, no free record and no other record.
use chton.Prelude.{ℕ, ◌+◌, ◌≤◌, ◌<◌, ◌≡◌, ◌≢◌, List, [], ◌∷◌, length, All}
use chton.Prelude.{arith, ap, sym}
use chton.Prelude.Word.{Keeps, Apart}
use chton.Tagma.{Tagma}
use chton.Origin.{Origin}
use chton.Binding.{Bound, node_bytes}
use chton.Binding.Holds.Marks.{Marked-Keeps}
use chton.Binding.Shape.{IsPath, resolve, extent}
use chton.Binding.Regions.Changes.{off_free_of}
use chton.Binding.Holds.{Holds, RecordsBut, IsLeaf}
use chton.Binding.Holds.Frame.{
  Chain-Keeps, RecordsBut-Keeps, resolve-Keeps, extent-node, extent-leaf,
}

module _ ⦃t : Tagma⦄ {S : Type 0} ⦃o : Origin S⦄ {byte : S → ℕ → ℕ} (b : Bound S) (T : List ℕ → ℕ)
    (free : List ℕ) (p : List ℕ) (s' : S) (w size : ℕ) (h : Holds byte b T free) (leaf : IsLeaf p)
    (present : T p ≢ 0) (starts : T p ≤ w) (ends : w + size ≤ T p + b.strategy.record_slot_size)
    (kept : Keeps (byte b.medium) (byte s') w size) (longer : o.len b.medium ≤ o.len s') where
  abbrev rss : ℕ
  rss = b.strategy.record_slot_size

  here : extent rss p ≡ rss
  here = extent-leaf rss p leaf.1

  off_node : (q : List ℕ) → IsPath q → length q < t.depth → T q ≢ 0 → Apart w size (T q) node_bytes
  off_node q v short n =
      let other : p ≢ q = λ e. absurd (omega (arith, leaf.1, ap (λ (l : List ℕ). length l) e)) in
      ground (arith, h.tree.apart p q leaf.0 v other present n, extent-node rss q short, here)

  touch_maps : (q : List ℕ) → IsPath q → resolve (byte s') q ≡ T q
  touch_maps = resolve-Keeps (byte b.medium) (byte s') w size kept T h.maps off_node

  shrink_free :
      (fs : List ℕ)
      → All (λ f. Apart (T p) (extent rss p) f rss) fs
      → All (λ f. Apart w size f rss) fs
  shrink_free [] off = tt
  shrink_free (f ∷ fs) (a, off) = (ground (arith, here), shrink_free fs off)

  pub touch-Holds : Holds byte (record b { medium = s' }) T free
  touch-Holds = record {
    node_size = h.node_size;
    slot_size = h.slot_size;
    bump_small = h.bump_small;
    maps = touch_maps;
    marks = Marked-Keeps (byte b.medium) (byte s') w size kept T off_node h.marks;
    tree = h.tree;
    spare = h.spare;
    chain =
        Chain-Keeps (byte b.medium) (byte s') w size kept (o.len b.medium) (o.len s') rss
          b.strategy.free_head free longer h.slot_size
          (shrink_free free (off_free_of T rss p free b.strategy.bump leaf.0 present h.spare))
          h.chain;
    covered = λ q v ne short n. omega (arith, longer, h.covered q v ne short n);
  }

  pub touch-records :
      (vals : List ℕ → List ℕ)
      → RecordsBut p (byte b.medium) (o.len b.medium) rss T vals
      → RecordsBut p (byte s') (o.len s') rss T vals
  touch-records vals =
      RecordsBut-Keeps (byte b.medium) (byte s') w size kept p (o.len b.medium) (o.len s') rss T
        vals longer
        (λ q l ne n.
          let other : p ≢ q = λ e. ne (sym e) in
          ground (arith, h.tree.apart p q leaf.0 l.0 other present n, extent-leaf rss q l.1, here))
