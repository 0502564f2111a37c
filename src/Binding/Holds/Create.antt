-- ===== src/Binding/Holds/Create.antt =====
-- `locate_or_create` makes the missing nodes of a path and changes no record.
use chton.Prelude.{ℕ, zero, suc, ◌+◌, ◌*◌, ◌^◌, ◌≤◌, ◌<◌, ◌≡◌, ◌≢◌, inr, List, ◌∷◌, length}
use chton.Prelude.{arith, refl, ap, sym, subst, ◌∙◌}
use native.Mathlib.Decide.{ℕ_discrete}
use chton.Prelude.Outcome.{done, ok}
use chton.Tagma.{Tagma, TagmaLaws}
use chton.Origin.{Origin}
use chton.Origin.Laws.{IsMedium}
use chton.Binding.{Bound, TreeStrategy, node_bytes}
use chton.Binding.Read.{check_child_in_bounds}
use chton.Binding.Tree.{slot_at}
use chton.Binding.Alloc.{locate_or_create, locate_or_create_loop, descend}
use chton.Binding.Shape.{trail, index_at, relink}
use chton.Binding.Shape.Trail.{get-some, trail-IsPath, length-trail}
use chton.Binding.Holds.Relink.{relink-ne, relink_self}
use chton.Binding.Holds.{Ready, RecordAt, IsLeaf}
use chton.Binding.Holds.Grow.{grow, Grown}
use chton.Binding.Holds.Locate.{read_slot-tree, check_child-tree, root-eq}

module _ ⦃t : Tagma⦄ {S : Type 0} ⦃o : Origin S⦄ (byte : S → ℕ → ℕ) where
  -- The loop at `depth`, with `left` levels above the leaf: it returns the slot of the key's last
  -- level, in a tree that has the same records.
  pub record Created (key : t.CoordPath) (last : ℕ) (b : Bound S) (T : List ℕ → ℕ) (free : List ℕ)
      (vals : List ℕ → List ℕ) (left depth : ℕ) : Type 0 where
    pub after : Bound S
    pub tree : List ℕ → ℕ
    pub returns :
        locate_or_create_loop key (suc left) depth (T (trail key depth)) b
        ≡ done
            (slot_at (tree (trail key last)) (index_at key last) (tree (trail key (suc last))))
            after
    pub ready : Ready byte after tree free vals
    pub leaves : (q : List ℕ) → IsLeaf q → tree q ≡ T q
    pub node : tree (trail key last) ≢ 0
    pub strategy_after : after.strategy ≡ record b.strategy { bump = after.strategy.bump }
    pub space_used : after.strategy.bump ≤ b.strategy.bump + left * node_bytes

module _ ⦃t : Tagma⦄ {S : Type 0} ⦃o : Origin S⦄ {byte : S → ℕ → ℕ} (medium : IsMedium o byte)
    (laws : TagmaLaws t) (key : t.CoordPath) (last : ℕ) (depth_eq : suc last ≡ t.depth)
    (free : List ℕ) (vals : List ℕ → List ℕ) where
  -- A new node changes no leaf.
  grown_leaves :
      (T : List ℕ → ℕ) (p : List ℕ) (i v : ℕ)
      → length p + 1 < t.depth
      → (q : List ℕ) → IsLeaf q
      → relink T (i ∷ p) v q ≡ T q
  grown_leaves T p i v short q leaf =
      relink-ne T (i ∷ p) q v (λ x. absurd (omega (arith, leaf.1, ap (λ (l : List ℕ). length l) x)))

  create_last :
      (b : Bound S) (T : List ℕ → ℕ)
      → Ready byte b T free vals
      → T (trail key last) ≢ 0
      → Created byte key last b T free vals 0 last
  unfolding locate_or_create_loop
  create_last b T r n =
      let (c, at) = get-some laws key last (omega arith) in
      let read =
        read_slot-tree medium b T free r.holds r.root (trail key last) (index_at key last)
          (trail-IsPath laws key (suc last) (omega arith)) n in
      record {
        after = b;
        tree = T;
        returns = ground (arith, at, read);
        ready = r;
        leaves = λ q leaf. refl;
        node = n;
        strategy_after = refl;
        space_used = omega arith;
      }

  descend-present :
      (b : Bound S) (node index value : ℕ)
      → value ≢ 0
      → check_child_in_bounds b.medium value ≡ ok tt
      → descend node index value b ≡ done value b
  unfolding descend
  descend-present b node index value n checked = ground arith

  -- Where the child is there, the loop goes on from it.
  create_below :
      (b : Bound S) (T : List ℕ → ℕ) (left depth : ℕ)
      → Ready byte b T free vals
      → suc (suc left) + depth ≡ t.depth
      → T (trail key depth) ≢ 0
      → T (trail key (suc depth)) ≢ 0
      → Created byte key last b T free vals left (suc depth)
      → Created byte key last b T free vals (suc left) depth
  unfolding locate_or_create_loop
  create_below b T left depth r e n present c =
      let (coord, at) = get-some laws key depth (omega arith) in
      let here = trail-IsPath laws key (suc depth) (omega arith) in
      let read =
        read_slot-tree medium b T free r.holds r.root (trail key depth) (index_at key depth) here
          n in
      let followed =
        descend-present b (T (trail key depth)) (index_at key depth) (T (trail key (suc depth)))
          present
          (check_child-tree medium b T free r.holds r.root (trail key (suc depth)) here (λ x. cc)
            (omega (arith, length-trail laws key depth)) present) in
      let one : depth + 1 ≡ suc depth = omega arith in
      record {
        after = c.after;
        tree = c.tree;
        returns = ground (arith, at, read, followed, one, c.returns);
        ready = c.ready;
        leaves = c.leaves;
        node = c.node;
        strategy_after = c.strategy_after;
        space_used = grind (arith, c.space_used);
      }

  -- Where it is missing, the loop goes on from a new one.
  module _ (b : Bound S) (T : List ℕ → ℕ) (left depth : ℕ) (r : Ready byte b T free vals)
      (e : suc (suc left) + depth ≡ t.depth) (n : T (trail key depth) ≢ 0)
      (absent : T (trail key (suc depth)) ≡ 0)
      (g : Grown byte b T free vals (trail key depth) (index_at key depth)) where
    abbrev grown_tree : List ℕ → ℕ
    grown_tree = relink T (trail key (suc depth)) b.strategy.bump

    grown_leaf : (q : List ℕ) → IsLeaf q → grown_tree q ≡ T q
    grown_leaf =
        grown_leaves T (trail key depth) (index_at key depth) b.strategy.bump
          (omega (arith, length-trail laws key depth))

    same_size : g.after.strategy.record_slot_size ≡ b.strategy.record_slot_size
    same_size = ap (λ (s : TreeStrategy). s.record_slot_size) g.strategy_after

    grown_Ready : Ready byte g.after grown_tree free vals
    grown_Ready = record {
      holds = g.holds;
      root = inr g.root;
      records = λ q leaf ne m.
          subst
            (λ (x : ℕ).
              RecordAt (byte g.after.medium) (o.len g.after.medium)
                g.after.strategy.record_slot_size x (vals q))
            (sym (grown_leaf q leaf))
            (subst
              (λ (size : ℕ).
                RecordAt (byte g.after.medium) (o.len g.after.medium) size (T q) (vals q))
              (sym same_size) (g.records q leaf ne (λ z. m (grown_leaf q leaf ∙ z))));
    }

    grown_present : grown_tree (trail key (suc depth)) ≢ 0
    grown_present = omega (
      arith,
      relink_self T (trail key (suc depth)) b.strategy.bump,
      r.holds.tree.high (trail key depth) (trail-IsPath laws key depth (omega arith)) n,
    )

    grown_space :
        b.strategy.bump + suc left * node_bytes < 2 ^ 64
        → g.after.strategy.bump + left * node_bytes < 2 ^ 64
    grown_space space =
        grind (arith, ap (λ (s : TreeStrategy). s.bump) g.strategy_after, r.holds.node_size)

    create_from :
        Created byte key last g.after grown_tree free vals left (suc depth)
        → Created byte key last b T free vals (suc left) depth
    unfolding locate_or_create_loop
    create_from c =
        let (coord, at) = get-some laws key depth (omega arith) in
        let here = trail-IsPath laws key (suc depth) (omega arith) in
        let read =
          read_slot-tree medium b T free r.holds r.root (trail key depth) (index_at key depth) here
            n in
        let one : depth + 1 ≡ suc depth = omega arith in
        let child = relink_self T (trail key (suc depth)) b.strategy.bump in
        record {
          after = c.after;
          tree = c.tree;
          returns = ground (arith, at, read, one, absent, g.returns, child, c.returns);
          ready = c.ready;
          leaves = λ q leaf. c.leaves q leaf ∙ grown_leaf q leaf;
          node = c.node;
          strategy_after = ground (arith, c.strategy_after, g.strategy_after);
          space_used = grind (
            arith,
            c.space_used,
            ap (λ (s : TreeStrategy). s.bump) g.strategy_after,
            r.holds.node_size,
          );
        }

  create_loop :
      (left depth : ℕ) (b : Bound S) (T : List ℕ → ℕ)
      → Ready byte b T free vals
      → suc left + depth ≡ t.depth
      → T (trail key depth) ≢ 0
      → b.strategy.bump + left * node_bytes < 2 ^ 64
      → Created byte key last b T free vals left depth
  create_loop zero depth b T r e n space =
      let same : last ≡ depth = omega arith in
      subst (λ (d : ℕ). Created byte key last b T free vals 0 d) same
        (create_last b T r (subst (λ (d : ℕ). T (trail key d) ≢ 0) (sym same) n))
  create_loop (suc left) depth b T r e n space = elim (ℕ_discrete (T (trail key (suc depth))) 0) [
    | yes absent ↦
        let g =
          grow medium b T free vals (trail key depth) (index_at key depth) r.holds r.records
            (trail-IsPath laws key (suc depth) (omega arith))
            (omega (arith, length-trail laws key depth)) n absent (grind arith) in
        create_from b T left depth r e n absent g (
          create_loop left (suc depth) g.after _ (grown_Ready b T left depth r e n absent g)
            (omega arith) (grown_present b T left depth r e n absent g)
            (grown_space b T left depth r e n absent g space))
    | no present ↦
        create_below b T left depth r e n present
          (create_loop left (suc depth) b T r (omega arith) present (grind arith))
  ]

  -- `locate_or_create` in a memory that holds a tree, with room for the nodes of a path below
  -- 2 ^ 64, returns the slot of the key, in a tree that has the node of that slot and the same
  -- records at the same paths, and moves the bump pointer by at most one node for each level above
  -- the last.
  pub create :
      (b : Bound S) (T : List ℕ → ℕ)
      → Ready byte b T free vals
      → b.strategy.bump + last * node_bytes < 2 ^ 64
      → (c : Created byte key last b T free vals last 0) × (locate_or_create key b
          ≡ done
              (slot_at
                (c.tree (trail key last))
                (index_at key last)
                (c.tree (trail key (suc last))))
              c.after)
  unfolding locate_or_create
  create b T r space =
      let root = root-eq medium b T free r.holds r.root in
      let c = create_loop last 0 b T r (omega arith) (omega (arith, root)) space in
      (c, ground (arith, root, c.returns))
