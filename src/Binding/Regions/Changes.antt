-- ===== src/Binding/Regions/Changes.antt =====
-- The regions stay apart when the bump pointer moves and when a region joins or leaves the tree.
use chton.Prelude.{ℕ, ◌+◌, ◌≤◌, ◌≡◌, ◌≢◌, inr, List, [], ◌∷◌, All, arith, subst}
use chton.Prelude.Word.{Apart}
use chton.Tagma.{Tagma}
use chton.Binding.{root_offset}
use chton.Binding.Shape.{IsPath, extent, relink}
use chton.Binding.Regions.{TreeFits, Loose, FreeFits}

module _ ⦃t : Tagma⦄ (T : List ℕ → ℕ) (rss : ℕ) where
  pub TreeFits-grow : (bump bump' : ℕ) → bump ≤ bump' → TreeFits T bump rss → TreeFits T bump' rss
  TreeFits-grow bump bump' h fits = record {
    low = fits.low;
    high = λ q v n. omega (arith, fits.high q v n);
    apart = fits.apart;
  }

  pub FreeFits-grow :
      (free : List ℕ) (bump bump' : ℕ)
      → bump ≤ bump'
      → FreeFits T free bump rss
      → FreeFits T free bump' rss
  FreeFits-grow [] bump bump' h fits = tt
  FreeFits-grow (f ∷ fs) bump bump' h (l, rest) = (
    record {
      low = l.low;
      high = omega (arith, l.high);
      off_tree = l.off_tree;
      off_free = l.off_free;
    },
    FreeFits-grow fs bump bump' h rest,
  )

  fresh-off_free :
      (free : List ℕ) (bump size : ℕ)
      → FreeFits T free bump rss
      → All (λ f. Apart bump size f rss) free
  fresh-off_free [] bump size fits = tt
  fresh-off_free (f ∷ fs) bump size (l, rest) = (inr l.high, fresh-off_free fs bump size rest)

  -- What the bump pointer passes over is loose.
  pub fresh-Loose :
      (free : List ℕ) (bump size : ℕ)
      → root_offset ≤ bump
      → TreeFits T bump rss
      → FreeFits T free bump rss
      → Loose T free (bump + size) rss bump size
  fresh-Loose free bump size low tree fits = record {
    low = low;
    high = omega arith;
    off_tree = λ q v n. inr (tree.high q v n);
    off_free = fresh-off_free free bump size fits;
  }

  -- A loose region of the right size joins the tree.
  module _ (p : List ℕ) (x bump : ℕ) where
    pub attach-TreeFits :
        (free : List ℕ)
        → Loose T free bump rss x (extent rss p)
        → TreeFits T bump rss
        → TreeFits (relink T p x) bump rss
    attach-TreeFits free loose fits = record {
      low = λ q v n. ground (arith, loose.low, fits.low q v);
      high = λ q v n. ground (arith, loose.high, fits.high q v);
      apart = λ q r v w ne n n'.
          ground (arith, fits.apart q r v w ne, loose.off_tree q v, loose.off_tree r w);
    }

    attach-Loose :
        (f : ℕ) (fs : List ℕ)
        → Apart x (extent rss p) f rss
        → Loose T fs bump rss f rss
        → Loose (relink T p x) fs bump rss f rss
    attach-Loose f fs off l = record {
      low = l.low;
      high = l.high;
      off_tree = λ q v n. ground (arith, l.off_tree q v);
      off_free = l.off_free;
    }

    pub attach-FreeFits :
        (free : List ℕ)
        → All (λ f. Apart x (extent rss p) f rss) free
        → FreeFits T free bump rss
        → FreeFits (relink T p x) free bump rss
    attach-FreeFits [] off fits = tt
    attach-FreeFits (f ∷ fs) (o, off) (l, rest) =
        (attach-Loose f fs o l, attach-FreeFits fs off rest)

  -- What the tree holds meets no freed record.
  pub off_free_of :
      (p free : List ℕ) (bump : ℕ)
      → IsPath p
      → T p ≢ 0
      → FreeFits T free bump rss
      → All (λ f. Apart (T p) (extent rss p) f rss) free
  off_free_of p [] bump v n fits = tt
  off_free_of p (f ∷ fs) bump v n (l, rest) =
      (ground (arith, l.off_tree p v), off_free_of p fs bump v n rest)

  -- A record leaves the tree, and may then be listed as free.
  module _ (p : List ℕ) (bump : ℕ) where
    pub detach-TreeFits : TreeFits T bump rss → TreeFits (relink T p 0) bump rss
    detach-TreeFits fits = record {
      low = λ q v n. ground (arith, fits.low q v);
      high = λ q v n. ground (arith, fits.high q v);
      apart = λ q r v w ne n n'. ground (arith, fits.apart q r v w ne);
    }

    detach-Loose :
        (f : ℕ) (fs : List ℕ) → Loose T fs bump rss f rss → Loose (relink T p 0) fs bump rss f rss
    detach-Loose f fs l = record {
      low = l.low;
      high = l.high;
      off_tree = λ q v n. ground (arith, l.off_tree q v);
      off_free = l.off_free;
    }

    detach_rest : (free : List ℕ) → FreeFits T free bump rss → FreeFits (relink T p 0) free bump rss
    detach_rest [] fits = tt
    detach_rest (f ∷ fs) (l, rest) = (detach-Loose f fs l, detach_rest fs rest)

    pub detach-FreeFits :
        (free : List ℕ)
        → IsPath p
        → T p ≢ 0
        → extent rss p ≡ rss
        → TreeFits T bump rss
        → FreeFits T free bump rss
        → FreeFits (relink T p 0) (T p ∷ free) bump rss
    detach-FreeFits free v n e tree fits = (
      record {
        low = tree.low p v n;
        high = ground (arith, tree.high p v n);
        off_tree = λ q w m. ground (arith, tree.apart p q v w);
        off_free =
            subst (λ (size : ℕ). All (λ f. Apart (T p) size f rss) free) e
              (off_free_of p free bump v n fits);
      },
      detach_rest free fits,
    )
