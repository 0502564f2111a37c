-- ===== src/Binding/Holds/Frame.antt =====
-- What a write leaves of the tree, the free list and the records that it does not touch.
use chton.Prelude.{ℕ, ◌+◌, ◌≤◌, ◌<◌, ◌≡◌, ◌≢◌, List, [], ◌∷◌, length, All}
use chton.Prelude.{arith, ◌∙◌}
use chton.Prelude.Word.{word, Keeps, Apart, word-Keeps, bytes_at-Keeps}
use chton.Tagma.{Tagma}
use chton.Binding.{bitmap_bytes, node_bytes}
use chton.Binding.Shape.{IsPath, resolve, slot_of, extent}
use chton.Binding.Shape.Link.{resolve-same, IsPath-tail}
use chton.Binding.Holds.{Chain, RecordAt, RecordsBut, IsLeaf}

module _ (m k : ℕ → ℕ) (w size : ℕ) (kept : Keeps m k w size) where
  pub Chain-Keeps :
      (len len' rss head : ℕ) (free : List ℕ)
      → len ≤ len'
      → 8 ≤ rss
      → All (λ f. Apart w size f rss) free
      → Chain m len head free
      → Chain k len' head free
  Chain-Keeps len len' rss head [] h r off c = c
  Chain-Keeps len len' rss head (f ∷ fs) h r (a, off) (e, fits, c) =
      let same : word k f ≡ word m f = word-Keeps m k w size f kept (omega arith) in
      (e, omega arith, rw same (Chain-Keeps len len' rss (word m f) fs h r off c))

  pub RecordAt-Keeps :
      (len len' rss x : ℕ) (v : List ℕ)
      → len ≤ len'
      → Apart w size x rss
      → RecordAt m len rss x v
      → RecordAt k len' rss x v
  RecordAt-Keeps len len' rss x v h off r = record {
    exists = omega (arith, r.exists);
    room = r.room;
    prefix = word-Keeps m k w size x kept (omega (arith, r.room)) ∙ r.prefix;
    payload = bytes_at-Keeps m k w size (x + 8) (length v) kept (omega (arith, r.room)) ∙ r.payload;
  }

  module _ ⦃t : Tagma⦄ where
    -- A write that meets no node changes no path.
    pub resolve-Keeps :
        (T : List ℕ → ℕ)
        → ((q : List ℕ) → IsPath q → resolve m q ≡ T q)
        → ((q : List ℕ) → IsPath q → length q < t.depth → T q ≢ 0 → Apart w size (T q) node_bytes)
        → (q : List ℕ) → IsPath q
        → resolve k q ≡ T q
    unfolding node_bytes bitmap_bytes
    resolve-Keeps T maps off = resolve-same m k T maps λ p i h n.
        let a : Apart w size (T p) node_bytes = off p (IsPath-tail i p h) (omega arith) n in
        word-Keeps m k w size (slot_of (T p) i) kept (omega (arith, h.0.0))

    pub RecordsBut-Keeps :
        (p : List ℕ) (len len' rss : ℕ) (T : List ℕ → ℕ) (vals : List ℕ → List ℕ)
        → len ≤ len'
        → ((q : List ℕ) → IsLeaf q → q ≢ p → T q ≢ 0 → Apart w size (T q) rss)
        → RecordsBut p m len rss T vals
        → RecordsBut p k len' rss T vals
    RecordsBut-Keeps p len len' rss T vals h off rs q leaf ne n =
        RecordAt-Keeps len len' rss (T q) (vals q) h (off q leaf ne n) (rs q leaf ne n)

module _ ⦃t : Tagma⦄ (rss : ℕ) (q : List ℕ) where
  pub extent-node : length q < t.depth → extent rss q ≡ node_bytes
  unfolding extent
  extent-node h = ground arith

  pub extent-leaf : length q ≡ t.depth → extent rss q ≡ rss
  unfolding extent
  extent-leaf h = ground arith
