-- ===== src/Binding/Header/Fields.antt =====
-- The fields of a header that was written read back.
use chton.Prelude.{ℕ, ◌+◌, ◌%◌, ◌^◌, ◌≤◌, ◌<◌, ◌≡◌, ◌⊎◌, List, ◌++◌, length, take, replicate}
use chton.Prelude.{arith, refl, ap, ◌∙◌, length-append, take-append, drop-append}
use chton.Prelude.Outcome.{done}
use chton.Prelude.Bytes.{to_le, from_le, length-to_le, from_le-to_le}
use chton.Tagma.{Tagma}
use chton.Binding.{TreeStrategy, magic, header_len, root_offset}
use chton.Binding.Header.{field, header_of, adopt}

-- A field behind a prefix.
field_skip :
    (xs ys : List ℕ) (from k width : ℕ)
    → from ≡ length xs + k
    → field (xs ++ ys) from width ≡ field ys k width
field_skip xs ys from k width e =
    ap (λ (l : List ℕ). from_le (take width l)) (drop-append from k xs ys e)

field_first :
    (width v : ℕ) (ys : List ℕ) → v < 256 ^ width → field (to_le width v ++ ys) 0 width ≡ v
field_first width v ys small =
    ap from_le (take-append width (to_le width v) ys (omega (arith, length-to_le width v)))
    ∙ from_le-to_le width v small

word_skip :
    (v : ℕ) (ys : List ℕ) (from k : ℕ)
    → from ≡ 8 + k
    → field (to_le 8 v ++ ys) from 8 ≡ field ys k 8
word_skip v ys from k e = field_skip (to_le 8 v) ys from k 8 (omega (arith, length-to_le 8 v))

module _ ⦃t : Tagma⦄ (st : TreeStrategy) where
  -- The numbers of a strategy fit the fields of the header.
  pub record FitsHeader : Type 0 where
    pub depth_small : t.depth < 2 ^ 16
    pub bump_small : st.bump < 2 ^ 64
    pub head_small : st.free_head < 2 ^ 64
    pub node_small : st.node_size < 2 ^ 64
    pub size_small : st.record_slot_size < 2 ^ 64
    pub count_small : st.record_count < 2 ^ 64

  abbrev counts : List ℕ
  counts = to_le 8 st.record_count ++ replicate 16 0

  abbrev sizes : List ℕ
  sizes = to_le 8 st.node_size ++ (to_le 8 st.record_slot_size ++ counts)

  abbrev words : List ℕ
  words = to_le 8 st.bump ++ (to_le 8 st.free_head ++ sizes)

  abbrev depths : List ℕ
  depths = to_le 2 (t.depth % 2 ^ 16) ++ (replicate 2 0 ++ words)

  pub length-header_of : length (header_of st) ≡ header_len
  unfolding header_of
  length-header_of = omega (
    arith,
    length-append (to_le 4 magic) depths,
    length-append (to_le 2 (t.depth % 2 ^ 16)) (replicate 2 0 ++ words),
    length-append (to_le 8 st.bump) (to_le 8 st.free_head ++ sizes),
    length-append (to_le 8 st.free_head) sizes,
    length-append (to_le 8 st.node_size) (to_le 8 st.record_slot_size ++ counts),
    length-append (to_le 8 st.record_slot_size) counts,
    length-append (to_le 8 st.record_count) (replicate 16 0),
    length-to_le 4 magic,
    length-to_le 2 (t.depth % 2 ^ 16),
    length-to_le 8 st.bump,
    length-to_le 8 st.free_head,
    length-to_le 8 st.node_size,
    length-to_le 8 st.record_slot_size,
    length-to_le 8 st.record_count,
  )

  -- The words begin at 8.
  to-words : (from k : ℕ) → from ≡ 8 + k → field (header_of st) from 8 ≡ field words k 8
  unfolding header_of
  to-words from k e =
      field_skip (to_le 4 magic) depths from (4 + k) 8 (omega (arith, length-to_le 4 magic))
      ∙ field_skip (to_le 2 (t.depth % 2 ^ 16)) (replicate 2 0 ++ words) (4 + k) (2 + k) 8
          (omega (arith, length-to_le 2 (t.depth % 2 ^ 16)))
      ∙ field_skip (replicate 2 0) words (2 + k) k 8 refl

  to-sizes : (from k : ℕ) → from ≡ 24 + k → field (header_of st) from 8 ≡ field sizes k 8
  to-sizes from k e =
      to-words from (16 + k) (omega arith)
      ∙ word_skip st.bump (to_le 8 st.free_head ++ sizes) (16 + k) (8 + k) (omega arith)
      ∙ word_skip st.free_head sizes (8 + k) k refl

  module _ (fits : FitsHeader) where
    magic-field : field (header_of st) 0 4 ≡ magic
    unfolding header_of
    magic-field = field_first 4 magic depths (omega arith)

    depth-field : field (header_of st) 4 2 ≡ t.depth
    unfolding header_of
    depth-field =
        field_skip (to_le 4 magic) depths 4 0 2 (omega (arith, length-to_le 4 magic))
        ∙ field_first 2 (t.depth % 2 ^ 16) (replicate 2 0 ++ words) (omega arith)
        ∙ omega (arith, fits.depth_small)

    bump-field : field (header_of st) 8 8 ≡ st.bump
    bump-field =
        to-words 8 0 refl
        ∙ field_first 8 st.bump (to_le 8 st.free_head ++ sizes) (omega (arith, fits.bump_small))

    head-field : field (header_of st) 16 8 ≡ st.free_head
    head-field =
        to-words 16 8 refl
        ∙ word_skip st.bump (to_le 8 st.free_head ++ sizes) 8 0 refl
        ∙ field_first 8 st.free_head sizes (omega (arith, fits.head_small))

    node-field : field (header_of st) 24 8 ≡ st.node_size
    node-field =
        to-sizes 24 0 refl
        ∙ field_first 8 st.node_size (to_le 8 st.record_slot_size ++ counts)
            (omega (arith, fits.node_small))

    size-field : field (header_of st) 32 8 ≡ st.record_slot_size
    size-field =
        to-sizes 32 8 refl
        ∙ word_skip st.node_size (to_le 8 st.record_slot_size ++ counts) 8 0 refl
        ∙ field_first 8 st.record_slot_size counts (omega (arith, fits.size_small))

    count-field : field (header_of st) 40 8 ≡ st.record_count
    count-field =
        to-sizes 40 16 refl
        ∙ word_skip st.node_size (to_le 8 st.record_slot_size ++ counts) 16 8 refl
        ∙ word_skip st.record_slot_size counts 8 0 refl
        ∙ field_first 8 st.record_count (replicate 16 0) (omega (arith, fits.count_small))

    pub magic_lem : field (header_of st) 0 4 ≡ magic
    magic_lem = magic-field

    -- The header of a strategy is adopted as that strategy, by any other of the same node size.
    pub adopt-header_of :
        (len : ℕ) (st' : TreeStrategy)
        → st'.node_size ≡ st.node_size
        → 8 ≤ st.record_slot_size
        → root_offset + st.node_size ≤ st.bump
        → (st.free_head ≡ 0) ⊎ (st.free_head < len)
        → adopt len (header_of st) st' ≡ done tt st
    unfolding adopt
    adopt-header_of len st' same wide past head =
        ground (arith, depth-field, bump-field, head-field, node-field, size-field, count-field)
