-- ===== src/Binding/Bounds.antt =====
-- What `locate` and `load` check, over any origin and whatever its bytes are.
use chton.Prelude.{
  ap, ◌≢◌, ◌∙◌, ℕ, zero, suc, ◌+◌, ◌-◌, ◌≤◌, ◌<◌, ◌≡◌, ◌⊎◌, inl, inr, Bool-cases, none, some,
  Option-cases, arith, refl, subst,
}
use chton.Prelude.{List, replicate, ltb, ◌==◌}
use native.Mathlib.Decide.{ℕ_discrete, dec_lt}
use chton.Prelude.Outcome.{Outcome, Result, ok, err, done, failed}
use chton.Tagma.{Tagma, TagmaLaws}
use chton.Origin.{Origin, OriginError}
use chton.Store.Coords.{Result-cases}
use chton.Binding.{BindingError, root_offset, node_bytes, Slot, TreeStrategy, header_len, magic}
use chton.Binding.Read.{slot_pos, read_slot, check_child_in_bounds}
use chton.Binding.Tree.{slot_at, new, locate_loop, locate}
use chton.Binding.Header.{loaded, field, adopt, load, load_or_new}

loaded-cases :
    (out : Outcome TreeStrategy BindingError (Unit {0}))
    → ((e : BindingError) × (loaded out ≡ err e)) ⊎ ((st : TreeStrategy) × (out ≡ done tt st))
loaded-cases (done tt st) = inr (st, refl)
loaded-cases (failed e st) = inl (e, refl)

module _ ⦃t : Tagma⦄ where
  abbrev pub fresh : ℕ → TreeStrategy
  fresh size = record {
    record_slot_size = size;
    bump = root_offset + node_bytes;
    free_head = 0;
    node_size = node_bytes;
    record_count = 0;
  }

module _ ⦃t : Tagma⦄ {S : Type 0} ⦃o : Origin S⦄ where
  -- A node that is the root or lies within the medium.
  abbrev pub IsNode : S → ℕ → Type 0
  IsNode s node = (node ≡ root_offset) ⊎ (node + node_bytes ≤ o.len s)

  -- A slot of such a node, and what it holds: only a slot that begins within the medium is occupied.
  pub record IsSlot (s : S) (slot : Slot) : Type 0 where
    pub node : IsNode s slot.leaf_node
    pub index : slot.leaf_index < t.n_valid
    pub offset : slot.leaf_slot_offset ≡ slot_pos slot.leaf_node slot.leaf_index
    pub content : read_slot s slot.leaf_slot_offset ≡ ok slot.record_offset
    pub occupied : slot.record_offset ≢ 0 → slot.leaf_slot_offset < o.len s

  check-inside :
      (s : S) (child : ℕ) → check_child_in_bounds s child ≡ ok tt → child + node_bytes ≤ o.len s
  unfolding check_child_in_bounds
  check-inside s child e = ground arith

  module _ (laws : TagmaLaws t) (s : S) (key : t.CoordPath) where
    here :
        (node : ℕ) (c : t.Coord) (value : ℕ)
        → IsNode s node
        → read_slot s (slot_pos node (t.index c)) ≡ ok value
        → IsSlot s (slot_at node (t.index c) value)
    unfolding read_slot
    here node c value h found = record {
      node = h;
      index = laws.index-lt c;
      offset = refl;
      content = found;
      occupied = λ held. ground arith;
    }

    locate_loop-IsSlot :
        (left depth node : ℕ) (slot : Slot)
        → IsNode s node
        → locate_loop s key left depth node ≡ ok slot
        → IsSlot s slot
    unfolding locate_loop
    locate_loop-IsSlot zero depth node slot h e = absurd (ground arith)
    locate_loop-IsSlot (suc left) depth node slot h e = elim (Option-cases (t.get key depth)) [
      | inl missing ↦ absurd (ground (arith, missing))
      | inr (c, at) ↦ elim (Result-cases (read_slot s (slot_pos node (t.index c)))) [
        | inr (f, bad) ↦ absurd (ground (arith, at, bad))
        | inl (value, found) ↦ elim (Bool-cases (depth == t.depth - 1)) [
          | inl leaf ↦
              let same : slot_at node (t.index c) value ≡ slot = ground (arith, at, found, leaf) in
              subst (IsSlot s) same (here node c value h found)
          | inr above ↦ elim (ℕ_discrete value 0) [
            | yes zeroth ↦
                let same : slot_at node (t.index c) 0 ≡ slot =
                  ground (arith, at, found, above, zeroth) in
                subst (IsSlot s) same (here node c 0 h (found ∙ ap ok zeroth))
            | no child ↦ elim (Result-cases (check_child_in_bounds s value)) [
              | inr (f, bad) ↦ absurd (ground (arith, at, found, above, child, bad))
              | inl (u, good) ↦
                  locate_loop-IsSlot left (depth + 1) value slot (inr (check-inside s value good))
                    (ground (arith, at, found, above, child, good))
            ]
          ]
        ]
      ]
    ]

    -- Over any origin, however corrupt, a slot that `locate` returns is a slot of the root node at 64,
    -- whatever the length of the medium, or of a node that lies within the medium. Its index is below
    -- `N_VALID`, its position is that of the index, its record is what the slot there holds, and it has
    -- one only if that position lies within the medium.
    pub locate-IsSlot : (slot : Slot) → locate s key ≡ ok slot → IsSlot s slot
    unfolding locate
    locate-IsSlot slot e = locate_loop-IsSlot t.depth 0 root_offset slot (inl refl) e

  -- A strategy that the medium can have.
  pub record IsUsable (s : S) (st : TreeStrategy) : Type 0 where
    pub slot_size : 8 ≤ st.record_slot_size
    pub root_fits : root_offset + node_bytes ≤ st.bump
    pub node_size : st.node_size ≡ node_bytes
    pub head_inside : (st.free_head ≡ 0) ⊎ (st.free_head < o.len s)

  -- The fresh strategy, over a medium that is too short for a header or has another magic.
  pub record IsFresh (s : S) (size : ℕ) (st : TreeStrategy) : Type 0 where
    pub same : st ≡ fresh size
    pub no_header :
        (o.len s < header_len)
        ⊎ ((header : List ℕ) × (n : ℕ) × (o.read s 0 (replicate header_len 0) ≡ ok (header, n))
            × (field header 0 4 ≢ magic))

  -- The strategy of a header with the magic, the depth and the node size of the crate.
  pub record IsAdopted (s : S) (st : TreeStrategy) : Type 0 where
    pub header : List ℕ
    pub n : ℕ
    pub long : header_len ≤ o.len s
    pub read : o.read s 0 (replicate header_len 0) ≡ ok (header, n)
    pub known_magic : field header 0 4 ≡ magic
    pub known_depth : field header 4 2 ≡ t.depth
    pub known_node_size : field header 24 8 ≡ node_bytes
    pub same : st ≡ record {
      record_slot_size = field header 32 8;
      bump = field header 8 8;
      free_head = field header 16 8;
      node_size = node_bytes;
      record_count = field header 40 8;
    }

  load-fresh_or_IsAdopted :
      (s : S) (size : ℕ) (st : TreeStrategy)
      → load s (fresh size) ≡ done tt st
      → IsFresh s size st ⊎ IsAdopted s st
  unfolding load adopt
  load-fresh_or_IsAdopted s size st e = elim (Bool-cases (ltb (o.len s) header_len)) [
    | inl short ↦ inl (record { same = ground (arith, short); no_header = inl (ground arith) })
    | inr long ↦ elim (Result-cases (o.read s 0 (replicate header_len 0))) [
      | inr (f, bad) ↦ absurd (ground (arith, long, bad))
      | inl ((header, n), read) ↦ elim (ℕ_discrete (field header 0 4) magic) [
        | no other ↦ inl (record {
          same = ground (arith, long, read, other);
          no_header = inr (header, n, read, other);
        })
        | yes magical ↦ inr (record {
          header = header;
          n = n;
          long = ground arith;
          read = read;
          known_magic = magical;
          known_depth = ground (arith, long, read, magical);
          known_node_size = ground (arith, long, read, magical);
          same = ground (arith, long, read, magical);
        })
      ]
    ]
  ]

  adopt-IsUsable :
      (s : S) (header : List ℕ) (st st' : TreeStrategy)
      → st.node_size ≡ node_bytes
      → adopt (o.len s) header st ≡ done tt st'
      → IsUsable s st'
  unfolding adopt
  adopt-IsUsable s header st st' fresh e = record {
    slot_size = ground arith;
    root_fits = ground arith;
    node_size = ground arith;
    head_inside = ground arith;
  }

  read_header :
      (s : S) (out : Result OriginError (List ℕ × ℕ)) (st st' : TreeStrategy)
      → IsUsable s st
      → o.read s 0 (replicate header_len 0) ≡ out
      → load s st ≡ done tt st'
      → IsUsable s st'
  unfolding load
  read_header s (err f) st st' h read e = elim (Bool-cases (ltb (o.len s) header_len)) [
    | inl short ↦ subst (IsUsable s) (ground (arith, short)) h
    | inr long ↦ absurd (ground (arith, long, read))
  ]
  read_header s (ok (header, n)) st st' h read e = elim (Bool-cases (ltb (o.len s) header_len)) [
    | inl short ↦ subst (IsUsable s) (ground (arith, short)) h
    | inr long ↦ elim (Bool-cases (field header 0 4 == magic)) [
      | inl magical ↦
          adopt-IsUsable s header st st' h.node_size (ground (arith, long, read, magical))
      | inr other ↦ subst (IsUsable s) (ground (arith, long, read, other)) h
    ]
  ]

  load-IsUsable :
      (s : S) (st st' : TreeStrategy) → IsUsable s st → load s st ≡ done tt st' → IsUsable s st'
  load-IsUsable s st st' h e = read_header s (o.read s 0 (replicate header_len 0)) st st' h refl e

  -- Over any origin, `load_or_new` panics exactly where the default slot size is below 8. Otherwise it
  -- returns an error, or a strategy with slots from 8 bytes on, the node size of the crate, a bump
  -- pointer beyond the root node, and a free list that is empty or begins within the medium. That is
  -- the fresh strategy, where the medium is too short for a header or has another magic, or the one of
  -- the header that was read, whose magic, depth and node size are those of the crate.
  pub load_or_new-IsUsable :
      (s : S) (size : ℕ)
      → (size < 8) × (load_or_new s size ≡ none)
        ⊎ ((8 ≤ size)
            × (((e : BindingError) × (load_or_new s size ≡ some (err e)))
                ⊎ ((st : TreeStrategy) × (load_or_new s size ≡ some (ok st))
                    × IsUsable s st
                    × (IsFresh s size st ⊎ IsAdopted s st))))
  unfolding load_or_new new
  load_or_new-IsUsable s size = elim (dec_lt size 8) [
    | yes small ↦ inl (small, ground arith)
    | no large ↦
        let out = load s (fresh size) in
        inr (
          omega arith,
          elim (loaded-cases out) [
            | inl (e, bad) ↦ inl (e, ground (arith, bad))
            | inr (st, returned) ↦ inr (
              st,
              ground (arith, returned),
              load-IsUsable s (fresh size) st
                  (record {
                    slot_size = omega arith;
                    root_fits = omega arith;
                    node_size = refl;
                    head_inside = inl refl;
                  })
                  returned,
              load-fresh_or_IsAdopted s size st returned,
            )
          ],
        )
  ]
