-- ===== src/Map/Reopen.antt =====
-- A store that was flushed is the store that opens from its origin.
use chton.Prelude.{ℕ, suc, ◌+◌, ◌^◌, ◌≤◌, ◌<◌, ◌≡◌, max, Option, some, List, length, replicate}
use chton.Prelude.{arith, refl, subst, ◌∙◌, ap, sym, false}
use chton.Prelude.Outcome.{ok, done}
use chton.Prelude.Bytes.{bytes_at}
use chton.Prelude.Word.{Keeps, patch-Keeps, bytes_at-patch_self}
use chton.Tagma.{Tagma}
use chton.Origin.{Origin}
use chton.Origin.Laws.{IsMedium, Written, Flushed}
use chton.Binding.{TreeStrategy, node_bytes, root_offset}
use chton.Binding.Tree
use chton.Binding.Header
use chton.Binding.Header.{header_of, field, adopt, write_header, load_or_new}
use chton.Binding.Header.Fields.{FitsHeader, length-header_of, magic_lem, adopt-header_of}
use chton.Binding.Effects.{read_full}
use chton.Binding.Holds.Front.{head-inside, head-small, front-Ready}
use chton.Binding.Holds.Allot.{bump-past_root}
use chton.Map.{CoordMapStore}
use chton.Map.Store.{flush, load}
use chton.Map.Contents.{Represents}

module _ ⦃t : Tagma⦄ {S : Type 0} ⦃o : Origin S⦄ (byte : S → ℕ → ℕ) (last : ℕ) where
  -- A flush that returned, and what opens from the origin afterwards.
  pub record Settled (m : CoordMapStore S) (V : t.CoordPath → Option (List ℕ)) : Type 0 where
    pub after : CoordMapStore S
    pub returns : flush m ≡ done tt after
    pub represents : Represents byte last after V
    pub clean : after.dirty ≡ false
    pub same_len : after.len ≡ m.len
    pub reopens : (size : ℕ) → 8 ≤ size → load after.bound.medium size ≡ some (ok after)

module _ ⦃t : Tagma⦄ {S : Type 0} ⦃o : Origin S⦄ {byte : S → ℕ → ℕ} (medium : IsMedium o byte)
    (last : ℕ) (depth_eq : suc last ≡ t.depth) (m : CoordMapStore S)
    (V : t.CoordPath → Option (List ℕ)) (r : Represents byte last m V)
    (depth_small : t.depth < 2 ^ 16) (len_small : m.len < 2 ^ 64) where
  abbrev st : TreeStrategy
  st = record m.bound.strategy { record_count = m.len }

  past : root_offset + node_bytes ≤ st.bump
  past = bump-past_root medium m.bound r.tree r.free (omega arith) r.ready.holds

  fits : FitsHeader st
  fits = record {
    depth_small = depth_small;
    bump_small = r.ready.holds.bump_small;
    head_small = head-small m.bound r.tree r.free r.vals r.ready;
    node_small = omega (arith, r.ready.holds.node_size, past, r.ready.holds.bump_small);
    size_small = r.size_small;
    count_small = len_small;
  }

  width : length (header_of st) ≡ 64
  width = length-header_of st

  abbrev first : Written o byte 0 (header_of st) m.bound.medium
  first = medium.writes m.bound.medium 0 (header_of st) (omega (arith, width))

  abbrev second : Flushed o byte first.after
  second = medium.flushes first.after

  kept : Keeps (byte m.bound.medium) (byte second.after) 0 root_offset
  kept =
      subst (λ (n : ℕ). Keeps (byte m.bound.medium) (byte second.after) 0 n) width
        (patch-Keeps (byte m.bound.medium) (byte second.after) 0 (header_of st)
          (λ i. second.byte_after i ∙ first.byte_after i))

  grown : o.len second.after ≡ max (o.len m.bound.medium) root_offset
  grown = omega (arith, second.len_after, first.len_after, width)

  header_read : o.read second.after 0 (replicate 64 0) ≡ ok (header_of st, 64)
  header_read =
      let bytes =
        bytes_at-patch_self (byte m.bound.medium) (byte second.after) 0 (header_of st)
          (λ i. second.byte_after i ∙ first.byte_after i) in
      read_full medium second.after 0 (replicate 64 0) (omega (arith, grown))
      ∙ ap (λ (l : List ℕ). ok (l, 64))
          (ap (λ (n : ℕ). bytes_at (byte second.after) 0 n) (sym width) ∙ bytes)

  abbrev settled : CoordMapStore S
  settled = record {
    bound = record { strategy = st; medium = second.after };
    len = m.len;
    dirty = false;
  }

  settled-load : (size : ℕ) → 8 ≤ size → load second.after size ≡ some (ok settled)
  unfolding load load_or_new Header.load Tree.new
  settled-load size wide =
      let inside =
        head-inside (byte second.after) (o.len second.after) st.free_head r.free
          (front-Ready m.bound r.tree r.free r.vals r.ready second.after m.len kept
            grown).holds.chain in
      let node : node_bytes ≡ st.node_size = sym r.ready.holds.node_size in
      let adopted =
        adopt-header_of st fits (o.len second.after)
          (record {
            record_slot_size = size;
            bump = root_offset + node_bytes;
            free_head = 0;
            node_size = node_bytes;
            record_count = 0;
          })
          node r.ready.holds.slot_size (omega (arith, node, past)) inside in
      ground (arith, grown, header_read, magic_lem st fits, adopted)

  -- A flush of a store that represents a map returns, at a depth below 2 ^ 16 and with a count below
  -- 2 ^ 64. It keeps the map and the count and leaves nothing buffered, and the store that opens from
  -- the origin, whatever slot size from 8 on is given, is the same store.
  pub flush-load : Settled byte last m V
  unfolding flush Header.flush write_header
  flush-load = record {
    after = settled;
    returns = ground (arith, first.returns, second.returns);
    represents = record {
      tree = r.tree;
      free = r.free;
      vals = r.vals;
      ready = front-Ready m.bound r.tree r.free r.vals r.ready second.after m.len kept grown;
      size_small = r.size_small;
      absent = r.absent;
      present = r.present;
    };
    clean = refl;
    same_len = refl;
    reopens = settled-load;
  }
