-- ===== src/Map/Clear.antt =====
-- `clear_checked` removes every key.
use chton.Prelude.{
  ℕ, suc, ◌+◌, ◌-◌, ◌^◌, ◌<◌, ◌≡◌, inr, Option, none, List, length, replicate, false,
}
use chton.Prelude.{arith, refl, length-replicate, get_or-replicate}
use chton.Prelude.Outcome.{done}
use chton.Tagma.{Tagma}
use chton.Origin.{Origin}
use chton.Origin.Laws.{IsMedium, Written}
use chton.Binding.{node_bytes, TreeStrategy, root_offset}
use chton.Binding.Header.{header_of, write_header, reset}
use chton.Binding.Header.Fields.{length-header_of}
use chton.Binding.Holds.Allot.{bump-past_root}
use chton.Map.{CoordMapStore}
use chton.Map.Record.{record_slot_size}
use chton.Map.Store.{clear_checked}
use chton.Map.Contents.{Represents}
use chton.Map.Bare.{BlankRoot, bare-Represents}

module _ ⦃t : Tagma⦄ {S : Type 0} ⦃o : Origin S⦄ (byte : S → ℕ → ℕ) (last : ℕ) where
  pub record Cleared (m : CoordMapStore S) : Type 0 where
    pub after : CoordMapStore S
    pub returns : clear_checked m ≡ done tt after
    pub represents : Represents byte last after (λ key. none)
    pub no_values : after.len ≡ 0
    pub same_size : record_slot_size after ≡ record_slot_size m
    pub bump_after : after.bound.strategy.bump ≡ root_offset + node_bytes

module _ ⦃t : Tagma⦄ {S : Type 0} ⦃o : Origin S⦄ {byte : S → ℕ → ℕ} (medium : IsMedium o byte)
    (last : ℕ) (depth_eq : suc last ≡ t.depth) (m : CoordMapStore S)
    (V : t.CoordPath → Option (List ℕ)) (r : Represents byte last m V) where
  abbrev st : TreeStrategy
  st = record m.bound.strategy {
    bump = root_offset + m.bound.strategy.node_size;
    free_head = 0;
    record_count = 0;
  }

  abbrev zeros : List ℕ
  zeros = replicate st.node_size 0

  node_small : root_offset + st.node_size < 2 ^ 64
  node_small = omega (
    arith,
    bump-past_root medium m.bound r.tree r.free (omega arith) r.ready.holds,
    r.ready.holds.node_size,
    r.ready.holds.bump_small,
  )

  zeros-length : length zeros ≡ st.node_size
  zeros-length = length-replicate {A = ℕ} st.node_size 0

  abbrev first : Written o byte root_offset zeros m.bound.medium
  first = medium.writes m.bound.medium root_offset zeros (omega (arith, zeros-length, node_small))

  width : length (header_of st) ≡ 64
  width = length-header_of st

  abbrev second : Written o byte 0 (header_of st) first.after
  second = medium.writes first.after 0 (header_of st) (omega (arith, width))

  blank : BlankRoot (byte second.after)
  blank i low high = ground (
    arith,
    second.byte_after i,
    first.byte_after i,
    width,
    zeros-length,
    r.ready.holds.node_size,
    get_or-replicate {A = ℕ} st.node_size 0 (i - root_offset),
  )

  abbrev cleared : CoordMapStore S
  cleared = record {
    bound = record { strategy = st; medium = second.after };
    len = 0;
    dirty = false;
  }

  -- A clear of a store that represents a map returns, and the store then represents the map without
  -- values, counts none and keeps its slot size.
  pub clear-Represents : Cleared byte last m
  unfolding clear_checked reset write_header
  clear-Represents = record {
    after = cleared;
    returns = ground (arith, first.returns, second.returns);
    represents =
        bare-Represents last depth_eq cleared r.ready.holds.node_size
          (omega (arith, r.ready.holds.node_size)) refl r.ready.holds.slot_size r.size_small
          node_small blank
          (inr (
            omega
              (arith, second.len_after, first.len_after, zeros-length, r.ready.holds.node_size)));
    no_values = refl;
    same_size = refl;
    bump_after = omega (arith, r.ready.holds.node_size);
  }
