-- ===== src/Binding/Recycle.antt =====
-- What `alloc_record` does over any origin, on all of its branches.
use chton.Prelude.{ℕ, ◌+◌, ◌^◌, ◌<◌, ◌≡◌, ◌⊎◌, inl, inr, arith, refl}
use native.Mathlib.Decide.{ℕ_discrete, dec_lt}
use chton.Prelude.Outcome.{ok, done, failed}
use chton.Origin.{Origin}
use chton.Store.Coords.{Result-cases}
use chton.Binding.{BindingError, corrupt, Bound}
use chton.Binding.Read.{read_slot}
use chton.Binding.Alloc.{past_u64, advance, alloc_record}

module _ {S : Type 0} ⦃o : Origin S⦄ where
  abbrev bumped : Bound S → Bound S
  bumped b = record b {
    strategy = record b.strategy { bump = b.strategy.bump + b.strategy.record_slot_size };
  }

  abbrev unlinked : ℕ → Bound S → Bound S
  unlinked next b = record b { strategy = record b.strategy { free_head = next } }

  -- A new area at the bump pointer, or the head of the free list.
  pub record IsAllocated (b : Bound S) (area : ℕ) (after : Bound S) : Type 0 where
    pub same_medium : after.medium ≡ b.medium
    pub same_size : after.strategy.record_slot_size ≡ b.strategy.record_slot_size
    pub place :
        (area ≡ b.strategy.bump)
          × (after.strategy.bump ≡ b.strategy.bump + b.strategy.record_slot_size)
          × (after.strategy.bump < 2 ^ 64)
          × (after.strategy.free_head ≡ 0)
        ⊎ (area ≡ b.strategy.free_head)
          × (area < o.len b.medium)
          × (after.strategy.bump ≡ b.strategy.bump)
          × (read_slot b.medium area ≡ ok after.strategy.free_head)

  -- Over any origin, `alloc_record` fails and changes nothing, or it changes only the strategy. The
  -- record is then at the old bump pointer, which moves by a slot and stays below 2 ^ 64, and the free
  -- list is empty; or it is the head of the free list, within the medium, and the list goes on with
  -- the link that the record held.
  pub alloc_record-IsAllocated :
      (b : Bound S)
      → ((e : BindingError) × (alloc_record b ≡ failed e b))
        ⊎ ((area : ℕ) × (after : Bound S) × (alloc_record b ≡ done area after)
            × IsAllocated b area after)
  unfolding alloc_record advance
  alloc_record-IsAllocated b = elim (ℕ_discrete b.strategy.free_head 0) [
    | yes none_free ↦ elim (dec_lt (b.strategy.bump + b.strategy.record_slot_size) (2 ^ 64)) [
      | yes fits ↦ inr (
        b.strategy.bump,
        bumped b,
        ground (arith, none_free, fits),
        record { same_medium = refl; same_size = refl; place = inl (refl, refl, fits, none_free) },
      )
      | no past ↦ inl (past_u64 b.strategy.bump, ground (arith, none_free, past))
    ]
    | no head ↦ elim (dec_lt b.strategy.free_head (o.len b.medium)) [
      | yes inside ↦ elim (Result-cases (read_slot b.medium b.strategy.free_head)) [
        | inr (e, bad) ↦ inl (e, ground (arith, head, inside, bad))
        | inl (next, linked) ↦ inr (
          b.strategy.free_head,
          unlinked next b,
          ground (arith, head, inside, linked),
          record { same_medium = refl; same_size = refl; place = inr (refl, inside, refl, linked) },
        )
      ]
      | no beyond ↦ inl (corrupt b.strategy.free_head 0, ground (arith, head, beyond))
    ]
  ]
