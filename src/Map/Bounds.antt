-- ===== src/Map/Bounds.antt =====
-- Records of any origin, whatever its bytes are.
use chton.Prelude.{
  ℕ, ◌+◌, ◌%◌, ◌^◌, ◌≤◌, ◌<◌, ◌≡◌, inl, inr, some, arith, List, length, replicate, ap,
}
use chton.Prelude.{length-replicate}
use native.Mathlib.Decide.{ℕ_discrete}
use chton.Prelude.Outcome.{ok}
use chton.Prelude.Bytes.{from_le}
use chton.Tagma.{Tagma}
use chton.Origin.{Origin}
use chton.Store.Coords.{Result-cases}
use chton.Binding.Tree.{locate}
use chton.Map.{CoordMapStore, length_bytes}
use chton.Map.Record.{record_slot_size, max_value_len, read_record}
use chton.Map.Store.{get_path}

-- A read fills the buffer that it is given, which keeps its length.
abbrev pub IsBuffered : {S : Type 0} → Origin S → Type 0
IsBuffered {S} o =
    (s : S) (offset : ℕ) (buf out : List ℕ) (n : ℕ)
    → o.read s offset buf ≡ ok (out, n)
    → length out ≡ length buf

module _ {S : Type 0} ⦃o : Origin S⦄ (buffered : IsBuffered o) (m : CoordMapStore S)
    (slot_size : 8 ≤ record_slot_size m) (small : record_slot_size m < 2 ^ 64) where
  read_record-fits :
      (offset : ℕ) (v : List ℕ) → read_record m offset ≡ ok v → 8 + length v ≤ record_slot_size m
  unfolding read_record
  read_record-fits offset v e =
      elim (Result-cases (o.read m.bound.medium offset (replicate length_bytes 0))) [
        | inr (f, bad) ↦ absurd (ground (arith, bad))
        | inl ((header, n), head) ↦
            let len = from_le header in
            elim (Result-cases
              (o.read m.bound.medium ((offset + length_bytes) % 2 ^ 64) (replicate len 0))) [
                | inr (f, bad) ↦ absurd (ground (arith, head, bad))
                | inl ((value, k), body) ↦
                    let same : value ≡ v = ground (arith, head, body) in
                    let fits : len ≤ max_value_len m = ground (arith, head, body) in
                    omega (
                      arith,
                      fits,
                      ap (λ (l : List ℕ). length l) same,
                      buffered m.bound.medium ((offset + length_bytes) % 2 ^ 64) (replicate len 0)
                          value k body,
                      length-replicate {A = ℕ} len 0,
                    )
              ]
      ]

  -- Over any origin that keeps the length of buffers, and with a slot size from 8 on and below 2 ^ 64,
  -- a value that `get_path` returns fits a record together with its length prefix, however corrupt the
  -- medium is.
  pub get_path-fits :
      ⦃t : Tagma⦄ (key : t.CoordPath) (v : List ℕ)
      → get_path key m ≡ ok (some v)
      → 8 + length v ≤ record_slot_size m
  unfolding get_path
  get_path-fits key v e = elim (Result-cases (locate m.bound.medium key)) [
    | inr (f, bad) ↦ absurd (ground (arith, bad))
    | inl (slot, found) ↦ elim (ℕ_discrete slot.record_offset 0) [
      | yes missing ↦ absurd (ground (arith, found, missing))
      | no there ↦ elim (Result-cases (read_record m slot.record_offset)) [
        | inr (f, bad) ↦ absurd (ground (arith, found, there, bad))
        | inl (value, read) ↦
            read_record-fits slot.record_offset v (ground (arith, found, there, read))
      ]
    ]
  ]
