-- ===== src/Map/Record.antt =====
-- Records: `[u64 length][payload]` in a slot of fixed size.
use chton.Prelude.{ℕ, ◌+◌, ◌-◌, ◌%◌, ◌^◌, List, replicate, ltb, if◌then◌else◌}
use chton.Prelude.Outcome.{Result, ok, err, map_err}
use chton.Prelude.Outcome.Fallible.{◌>>=◌}
use chton.Prelude.Bytes.{from_le}
use chton.Origin.{Origin}
use chton.Map.{MapError, origin, corrupt_record, short_header, length_exceeds_slot, short_payload}
use chton.Map.{CoordMapStore, length_bytes}

abbrev pub record_slot_size : {S : Type 0} → CoordMapStore S → ℕ
record_slot_size m = m.bound.strategy.record_slot_size

-- The subtraction is that of `usize`; no strategy has a slot size below 8.
abbrev pub max_value_len : {S : Type 0} → CoordMapStore S → ℕ
max_value_len m = (record_slot_size m + 2 ^ 64 - length_bytes) % 2 ^ 64

module _ {S : Type 0} ⦃o : Origin S⦄ where
  unfoldable pub read_record : CoordMapStore S → ℕ → Result MapError (List ℕ)
  read_record m offset = do
    let s = m.bound.medium
    (header, n) ← map_err origin (o.read s offset (replicate length_bytes 0))
    let len = from_le header
    if ltb n length_bytes
        then err (corrupt_record offset short_header)
        else (if ltb (max_value_len m) len
            then err (corrupt_record offset length_exceeds_slot)
            else (do
              (value, k) ←
                  map_err origin (o.read s ((offset + length_bytes) % 2 ^ 64) (replicate len 0))
              if ltb k len then err (corrupt_record offset short_payload) else ok value))
