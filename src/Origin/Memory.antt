-- ===== src/Origin/Memory.antt =====
-- `MemoryOrigin` of chton/src/origin/memory.rs: a volatile byte region backed by a `Vec<u8>`.
-- A `usize` has 64 bits here, so `offset as usize` changes nothing. `write` leaves
-- out the limit of an allocation, beyond which `Vec::resize` panics; `write_or_panic` has it.
pub mod Medium
pub mod Limit
use chton.Prelude.{ℕ, ◌+◌, ◌-◌, ◌^◌, min, List, [], ◌++◌, length, take, drop, replicate}
use chton.Prelude.{ltb, leb, ◌&&◌, if◌then◌else◌}
use chton.Prelude.Splice.{splice}
use chton.Prelude.Outcome.{Result, Outcome, ok, done, failed, Fault, panic, error}
use chton.Origin.{Origin, Capabilities, OriginError, out_of_bounds}
use chton.Origin.{byte, duplex, volatile, copied}

pub record MemoryOrigin : Type 0 where
  pub bytes : List ℕ

abbrev pub new : MemoryOrigin
new = record { bytes = [] }

-- `Vec::with_capacity` reserves room and holds no byte.
abbrev pub with_capacity : ℕ → MemoryOrigin
with_capacity capacity = record { bytes = [] }

abbrev pub with_bytes : List ℕ → MemoryOrigin
with_bytes bytes = record { bytes = bytes }

abbrev pub as_slice : MemoryOrigin → List ℕ
as_slice s = s.bytes

abbrev pub capabilities : MemoryOrigin → Capabilities
capabilities s = record {
  address_mode = byte;
  direction = duplex;
  persistence = volatile;
  binding = copied;
}

abbrev pub len : MemoryOrigin → ℕ
len s = length s.bytes

unfoldable pub read : MemoryOrigin → ℕ → List ℕ → Result OriginError (List ℕ × ℕ)
read s start buf =
    let n = min (length s.bytes - start) (length buf) in
    if leb (length s.bytes) start
    then ok (buf, 0)
    else ok (take n (drop start s.bytes) ++ drop n buf, n)

-- `Vec::resize` with zeros, to a length that is not smaller.
abbrev pub grown : List ℕ → ℕ → List ℕ
grown bytes end =
    if ltb (length bytes) end then bytes ++ replicate (end - length bytes) 0 else bytes

unfoldable pub write : ℕ → List ℕ → MemoryOrigin → Outcome MemoryOrigin OriginError (Unit {0})
write start xs s =
    let end = start + length xs in
    let region = grown s.bytes end in
    if ltb end (2 ^ 64)
    then done tt (record { bytes = splice region start xs })
    else failed (out_of_bounds start (2 ^ 64 - 1)) s

-- `write` with the limit of an allocation: a vector that grows beyond `isize::MAX` bytes panics.
unfoldable pub write_or_panic :
    ℕ → List ℕ → MemoryOrigin → Outcome MemoryOrigin (Fault OriginError) (Unit {0})
write_or_panic start xs s =
    let end = start + length xs in
    let region = grown s.bytes end in
    if ltb end (2 ^ 64)
    then (if ltb (length s.bytes) end && leb (2 ^ 63) end
        then failed panic s
        else done tt (record { bytes = splice region start xs }))
    else failed (error (out_of_bounds start (2 ^ 64 - 1))) s

abbrev pub flush : MemoryOrigin → Outcome MemoryOrigin OriginError (Unit {0})
flush s = done tt s

instance abbrev pub memory_origin : Origin MemoryOrigin
memory_origin = record {
  capabilities = capabilities;
  len = len;
  read = read;
  write = write;
  flush = flush;
}
