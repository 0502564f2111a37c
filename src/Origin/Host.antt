-- ===== src/Origin/Host.antt =====
-- The host: `std::fs::File` and the crate memmap2, which are not part of the repository, as a
-- parameter, and what a host whose calls succeed does.
pub mod Simulates
pub mod File
pub mod Mapped
use chton.Prelude.{ℕ, ◌+◌, ◌-◌, ◌≤◌, ◌<◌, ◌≡◌, min, List, ◌++◌, length, take, drop}
use chton.Prelude.Splice.{splice}
use chton.Prelude.Outcome.{Result, ok, done}
use chton.Prelude.Outcome.Stateful.{M}
use chton.Origin.Memory.{grown}

-- A file with the position of its handle. An error of the host is a number.
pub record Host : Type 1 where
  pub File : Type 0
  -- `metadata()?.len()`, `seek(SeekFrom::Start(offset))`, `read`, `write_all`, `set_len`, `flush` and
  -- `sync_all`.
  pub metadata_len : File → Result ℕ ℕ
  pub seek : ℕ → M File ℕ (Unit {0})
  pub read : List ℕ → M File ℕ (List ℕ × ℕ)
  pub write_all : List ℕ → M File ℕ (Unit {0})
  pub set_len : ℕ → M File ℕ (Unit {0})
  pub flush : M File ℕ (Unit {0})
  pub sync_all : M File ℕ (Unit {0})
  -- `MmapMut::map_mut`, given by the count of bytes that it maps. A mapping is shared, so its bytes
  -- are the file's: `mapped n` are those of a mapping of `n` bytes, and `store` writes through it.
  pub map_mut : File → Result ℕ ℕ
  pub mapped : ℕ → File → List ℕ
  pub store : ℕ → List ℕ → File → File
  pub map_flush : M File ℕ (Unit {0})

-- A call that succeeds, and the file afterwards.
pub record Succeeds {F A : Type 0} (contents : F → List ℕ) (call : M F ℕ A) (f : F) (a : A)
    (xs : List ℕ) : Type 0 where
  pub after : F
  pub returns : call f ≡ done a after
  pub contents_after : contents after ≡ xs

-- What a read delivers that goes on to the end of the buffer or of the file, and its count.
abbrev pub delivered : ℕ → List ℕ → List ℕ → List ℕ × ℕ
delivered offset xs buf =
    let n = min (length xs - offset) (length buf) in (take n (drop offset xs) ++ drop n buf, n)

-- What a read may deliver in place of `whole`: fewer bytes, but some if there are any, each as in
-- `whole`. What is in the rest of the buffer is not known.
pub record IsStart (short whole : List ℕ × ℕ) : Type 0 where
  pub count : short.1 ≤ whole.1
  pub some_byte : 0 < whole.1 → 0 < short.1
  pub same_bytes : take short.1 short.0 ≡ take short.1 whole.0
  pub same_length : length short.0 ≡ length whole.0

-- A host whose calls succeed on a regular file of which `contents` are the bytes and `position` the
-- position of the handle. A read may be short. A write past the end fills the gap with zeros, and an
-- empty one does nothing.
pub record HostLaws (h : Host) (contents : h.File → List ℕ) (position : h.File → ℕ) : Type 0 where
  pub len_known : (f : h.File) → h.metadata_len f ≡ ok (length (contents f))
  pub seeks :
      (f : h.File) (offset : ℕ)
      → (done_seek : Succeeds contents (h.seek offset) f tt (contents f)) × (position
            done_seek.after
          ≡ offset)
  pub reads :
      (f : h.File) (buf : List ℕ)
      → (r : List ℕ × ℕ) × Succeeds contents (h.read buf) f r (contents f)
        × IsStart r (delivered (position f) (contents f) buf)
  pub writes :
      (f : h.File) (data_bytes : List ℕ)
      → 0 < length data_bytes
      → Succeeds contents
          (h.write_all data_bytes)
          f
          tt
          (splice (grown (contents f) (position f + length data_bytes)) (position f) data_bytes)
  pub writes_nothing :
      (f : h.File) (data_bytes : List ℕ)
      → length data_bytes ≡ 0
      → Succeeds contents (h.write_all data_bytes) f tt (contents f)
  pub extends :
      (f : h.File) (n : ℕ)
      → length (contents f) < n
      → Succeeds contents (h.set_len n) f tt (grown (contents f) n)
  pub flushes : (f : h.File) → Succeeds contents h.flush f tt (contents f)
  pub syncs : (f : h.File) → Succeeds contents h.sync_all f tt (contents f)
  pub maps : (f : h.File) → 0 < length (contents f) → h.map_mut f ≡ ok (length (contents f))
  pub mapped_lem : (f : h.File) → h.mapped (length (contents f)) f ≡ contents f
  pub stores :
      (f : h.File) (at : ℕ) (data_bytes : List ℕ)
      → at + length data_bytes ≤ length (contents f)
      → contents (h.store at data_bytes f) ≡ splice (contents f) at data_bytes
  pub map_flushes : (f : h.File) → Succeeds contents h.map_flush f tt (contents f)
