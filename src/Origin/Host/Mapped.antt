-- ===== src/Origin/Host/Mapped.antt =====
-- `MappedFileOrigin` of chton/src/origin/mapped_file.rs.
pub mod Laws
use chton.Prelude.{ℕ, ◌+◌, ◌-◌, ◌^◌, min, Option, none, some, List, [], ◌++◌, length, take, drop}
use chton.Prelude.{ltb, leb, if◌then◌else◌}
use chton.Prelude.Outcome.{Result, ok, err, Outcome, done, failed, Fault, panic, error}
use chton.Prelude.Outcome.Stateful.{M, within, ◌>>=◌, ◌>>◌}
use chton.Origin.{Capabilities, OriginError, io, out_of_bounds}
use chton.Origin.{byte, duplex, durable, mapped}
use chton.Origin.Host.{Host}

module _ (h : Host) where
  -- The mapping is given by the count of bytes that it covers.
  pub record MappedFileOrigin : Type 0 where
    pub file : h.File
    pub map : Option ℕ
    pub len : ℕ

  -- `opened` is the outcome of `File::options()…open(path)`.
  unfoldable pub open_file : Result ℕ h.File → Result OriginError MappedFileOrigin
  open_file (err e) = err (io e)
  open_file (ok file) = elim (h.metadata_len file) [
    | err e ↦ err (io e)
    | ok len ↦
        if ltb 0 len
        then (elim (h.map_mut file) [
          | err e ↦ err (io e)
          | ok extent ↦ ok (record { file = file; map = some extent; len = len })
        ])
        else ok (record { file = file; map = none; len = len })
  ]

  unfoldable pub as_slice : MappedFileOrigin → List ℕ
  as_slice s = elim s.map [ none ↦ [] | some extent ↦ h.mapped extent s.file ]

  abbrev pub capabilities : MappedFileOrigin → Capabilities
  capabilities s = record {
    address_mode = byte;
    direction = duplex;
    persistence = durable;
    binding = mapped;
  }

  abbrev pub len : MappedFileOrigin → ℕ
  len s = s.len

  -- A range that ends beyond the mapping panics, as `expect` does where there is none.
  unfoldable pub read : MappedFileOrigin → ℕ → List ℕ → Result (Fault OriginError) (List ℕ × ℕ)
  read s start buf =
      let n = min (s.len - start) (length buf) in
      if leb s.len start then ok (buf, 0) else elim s.map [
        | none ↦ err panic
        | some extent ↦
            if ltb extent (start + n)
            then err panic
            else ok (take n (drop start (h.mapped extent s.file)) ++ drop n buf, n)
      ]

  -- A call on the file.
  abbrev pub on_file : {A : Type 0} → M h.File ℕ A → M MappedFileOrigin (Fault OriginError) A
  on_file = within (λ s. s.file) (λ f s. record s { file = f }) (λ e. error (io e))

  -- The file is extended before it is mapped again; the length is taken over last.
  unfoldable pub extend : ℕ → M MappedFileOrigin (Fault OriginError) (Unit {0})
  extend end = do
    on_file (h.set_len end)
    λ s. elim (h.map_mut s.file) [
      | err e ↦ failed (error (io e)) s
      | ok extent ↦ done tt (record s { map = some extent; len = end })
    ]

  -- `copy_from_slice` into the mapping.
  unfoldable pub copy_in : ℕ → List ℕ → M MappedFileOrigin (Fault OriginError) (Unit {0})
  copy_in start data_bytes s = elim s.map [
    | none ↦ failed panic s
    | some extent ↦
        if ltb extent (start + length data_bytes)
        then failed panic s
        else done tt (record s { file = h.store start data_bytes s.file })
  ]

  unfoldable pub write : ℕ → List ℕ → M MappedFileOrigin (Fault OriginError) (Unit {0})
  unfolding extend copy_in
  write offset data_bytes s =
      let end = offset + length data_bytes in
      let longer = (do extend end; copy_in offset data_bytes) in
      if ltb end (2 ^ 64)
      then (if ltb s.len end
          then longer s
          else (elim s.map [ none ↦ done tt s | some extent ↦ copy_in offset data_bytes s ]))
      else failed (error (out_of_bounds offset (2 ^ 64 - 1))) s

  unfoldable pub flush : M MappedFileOrigin (Fault OriginError) (Unit {0})
  flush = do
    λ s. elim s.map [ none ↦ done tt s | some extent ↦ on_file h.map_flush s ]
    on_file h.sync_all
