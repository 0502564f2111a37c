-- ===== src/Origin/Host/File.antt =====
-- `FileOrigin` of chton/src/origin/file.rs.
pub mod Laws
use chton.Prelude.{ℕ, ◌+◌, ◌^◌, List, length, ltb, if◌then◌else◌}
use chton.Prelude.Outcome.{Result, ok, err, Outcome, done, failed}
use chton.Prelude.Outcome.Stateful.{M, within, ◌>>=◌, ◌>>◌}
use chton.Origin.{Origin, Capabilities, OriginError, io, unsupported}
use chton.Origin.{byte, duplex, durable, copied}
use chton.Origin.Host.{Host}

module _ (h : Host) where
  pub record FileOrigin : Type 0 where
    pub file : h.File
    pub len : ℕ

  -- `opened` is the outcome of `File::options()…open(path)`.
  unfoldable pub open_file : Result ℕ h.File → Result OriginError FileOrigin
  open_file (err e) = err (io e)
  open_file (ok file) = elim (h.metadata_len file) [
    | err e ↦ err (io e)
    | ok len ↦ ok (record { file = file; len = len })
  ]

  abbrev pub capabilities : FileOrigin → Capabilities
  capabilities s = record {
    address_mode = byte;
    direction = duplex;
    persistence = durable;
    binding = copied;
  }

  abbrev pub len : FileOrigin → ℕ
  len s = s.len

  -- Every call seeks first, so the position that a read leaves behind is not seen.
  unfoldable pub read : FileOrigin → ℕ → List ℕ → Result OriginError (List ℕ × ℕ)
  read s offset buf = elim (h.seek offset s.file) [
    | failed e f ↦ err (io e)
    | done _ f ↦ elim (h.read buf f) [ failed e f' ↦ err (io e) | done r f' ↦ ok r ]
  ]

  -- A call on the file.
  abbrev pub on_file : {A : Type 0} → M h.File ℕ A → M FileOrigin OriginError A
  on_file = within (λ s. s.file) (λ f s. record s { file = f }) io

  unfoldable pub write : ℕ → List ℕ → M FileOrigin OriginError (Unit {0})
  write offset data_bytes s =
      let end = offset + length data_bytes in
      let store = (do
        on_file (h.seek offset)
        on_file (h.write_all data_bytes)
        λ s. done tt (if ltb s.len end then record s { len = end } else s)) in
      if ltb end (2 ^ 64) then store s else failed unsupported s

  unfoldable pub flush : M FileOrigin OriginError (Unit {0})
  flush = do on_file h.flush; on_file h.sync_all

  abbrev pub file_origin : Origin FileOrigin
  file_origin = record {
    capabilities = capabilities;
    len = len;
    read = read;
    write = write;
    flush = flush;
  }
