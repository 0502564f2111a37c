-- ===== src/Map.antt =====
-- The materialised key-value store, chton/src/map/mod.rs. `Store` has its methods on coordinate
-- paths, `Surface` the tagma-map surface over them.
pub mod Record
pub mod Store
pub mod Bounds
pub mod Contents
pub mod Inscribe
pub mod Ensure
pub mod Surface
pub mod Answers
pub mod Put
pub mod Remove
pub mod Bare
pub mod Fresh
pub mod Space
pub mod Clear
pub mod Reopen
pub mod Enumerate
use chton.Prelude.{ℕ, Bool}
use chton.Origin.{OriginError}
use chton.Binding.{BindingError, Bound}

-- Byte size of the record length prefix.
abbrev pub length_bytes : ℕ
length_bytes = 8

-- The reason that a corrupt record is reported with.
pub data Reason : Type 0 where
  short_header length_exceeds_slot short_payload : Reason

pub data MapError : Type 0 where
  origin : OriginError → MapError
  binding : BindingError → MapError
  value_too_large : ℕ → ℕ → MapError
  corrupt_record : ℕ → Reason → MapError

-- The fields `strategy` and `origin` stand together in `bound`.
pub record CoordMapStore (S : Type 0) : Type 0 where
  pub bound : Bound S
  pub len : ℕ
  pub dirty : Bool
