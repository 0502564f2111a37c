-- ===== src/Origin.antt =====
-- The origin layer, chton/src/origin/mod.rs: the capability matrix, the errors and the byte-level
-- surface that every medium offers. `Origin S` is the trait for a medium whose state is `S`.
-- Formatting of errors (`Display`, `Error::source`) is left out. `Binding` is named `BindingMode`,
-- since the binding layer is a module of that name.
pub mod Laws
pub mod Memory
pub mod Block
pub mod Host
use chton.Prelude.{ℕ, Bool, List, ◌==◌}
use chton.Prelude.Outcome.{Result, Outcome}

pub data AddressMode : Type 0 where
  byte block stream : AddressMode

pub data Direction : Type 0 where
  read write duplex : Direction

pub data Persistence : Type 0 where
  durable volatile transient : Persistence

pub data BindingMode : Type 0 where
  mapped copied zero_copy : BindingMode

pub record Capabilities : Type 0 where
  pub address_mode : AddressMode
  pub direction : Direction
  pub persistence : Persistence
  pub binding : BindingMode

-- The host's `std::io::Error` is only passed on, so a number stands for it.
pub data OriginError : Type 0 where
  io : ℕ → OriginError
  out_of_bounds : ℕ → ℕ → OriginError
  unsupported : OriginError

-- `read` takes the buffer and returns it as it is left, with the count of bytes delivered.
pub record Origin (S : Type 0) : Type 0 where
  pub capabilities : S → Capabilities
  pub len : S → ℕ
  pub read : S → ℕ → List ℕ → Result OriginError (List ℕ × ℕ)
  pub write : ℕ → List ℕ → S → Outcome S OriginError (Unit {0})
  pub flush : S → Outcome S OriginError (Unit {0})

-- The trait's provided method.
unfoldable pub is_empty : {S : Type 0} → Origin S → S → Bool
is_empty o s = o.len s == 0
