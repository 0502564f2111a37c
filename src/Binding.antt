-- ===== src/Binding.antt =====
-- The binding layer, chton/src/binding/mod.rs: a fixed-depth tree of coordinate nodes laid out over
-- an origin. This file has its types and constants; `Read` reads slots and bitmaps, `Write` writes
-- them, `Tree` resolves paths, `Alloc` creates nodes and allocates and frees records, `Walk` enumerates, `Header` keeps the header.
pub mod Shape
pub mod Regions
pub mod Effects
pub mod Holds
pub mod Read
pub mod Write
pub mod Tree
pub mod Alloc
pub mod Header
pub mod Walk
pub mod Bounds
pub mod Recycle
pub mod Enumerate
use chton.Prelude.{ℕ, ◌+◌, ◌*◌, ◌/◌}
use chton.Origin.{OriginError}
use chton.Tagma.{Tagma}

abbrev pub absent : ℕ
absent = 0

abbrev pub slot_bytes : ℕ
slot_bytes = 8

abbrev pub header_len : ℕ
header_len = 64

abbrev pub root_offset : ℕ
root_offset = header_len

abbrev pub magic : ℕ
magic = 0x4348544f

-- `MAX_STORE_DEPTH` of the store layer bounds the depth of every strategy.
abbrev pub max_store_depth : ℕ
max_store_depth = 1024

module _ ⦃t : Tagma⦄ where
  -- `N_VALID.div_ceil(8)`
  unfoldable pub bitmap_bytes : ℕ
  bitmap_bytes = (t.n_valid + 7) / 8

  unfoldable pub node_bytes : ℕ
  node_bytes = bitmap_bytes + slot_bytes * t.n_valid

pub data BindingError : Type 0 where
  origin : OriginError → BindingError
  corrupt : ℕ → ℕ → BindingError
  key_too_long : ℕ → BindingError

pub record Slot : Type 0 where
  pub leaf_node : ℕ
  pub leaf_index : ℕ
  pub leaf_slot_offset : ℕ
  pub record_offset : ℕ

pub record TreeStrategy : Type 0 where
  pub record_slot_size : ℕ
  pub bump : ℕ
  pub free_head : ℕ
  pub node_size : ℕ
  pub record_count : ℕ

-- A strategy and the origin that it owns: what the methods on `&mut self` and `&mut dyn Origin`
-- change.
pub record Bound (S : Type 0) : Type 0 where
  pub strategy : TreeStrategy
  pub medium : S
