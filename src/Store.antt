-- ===== src/Store.antt =====
-- chton/src/store/mod.rs: the mapping of string keys onto paths, and the entity stores.
pub mod Key
pub mod Division
pub mod Digits
pub mod Coords
pub mod Shapes
pub mod Injective
pub mod Entity
pub mod Memory
pub mod Probe
pub mod Safe
pub mod OnKeys
pub mod Spatial
pub mod Materialized
