-- ===== src/Examples.antt =====
-- Tests: a small alphabet and depth, and the theorems at concrete inputs.
pub mod Alphabet
pub mod Stores
pub mod Blocks
pub mod Channels
pub mod Trees
pub mod Keys
pub mod Hangul
pub mod Spaces
pub mod Entities
pub mod Batches
pub mod Bounds
pub mod Hosts
