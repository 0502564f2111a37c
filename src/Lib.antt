-- ===== src/Lib.antt =====
-- A model of chton, a store of byte strings under coordinate paths, and theorems about it.
--
-- The program has four layers. An origin (chton/src/origin) is a medium with positional reads and
-- writes. The binding (chton/src/binding/mod.rs) lays a tree of fixed depth over an origin: a header
-- at 0, the root node at 64, then nodes and records in the order of their allocation, with freed
-- records in a linked list. The map (chton/src/map/mod.rs) keeps one length-prefixed value per
-- coordinate path in the records. Above it stand channels and entity stores (chton/src/io,
-- chton/src/store).
--
-- Which file models which part:
--   Tagma            the crate tagma_core, which is not part of the repository: a parameter, with
--                    the laws that chton relies on
--   Origin           chton/src/origin/mod.rs; Origin/Laws says what a working medium is
--   Origin/Memory    chton/src/origin/memory.rs
--   Origin/Block     chton/src/origin/block.rs
--   Origin/Host      chton/src/origin/file.rs (File) and chton/src/origin/mapped_file.rs (Mapped), over
--                    a parameter for the host's files, whose reads may be short, and its mappings
--   Binding          chton/src/binding/mod.rs: Read, Write, Tree (new and locate), Alloc
--                    (locate_or_create, records), Header (load, flush, reset), Walk (iter and
--                    count_records)
--   Map              chton/src/map/mod.rs: Record, Store (the methods by path), Surface (the traits
--                    of tagma_map)
--   Store            chton/src/store/mod.rs: Key (string keys onto paths), Entity (the trait and its
--                    contract), Memory, Spatial and Materialized (the three stores)
--   Io               chton/src/io/coord_map_io.rs, and WriteOp and default_apply_batch of
--                    chton/src/io/file_io.rs
--   Prelude          shared types and lemmas: Result, state passing, bytes, words, lists
--   Examples         tests and the theorems at concrete inputs
--
-- A method on `&mut self` is a function from a state to an outcome, which holds the result or the
-- error together with the state left behind. A strategy and its origin stand together in `Bound`,
-- since every method that changes one takes both. Numbers of 64 bits wrap, or are checked, where
-- the code does so; the modulus is written out. A `usize` has 64 bits. A panic is the value `none`
-- or `panic`. Where a build may or may not check for overflow, `checks` says which (the capacity of
-- a proximity query), and the size in memory of a reserved item is a parameter. The loops over the
-- levels of a path are structural recursion on the levels to go, which is the depth, and so is the
-- recursion of the tree walk; no other fuel is used.
--
-- The theorems on the store rest on an abstract view. `Binding/Shape` reads a memory as a partial map
-- from paths of slot indices to addresses, `Binding/Regions` says that nodes, records and freed
-- records do not meet, `Binding/Holds` is the invariant of a strategy and its origin (the bitmaps
-- included), `Binding/Enumerate` says what the walk of the tree lists, and
-- `Map/Contents` says what partial map from coordinate paths to byte strings a store represents. The
-- other files of `Binding/Holds` and of `Map` follow one operation each through that view. They take
-- the last level of a path as `last`, so the depth there is at least 1.
--
-- Not modelled: the file system channel (calls of the host), the interior-mutability cell, the
-- blocking adapter, `Display` of errors, benchmarks and tests. Files and mappings of the host, cubes
-- and boxes of paths, byte keys, the decoding of UTF-8, the space `CoordSpaceN` and the codec of values
-- are parameters. The stores stand on the write of a memory origin without the limit of an allocation
-- (2 ^ 63 bytes); Origin/Memory/Limit compares it with the one that has it.
pub mod Prelude
pub mod Origin
pub mod Tagma
pub mod Binding
pub mod Map
pub mod Store
pub mod Io
pub mod Examples
