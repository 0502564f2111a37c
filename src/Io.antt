-- ===== src/Io.antt =====
-- The io layer: chton/src/io/coord_map_io.rs, the channel over a `CoordMapStore`, and from
-- file_io.rs the operations of a batch. Every future of this channel completes on its first poll, so
-- an asynchronous method is its outcome.
pub mod Value
pub mod Channel
pub mod RoundTrip
pub mod ReadBack
pub mod Files
pub mod Batch
