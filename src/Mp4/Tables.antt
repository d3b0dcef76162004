-- ===== src/Mp4/Tables.antt =====
-- The sample tables of a track.
pub mod Codec
pub mod Time
pub mod Chunk
pub mod Size
pub mod Counted
pub mod Offsets
pub mod Sizes
pub mod Refuses
