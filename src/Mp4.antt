-- ===== src/Mp4.antt =====
-- go-mp4.
pub mod Box
pub mod Table
pub mod Tables
pub mod Stbl
pub mod Times
pub mod Chunks
pub mod Sizes
