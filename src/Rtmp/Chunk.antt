-- ===== src/Rtmp/Chunk.antt =====
-- go-rtmp/chunk.go: headers, in their encoded and decoded forms. What an `encodeTo` writes from the
-- start of its buffer is the list that it returns here.
pub mod Header
pub mod Writer
pub mod Reader
pub mod Payload
pub mod Split
pub mod Format
pub mod RoundTrip
