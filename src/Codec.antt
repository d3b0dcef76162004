-- ===== src/Codec.antt =====
-- go-codec: the bit oriented buffers that the codec parsers and writers share.
pub mod BitMask
pub mod BitReader
pub mod BitWriter
pub mod Nalu
