-- ===== src/Rtmp.antt =====
-- go-rtmp: the chunk protocol that carries RTMP messages over a byte stream.
pub mod Chunk
pub mod UserCtrl
