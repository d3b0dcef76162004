-- ===== src/Srt.antt =====
-- go-srt.
pub mod Packet
