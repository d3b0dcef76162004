-- ===== src/Rtp.antt =====
-- go-rtsp/rtp: RTP packets, and the payload format of H.264.
pub mod Packet
pub mod H264
