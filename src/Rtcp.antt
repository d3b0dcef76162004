-- ===== src/Rtcp.antt =====
-- go-rtsp/rtcp.
pub mod Context
