-- ===== src/Rtp/H264.antt =====
-- go-rtsp/rtp/rtp-h264.go.
pub mod Packer
pub mod UnPacker
pub mod Feed
pub mod Headers
pub mod Fragments
pub mod Rounds
pub mod AccessUnit
pub mod Walk
