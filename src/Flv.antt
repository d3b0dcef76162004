-- ===== src/Flv.antt =====
-- go-flv.
pub mod Tag
