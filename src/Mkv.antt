-- ===== src/Mkv.antt =====
-- go-mkv.
pub mod Ebml
