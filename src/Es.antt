-- ===== src/Es.antt =====
-- go-es.
pub mod Order
