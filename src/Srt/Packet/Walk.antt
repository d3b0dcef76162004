-- ===== src/Srt/Packet/Walk.antt =====
-- The rounds of `decodeLossList` come to an end.
