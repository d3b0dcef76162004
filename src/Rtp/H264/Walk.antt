-- ===== src/Rtp/H264/Walk.antt =====
-- The loops of `packFuA` and `unpackStapa` come to an end.
