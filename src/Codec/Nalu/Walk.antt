-- ===== src/Codec/Nalu/Walk.antt =====
-- The rounds of `SplitFrame` and `SplitFrameWithStartCode` come to an end.
use gomediautils.Prelude.{ℕ, ◌+◌, ◌≤◌, Option, none, some}
use gomediautils.Codec.Nalu.{StartCode}

-- A start code that is found ends three bytes behind `offset` or later.
abbrev Behind : ℕ → Option StartCode → Type 0
Behind offset none = Unit {0}
Behind offset (some sc) = offset + 3 ≤ sc.at + sc.len
