-- ===== src/Rtcp/Context.antt =====
-- The sequence numbers of `RtcpContext`, go-rtsp/rtcp/rtcp-context.go: the fields that `initSeq` and
-- `updateSeq` read and write.
pub mod Sequence
use gomediautils.Prelude.{ℕ, ◌+◌, ◌-◌, ◌*◌, ◌%◌, ◌^◌, ltb, leb, ◌==◌, if◌then◌else◌, bit_and}

abbrev pub min_sequential : ℕ
min_sequential = 2

abbrev pub rtp_seq_mod : ℕ
rtp_seq_mod = 2 ^ 16

abbrev pub max_dropout : ℕ
max_dropout = 3000

abbrev pub max_misorder : ℕ
max_misorder = 100

pub record RtcpContext : Type 0 where
  pub max_seq : ℕ
  pub cycles : ℕ
  pub base_seq : ℕ
  pub bad_seq : ℕ
  pub probation : ℕ
  pub received : ℕ
  pub expect_prior : ℕ
  pub received_prior : ℕ

-- `NewRtcpContext`; `seq - 1` is a uint16.
unfoldable pub new_rtcp_context : ℕ → RtcpContext
new_rtcp_context seq = record {
  max_seq = (seq + (2 ^ 16 - 1)) % 2 ^ 16;
  cycles = 0;
  base_seq = 0;
  bad_seq = 0;
  probation = min_sequential;
  received = 0;
  expect_prior = 0;
  received_prior = 0;
}

unfoldable pub init_seq : RtcpContext → ℕ → RtcpContext
init_seq ctx seq = record ctx {
  base_seq = seq;
  max_seq = seq;
  bad_seq = rtp_seq_mod + 1;
  cycles = 0;
  received = 0;
  received_prior = 0;
  expect_prior = 0;
}

-- `ctx.received++; return 1`
abbrev pub count : RtcpContext → ℕ × RtcpContext
count ctx = (1, record ctx { received = (ctx.received + 1) % 2 ^ 32 })

-- The packets of the probation.
unfoldable pub on_probation : RtcpContext → ℕ → ℕ × RtcpContext
on_probation ctx seq =
    let next = record ctx { probation = ctx.probation - 1; max_seq = seq } in
    if seq == ((ctx.max_seq + 1) % 2 ^ 16)
    then (if next.probation == 0 then count (init_seq next seq) else (0, next))
    else (0, record ctx { probation = min_sequential - 1; max_seq = seq })

unfoldable pub update_seq : RtcpContext → ℕ → ℕ × RtcpContext
unfolding on_probation
update_seq ctx seq =
    let delta = (seq + (2 ^ 16 - ctx.max_seq)) % 2 ^ 16 in
    if ltb 0 ctx.probation
    then on_probation ctx seq
    else if ltb delta max_dropout
    then count (record ctx {
      cycles = if ltb seq ctx.max_seq then (ctx.cycles + rtp_seq_mod) % 2 ^ 32 else ctx.cycles;
      max_seq = seq;
    })
    else if leb delta (rtp_seq_mod - max_misorder)
    then (if seq == (ctx.bad_seq % 2 ^ 16)
        then count (init_seq ctx seq)
        else (0, record ctx { bad_seq = bit_and ((seq + 1) % 2 ^ 16) (rtp_seq_mod - 1) }))
    else count ctx
