-- ===== src/Rtcp/Context/Sequence.antt =====
-- The extended highest sequence number.
use gomediautils.Prelude.{
  ℕ, ◌+◌, ◌-◌, ◌%◌, ◌^◌, ◌<◌, ◌≡◌, refl, arith, true, false, Bool-cases, inl, inr, ltb, le→ltb,
  lt→ltb, ltb→lt, ltb→le,
}
use gomediautils.Prelude.Bytes.{IsU16}
use gomediautils.Rtcp.Context.{RtcpContext, update_seq, max_dropout}

-- `extendMax`
unfoldable pub extended : RtcpContext → ℕ
extended ctx = ctx.cycles + ctx.max_seq

-- Behind the probation, a packet up to 2999 numbers ahead of the highest one is valid and counts as
-- one more received, modulo 2^32, and the extended highest sequence number moves on by as many, also
-- across the wrap of the 16 bits; the cycles have room for one more wrap.
pub update_seq-extended :
    (ctx : RtcpContext) (ahead : ℕ)
    → ctx.probation ≡ 0
    → IsU16 ctx.max_seq
    → ctx.cycles + 2 ^ 16 < 2 ^ 32
    → ahead < max_dropout
    → ((update_seq ctx ((ctx.max_seq + ahead) % 2 ^ 16)).0 ≡ 1)
      × ((extended (update_seq ctx ((ctx.max_seq + ahead) % 2 ^ 16)).1 ≡ extended ctx + ahead)
          × ((update_seq ctx ((ctx.max_seq + ahead) % 2 ^ 16)).1.received
              ≡ (ctx.received + 1) % 2 ^ 32))
unfolding update_seq extended
update_seq-extended ctx ahead p m c a =
    let seq = (ctx.max_seq + ahead) % 2 ^ 16 in
    let t : ltb 0 ctx.probation ≡ false = le→ltb 0 ctx.probation (omega arith) in
    let d : ltb ((seq + (2 ^ 16 - ctx.max_seq)) % 2 ^ 16) max_dropout ≡ true =
      lt→ltb _ _ (omega arith) in
    elim (Bool-cases (ltb seq ctx.max_seq)) [
      | inl e ↦ let h = ltb→lt _ _ e in rw (t, d, e) (refl, (omega arith, refl))
      | inr e ↦ let h = ltb→le _ _ e in rw (t, d, e) (refl, (omega arith, refl))
    ]
