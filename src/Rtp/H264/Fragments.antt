-- ===== src/Rtp/H264/Fragments.antt =====
-- `unpackFuA` on a single fragment.
use gomediautils.Prelude.{
  ℕ, ◌+◌, ◌%◌, ◌^◌, ◌≡◌, ap, List, [], ◌∷◌, ◌++◌, Bool, true, false, if◌then◌else◌, ltb, ◌==◌,
  eq→==, length, bit_and, ok,
}
use gomediautils.Prelude.Bytes.{IsByte}
use gomediautils.Rtp.Packet.{set_flags}
use gomediautils.Rtp.Packet.RoundTrip.{seen}
use gomediautils.Rtp.Packet.Whole.{received}
use gomediautils.Rtp.H264.Packer.{H264Packer, rtp_packet}
use gomediautils.Rtp.H264.UnPacker.{
  H264UnPacker, start_code, give_frame, start_fu_a, continue_fu_a, end_fu_a, unpack_fu_a,
  unpack_payload,
}
use gomediautils.Rtp.H264.Headers.{indicator, is_fu_a, Header}

module _ (v : H264UnPacker) (p : H264Packer) (timestamp : ℕ) (last : Bool) (b : ℕ)
    (h : IsByte b) where
  -- A fragment is put behind what the buffer holds.
  pub fragment :
      (x : ℕ) (rest : List ℕ) (end : Bool)
      → Header b x false end
      → (v.last_sequence + 1) % 2 ^ 16 ≡ p.sequence
      → let w : H264UnPacker = record v {
        last_sequence = p.sequence;
        frame_buffer = v.frame_buffer ++ rest;
      } in
        unpack_payload v (received (rtp_packet p timestamp last (indicator b ∷ x ∷ rest)))
        ≡ (ok tt, if end then give_frame w w.timestamp w.lost else w)
  unfolding unpack_payload unpack_fu_a continue_fu_a end_fu_a received set_flags seen rtp_packet
  fragment x rest end hd e =
      let q : ((v.last_sequence + 1) % 2 ^ 16 == p.sequence) ≡ true = eq→== _ _ e in
      let t : bit_and (indicator b) 0x1F ≡ 28 = is_fu_a b h in
      let s = hd.starts in let d = hd.ends in rw (t, s, q, d)

  -- The first fragment makes the first byte of the unit, in a buffer with nothing but a start code.
  pub first_fragment :
      (x : ℕ) (rest : List ℕ) (end : Bool)
      → Header b x true end
      → v.frame_buffer ≡ start_code
      → let w : H264UnPacker = record v {
        timestamp = timestamp;
        last_sequence = p.sequence;
        lost = false;
        frame_buffer = (v.frame_buffer ++ (b ∷ [])) ++ rest;
      } in
        unpack_payload v (received (rtp_packet p timestamp last (indicator b ∷ x ∷ rest)))
        ≡ (ok tt, if end then give_frame w w.timestamp w.lost else w)
  unfolding unpack_payload unpack_fu_a start_fu_a end_fu_a received set_flags seen rtp_packet
  first_fragment x rest end hd e =
      let t : bit_and (indicator b) 0x1F ≡ 28 = is_fu_a b h in
      let s = hd.starts in
      let d = hd.ends in
      let y = hd.byte in
      let c : ltb 4 (length v.frame_buffer) ≡ false = ap (λ (l : List ℕ). ltb 4 (length l)) e in
      rw (t, s, c, y, d)
