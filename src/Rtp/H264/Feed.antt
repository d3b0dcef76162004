-- ===== src/Rtp/H264/Feed.antt =====
-- The packets that a packer sends, given to an unpacker one by one.
use gomediautils.Prelude.{
  ℕ, ◌<◌, ◌≡◌, refl, ap, ◌∙◌, inl, arith, List, [], ◌∷◌, ◌++◌, Bool, true, false, if◌then◌else◌,
  none, Outcome, ok, err, panic,
}
use gomediautils.Prelude.Bytes.{IsU16, IsU32}
use gomediautils.Rtp.Packet.{RtpPacket, encode_packet, decode_packet}
use gomediautils.Rtp.Packet.Whole.{IsWhole, received, decode_packet-encode_packet}
use gomediautils.Rtp.H264.Packer.{H264Packer, rtp_packet, send}
use gomediautils.Rtp.H264.UnPacker.{
  H264UnPacker, UnpackError, Frame, start_code, empty_packet, un_pack, unpack_payload,
}

-- A call, and what follows it unless it fails.
abbrev pub after {ℓ} :
    {A : Type ℓ} → Outcome UnpackError (Unit {0}) → Outcome UnpackError A → Outcome UnpackError A
after panic rest = panic
after (err e) rest = err e
after (ok _) rest = rest

-- The calls of `UnPack` on packets in their order, up to the first that fails.
unfoldable pub feed : List (List ℕ) → H264UnPacker → Outcome UnpackError H264UnPacker
feed [] u = ok u
feed (pkt ∷ pkts) u = let rest = feed pkts (un_pack u pkt).1 in after (un_pack u pkt).0 rest

-- The packer's fields fit in those of a header, and there is room for a fragment.
pub record Fits (p : H264Packer) : Type 0 where
  pub pt_small : p.pt < 128
  pub sequence_u16 : IsU16 p.sequence
  pub ssrc_u32 : IsU32 p.ssrc
  pub roomy : 14 < p.mtu

-- What the packer has sent so far gave these frames, and left nothing in the buffer.
pub record Ready (p : H264Packer) (u : H264UnPacker) (frames : List Frame) : Type 0 where
  pub fits : Fits p
  pub receiver : H264UnPacker
  pub fed : feed p.sent u ≡ ok receiver
  pub clean : receiver.frame_buffer ≡ start_code
  pub given : receiver.frames ≡ frames

after-ok :
    (o : Outcome UnpackError (Unit {0})) (a b : Outcome UnpackError H264UnPacker)
    (v w : H264UnPacker)
    → after o a ≡ ok v
    → (a ≡ ok v → b ≡ ok w)
    → after o b ≡ ok w
after-ok panic a b v w h k = absurd cc
after-ok (err e) a b v w h k = absurd cc
after-ok (ok _) a b v w h k = k h

feed-append :
    (pkts : List (List ℕ)) (pkt : List ℕ) (u v w : H264UnPacker)
    → feed pkts u ≡ ok v
    → un_pack v pkt ≡ (ok tt, w)
    → feed (pkts ++ (pkt ∷ [])) u ≡ ok w
unfolding feed
feed-append [] pkt u v w h k =
    let e : u ≡ v = cc in
    let k' : un_pack u pkt ≡ (ok tt, w) = rw e k in
    let k0 : (un_pack u pkt).0 ≡ ok tt = ap (λ x. x.0) k' in
    let k1 : (un_pack u pkt).1 ≡ w = ap (λ x. x.1) k' in rw (feed, k0, k1)
feed-append (x ∷ xs) pkt u v w h k =
    after-ok (un_pack u x).0 (feed xs (un_pack u x).1) _ v w h
      (λ g. feed-append xs pkt (un_pack u x).1 v w g k)

marker_small : (last : Bool) → (if last then 1 else 0) < 2
marker_small true = omega arith
marker_small false = omega arith

un_pack-rtp_packet :
    (p : H264Packer) (timestamp : ℕ) (last : Bool) (payload : List ℕ) (u : H264UnPacker)
    → Fits p
    → IsU32 timestamp
    → un_pack u (encode_packet (rtp_packet p timestamp last payload)).0
      ≡ unpack_payload u (received (rtp_packet p timestamp last payload))
unfolding rtp_packet un_pack
un_pack-rtp_packet p timestamp last payload u f t =
    let whole : IsWhole (rtp_packet p timestamp last payload) = record {
      head = record {
        padding_small = omega arith;
        extension_small = omega arith;
        marker_small = marker_small last;
        type_small = f.pt_small;
        sequence_u16 = f.sequence_u16;
        timestamp_u32 = t;
        ssrc_u32 = f.ssrc_u32;
        few_csrc = omega arith;
        csrc_u32 = tt;
      };
      extension = inl (refl, refl);
      padded = inl (refl, refl);
    } in
    let d =
      decode_packet-encode_packet (rtp_packet p timestamp last payload) empty_packet.header whole in
    let d0 : (decode_packet empty_packet (encode_packet (rtp_packet p timestamp last payload)).0).0
        ≡ ok tt =
      ap (λ x. x.0) d in
    let d1 : (decode_packet empty_packet (encode_packet (rtp_packet p timestamp last payload)).0).1
        ≡ received (rtp_packet p timestamp last payload) =
      ap (λ x. x.1) d in
    rw (un_pack, d0, d1)

module _ (on_packet : List (List ℕ) → List ℕ → Bool)
    (accepts : (sent : List (List ℕ)) (pkt : List ℕ) → on_packet sent pkt ≡ true) where
  pub send-none : (p : H264Packer) (pkg : RtpPacket) → (send on_packet p pkg).0 ≡ none
  unfolding send
  send-none p pkg = rw (accepts p.sent (encode_packet pkg).0)

  -- A packet that is sent is one more that the unpacker is given.
  pub feed-send :
      (p : H264Packer) (timestamp : ℕ) (last : Bool) (payload : List ℕ) (u v w : H264UnPacker)
      → Fits p
      → IsU32 timestamp
      → feed p.sent u ≡ ok v
      → unpack_payload v (received (rtp_packet p timestamp last payload)) ≡ (ok tt, w)
      → feed (send on_packet p (rtp_packet p timestamp last payload)).1.sent u ≡ ok w
  unfolding send
  feed-send p timestamp last payload u v w f t h k =
      feed-append p.sent (encode_packet (rtp_packet p timestamp last payload)).0 u v w h
        (un_pack-rtp_packet p timestamp last payload v f t ∙ k)

  pub send-Fits : (p : H264Packer) (pkg : RtpPacket) → Fits p → Fits (send on_packet p pkg).1
  unfolding send
  send-Fits p pkg f = record {
    pt_small = f.pt_small;
    sequence_u16 = omega arith;
    ssrc_u32 = f.ssrc_u32;
    roomy = f.roomy;
  }
