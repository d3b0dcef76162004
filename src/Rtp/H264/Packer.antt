-- ===== src/Rtp/H264/Packer.antt =====
-- `H264Packer` of go-rtsp/rtp/rtp-h264.go, with the `CommPacker` of rtp.go that it embeds. The
-- callback `onPacket` is set, and is a parameter: from the packets that it was given before and the
-- one that it is given, whether it returns no error. The hook `onRtp` is not set. The packer keeps the
-- packets that the callback was given, in `sent`; its mtu is not negative.
use gomediautils.Prelude.{
  ℕ, zero, suc, ◌+◌, ◌-◌, ◌%◌, ◌^◌, List, [], ◌∷◌, ◌++◌, Bool, true, false, ltb, leb, ◌==◌, ◌||◌,
  if◌then◌else◌, length, take, drop, bit_and, bit_or, Option, none, some,
}
use gomediautils.Prelude.Bytes.{u16_be}
use gomediautils.Rtp.Packet.{RtpPacket, encode_packet, rtp_fix_head_len}
use gomediautils.Codec.Nalu.{split_frame, h264_nalu_type}

-- `no_fuel` stands for no error of the code: it says that a loop of this model was given too few rounds.
pub data PackError : Type 0 where
  nalu_too_short mtu_too_small on_packet_failed no_fuel : PackError

pub record H264Packer : Type 0 where
  pub mtu : ℕ
  pub ssrc : ℕ
  pub pt : ℕ
  pub sequence : ℕ
  pub stap_a : Bool
  pub sps : List ℕ
  pub pps : List ℕ
  pub sent : List (List ℕ)

unfoldable pub new_h264_packer : ℕ → ℕ → ℕ → ℕ → H264Packer
new_h264_packer pt ssrc sequence mtu = record {
  mtu = mtu;
  ssrc = ssrc;
  pt = pt;
  sequence = sequence;
  stap_a = false;
  sps = [];
  pps = [];
  sent = [];
}

-- A packet with the fields that every packet of the packer has.
unfoldable pub rtp_packet : H264Packer → ℕ → Bool → List ℕ → RtpPacket
rtp_packet pack timestamp last payload = record {
  header = record {
    version = 0;
    padding_flag = 0;
    extension_flag = 0;
    cc = 0;
    marker = if last then 1 else 0;
    payload_type = pack.pt;
    sequence_number = pack.sequence;
    timestamp = timestamp;
    ssrc = pack.ssrc;
    csrc = [];
  };
  extensions = [];
  payload = payload;
  padding = [];
}

-- The bytes of a STAP-A: the largest NRI of the units, and each behind its length.
unfoldable pub max_nri : ℕ → List (List ℕ) → ℕ
max_nri nri [] = nri
max_nri nri ([] ∷ nalus) = max_nri nri nalus
max_nri nri ((b ∷ _) ∷ nalus) =
    max_nri (if ltb nri (bit_and b 0x60) then bit_and b 0x60 else nri) nalus

unfoldable pub aggregate : List (List ℕ) → List ℕ
aggregate [] = []
aggregate (nalu ∷ nalus) = u16_be (length nalu % 2 ^ 16) ++ (nalu ++ aggregate nalus)

unfoldable pub stap_a_payload : List (List ℕ) → List ℕ
unfolding max_nri aggregate
stap_a_payload nalus = bit_or (max_nri 0 nalus) 24 ∷ aggregate nalus

-- What is to be sent of an access unit: a payload of more than one unit is aggregated.
pub record Gathered : Type 0 where
  pub sps : List ℕ
  pub pps : List ℕ
  pub payloads : List (List (List ℕ))

-- `flushParamSets`
unfoldable pub flush_param_sets : ℕ → Gathered → Gathered
flush_param_sets mtu c = if (length c.sps == 0) || (length c.pps == 0) then c else record {
  sps = [];
  pps = [];
  payloads =
      c.payloads
      ++ (if leb (length c.sps + length c.pps + 5 + rtp_fix_head_len) mtu
          then (c.sps ∷ c.pps ∷ []) ∷ []
          else (c.sps ∷ []) ∷ (c.pps ∷ []) ∷ []);
}

-- A round of the loop over the units.
unfoldable pub collect_nalu : H264Packer → Gathered → List ℕ → Gathered
unfolding flush_param_sets
collect_nalu pack c nalu =
    if pack.stap_a
    then (if h264_nalu_type nalu == 7
        then record c { sps = nalu }
        else if h264_nalu_type nalu == 8
        then record c { pps = nalu }
        else (let c' = flush_param_sets pack.mtu c in
            record c' { payloads = c'.payloads ++ ((nalu ∷ []) ∷ []) }))
    else record c { payloads = c.payloads ++ ((nalu ∷ []) ∷ []) }

unfoldable pub collect_nalus : H264Packer → Gathered → List (List ℕ) → Gathered
collect_nalus pack c [] = c
collect_nalus pack c (nalu ∷ nalus) = collect_nalus pack (collect_nalu pack c nalu) nalus

-- The callback of `SplitFrame` leaves out the empty units.
unfoldable pub not_empty : List (List ℕ) → List (List ℕ)
not_empty [] = []
not_empty ([] ∷ nalus) = not_empty nalus
not_empty ((b ∷ bs) ∷ nalus) = (b ∷ bs) ∷ not_empty nalus

module _ (on_packet : List (List ℕ) → List ℕ → Bool) where
  -- The callback on a packet, and the sequence number after it.
  unfoldable pub send : H264Packer → RtpPacket → Option PackError × H264Packer
  send pack pkg =
      let bytes = (encode_packet pkg).0 in
      (
        if on_packet pack.sent bytes then none else some on_packet_failed,
        record pack { sequence = (pack.sequence + 1) % 2 ^ 16; sent = pack.sent ++ (bytes ∷ []) },
      )

  unfoldable pub pack_single_nalu : H264Packer → List ℕ → ℕ → Bool → Option PackError × H264Packer
  pack_single_nalu pack nalu timestamp last = send pack (rtp_packet pack timestamp last nalu)

  -- The loop of `packFuA`, with its `fuIndicator` and `fuHeader`. Each round takes a byte at least.
  unfoldable pub fu_a_loop :
      ℕ → H264Packer → ℕ → ℕ → List ℕ → ℕ → Bool → Option PackError × H264Packer
  fu_a_loop zero pack indicator header nalu timestamp last = (some no_fuel, pack)
  fu_a_loop (suc fuel) pack indicator header nalu timestamp last =
      let n : ℕ = pack.mtu - 2 - rtp_fix_head_len in
      let (e, pack') =
        send pack (rtp_packet pack timestamp false (indicator ∷ header ∷ take n nalu)) in
      let header' : ℕ = if ltb 0 (bit_and header 0x80) then bit_and header 0x7F else header in
      let rest = fu_a_loop fuel pack' indicator header' (drop n nalu) timestamp last in
      if leb (length nalu + rtp_fix_head_len + 2) pack.mtu
      then send pack (rtp_packet pack timestamp last (indicator ∷ bit_or header 0x40 ∷ nalu))
      else elim e [ none ↦ rest | some err ↦ (some err, pack') ]

  unfoldable pub pack_fu_a : H264Packer → List ℕ → ℕ → Bool → Option PackError × H264Packer
  pack_fu_a pack [] timestamp last = (some nalu_too_short, pack)
  pack_fu_a pack (b ∷ []) timestamp last = (some nalu_too_short, pack)
  pack_fu_a pack (b ∷ c ∷ nalu) timestamp last =
      if leb pack.mtu (rtp_fix_head_len + 2)
      then (some mtu_too_small, pack)
      else fu_a_loop (length (b ∷ c ∷ nalu)) pack (bit_or (bit_and b 0xE0) 0x1C)
          (bit_or (bit_and b 0x1F) 0x80) (c ∷ nalu) timestamp last

  unfoldable pub pack_stap_a : H264Packer → List (List ℕ) → ℕ → Bool → Option PackError × H264Packer
  unfolding stap_a_payload
  pack_stap_a pack nalus timestamp last =
      send pack (rtp_packet pack timestamp last (stap_a_payload nalus))

  -- One payload; there is none without units.
  unfoldable pub pack_payload :
      H264Packer → List (List ℕ) → ℕ → Bool → Option PackError × H264Packer
  pack_payload pack [] timestamp last = (some no_fuel, pack)
  pack_payload pack (nalu ∷ []) timestamp last =
      if leb (length nalu + rtp_fix_head_len) pack.mtu
      then pack_single_nalu pack nalu timestamp last
      else pack_fu_a pack nalu timestamp last
  pack_payload pack (nalu ∷ nalu' ∷ nalus) timestamp last =
      pack_stap_a pack (nalu ∷ nalu' ∷ nalus) timestamp last

  -- The loop over the payloads; the marker goes with the last.
  unfoldable pub pack_payloads :
      H264Packer → List (List (List ℕ)) → ℕ → Option PackError × H264Packer
  pack_payloads pack [] timestamp = (none, pack)
  pack_payloads pack (p ∷ ps) timestamp =
      let (e, pack') = pack_payload pack p timestamp (length ps == 0) in
      let rest = pack_payloads pack' ps timestamp in
      elim e [ none ↦ rest | some err ↦ (some err, pack') ]

  -- `Pack`
  unfoldable pub pack : H264Packer → List ℕ → ℕ → Option PackError × H264Packer
  pack p frame timestamp =
      let nalus = not_empty (split_frame (λ _. true) frame) in
      let c = collect_nalus p (record { sps = p.sps; pps = p.pps; payloads = [] }) nalus in
      let c' = if p.stap_a then flush_param_sets p.mtu c else c in
      pack_payloads (record p { sps = c'.sps; pps = c'.pps }) c'.payloads timestamp
