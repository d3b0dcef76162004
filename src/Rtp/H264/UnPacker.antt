-- ===== src/Rtp/H264/UnPacker.antt =====
-- `H264UnPacker` of go-rtsp/rtp/rtp-h264.go. Its callback `onFrame` is set, and the frames that it was
-- given are kept in `frames`; the hook `onRtp` is not set.
use gomediautils.Prelude.{
  ℕ, zero, suc, ◌+◌, ◌-◌, ◌*◌, ◌%◌, ◌^◌, List, [], ◌∷◌, ◌++◌, Bool, true, false, ltb, ◌==◌, ◌&&◌,
  ◌||◌, if◌then◌else◌, length, take, drop, bit_and, bit_or, Outcome, ok, err, panic,
}
use gomediautils.Rtp.Packet.{RtpHdr, RtpError, RtpPacket, decode_packet}

-- `no_rounds` stands for no error of the code: it says that a loop of this model was given too few.
pub data UnpackError : Type 0 where
  bad_packet : RtpError → UnpackError
  short_fu_a truncated_size size_out_of_range unsupported no_rounds : UnpackError

-- What `onFrame` is given.
pub record Frame : Type 0 where
  pub data_bytes : List ℕ
  pub timestamp : ℕ
  pub lost : Bool

pub record H264UnPacker : Type 0 where
  pub timestamp : ℕ
  pub last_sequence : ℕ
  pub lost : Bool
  pub frame_buffer : List ℕ
  pub frames : List Frame

abbrev pub start_code : List ℕ
start_code = 0 ∷ 0 ∷ 0 ∷ 1 ∷ []

unfoldable pub new_h264_un_packer : H264UnPacker
new_h264_un_packer = record {
  timestamp = 0;
  last_sequence = 0;
  lost = false;
  frame_buffer = start_code;
  frames = [];
}

-- `onFrame` on the frame buffer, and its `Truncate(4)`.
unfoldable pub give_frame : H264UnPacker → ℕ → Bool → H264UnPacker
give_frame u timestamp lost = record u {
  frames =
      u.frames ++ (record { data_bytes = u.frame_buffer; timestamp = timestamp; lost = lost } ∷ []);
  frame_buffer = take 4 u.frame_buffer;
}

-- The start of a fragmented unit whose first bytes are `a` and `b`.
unfoldable pub start_fu_a : H264UnPacker → RtpHdr → ℕ → ℕ → H264UnPacker
start_fu_a u head a b =
    let u' = if ltb 4 (length u.frame_buffer) then give_frame u u.timestamp true else u in
    record u' {
      timestamp = head.timestamp;
      frame_buffer = u'.frame_buffer ++ (bit_or (bit_and a 0xE0) (bit_and b 0x1F) ∷ []);
      lost = false;
    }

unfoldable pub continue_fu_a : H264UnPacker → RtpHdr → H264UnPacker
continue_fu_a u head =
    if (u.last_sequence + 1) % 2 ^ 16 == head.sequence_number then u else record u { lost = true }

unfoldable pub end_fu_a : H264UnPacker → RtpHdr → ℕ → List ℕ → H264UnPacker
end_fu_a u head b rest =
    let u' = record u {
      last_sequence = head.sequence_number;
      frame_buffer = u.frame_buffer ++ rest;
    } in
    if ltb 0 (bit_and b 0x40) then give_frame u' u'.timestamp u'.lost else u'

unfoldable pub unpack_fu_a :
    H264UnPacker → RtpPacket → Outcome UnpackError (Unit {0}) × H264UnPacker
unpack_fu_a u pkt = elim pkt.payload [
  | [] ↦ (err short_fu_a, u)
  | a ∷ [] ↦ (err short_fu_a, u)
  | a ∷ b ∷ rest ↦
      let u' =
        if ltb 0 (bit_and b 0x80)
        then start_fu_a u pkt.header a b
        else continue_fu_a u pkt.header in
      (ok tt, end_fu_a u' pkt.header b rest)
]

-- The loop of `unpackStapa`. `2+naluLength` is a uint16; a slice whose end is before its start panics.
unfoldable pub stap_a_loop :
    ℕ → H264UnPacker → ℕ → List ℕ → Outcome UnpackError (Unit {0}) × H264UnPacker
stap_a_loop zero u timestamp nalus = (err no_rounds, u)
stap_a_loop (suc fuel) u timestamp [] = (ok tt, u)
stap_a_loop (suc fuel) u timestamp (a ∷ []) = (err truncated_size, u)
stap_a_loop (suc fuel) u timestamp (a ∷ b ∷ rest) =
    let n : ℕ = a * 2 ^ 8 + b in
    let end : ℕ = (2 + n) % 2 ^ 16 in
    let u' =
      give_frame (record u { frame_buffer = u.frame_buffer ++ take (end - 2) rest }) timestamp
        false in
    let next = stap_a_loop fuel u' timestamp (drop (end - 2) rest) in
    if (n == 0) || ltb (length rest) n
    then (err size_out_of_range, u)
    else if ltb end 2
    then (panic, u)
    else next

unfoldable pub unpack_stap_a :
    H264UnPacker → RtpPacket → Outcome UnpackError (Unit {0}) × H264UnPacker
unpack_stap_a u pkt = stap_a_loop (length pkt.payload) u pkt.header.timestamp (drop 1 pkt.payload)

-- `UnPack`, behind the `Decode` of the packet.
unfoldable pub unpack_payload :
    H264UnPacker → RtpPacket → Outcome UnpackError (Unit {0}) × H264UnPacker
unpack_payload u pkg = elim pkg.payload [
  | [] ↦ (ok tt, u)
  | b ∷ _ ↦
      let pack_type = bit_and b 0x1F in
      if ltb 0 pack_type && ltb pack_type 24
      then (
        ok tt,
        give_frame (record u { frame_buffer = u.frame_buffer ++ pkg.payload }) pkg.header.timestamp
            false,
      )
      else if pack_type == 24
      then unpack_stap_a u pkg
      else if pack_type == 28
      then unpack_fu_a u pkg
      else (err unsupported, u)
]

-- `&RtpPacket{}`
abbrev pub empty_packet : RtpPacket
empty_packet = record {
  header = record {
    version = 0;
    padding_flag = 0;
    extension_flag = 0;
    cc = 0;
    marker = 0;
    payload_type = 0;
    sequence_number = 0;
    timestamp = 0;
    ssrc = 0;
    csrc = [];
  };
  extensions = [];
  payload = [];
  padding = [];
}

unfoldable pub un_pack : H264UnPacker → List ℕ → Outcome UnpackError (Unit {0}) × H264UnPacker
un_pack u pkt =
    let (result, pkg) = decode_packet empty_packet pkt in
    elim result [
      | panic ↦ (panic, u)
      | err e ↦ (err (bad_packet e), u)
      | ok _ ↦ unpack_payload u pkg
    ]
