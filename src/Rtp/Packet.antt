-- ===== src/Rtp/Packet.antt =====
-- `RtpHdr` and `RtpPacket` of go-rtsp/rtp/rtp-hdr.go and rtp.go. A `Decode` returns the receiver as
-- it leaves it beside its result, since fields are assigned before an error is met.
pub mod Flags
pub mod RoundTrip
pub mod Whole
use gomediautils.Prelude.{
  ℕ, zero, suc, ◌+◌, ◌-◌, ◌*◌, ◌/◌, ◌%◌, ◌^◌, List, [], ◌∷◌, ◌++◌, Bool, true, false, ltb, leb,
  ◌==◌, if◌then◌else◌, ◌||◌, length, take, drop, bit_and, bit_or, Outcome, ok, err, panic, ◌>>=◌,
  index, Option, none, some,
}
use gomediautils.Prelude.Bytes.{u16_be, u32_be, read_u16_be, read_u32_be}

pub data RtpError : Type 0 where
  short_header short_csrc short_extension extension_overrun bad_padding : RtpError

abbrev pub rtp_fix_head_len : ℕ
rtp_fix_head_len = 12

pub record RtpHdr : Type 0 where
  pub version : ℕ
  pub padding_flag : ℕ
  pub extension_flag : ℕ
  pub cc : ℕ
  pub marker : ℕ
  pub payload_type : ℕ
  pub sequence_number : ℕ
  pub timestamp : ℕ
  pub ssrc : ℕ
  pub csrc : List ℕ

-- A field read from the front of a slice; a slice that is too short panics.
abbrev pub need {ℓ} : {A : Type ℓ} → Option A → Outcome RtpError A
need none = panic
need (some x) = ok x

unfoldable pub first_byte : RtpHdr → ℕ
first_byte head =
    bit_or
      (bit_or (bit_or 0x80 (bit_and head.padding_flag 0x01 * 2 ^ 5 % 256))
        (bit_and head.extension_flag 0x01 * 2 ^ 4 % 256))
      (bit_and (length head.csrc % 256) 0x0F)

unfoldable pub second_byte : RtpHdr → ℕ
second_byte head = bit_or (bit_and head.marker 0x01 * 2 ^ 7 % 256) (bit_and head.payload_type 0x7F)

unfoldable pub encode_csrc : List ℕ → List ℕ
encode_csrc [] = []
encode_csrc (c ∷ cs) = u32_be c ++ encode_csrc cs

-- `encodeTo` and `Encode`: the bytes of the header.
unfoldable pub encode_header : RtpHdr → List ℕ
unfolding encode_csrc
encode_header head =
    first_byte head
    ∷ second_byte head
    ∷ (u16_be head.sequence_number
        ++ (u32_be head.timestamp ++ (u32_be head.ssrc ++ encode_csrc head.csrc)))

-- The loop over `head.CC` words; the list is `pkt[12+4*i:]`.
unfoldable pub decode_csrc : ℕ → List ℕ → Outcome RtpError (List ℕ)
decode_csrc zero bytes = ok []
decode_csrc (suc n) bytes =
    let rest = decode_csrc n (drop 4 bytes) in
    need (read_u32_be bytes) >>= λ c. rest >>= λ cs. ok (c ∷ cs)

-- The fields of the fixed header.
unfoldable pub decode_fixed : List ℕ → List ℕ → Outcome RtpError RtpHdr
decode_fixed old pkt = do
  a ← index pkt 0
  b ← index pkt 1
  seq ← need (read_u16_be (drop 2 pkt))
  ts ← need (read_u32_be (drop 4 pkt))
  ssrc ← need (read_u32_be (drop 8 pkt))
  ok (record {
    version = a / 2 ^ 6;
    padding_flag = bit_and (a / 2 ^ 5) 0x01;
    extension_flag = bit_and (a / 2 ^ 4) 0x01;
    cc = bit_and a 0x0F;
    marker = b / 2 ^ 7;
    payload_type = bit_and b 0x7F;
    sequence_number = seq;
    timestamp = ts;
    ssrc = ssrc;
    csrc = old;
  })

unfoldable pub decode_header : RtpHdr → List ℕ → Outcome RtpError ℕ × RtpHdr
decode_header head pkt =
    if ltb (length pkt) rtp_fix_head_len
    then (err short_header, head)
    else elim (decode_fixed head.csrc pkt) [
      | panic ↦ (panic, head)
      | err e ↦ (err e, head)
      | ok h ↦
          if ltb (length pkt - rtp_fix_head_len) (4 * h.cc)
          then (err short_csrc, h)
          else elim (decode_csrc h.cc (drop 12 pkt)) [
            | panic ↦ (panic, h)
            | err e ↦ (err e, h)
            | ok cs ↦ (ok (rtp_fix_head_len + 4 * length cs), record h { csrc = cs })
          ]
    ]

pub record RtpPacket : Type 0 where
  pub header : RtpHdr
  pub extensions : List ℕ
  pub payload : List ℕ
  pub padding : List ℕ

-- The extension, with the bytes behind it. `4+4*length` is a uint16.
unfoldable pub split_extension : List ℕ → Outcome RtpError (List ℕ × List ℕ)
split_extension rest =
    if ltb (length rest) 4
    then err short_extension
    else (need (read_u16_be (drop 2 rest)) >>= λ words.
        if ltb (length rest - 4) (words * 4)
        then err extension_overrun
        else ok (take ((4 + 4 * words) % 2 ^ 16) rest, drop ((4 + 4 * words) % 2 ^ 16) rest))

-- `data[len(data)-1]`
abbrev pub last_byte : List ℕ → Outcome RtpError ℕ
last_byte bytes = if length bytes == 0 then panic else index bytes (length bytes - 1)

-- The bytes in front of the padding, and the padding.
unfoldable pub split_padding : List ℕ → Outcome RtpError (List ℕ × List ℕ)
split_padding rest =
    if length rest == 0
    then err bad_padding
    else (last_byte rest >>= λ n.
        if ltb (length rest) n
        then err bad_padding
        else ok (take (length rest - n) rest, drop (length rest - n) rest))

-- `RtpPacket.Decode`, behind the header.
unfoldable pub decode_body : RtpPacket → List ℕ → Outcome RtpError (Unit {0}) × RtpPacket
decode_body pkg rest =
    elim (if ltb 0 pkg.header.extension_flag
      then split_extension rest
      else ok (pkg.extensions, rest)) [
        | panic ↦ (panic, pkg)
        | err e ↦ (err e, pkg)
        | ok (ext, rest') ↦
            elim (if ltb 0 pkg.header.padding_flag
              then split_padding rest'
              else ok (rest', pkg.padding)) [
                | panic ↦ (panic, record pkg { extensions = ext })
                | err e ↦ (err e, record pkg { extensions = ext })
                | ok (body, pad) ↦
                    (ok tt, record pkg { extensions = ext; payload = body; padding = pad })
              ]
      ]

unfoldable pub decode_packet : RtpPacket → List ℕ → Outcome RtpError (Unit {0}) × RtpPacket
decode_packet pkg bytes =
    let (offset, head) = decode_header pkg.header bytes in
    elim offset [
      | panic ↦ (panic, record pkg { header = head })
      | err e ↦ (err e, record pkg { header = head })
      | ok n ↦ decode_body (record pkg { header = head }) (drop n bytes)
    ]

-- `RtpPacket.Encode`: the flags that the parts ask for, and the bytes.
unfoldable pub set_flags : RtpPacket → RtpPacket
set_flags pkg = record pkg {
  header = record pkg.header {
    extension_flag = if ltb 0 (length pkg.extensions) then 1 else pkg.header.extension_flag;
    padding_flag = if ltb 0 (length pkg.padding) then 1 else pkg.header.padding_flag;
  };
}

unfoldable pub encode_packet : RtpPacket → List ℕ × RtpPacket
unfolding set_flags
encode_packet pkg =
    let pkg' = set_flags pkg in
    (encode_header pkg'.header ++ (pkg'.extensions ++ (pkg'.payload ++ pkg'.padding)), pkg')
