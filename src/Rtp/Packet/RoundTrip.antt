-- ===== src/Rtp/Packet/RoundTrip.antt =====
-- `RtpHdr.Encode` and `RtpHdr.Decode`: what is written is read back.
use gomediautils.Prelude.{
  ℕ, ◌+◌, ◌-◌, ◌*◌, ◌/◌, ◌%◌, ◌^◌, ◌<◌, ◌≡◌, refl, ◌∙◌, arith, List, [], ◌∷◌, ◌++◌, false, ltb,
  le→ltb, length, length-append, drop, All, bit_and, ok, ◌>>=◌,
}
use gomediautils.Prelude.Bits.{bit_and_low}
use gomediautils.Prelude.Bytes.{
  IsU16, IsU32, u16_be, u32_be, read_u16_be, read_u32_be, read_u32_be-u32_be,
}
use gomediautils.Rtp.Packet.{
  RtpHdr, first_byte, second_byte, encode_csrc, encode_header, decode_csrc, decode_fixed,
  decode_header, need, rtp_fix_head_len,
}
use gomediautils.Rtp.Packet.Flags.{first_byte_lem, second_byte_lem}

-- The fields fit in their bits.
pub record IsValid (head : RtpHdr) : Type 0 where
  pub padding_small : head.padding_flag < 2
  pub extension_small : head.extension_flag < 2
  pub marker_small : head.marker < 2
  pub type_small : head.payload_type < 128
  pub sequence_u16 : IsU16 head.sequence_number
  pub timestamp_u32 : IsU32 head.timestamp
  pub ssrc_u32 : IsU32 head.ssrc
  pub few_csrc : length head.csrc < 16
  pub csrc_u32 : All IsU32 head.csrc

-- The header as a reader sees it.
unfoldable pub seen : RtpHdr → RtpHdr
seen head = record head { version = 2; cc = length head.csrc }

length-encode_csrc : (cs : List ℕ) → length (encode_csrc cs) ≡ 4 * length cs
unfolding encode_csrc u32_be
length-encode_csrc [] = omega arith
length-encode_csrc (c ∷ cs) = omega (arith, length-encode_csrc cs)

decode_csrc-encode_csrc :
    (cs : List ℕ)
    → (body : List ℕ) → All IsU32 cs
    → decode_csrc (length cs) (encode_csrc cs ++ body) ≡ ok cs
unfolding decode_csrc encode_csrc u32_be
decode_csrc-encode_csrc [] body h = refl
decode_csrc-encode_csrc (c ∷ cs) body (h, hs) =
    let ih = decode_csrc-encode_csrc cs body hs in
    let word = read_u32_be-u32_be c (encode_csrc cs ++ body) h in
    unfold u32_be in rw (◌>>=◌, need, word, ih)

-- The fixed header is read back.
decode_fixed-encode_header :
    (head : RtpHdr) (old body : List ℕ)
    → IsValid head
    → decode_fixed old (encode_header head ++ body) ≡ ok (record (seen head) { csrc = old })
unfolding decode_fixed encode_header u16_be u32_be read_u16_be read_u32_be seen
decode_fixed-encode_header head old body v =
    let a : first_byte head
        ≡ 128 + head.padding_flag * 32 + head.extension_flag * 16 + length head.csrc =
      first_byte_lem head v.padding_small v.extension_small v.few_csrc in
    let b = second_byte_lem head v.marker_small v.type_small in
    let p2 = v.padding_small in
    let x2 = v.extension_small in
    let m2 = v.marker_small in
    let t2 = v.type_small in
    let n2 = v.few_csrc in
    let s2 = v.sequence_u16 in
    let ts2 = v.timestamp_u32 in
    let ss2 = v.ssrc_u32 in
    let e1 : first_byte head / 2 ^ 6 ≡ 2 = omega arith in
    let e2 : bit_and (first_byte head / 2 ^ 5) 0x01 ≡ head.padding_flag =
      bit_and_low 1 (first_byte head / 2 ^ 5) ∙ omega arith in
    let e3 : bit_and (first_byte head / 2 ^ 4) 0x01 ≡ head.extension_flag =
      bit_and_low 1 (first_byte head / 2 ^ 4) ∙ omega arith in
    let e4 : bit_and (first_byte head) 0x0F ≡ length head.csrc =
      bit_and_low 4 (first_byte head) ∙ omega arith in
    let e5 : second_byte head / 2 ^ 7 ≡ head.marker = omega arith in
    let e6 : bit_and (second_byte head) 0x7F ≡ head.payload_type =
      bit_and_low 7 (second_byte head) ∙ omega arith in
    let e7 : head.sequence_number / 2 ^ 8 % 256 * 2 ^ 8 + head.sequence_number / 2 ^ 0 % 256
        ≡ head.sequence_number =
      omega arith in
    let word : (w : ℕ)
        → IsU32 w
        → w / 2 ^ 24 % 256 * 2 ^ 24
            + w / 2 ^ 16 % 256 * 2 ^ 16
            + w / 2 ^ 8 % 256 * 2 ^ 8
            + w / 2 ^ 0 % 256
          ≡ w =
      λ w h. omega arith in
    λ i. ok (record {
      version = e1 i;
      padding_flag = e2 i;
      extension_flag = e3 i;
      cc = e4 i;
      marker = e5 i;
      payload_type = e6 i;
      sequence_number = e7 i;
      timestamp = word head.timestamp ts2 i;
      ssrc = word head.ssrc ss2 i;
      csrc = old;
    })

pub length-encode_header : (head : RtpHdr) → length (encode_header head) ≡ 12 + 4 * length head.csrc
unfolding encode_header u16_be u32_be
length-encode_header head = omega (arith, length-encode_csrc head.csrc)

drop-encode_header :
    (head : RtpHdr) (body : List ℕ)
    → drop 12 (encode_header head ++ body) ≡ encode_csrc head.csrc ++ body
unfolding encode_header u16_be u32_be
drop-encode_header head body = refl

-- What `Decode` does when each of its steps succeeds.
decode_header_steps :
    (old : RtpHdr) (pkt : List ℕ) (h : RtpHdr) (cs : List ℕ)
    → ltb (length pkt) rtp_fix_head_len ≡ false
    → decode_fixed old.csrc pkt ≡ ok h
    → ltb (length pkt - rtp_fix_head_len) (4 * h.cc) ≡ false
    → decode_csrc h.cc (drop 12 pkt) ≡ ok cs
    → decode_header old pkt ≡ (ok (rtp_fix_head_len + 4 * length cs), record h { csrc = cs })
unfolding decode_header
decode_header_steps old pkt h cs a f b c = rw (decode_header, a, f, b, c)

-- A header whose fields fit in their bits is read back, in front of any bytes and by any receiver:
-- `Decode` gives its length and the header with version 2 and the count of its CSRCs.
pub decode_header-encode_header :
    (old head : RtpHdr) (body : List ℕ)
    → IsValid head
    → decode_header old (encode_header head ++ body) ≡ (ok (12 + 4 * length head.csrc), seen head)
unfolding seen
decode_header-encode_header old head body v =
    let n = length-append (encode_header head) body in
    let n' = length-encode_header head in
    decode_header_steps old (encode_header head ++ body) (record (seen head) { csrc = old.csrc })
      head.csrc (le→ltb _ _ (omega arith)) (decode_fixed-encode_header head old.csrc body v)
      (le→ltb _ _ (omega arith))
      (rw (drop-encode_header head body) (decode_csrc-encode_csrc head.csrc body v.csrc_u32))
