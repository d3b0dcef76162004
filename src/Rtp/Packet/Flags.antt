-- ===== src/Rtp/Packet/Flags.antt =====
-- The first two bytes of the header as sums of their fields.
use gomediautils.Prelude.{ℕ, ◌+◌, ◌*◌, ◌%◌, ◌^◌, ◌<◌, ◌≡◌, ap, ◌∙◌, arith, length, bit_and, bit_or}
use gomediautils.Prelude.Bits.{bit_and_low, bit_or_sum}
use gomediautils.Rtp.Packet.{RtpHdr, first_byte, second_byte}

pub first_byte_lem :
    (head : RtpHdr)
    → head.padding_flag < 2
    → head.extension_flag < 2
    → length head.csrc < 16
    → first_byte head ≡ 128 + head.padding_flag * 32 + head.extension_flag * 16 + length head.csrc
unfolding first_byte
first_byte_lem head p x c =
    let p' : bit_and head.padding_flag 0x01 ≡ head.padding_flag =
      bit_and_low 1 head.padding_flag ∙ omega arith in
    let x' : bit_and head.extension_flag 0x01 ≡ head.extension_flag =
      bit_and_low 1 head.extension_flag ∙ omega arith in
    let c' : bit_and (length head.csrc % 256) 0x0F ≡ length head.csrc =
      bit_and_low 4 (length head.csrc % 256) ∙ omega arith in
    let p'' : head.padding_flag * 2 ^ 5 % 256 ≡ head.padding_flag * 32 = omega arith in
    let x'' : head.extension_flag * 2 ^ 4 % 256 ≡ head.extension_flag * 16 = omega arith in
    rw (p', x', c', p'', x'')
      (ap (λ (t : ℕ). bit_or (bit_or t (head.extension_flag * 16)) (length head.csrc))
          (bit_or_sum 6 2 (head.padding_flag * 32) (omega arith))
        ∙ ap (λ (t : ℕ). bit_or (bit_or t (head.extension_flag * 16)) (length head.csrc))
            (omega arith)
        ∙ ap (λ (t : ℕ). bit_or t (length head.csrc))
            (bit_or_sum 5 (4 + head.padding_flag) (head.extension_flag * 16) (omega arith))
        ∙ ap (λ (t : ℕ). bit_or t (length head.csrc)) (omega arith)
        ∙ bit_or_sum 4 (8 + head.padding_flag * 2 + head.extension_flag) (length head.csrc) c
        ∙ omega arith)

pub second_byte_lem :
    (head : RtpHdr)
    → head.marker < 2
    → head.payload_type < 128
    → second_byte head ≡ head.marker * 128 + head.payload_type
unfolding second_byte
second_byte_lem head m t =
    let m' : bit_and head.marker 0x01 ≡ head.marker = bit_and_low 1 head.marker ∙ omega arith in
    let t' : bit_and head.payload_type 0x7F ≡ head.payload_type =
      bit_and_low 7 head.payload_type ∙ omega arith in
    let m'' : head.marker * 2 ^ 7 % 256 ≡ head.marker * 128 = omega arith in
    rw (m', t', m'') (bit_or_sum 7 head.marker head.payload_type t ∙ omega arith)
