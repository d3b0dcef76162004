-- ===== src/Flv/Tag/RoundTrip.antt =====
-- Tag headers are read back.
use gomediautils.Prelude.{
  ℕ, ◌+◌, ◌*◌, ◌/◌, ◌%◌, ◌^◌, ◌<◌, ◌≡◌, ap, ◌∙◌, arith, List, ◌++◌, ok, ltb, ◌==◌, le→ltb, Bool,
  true, false, Bool-cases, inl, inr, length, bit_and, bit_or, if◌then◌else◌,
}
use gomediautils.Prelude.Bits.{bit_and_low, bit_or_sum}
use gomediautils.Prelude.Bytes.{u24_be}
use gomediautils.Flv.Tag.{
  FlvTag, flvtag_size, get_uint24, encode_tag, decode_tag, AudioTag, audio_byte, encode_audio,
  decode_audio, audio_fields,
}

-- The fields fit in their bits.
pub record IsValid (t : FlvTag) : Type 0 where
  pub type_small : t.tag_type < 32
  pub size_fits : t.data_size < 2 ^ 24
  pub timestamp_fits : t.timestamp < 2 ^ 24
  pub stream_fits : t.stream_id < 2 ^ 24

uint24 :
    (v : ℕ)
    → v < 2 ^ 24
    → bit_or (bit_or (v / 2 ^ 16 % 256 * 2 ^ 8) (v / 2 ^ 8 % 256) * 2 ^ 8) (v / 2 ^ 0 % 256) ≡ v
uint24 v h =
    ap (λ (t : ℕ). bit_or (t * 2 ^ 8) (v / 2 ^ 0 % 256))
      (bit_or_sum 8 (v / 2 ^ 16 % 256) (v / 2 ^ 8 % 256) (omega arith))
    ∙ bit_or_sum 8 (v / 2 ^ 16 % 256 * 2 ^ 8 + v / 2 ^ 8 % 256) (v / 2 ^ 0 % 256) (omega arith)
    ∙ omega arith

-- A tag header whose fields fit in their bits is read back, in front of any bytes and by any
-- receiver.
pub decode_tag-encode_tag :
    (old t : FlvTag) (rest : List ℕ) → IsValid t → decode_tag old (encode_tag t ++ rest) ≡ ok t
unfolding decode_tag encode_tag u24_be get_uint24
decode_tag-encode_tag old t rest v =
    let n : ltb (length (encode_tag t ++ rest)) flvtag_size ≡ false = le→ltb _ _ (omega arith) in
    let a : bit_and t.tag_type 0x1F ≡ t.tag_type =
      bit_and_low 5 t.tag_type ∙ omega (arith, v.type_small) in
    rw n (λ i. ok (record t {
      tag_type = a i;
      data_size = uint24 t.data_size v.size_fits i;
      timestamp = uint24 t.timestamp v.timestamp_fits i;
      stream_id = uint24 t.stream_id v.stream_fits i;
    }))

-- The fields of an audio tag fit in their bits.
pub record IsAudio (t : AudioTag) : Type 0 where
  pub format_small : t.sound_format < 16
  pub rate_small : t.sound_rate < 4
  pub size_small : t.sound_size < 2
  pub kind_small : t.sound_type < 2

audio_byte_lem :
    (t : AudioTag)
    → IsAudio t
    → audio_byte t ≡ t.sound_format * 16 + t.sound_rate * 4 + t.sound_size * 2 + t.sound_type
unfolding audio_byte
audio_byte_lem t v =
    let f = v.format_small in
    let r = v.rate_small in
    let s = v.size_small in
    let k = v.kind_small in
    let f' : t.sound_format * 2 ^ 4 % 256 ≡ t.sound_format * 2 ^ 4 = omega arith in
    let r' : t.sound_rate * 2 ^ 2 % 256 ≡ t.sound_rate * 4 = omega arith in
    let s' : t.sound_size * 2 % 256 ≡ t.sound_size * 2 = omega arith in
    rw (f', r', s')
      (ap (λ (x : ℕ). bit_or (bit_or x (t.sound_size * 2)) t.sound_type)
          (bit_or_sum 4 t.sound_format (t.sound_rate * 4) (omega arith) ∙ omega arith)
        ∙ ap (λ (x : ℕ). bit_or x t.sound_type)
            (bit_or_sum 2 (t.sound_format * 4 + t.sound_rate) (t.sound_size * 2) (omega arith)
              ∙ omega arith)
        ∙ bit_or_sum 1 (t.sound_format * 8 + t.sound_rate * 2 + t.sound_size) t.sound_type
            (omega arith)
        ∙ omega arith)

-- The fields that the first byte carries are read back, and the packet type is the receiver's.
audio_fields_lem :
    (old t : AudioTag)
    → IsAudio t
    → audio_fields old (audio_byte t) ≡ record t { aac_packet_type = old.aac_packet_type }
audio_fields_lem old t v =
    let b = audio_byte_lem t v in
    let f = v.format_small in
    let r = v.rate_small in
    let s = v.size_small in
    let k = v.kind_small in
    let e1 : audio_byte t / 2 ^ 4 ≡ t.sound_format = omega arith in
    let e2 : bit_and (audio_byte t / 2 ^ 2) 0x03 ≡ t.sound_rate =
      bit_and_low 2 (audio_byte t / 2 ^ 2) ∙ omega arith in
    let e3 : bit_and (audio_byte t / 2) 0x01 ≡ t.sound_size =
      bit_and_low 1 (audio_byte t / 2) ∙ omega arith in
    let e4 : bit_and (audio_byte t) 0x01 ≡ t.sound_type =
      bit_and_low 1 (audio_byte t) ∙ omega arith in
    λ i. record old { sound_format = e1 i; sound_rate = e2 i; sound_size = e3 i; sound_type = e4 i }

-- An audio tag header whose fields fit in their bits is read back; the packet type is read for
-- format 10 and stays the receiver's for every other format.
pub decode_audio-encode_audio :
    (old t : AudioTag)
    → IsAudio t
    → decode_audio old (encode_audio t) ≡ (
      ok tt,
      record t {
        aac_packet_type = if t.sound_format == 10 then t.aac_packet_type else old.aac_packet_type;
      },
    )
unfolding decode_audio encode_audio
decode_audio-encode_audio old t v =
    let h = audio_fields_lem old t v in
    let b = audio_byte_lem t v in
    let q : audio_byte t / 2 ^ 4 ≡ t.sound_format =
      omega (arith, v.format_small, v.rate_small, v.size_small, v.kind_small) in
    let test : (b : Bool) → (t.sound_format == 10) ≡ b → (audio_byte t / 2 ^ 4 == 10) ≡ b =
      λ b e. ap (λ (x : ℕ). x == 10) q ∙ e in
    elim (Bool-cases (t.sound_format == 10)) [
      | inl e ↦
          rw (e, test true e) (λ i. (ok tt, record (h i) { aac_packet_type = t.aac_packet_type }))
      | inr e ↦ rw (e, test false e) (λ i. (ok tt, h i))
    ]
