-- ===== src/Flv/Tag.antt =====
-- go-flv/flv-tag.go: the headers of tags, video tags and audio tags. A `Decode` takes its receiver and
-- returns it as it leaves it. A composition time is an int32.
pub mod RoundTrip
use gomediautils.Prelude.{
  ℕ, ◌+◌, ◌-◌, ◌*◌, ◌/◌, ◌%◌, ◌^◌, List, [], ◌∷◌, ◌++◌, Bool, ltb, leb, ◌==◌, ◌&&◌, ◌||◌,
  if◌then◌else◌, length, drop, take, bit_and, bit_or, Outcome, ok, err, panic, ◌>>=◌, index,
}
use gomediautils.Prelude.Bytes.{u24_be}
use gomediautils.Prelude.Int.{ℤ, pos, negsuc, signed32}

pub data FlvError : Type 0 where
  short_tag short_audio short_aac : FlvError

abbrev pub flvtag_size : ℕ
flvtag_size = 11

abbrev pub flv_avc : ℕ
flv_avc = 7

abbrev pub flv_hevc : ℕ
flv_hevc = 12

abbrev pub packet_type_coded_frames : ℕ
packet_type_coded_frames = 1

-- `GetUint24`
unfoldable pub get_uint24 : List ℕ → Outcome FlvError ℕ
get_uint24 b = do
  z ← index b 2
  x ← index b 0
  y ← index b 1
  ok (bit_or (bit_or (x * 2 ^ 8) y * 2 ^ 8) z)

-- `GetInt24`
unfoldable pub get_int24 : List ℕ → Outcome FlvError ℤ
unfolding get_uint24
get_int24 b = get_uint24 b >>= λ v.
    ok (signed32 (if bit_and (v / 2 ^ 23) 1 == 1 then bit_or v 0xFF000000 else v))

-- `uint32(v)` of an int32.
abbrev pub word32 : ℤ → ℕ
word32 (pos n) = n % 2 ^ 32
word32 (negsuc n) = 2 ^ 32 - 1 - n % 2 ^ 32

pub record FlvTag : Type 0 where
  pub tag_type : ℕ
  pub data_size : ℕ
  pub timestamp : ℕ
  pub timestamp_extended : ℕ
  pub stream_id : ℕ

unfoldable pub encode_tag : FlvTag → List ℕ
encode_tag t =
    t.tag_type
    ∷ (u24_be t.data_size ++ (u24_be t.timestamp ++ (t.timestamp_extended ∷ u24_be t.stream_id)))

unfoldable pub decode_tag : FlvTag → List ℕ → Outcome FlvError FlvTag
decode_tag t bytes = if ltb (length bytes) flvtag_size then err short_tag else (do
  a ← index bytes 0
  size ← get_uint24 (drop 1 bytes)
  ts ← get_uint24 (drop 4 bytes)
  ext ← index bytes 7
  stream ← get_uint24 (drop 8 bytes)
  ok (record {
    tag_type = bit_and a 0x1F;
    data_size = size;
    timestamp = ts;
    timestamp_extended = ext;
    stream_id = stream;
  }))

pub record VideoTag : Type 0 where
  pub frame_type : ℕ
  pub codec_id : ℕ
  pub avc_packet_type : ℕ
  pub composition_time : ℤ

unfoldable pub encode_video : VideoTag → List ℕ
encode_video t =
    let first = bit_or (t.frame_type * 2 ^ 4 % 256) (bit_and t.codec_id 0x0F) in
    if t.codec_id == flv_avc
    then first ∷ t.avc_packet_type ∷ u24_be (word32 t.composition_time)
    else (first ∷ [])

-- `EncodeEx`
unfoldable pub encode_video_ex : VideoTag → List ℕ → List ℕ
encode_video_ex t four_cc =
    let first =
      bit_or (bit_or 0x80 (bit_and t.frame_type 0x07 * 2 ^ 4)) (bit_and t.avc_packet_type 0x0F) in
    first
    ∷ (four_cc
        ++ (if t.avc_packet_type == packet_type_coded_frames
            then u24_be (word32 t.composition_time)
            else []))

-- The legacy header, of a tag whose first byte is `a`.
unfoldable pub decode_legacy : VideoTag → ℕ → List ℕ → Outcome FlvError VideoTag
unfolding get_int24
decode_legacy t a bytes =
    let t' = record t { frame_type = a / 2 ^ 4; codec_id = bit_and a 0x0F } in
    if (t'.codec_id == flv_avc) || (t'.codec_id == flv_hevc)
    then (if ltb (length bytes) 5 then ok t' else (do
      p ← index bytes 1
      time ← get_int24 (drop 2 bytes)
      ok (record t' { avc_packet_type = p; composition_time = time })))
    else ok t'

-- `data[1] == 'h' && data[2] == 'v' && data[3] == 'c' && data[4] == '1'`
unfoldable pub is_hevc : List ℕ → Outcome FlvError Bool
is_hevc bytes = do
  h ← index bytes 1
  v ← index bytes 2
  c ← index bytes 3
  one ← index bytes 4
  ok ((h == 104) && ((v == 118) && ((c == 99) && (one == 49))))

-- The enhanced header.
unfoldable pub decode_enhanced : VideoTag → ℕ → List ℕ → Outcome FlvError VideoTag
unfolding get_int24 is_hevc
decode_enhanced t a bytes =
    let t' = record t { frame_type = bit_and (a / 2 ^ 4) 0x07; avc_packet_type = bit_and a 0x0F } in
    if ltb (length bytes) 5
    then ok t
    else (is_hevc bytes >>= λ hevc.
        if hevc
        then (if (t'.avc_packet_type == packet_type_coded_frames) && leb 8 (length bytes)
            then (get_int24 (drop 5 bytes) >>= λ time.
                ok (record t' { codec_id = flv_hevc; composition_time = time }))
            else ok (record t' { codec_id = flv_hevc }))
        else ok t')

unfoldable pub decode_video : VideoTag → List ℕ → Outcome FlvError VideoTag
unfolding decode_legacy decode_enhanced
decode_video t [] = ok t
decode_video t (a ∷ rest) =
    if bit_and (a / 2 ^ 7) 1 == 0
    then decode_legacy t a (a ∷ rest)
    else decode_enhanced t a (a ∷ rest)

pub record AudioTag : Type 0 where
  pub sound_format : ℕ
  pub sound_rate : ℕ
  pub sound_size : ℕ
  pub sound_type : ℕ
  pub aac_packet_type : ℕ

unfoldable pub audio_byte : AudioTag → ℕ
audio_byte t =
    bit_or
      (bit_or (bit_or (t.sound_format * 2 ^ 4 % 256) (t.sound_rate * 2 ^ 2 % 256))
        (t.sound_size * 2 % 256))
      t.sound_type

unfoldable pub encode_audio : AudioTag → List ℕ
encode_audio t =
    if t.sound_format == 10 then audio_byte t ∷ t.aac_packet_type ∷ [] else (audio_byte t ∷ [])

-- The fields of the first byte.
abbrev pub audio_fields : AudioTag → ℕ → AudioTag
audio_fields t a = record t {
  sound_format = a / 2 ^ 4;
  sound_rate = bit_and (a / 2 ^ 2) 0x03;
  sound_size = bit_and (a / 2) 0x01;
  sound_type = bit_and a 0x01;
}

unfoldable pub decode_audio : AudioTag → List ℕ → Outcome FlvError (Unit {0}) × AudioTag
decode_audio t [] = (err short_audio, t)
decode_audio t (a ∷ []) = (if a / 2 ^ 4 == 10 then err short_aac else ok tt, audio_fields t a)
decode_audio t (a ∷ p ∷ rest) = (
  ok tt,
  if a / 2 ^ 4 == 10 then record (audio_fields t a) { aac_packet_type = p } else audio_fields t a,
)
