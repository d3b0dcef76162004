-- ===== src/Rtmp/Chunk/Header.antt =====
-- `basicHead`, `chunkMsgHead` and `chunkPacket` of go-rtmp/chunk.go. An `encodeTo` returns the bytes
-- that it writes from the start of its buffer; their number is the count that Go's returns.
pub mod Basic
pub mod Message
use gomediautils.Prelude.{
  ℕ, zero, suc, ◌+◌, ◌-◌, ◌*◌, ◌/◌, ◌%◌, ◌^◌, ◌≤◌, ◌<◌, List, [], ◌∷◌, ◌++◌, Bool, true, false, ltb,
  leb, ◌==◌, if◌then◌else◌, length, drop, bit_and, bit_or, Outcome, ok, err, panic, ◌>>=◌, index,
  Option, none, some,
}
use gomediautils.Prelude.Bytes.{byte_at, u16_le, u24_be, u32_be, u32_le, read_u32_le}

pub data ChunkError : Type 0 where
  invalid_csid invalid_chunk_fmt too_many_chunk_streams buffered_too_much : ChunkError
  message_length_out_of_range : ChunkError
  callback : ℕ → ChunkError

abbrev pub max_rtmp_message_len : ℕ
max_rtmp_message_len = 0x00ffffff

abbrev pub max_csid : ℕ
max_csid = 65599

abbrev pub fix_chunk_size : ℕ
fix_chunk_size = 128

-- `ChunkType[format]`, the length of a message header.
unfoldable pub chunk_type : ℕ → Outcome ChunkError ℕ
chunk_type format = index (11 ∷ 7 ∷ 3 ∷ 0 ∷ []) format

pub record BasicHead : Type 0 where
  pub fmt : ℕ
  pub csid : ℕ

unfoldable pub basic_size : BasicHead → Outcome ChunkError ℕ
basic_size bh =
    if ltb bh.csid 64
    then ok 1
    else if ltb bh.csid 320
    then ok 2
    else if leb bh.csid max_csid
    then ok 3
    else err invalid_csid

unfoldable pub basic_encode_to : BasicHead → Outcome ChunkError (List ℕ)
basic_encode_to bh =
    let first = bh.fmt * 2 ^ 6 % 256 in
    if ltb bh.csid 64
    then ok (bit_or first (bh.csid % 256) ∷ [])
    else if ltb bh.csid 320
    then ok (first ∷ ((bh.csid - 64) % 256) ∷ [])
    else if leb bh.csid max_csid
    then ok (bit_or first 1 ∷ u16_le ((bh.csid - 64) % 2 ^ 16))
    else err invalid_csid

unfoldable pub basic_decode : List ℕ → Outcome ChunkError BasicHead
basic_decode bytes = do
  b ← index bytes 0
  let csid = bit_and b 0x3F
  if csid == 0
      then (index bytes 1 >>= λ x. ok (record { fmt = b / 2 ^ 6; csid = x + 64 }))
      else if csid == 1
      then (index bytes 2 >>= λ y.
          index bytes 1 >>= λ x. ok (record { fmt = b / 2 ^ 6; csid = y * 256 + x + 64 }))
      else ok (record { fmt = b / 2 ^ 6; csid = csid })

unfoldable pub clac_basic_head_len : List ℕ → Outcome ChunkError ℕ
clac_basic_head_len bytes = do
  b ← index bytes 0
  let csid = bit_and b 0x3F
  ok (if csid == 0 then 2 else if csid == 1 then 3 else 1)

pub record ChunkMsgHead : Type 0 where
  pub timestamp : ℕ
  pub msg_len : ℕ
  pub msg_type_id : ℕ
  pub msg_stream_id : ℕ

unfoldable pub has_extended_ts : ChunkMsgHead → Bool
has_extended_ts h = leb 0x00ffffff h.timestamp

-- The first three bytes of every header but that of format 3.
unfoldable pub timestamp_field : ChunkMsgHead → List ℕ
unfolding has_extended_ts
timestamp_field h = if has_extended_ts h then 0xff ∷ 0xff ∷ 0xff ∷ [] else u24_be h.timestamp

unfoldable pub msg_head_encode_to : ℕ → ChunkMsgHead → Outcome ChunkError (List ℕ)
unfolding timestamp_field
msg_head_encode_to format h =
    let length_field = u24_be h.msg_len ++ (h.msg_type_id ∷ []) in
    if format == 0
    then ok (timestamp_field h ++ (length_field ++ u32_le h.msg_stream_id))
    else if format == 1
    then ok (timestamp_field h ++ length_field)
    else if format == 2
    then ok (timestamp_field h)
    else if format == 3
    then ok []
    else err invalid_chunk_fmt

-- The three parts of `decode`, each with the fall through to the next.
unfoldable pub decode_timestamp : ChunkMsgHead → List ℕ → Outcome ChunkError ChunkMsgHead
decode_timestamp h bytes = do
  a ← index bytes 0
  b ← index bytes 1
  c ← index bytes 2
  ok (record h { timestamp = bit_or (bit_or (a * 2 ^ 16) (b * 2 ^ 8)) c })

unfoldable pub decode_length : ChunkMsgHead → List ℕ → Outcome ChunkError ChunkMsgHead
unfolding decode_timestamp
decode_length h bytes = do
  a ← index bytes 3
  b ← index bytes 4
  c ← index bytes 5
  t ← index bytes 6
  decode_timestamp
      (record h { msg_len = bit_or (bit_or (a * 2 ^ 16) (b * 2 ^ 8)) c; msg_type_id = t }) bytes

unfoldable pub msg_head_decode : ℕ → ChunkMsgHead → List ℕ → Outcome ChunkError ChunkMsgHead
unfolding decode_timestamp decode_length
msg_head_decode format h bytes =
    if format == 0
    then elim (read_u32_le (drop 7 bytes)) [
      | none ↦ panic
      | some s ↦ decode_length (record h { msg_stream_id = s }) bytes
    ]
    else if format == 1
    then decode_length h bytes
    else if format == 2
    then decode_timestamp h bytes
    else if format == 3
    then ok h
    else err invalid_chunk_fmt

pub record ChunkPacket : Type 0 where
  pub basic : BasicHead
  pub msg_hdr : ChunkMsgHead
  pub payload : List ℕ

unfoldable pub head_size : ChunkPacket → Outcome ChunkError ℕ
unfolding basic_size chunk_type
head_size chk =
    if ltb 3 chk.basic.fmt
    then err invalid_chunk_fmt
    else (basic_size chk.basic >>= λ b. chunk_type chk.basic.fmt >>= λ m.
        ok (b + m + (if has_extended_ts chk.msg_hdr then 4 else 0)))

unfoldable pub encode_head_to : ChunkPacket → Outcome ChunkError (List ℕ)
unfolding basic_encode_to msg_head_encode_to
encode_head_to chk = do
  b ← basic_encode_to chk.basic
  m ← msg_head_encode_to chk.basic.fmt chk.msg_hdr
  ok (b ++ (m ++ (if has_extended_ts chk.msg_hdr then u32_be chk.msg_hdr.timestamp else [])))

-- `encode`, whose buffer is sized by `head_size` beforehand.
unfoldable pub packet_encode : ChunkPacket → Outcome ChunkError (List ℕ)
unfolding head_size encode_head_to
packet_encode chk = do size ← head_size chk; head ← encode_head_to chk; ok (head ++ chk.payload)
