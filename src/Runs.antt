-- ===== src/Runs.antt =====
-- The properties at concrete inputs.
pub mod Streams
pub mod Walks
use gomediautils.Prelude.{
  if◌then◌else◌, ◌%◌, ℕ, ◌+◌, ◌*◌, ◌^◌, ◌≤◌, ◌≡◌, refl, arith, ◌-◌, List, [], ◌∷◌, ◌++◌, true,
  false, not, ◌==◌, length, replicate, inr, Option, none, some, ok,
}
use gomediautils.Prelude.Int.{pos, negsuc}
use gomediautils.Prelude.Bytes.{read_u16_be}
use gomediautils.Codec.BitWriter.{BitStreamWriter, new_bit_stream_writer, expand_space, put_uint64}
use gomediautils.Codec.BitWriter.Space
use gomediautils.Srt.Packet.{
  Packet, decode_loss_list, encode_loss_list, seq_diff, seq_add, seq_less, parse_packet, marshal,
}
use gomediautils.Srt.Packet.RoundTrip as Packets
use gomediautils.Srt.Packet.Sequence.{seq_diff-seq_add, seq_less-seq_add}
use gomediautils.Srt.Packet.Loss.{decode_loss_list-encode_loss_list}
use gomediautils.Mkv.Ebml.{read_vint, append_size, size_len, read_uint, uint_payload}
use gomediautils.Mkv.Ebml.Sizes.{read_vint-append_size}
use gomediautils.Mkv.Ebml.Payload.{read_vint-size_len, read_uint-uint_payload}
use gomediautils.Es.Order.{OrderKey, order_stream, new_orderer}
use gomediautils.Es.Order.Numbering.{Ordered, frames, inputs, order_stream-Ordered}
use gomediautils.Rtp.Packet.{
  RtpHdr, RtpPacket, decode_header, encode_header, decode_packet, encode_packet,
}
use gomediautils.Rtp.Packet.RoundTrip as Rtp
use gomediautils.Rtp.Packet.Whole
use gomediautils.Flv.Tag.{FlvTag, AudioTag, encode_tag, decode_tag, encode_audio, decode_audio}
use gomediautils.Flv.Tag.RoundTrip as Tags
use gomediautils.Rtmp.UserCtrl.{make_user_control_message, decode_user_control_msg}
use gomediautils.Rtmp.UserCtrl.RoundTrip.{decode_user_control_msg-make_user_control_message}
use gomediautils.Rtcp.Context.{RtcpContext, update_seq}
use gomediautils.Rtcp.Context.Sequence.{extended, update_seq-extended}
use gomediautils.Rtmp.Chunk.Writer.{new_writer, write_data}
use gomediautils.Rtmp.Chunk.Reader.{
  lookup, new_reader, new_chunk_stream, read_rtmp_message, RtmpMessage,
}
use gomediautils.Rtmp.Chunk.Header.Basic
use gomediautils.Rtmp.Chunk.Header.{BasicHead, ChunkError}
use gomediautils.Rtmp.Chunk.Format.{InSync}
use gomediautils.Rtmp.Chunk.RoundTrip.{write_data-read, ReadsBack, message}
use gomediautils.Codec.BitReader.{
  BitStream, failed, new_bit_stream, get_bits, get_bit, skip_bits, next_bits, remain_bits,
}
use gomediautils.Codec.BitReader.State.{Reads, IsValid}
use gomediautils.Codec.BitReader.Read.{get_bits-Reads}
use gomediautils.Codec.BitReader.Methods.{
  get_bits_total, get_bit-eq-get_bits, skip_bits-get_bits, next_bits-get_bits,
}

abbrev two_bytes : BitStream
two_bytes = new_bit_stream (0xA5 ∷ 0x3C ∷ [])

two_bytes-IsValid : IsValid two_bytes
unfolding new_bit_stream
two_bytes-IsValid = record {
  aligned = omega arith;
  inside = omega arith;
  bytes = (omega arith, (omega arith, tt));
}

two_bytes-remain : 12 ≤ remain_bits two_bytes
unfolding new_bit_stream remain_bits
two_bytes-remain = omega arith

two_bytes-err : two_bytes.err ≡ none
unfolding new_bit_stream
two_bytes-err = refl

get_bits-Reads_example :
    (r : ℕ × BitStream) × (get_bits two_bytes (pos 12) ≡ some r) × Reads 12 two_bytes r.0 r.1
get_bits-Reads_example =
    get_bits-Reads two_bytes 12 two_bytes-IsValid two_bytes-err (omega arith) two_bytes-remain

get_bits_total_example : (r : ℕ × BitStream) × (get_bits two_bytes (pos 70) ≡ some r) × IsValid r.1
get_bits_total_example = get_bits_total two_bytes (pos 70) two_bytes-IsValid

get_bit-eq-get_bits_example : get_bit two_bytes ≡ get_bits two_bytes (pos 1)
get_bit-eq-get_bits_example = get_bit-eq-get_bits two_bytes two_bytes-IsValid

abbrev two_bytes_left : BitStream
two_bytes_left = record two_bytes { bytes_offset = 1; bits_offset = 4 }

two_bytes-read : get_bits two_bytes (pos 12) ≡ some (0xA53, two_bytes_left)
unfolding get_bits new_bit_stream failed
two_bytes-read = refl

skip_bits-get_bits_example : skip_bits two_bytes (pos 12) ≡ two_bytes_left
skip_bits-get_bits_example =
    skip_bits-get_bits two_bytes 12 two_bytes-IsValid two_bytes-err (omega arith) two_bytes-remain
      0xA53 two_bytes_left two_bytes-read

next_bits-get_bits_example : next_bits two_bytes (pos 12) ≡ some (0xA53, two_bytes)
next_bits-get_bits_example =
    next_bits-get_bits two_bytes 12 two_bytes-IsValid two_bytes-err (omega arith) two_bytes-remain
      0xA53 two_bytes_left two_bytes-read

abbrev two_written : BitStreamWriter
two_written = new_bit_stream_writer 2

two_written-IsValid : Space.IsValid two_written
unfolding new_bit_stream_writer Space.position
two_written-IsValid = record { within = omega arith; inside = omega arith }

two_written-err : two_written.err ≡ none
unfolding new_bit_stream_writer
two_written-err = refl

expand_space-room_example :
    40 + Space.position two_written ≤ length (expand_space two_written 40).bits * 8
expand_space-room_example = Space.expand_space-room two_written 40 two_written-IsValid

put_uint64-Moves_example : Space.Moves two_written 13 (put_uint64 two_written 0x1234 13)
put_uint64-Moves_example =
    Space.put_uint64-Moves two_written 0x1234 13 two_written-IsValid two_written-err (omega arith)
      (omega arith)

decode_loss_list-encode_loss_list_example :
    decode_loss_list (encode_loss_list (5 ∷ 6 ∷ 7 ∷ 0x7FFFFFFF ∷ 0 ∷ []))
    ≡ 5 ∷ 6 ∷ 7 ∷ 0x7FFFFFFF ∷ 0 ∷ []
decode_loss_list-encode_loss_list_example =
    decode_loss_list-encode_loss_list (5 ∷ 6 ∷ 7 ∷ 0x7FFFFFFF ∷ 0 ∷ [])
      (omega arith, (omega arith, (omega arith, (omega arith, (omega arith, tt))))) (omega arith)

-- Ten back, across the wrap.
seq_diff-seq_add_example : seq_diff 5 (seq_add 5 (negsuc 9)) ≡ negsuc 9
seq_diff-seq_add_example = seq_diff-seq_add 5 (negsuc 9) (omega arith) (omega arith)

seq_less-seq_add_example :
    seq_less (seq_add 0x7FFFFFF0 (pos 3)) (seq_add 0x7FFFFFF0 (pos 40)) ≡ true
seq_less-seq_add_example =
    seq_less-seq_add 0x7FFFFFF0 3 40 (omega arith) (omega arith) (omega arith)

abbrev data_sample : Packet
data_sample = record {
  control = false;
  seq = 0x7FFFFFF0;
  position = 3;
  in_order = true;
  key_flags = 2;
  retransmit = true;
  msg_no = 77;
  ctrl_type = 0;
  subtype = 0;
  type_info = 0;
  timestamp = 1000;
  dst_socket = 42;
  payload = 1 ∷ 2 ∷ [];
}

data_sample-IsValid : Packets.IsValid data_sample
data_sample-IsValid = record {
  seq_small = omega arith;
  position_small = omega arith;
  key_small = omega arith;
  msg_small = omega arith;
  type_small = omega arith;
  subtype_u16 = omega arith;
  info_u32 = omega arith;
  timestamp_u32 = omega arith;
  socket_u32 = omega arith;
}

parse_packet-marshal_example : parse_packet (marshal data_sample) ≡ ok (Packets.as_sent data_sample)
parse_packet-marshal_example = Packets.parse_packet-marshal data_sample data_sample-IsValid

read_vint-append_size_example :
    read_vint (append_size [] 300 2 ++ (9 ∷ []))
    ≡ ok (record { value = 300; taken = 2; unknown = 300 == (2 ^ (7 * 2) - 1) })
read_vint-append_size_example = read_vint-append_size 1 300 (9 ∷ []) (omega arith) (omega arith)

read_vint-size_len_example :
    read_vint (append_size [] 16383 (size_len 16383) ++ (9 ∷ []))
    ≡ ok (record { value = 16383; taken = size_len 16383; unknown = false })
read_vint-size_len_example = read_vint-size_len 16383 (9 ∷ []) (omega arith)

read_uint-uint_payload_example : read_uint (uint_payload 70000) ≡ ok 70000
read_uint-uint_payload_example = read_uint-uint_payload 70000 (omega arith)

abbrev key_at : ℕ → OrderKey
key_at n = record { period = pos 0; poc = pos n }

abbrev three_frames : List (ℕ × OrderKey)
three_frames = (10, key_at 0) ∷ (11, key_at 4) ∷ (12, key_at 2) ∷ []

order_stream-Ordered_example :
    Ordered
      (new_orderer {F = ℕ}).emitted
      (frames {F = ℕ} [] ++ inputs three_frames)
      (order_stream three_frames new_orderer)
order_stream-Ordered_example = order_stream-Ordered three_frames new_orderer

abbrev header_sample : RtpHdr
header_sample = record {
  version = 0;
  padding_flag = 0;
  extension_flag = 0;
  cc = 0;
  marker = 1;
  payload_type = 96;
  sequence_number = 65535;
  timestamp = 90000;
  ssrc = 7;
  csrc = 1 ∷ 2 ∷ [];
}

header_sample-IsValid : Rtp.IsValid header_sample
header_sample-IsValid = record {
  padding_small = omega arith;
  extension_small = omega arith;
  marker_small = omega arith;
  type_small = omega arith;
  sequence_u16 = omega arith;
  timestamp_u32 = omega arith;
  ssrc_u32 = omega arith;
  few_csrc = omega arith;
  csrc_u32 = (omega arith, (omega arith, tt));
}

decode_header-encode_header_example :
    decode_header header_sample (encode_header header_sample ++ (5 ∷ []))
    ≡ (ok 20, Rtp.seen header_sample)
decode_header-encode_header_example =
    Rtp.decode_header-encode_header header_sample header_sample (5 ∷ []) header_sample-IsValid

abbrev packet_sample : RtpPacket
packet_sample = record {
  header = header_sample;
  extensions = 0xBE ∷ 0xDE ∷ 0 ∷ 1 ∷ 9 ∷ 9 ∷ 9 ∷ 9 ∷ [];
  payload = 1 ∷ 2 ∷ 3 ∷ [];
  padding = 0 ∷ 2 ∷ [];
}

packet_sample-IsWhole : Whole.IsWhole packet_sample
unfolding read_u16_be
packet_sample-IsWhole = record {
  head = header_sample-IsValid;
  extension =
      inr (record { words = 1; words_small = omega arith; counts = refl; field = λ rest. refl });
  padded = inr (record { front = 0 ∷ []; ends = refl });
}

decode_packet-encode_packet_example :
    decode_packet (Whole.fresh header_sample) (encode_packet packet_sample).0
    ≡ (ok tt, Whole.received packet_sample)
decode_packet-encode_packet_example =
    Whole.decode_packet-encode_packet packet_sample header_sample packet_sample-IsWhole

first-InSync : InSync (new_writer 3) (new_reader 128) new_chunk_stream
unfolding new_writer new_reader lookup
first-InSync = record {
  found = refl;
  no_hdr = refl;
  no_message = refl;
  no_read = refl;
  waiting = refl;
  no_cache = refl;
  same_size = refl;
  csid_low = omega arith;
  csid_high = omega arith;
  same_last = λ last h. absurd cc;
}

no_refusal : RtmpMessage → Option ChunkError
no_refusal _ = none

write_data-read_example :
    (out : List ℕ) × ((write_data (new_writer 3) (replicate 300 7) 9 1 40).0 ≡ ok out)
    × ReadsBack
        (write_data (new_writer 3) (replicate 300 7) 9 1 40).1
        (message (replicate 300 7) 9 1 40)
        (read_rtmp_message no_refusal (new_reader 128) out)
unfolding new_reader no_refusal
write_data-read_example =
    write_data-read (new_writer 3) (new_reader 128) new_chunk_stream (replicate 300 7) 9 1 40
      no_refusal first-InSync
      (record {
        some_bytes = omega arith;
        len_fits = omega arith;
        type_fits = omega arith;
        stream_fits = omega arith;
        ts_fits = omega arith;
      })
      refl (inr (omega arith)) (omega arith)

abbrev long_form : BasicHead
long_form = record { fmt = 1; csid = 400 }

long_form-IsValid : Basic.IsValid long_form
long_form-IsValid = record {
  fmt_small = omega arith;
  csid_low = omega arith;
  csid_high = omega arith;
}

basic_encode_to-Encodes_example : (bytes : List ℕ) × Basic.Encodes long_form bytes
basic_encode_to-Encodes_example = Basic.basic_encode_to-Encodes long_form long_form-IsValid

abbrev tag_sample : FlvTag
tag_sample = record {
  tag_type = 9;
  data_size = 70000;
  timestamp = 0xFFFFFF;
  timestamp_extended = 1;
  stream_id = 0;
}

tag_sample-IsValid : Tags.IsValid tag_sample
tag_sample-IsValid = record {
  type_small = omega arith;
  size_fits = omega arith;
  timestamp_fits = omega arith;
  stream_fits = omega arith;
}

decode_tag-encode_tag_example :
    decode_tag tag_sample (encode_tag tag_sample ++ (1 ∷ [])) ≡ ok tag_sample
decode_tag-encode_tag_example =
    Tags.decode_tag-encode_tag tag_sample tag_sample (1 ∷ []) tag_sample-IsValid

abbrev audio_sample : AudioTag
audio_sample = record {
  sound_format = 10;
  sound_rate = 3;
  sound_size = 1;
  sound_type = 1;
  aac_packet_type = 1;
}

audio_sample-IsAudio : Tags.IsAudio audio_sample
audio_sample-IsAudio = record {
  format_small = omega arith;
  rate_small = omega arith;
  size_small = omega arith;
  kind_small = omega arith;
}

decode_audio-encode_audio_example : decode_audio audio_sample (encode_audio audio_sample) ≡ (
  ok tt,
  record audio_sample { aac_packet_type = if audio_sample.sound_format == 10 then 1 else 1 },
)
decode_audio-encode_audio_example =
    Tags.decode_audio-encode_audio audio_sample audio_sample audio_sample-IsAudio

decode_user_control_msg-make_user_control_message_example :
    decode_user_control_msg (make_user_control_message 6 1234)
    ≡ ok (record { code = 6; values = 1234 ∷ [] })
decode_user_control_msg-make_user_control_message_example =
    decode_user_control_msg-make_user_control_message 6 1234 (omega arith) (omega arith)
      (omega arith)

abbrev context_sample : RtcpContext
context_sample = record {
  max_seq = 65530;
  cycles = 0;
  base_seq = 65000;
  bad_seq = 65537;
  probation = 0;
  received = 500;
  expect_prior = 0;
  received_prior = 0;
}

update_seq-extended_example :
    ((update_seq context_sample ((65530 + 10) % 2 ^ 16)).0 ≡ 1)
    × ((extended (update_seq context_sample ((65530 + 10) % 2 ^ 16)).1
          ≡ extended context_sample + 10)
        × ((update_seq context_sample ((65530 + 10) % 2 ^ 16)).1.received
            ≡ (context_sample.received + 1) % 2 ^ 32))
update_seq-extended_example =
    update_seq-extended context_sample 10 refl (omega arith) (omega arith) (omega arith)
