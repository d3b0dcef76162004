-- ===== src/Rtmp/Chunk/Format.antt =====
-- The header format that `writeData` chooses is one that the peer can complete from the stream's last
-- message.
use gomediautils.Prelude.{
  ℕ, ◌+◌, ◌%◌, ◌^◌, ◌≤◌, ◌<◌, ◌≡◌, [], arith, ◌==◌, leb, if◌then◌else◌, some, none, Option-cases,
  inl, inr,
}
use gomediautils.Prelude.Bytes.{IsByte, IsU32}
use gomediautils.Rtmp.Chunk.Header.{ChunkMsgHead, ChunkPacket, max_csid}
use gomediautils.Rtmp.Chunk.Header.Message.{Agrees}
use gomediautils.Rtmp.Chunk.Writer.{Writer, Format, choose_format, effective_size}
use gomediautils.Rtmp.Chunk.Reader.{Reader, ChunkStream, basic_head, stream_for}

-- The two ends of a chunk stream agree: `r` waits for a chunk, `s` is its stream for the writer's id,
-- and knows the last message that the writer sent.
pub record InSync (w : Writer) (r : Reader) (s : ChunkStream) : Type 0 where
  pub found : stream_for r w.csid ≡ some s
  pub no_hdr : s.hdr ≡ []
  pub no_message : s.message ≡ []
  pub no_read : s.chunk_read ≡ 0
  pub waiting : r.state ≡ basic_head
  pub no_cache : r.head_cache ≡ []
  pub same_size : r.chunk_size ≡ effective_size w.chunk_size
  pub csid_low : 2 ≤ w.csid
  pub csid_high : w.csid ≤ max_csid
  pub same_last :
      (last : ChunkPacket)
      → w.current ≡ some last
      → (s.timestamp ≡ w.timestamp)
        × (s.msg_hdr ≡ last.msg_hdr)
        × (s.has_ext_ts ≡ leb 0x00ffffff last.msg_hdr.timestamp)
        × (last.basic.csid ≡ w.csid)

-- A message that the format can carry.
pub record CanSend (len msg_type stream_id ts : ℕ) : Type 0 where
  pub some_bytes : 0 < len
  pub len_fits : len < 2 ^ 24
  pub type_fits : IsByte msg_type
  pub stream_fits : IsU32 stream_id
  pub ts_fits : IsU32 ts

module _ (w : Writer) (r : Reader) (s : ChunkStream) (c : InSync w r s)
    (len msg_type stream_id ts : ℕ) (can : CanSend len msg_type stream_id ts) where
  abbrev chosen : Format
  chosen = choose_format w len msg_type stream_id ts

  abbrev pub sent : ChunkMsgHead
  sent = record {
    timestamp = chosen.delta;
    msg_len = len;
    msg_type_id = msg_type;
    msg_stream_id = stream_id;
  }

  pub record Chosen : Type 0 where
    pub format_small : chosen.format < 4
    pub delta_fits : IsU32 chosen.delta
    pub agrees : Agrees chosen.format s.msg_hdr sent
    pub same_ext : 3 ≤ chosen.format → s.has_ext_ts ≡ leb 0x00ffffff chosen.delta
    pub new_time :
        (if chosen.format == 0 then chosen.delta else (s.timestamp + chosen.delta) % 2 ^ 32) ≡ ts

  first_message : w.current ≡ none → Chosen
  unfolding choose_format
  first_message e = ground (arith, can)

  later_message : (last : ChunkPacket) → w.current ≡ some last → Chosen
  unfolding choose_format
  later_message last e = ground (arith, can, c.same_last last e)

  pub choose_format-Chosen : Chosen
  choose_format-Chosen = elim (Option-cases w.current) [
    | inl e ↦ first_message e
    | inr (last, e) ↦ later_message last e
  ]
