-- ===== src/Rtmp/Chunk/Reader.antt =====
-- `chunkStreamReader` of go-rtmp/chunk.go. The map of chunk streams is an association list, and
-- `reader.current`, a pointer into it, is the key of its stream; `spare` is the stream that the
-- pointer names before the first chunk.
pub mod Rounds
pub mod Advance
pub mod Head
use gomediautils.Prelude.{
  ℕ, zero, suc, ◌+◌, ◌-◌, ◌*◌, ◌/◌, ◌%◌, ◌^◌, ◌≤◌, ◌<◌, List, [], ◌∷◌, ◌++◌, Bool, true, false, ltb,
  leb, ◌==◌, ◌&&◌, ◌||◌, if◌then◌else◌, length, take, drop, Outcome, ok, err, panic, ◌>>=◌, Option,
  none, some, min,
}
use gomediautils.Prelude.Bytes.{read_u32_be}
use gomediautils.Rtmp.Chunk.Header.{
  BasicHead, ChunkMsgHead, ChunkPacket, ChunkError, basic_decode, clac_basic_head_len,
  msg_head_decode, chunk_type, too_many_chunk_streams, buffered_too_much,
  message_length_out_of_range, max_rtmp_message_len,
}

pub data ParserState : Type 0 where
  basic_head msg_head extend_ts payload : ParserState

pub record ChunkStream : Type 0 where
  pub first_chunk_fmt : ℕ
  pub timestamp : ℕ
  pub basic : BasicHead
  pub msg_hdr : ChunkMsgHead
  pub hdr : List ℕ
  pub message : List ℕ
  pub has_ext_ts : Bool
  pub chunk_read : ℕ

abbrev pub new_chunk_stream : ChunkStream
new_chunk_stream = record {
  first_chunk_fmt = 0;
  timestamp = 0;
  basic = record { fmt = 0; csid = 0 };
  msg_hdr = record { timestamp = 0; msg_len = 0; msg_type_id = 0; msg_stream_id = 0 };
  hdr = [];
  message = [];
  has_ext_ts = false;
  chunk_read = 0;
}

unfoldable pub lookup : ℕ → List (ℕ × ChunkStream) → Option ChunkStream
lookup k [] = none
lookup k ((j, s) ∷ m) = if j == k then some s else lookup k m

unfoldable pub insert : ℕ → ChunkStream → List (ℕ × ChunkStream) → List (ℕ × ChunkStream)
insert k s [] = (k, s) ∷ []
insert k s ((j, t) ∷ m) = if j == k then (k, s) ∷ m else (j, t) ∷ insert k s m

pub record Reader : Type 0 where
  pub current : Option ℕ
  pub spare : ChunkStream
  pub cks : List (ℕ × ChunkStream)
  pub chunk_size : ℕ
  pub state : ParserState
  pub head_cache : List ℕ
  pub recv_bytes : ℕ
  pub max_chunk_streams : ℕ
  pub max_buffered_msg_len : ℕ
  pub buffered : ℕ

unfoldable pub new_reader : ℕ → Reader
new_reader size = record {
  current = none;
  spare = new_chunk_stream;
  cks = [];
  chunk_size = size;
  state = basic_head;
  head_cache = [];
  recv_bytes = 0;
  max_chunk_streams = 64;
  max_buffered_msg_len = 32 * 2 ^ 20;
  buffered = 0;
}

pub record RtmpMessage : Type 0 where
  pub timestamp : ℕ
  pub msg : List ℕ
  pub msgtype : ℕ
  pub streamid : ℕ

-- `*reader.current`, and an assignment to its fields.
unfoldable pub current_stream : Reader → ChunkStream
current_stream r = elim r.current [
  | none ↦ r.spare
  | some k ↦ elim (lookup k r.cks) [ none ↦ r.spare | some s ↦ s ]
]

unfoldable pub put_current : Reader → ChunkStream → Reader
put_current r s = elim r.current [
  | none ↦ record r { spare = s }
  | some k ↦ record r { cks = insert k s r.cks }
]

-- How a round of the parser's loop ends: it goes on with the rest of the input, after a message in the
-- second case; the input is used up; or an error is returned. `crash` is a run-time panic.
pub data Round : Type 0 where
  next : Reader → List ℕ → Round
  emit : Reader → List ℕ → RtmpMessage → Round
  wait : Reader → Round
  fail : Reader → ChunkError → Round
  crash : Round

-- Collecting `want` bytes: more are needed, or they are complete with the rest of the input.
pub data Collected : Type 0 where
  more : List ℕ → Collected
  full : List ℕ → List ℕ → Collected
  overrun : Collected

unfoldable pub collect : ℕ → List ℕ → List ℕ → Collected
collect want cache input =
    if ltb (length cache + length input) want
    then more (cache ++ input)
    else if ltb want (length cache)
    then overrun
    else full (cache ++ take (want - length cache) input) (drop (want - length cache) input)

-- The stream that a basic header names, made if it is new.
abbrev pub stream_for : Reader → ℕ → Option ChunkStream
stream_for r csid = elim (lookup csid r.cks) [
  | some s ↦ some s
  | none ↦
      if ltb 0 r.max_chunk_streams && leb r.max_chunk_streams (length r.cks)
      then none
      else some new_chunk_stream
]

abbrev pub after_basic : BasicHead → ChunkStream → ParserState
after_basic basic s =
    if basic.fmt == 3 then (if s.has_ext_ts then extend_ts else payload) else msg_head

abbrev pub start_stream : BasicHead → ChunkStream → ChunkStream
start_stream basic s = record s {
  basic = basic;
  first_chunk_fmt = if length s.message == 0 then basic.fmt else s.first_chunk_fmt;
}

-- case S_BASIC_HEAD, once the header is complete
unfoldable pub enter_chunk : Reader → List ℕ → List ℕ → Round
enter_chunk r cache rest = elim (basic_decode cache) [
  | panic ↦ crash
  | err e ↦ fail (record r { head_cache = cache }) e
  | ok basic ↦ elim (stream_for r basic.csid) [
    | none ↦ fail (record r { head_cache = cache }) too_many_chunk_streams
    | some s ↦
        next
          (record r {
            current = some basic.csid;
            cks = insert basic.csid (start_stream basic s) r.cks;
            head_cache = [];
            state = after_basic basic s;
          })
          rest
  ]
]

unfoldable pub read_basic_head : Reader → List ℕ → Round
read_basic_head r input =
    let first = if ltb 0 (length r.head_cache) then r.head_cache else input in
    elim (clac_basic_head_len first) [
      | panic ↦ crash
      | err e ↦ fail r e
      | ok want ↦ elim (collect want r.head_cache input) [
        | more cache ↦ wait (record r { head_cache = cache })
        | overrun ↦ crash
        | full cache rest ↦ enter_chunk r cache rest
      ]
    ]

-- case S_MSG_HEAD, once the header is complete
unfoldable pub enter_message : Reader → ChunkStream → List ℕ → List ℕ → Round
enter_message r s hdr rest = elim (msg_head_decode s.basic.fmt s.msg_hdr hdr) [
  | panic ↦ crash
  | err e ↦ fail (put_current r (record s { hdr = hdr })) e
  | ok h ↦
      let ext = h.timestamp == 0x00ffffff in
      next
        (put_current (record r { state = if ext then extend_ts else payload })
          (record s { msg_hdr = h; has_ext_ts = ext; hdr = [] }))
        rest
]

-- The rest of the rounds takes `s`, which is `*reader.current`.
unfoldable pub read_msg_head : Reader → ChunkStream → List ℕ → Round
read_msg_head r s input = elim (chunk_type s.basic.fmt) [
  | panic ↦ crash
  | err e ↦ fail r e
  | ok want ↦ elim (collect want s.hdr input) [
    | more cache ↦ wait (put_current r (record s { hdr = cache }))
    | overrun ↦ crash
    | full cache rest ↦ enter_message r s cache rest
  ]
]

-- case S_EXTEND_TS
unfoldable pub read_extend_ts : Reader → ChunkStream → List ℕ → Round
read_extend_ts r s input = elim (collect 4 s.hdr input) [
  | more cache ↦ wait (put_current r (record s { hdr = cache }))
  | overrun ↦ crash
  | full cache rest ↦ elim (read_u32_be cache) [
    | none ↦ crash
    | some ts ↦
        next
          (put_current (record r { state = payload })
            (record s { msg_hdr = record s.msg_hdr { timestamp = ts }; hdr = [] }))
          rest
  ]
]

-- The message that is complete, and the stream behind it.
abbrev pub message_time : ChunkStream → ℕ
message_time s =
    if s.first_chunk_fmt == 0
    then s.msg_hdr.timestamp
    else (s.timestamp + s.msg_hdr.timestamp) % 2 ^ 32

abbrev pub the_message : ChunkStream → RtmpMessage
the_message s = record {
  timestamp = message_time s;
  msg = take s.msg_hdr.msg_len s.message;
  msgtype = s.msg_hdr.msg_type_id;
  streamid = s.msg_hdr.msg_stream_id;
}

-- case S_PAYLOAD, when the chunk is complete; `s` holds its bytes.
unfoldable pub end_chunk : Reader → ChunkStream → List ℕ → Round
end_chunk r s rest =
    let r' = record r { state = basic_head } in
    if leb s.msg_hdr.msg_len (length s.message)
    then emit
        (put_current (record r' { buffered = r.buffered - length s.message })
          (record s { timestamp = message_time s; message = [] }))
        rest (the_message s)
    else next (put_current r' s) rest

-- `needLen`: what the current chunk holds in all.
abbrev pub need_len : ℕ → ChunkStream → ℕ
need_len chunk_size s = min (s.msg_hdr.msg_len + s.chunk_read - length s.message) chunk_size

unfoldable pub read_payload : Reader → ChunkStream → List ℕ → Round
read_payload r s input =
    let need = need_len r.chunk_size s in
    let remain = need - s.chunk_read in
    if ltb max_rtmp_message_len s.msg_hdr.msg_len || ltb s.msg_hdr.msg_len (length s.message)
    then fail r message_length_out_of_range
    else if ltb 0 r.max_buffered_msg_len
        && ltb (r.max_buffered_msg_len + s.chunk_read) (r.buffered + need)
    then fail r buffered_too_much
    else if ltb need s.chunk_read
    then crash
    else if ltb (length input) remain
    then wait (
        put_current (record r { buffered = r.buffered + length input })
          (record s { message = s.message ++ input; chunk_read = s.chunk_read + length input }))
    else end_chunk (record r { buffered = r.buffered + remain })
        (record s { message = s.message ++ take remain input; chunk_read = 0 }) (drop remain input)

unfoldable pub read_round : Reader → List ℕ → Round
read_round r input = elim r.state [
  | basic_head ↦ read_basic_head r input
  | msg_head ↦ read_msg_head r (current_stream r) input
  | extend_ts ↦ read_extend_ts r (current_stream r) input
  | payload ↦ read_payload r (current_stream r) input
]

-- `len(data) > 0 || (state == S_PAYLOAD && msgLen == 0)`
unfoldable pub goes_on : Reader → List ℕ → Bool
goes_on r (x ∷ xs) = true
goes_on r [] = elim r.state [ payload ↦ (current_stream r).msg_hdr.msg_len == 0 | _ ↦ false ]

-- What `readRtmpMessage` did: the messages handed to the callback, the reader, and how it returned.
pub data Exit : Type 0 where
  done : Exit
  failed : ChunkError → Exit
  crashed out_of_fuel : Exit

pub record Reading : Type 0 where
  pub messages : List RtmpMessage
  pub reader : Reader
  pub exit : Exit

-- The callback is a function that answers with an error or none.
unfoldable pub read_loop : ℕ → (RtmpMessage → Option ChunkError) → Reader → List ℕ → Reading
read_loop zero on_msg r input = record { messages = []; reader = r; exit = out_of_fuel }
read_loop (suc fuel) on_msg r input = elim (goes_on r input) [
  | false ↦ record { messages = []; reader = r; exit = done }
  | true ↦ elim (read_round r input) [
    | next r' rest ↦ read_loop fuel on_msg r' rest
    | wait r' ↦ record { messages = []; reader = r'; exit = done }
    | fail r' e ↦ record { messages = []; reader = r'; exit = failed e }
    | crash ↦ record { messages = []; reader = r; exit = crashed }
    | emit r' rest m ↦ elim (on_msg m) [
      | some e ↦ record { messages = m ∷ []; reader = r'; exit = failed e }
      | none ↦
          let more = read_loop fuel on_msg r' rest in
          record { messages = m ∷ more.messages; reader = more.reader; exit = more.exit }
    ]
  ]
]

-- A byte of input keeps the loop busy for four rounds at most.
unfoldable pub read_rtmp_message : (RtmpMessage → Option ChunkError) → Reader → List ℕ → Reading
read_rtmp_message on_msg r input =
    read_loop (4 * length input + 8) on_msg
      (record r { recv_bytes = (r.recv_bytes + length input) % 2 ^ 64 }) input
