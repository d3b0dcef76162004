-- ===== src/Rtmp/Chunk/Reader/Rounds.antt =====
-- One round of the parser's loop for each part of a chunk that is all there.
use gomediautils.Prelude.{
  ℕ, ◌+◌, ◌-◌, ◌≤◌, ◌≡◌, ap, List, [], ◌∷◌, ◌++◌, arith, length, length-append, take_append,
  drop_append, le→ltb, if◌then◌else◌, ltb, ◌==◌, ◌&&◌, false, some, append-nil, min, ◌⊎◌,
}
use gomediautils.Prelude.Bytes.{u32_be, read_u32_be, read_u32_be-u32_be, IsU32}
use gomediautils.Rtmp.Chunk.Header.{BasicHead, ChunkMsgHead, max_rtmp_message_len}
use gomediautils.Rtmp.Chunk.Header.Basic
use gomediautils.Rtmp.Chunk.Header.Message
use gomediautils.Rtmp.Chunk.Header.Message.{received}
use gomediautils.Rtmp.Chunk.Reader.{
  Reader, ChunkStream, ParserState, basic_head, msg_head, extend_ts, payload, lookup, insert,
  current_stream, put_current, collect, full, stream_for, after_basic, start_stream, next,
  read_basic_head, enter_chunk, read_msg_head, enter_message, read_extend_ts, read_payload,
  end_chunk,
}

collect_full : (xs ys : List ℕ) → collect (length xs) [] (xs ++ ys) ≡ full xs ys
unfolding collect
collect_full xs ys = rw (
  le→ltb (0 + length (xs ++ ys)) (length xs) (omega (arith, length-append xs ys)),
  le→ltb (length xs) 0 (omega arith),
  take_append xs ys (length xs - 0) (omega arith),
  drop_append xs ys (length xs - 0) (omega arith),
)

-- The limit on buffered bytes is off, or not passed.
buffer_room :
    (limit held n : ℕ)
    → (limit ≡ 0) ⊎ (held + n ≤ limit)
    → (ltb 0 limit && ltb (limit + 0) (held + n)) ≡ false
buffer_room limit held n h = ground arith

collect_u32 : (v : ℕ) (ys : List ℕ) → collect 4 [] (u32_be v ++ ys) ≡ full (u32_be v) ys
unfolding u32_be
collect_u32 v ys = collect_full (u32_be v) ys

read_u32_be_lem : (v : ℕ) → IsU32 v → read_u32_be (u32_be v) ≡ some v
read_u32_be_lem v h = rw append-nil at (read_u32_be-u32_be v [] h)

pub lookup-insert :
    (k : ℕ) (s : ChunkStream) (m : List (ℕ × ChunkStream)) → lookup k (insert k s m) ≡ some s
unfolding lookup insert
lookup-insert k s [] = ground arith
lookup-insert k s ((j, t) ∷ m) = ground (arith, lookup-insert k s m)

pub insert-insert :
    (k : ℕ) (s t : ChunkStream) (m : List (ℕ × ChunkStream))
    → insert k t (insert k s m) ≡ insert k t m
unfolding insert
insert-insert k s t [] = ground arith
insert-insert k s t ((j, u) ∷ m) = ground (arith, insert-insert k s t m)

-- A reader between two chunks, and one inside a chunk of the stream `k`, which holds `s`.
abbrev pub idle : Reader → Reader
idle r = record r { state = basic_head; head_cache = [] }

abbrev pub inside : Reader → ℕ → ChunkStream → ParserState → Reader
inside r k s st = record r { current = some k; cks = insert k s r.cks; state = st; head_cache = [] }

module _ (r : Reader) (k : ℕ) (s : ChunkStream) where
  pub current_stream-inside : (st : ParserState) → current_stream (inside r k s st) ≡ s
  unfolding current_stream
  current_stream-inside st = ground (arith, lookup-insert k s r.cks)

  pub put_current-inside :
      (st st' : ParserState) (t : ChunkStream) (n : ℕ)
      → put_current (record (inside r k s st) { state = st'; buffered = n }) t
        ≡ inside (record r { buffered = n }) k t st'
  unfolding put_current
  put_current-inside st st' t n = rw (insert-insert k s t r.cks)

module _ (r : Reader) (k : ℕ) (s : ChunkStream) where
  pub read_extend_ts-inside :
      (ts : ℕ) (rest : List ℕ)
      → IsU32 ts
      → read_extend_ts (inside r k s extend_ts) (record s { hdr = [] }) (u32_be ts ++ rest)
        ≡ next
            (inside r k
              (record s { msg_hdr = record s.msg_hdr { timestamp = ts }; hdr = [] })
              payload)
            rest
  unfolding read_extend_ts
  read_extend_ts-inside ts rest h = ground (
    arith,
    collect_u32 ts rest,
    read_u32_be_lem ts h,
    put_current-inside r k s extend_ts payload
        (record s { msg_hdr = record s.msg_hdr { timestamp = ts }; hdr = [] }) r.buffered,
  )

  pub read_msg_head-inside :
      (h : ChunkMsgHead) (bytes rest : List ℕ)
      → Message.Encodes s.basic.fmt s.msg_hdr h bytes
      → read_msg_head (inside r k s msg_head) (record s { hdr = [] }) (bytes ++ rest) ≡ (
          let g = received s.basic.fmt h in
          let ext = g.timestamp == 0x00ffffff in
          next
            (inside r k
              (record s { msg_hdr = g; has_ext_ts = ext; hdr = [] })
              (if ext then extend_ts else payload))
            rest)
  unfolding read_msg_head enter_message
  read_msg_head-inside h bytes rest e =
      let g = received s.basic.fmt h in
      let ext = g.timestamp == 0x00ffffff in
      ground (
        arith,
        e.sized,
        collect_full bytes rest,
        e.read,
        put_current-inside r k s msg_head (if ext then extend_ts else payload)
            (record s { msg_hdr = g; has_ext_ts = ext; hdr = [] }) r.buffered,
      )

  pub read_payload-inside :
      (part rest : List ℕ)
      → s.msg_hdr.msg_len ≤ max_rtmp_message_len
      → length s.message ≤ s.msg_hdr.msg_len
      → (r.max_buffered_msg_len ≡ 0) ⊎ (r.buffered + length part ≤ r.max_buffered_msg_len)
      → length part ≡ min (s.msg_hdr.msg_len - length s.message) r.chunk_size
      → read_payload (inside r k s payload) (record s { chunk_read = 0 }) (part ++ rest)
        ≡ end_chunk
            (record (inside r k s payload) { buffered = r.buffered + length part })
            (record s { message = s.message ++ part; chunk_read = 0 })
            rest
  unfolding read_payload
  read_payload-inside part rest a b c e =
      let need : min (s.msg_hdr.msg_len + 0 - length s.message) r.chunk_size ≡ length part =
        omega arith in
      rw
        (
          need,
          le→ltb max_rtmp_message_len s.msg_hdr.msg_len a,
          le→ltb s.msg_hdr.msg_len (length s.message) b,
          buffer_room r.max_buffered_msg_len r.buffered (length part) c,
          le→ltb (length part) 0 (omega arith),
          le→ltb (length (part ++ rest)) (length part - 0) (omega (arith, length-append part rest)),
          take_append part rest (length part - 0) (omega arith),
          drop_append part rest (length part - 0) (omega arith),
        )
        (ap
          (λ (t : ℕ).
            end_chunk (record (inside r k s payload) { buffered = r.buffered + t })
              (record s { message = s.message ++ part; chunk_read = 0 }) rest)
          (omega arith))

pub read_basic_head-idle :
    (r : Reader) (bh : BasicHead) (s : ChunkStream) (bytes rest : List ℕ)
    → Basic.Encodes bh bytes
    → stream_for r bh.csid ≡ some s
    → read_basic_head (idle r) (bytes ++ rest)
      ≡ next (inside r bh.csid (start_stream bh s) (after_basic bh s)) rest
unfolding read_basic_head enter_chunk
read_basic_head-idle r bh s bytes rest e f =
    ground (arith, e.measured rest, collect_full bytes rest, e.read, f)
