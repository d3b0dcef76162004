-- ===== src/Rtmp/Chunk/Writer.antt =====
-- `chunkStreamWriter` and `chunkBatch` of go-rtmp/chunk.go.
use gomediautils.Prelude.{
  ℕ, zero, suc, ◌+◌, ◌-◌, ◌*◌, ◌/◌, ◌%◌, ◌^◌, List, [], ◌∷◌, ◌++◌, ltb, leb, ◌==◌, ◌&&◌,
  if◌then◌else◌, length, take, drop, Outcome, ok, err, panic, ◌>>=◌, Option, none, some,
}
use gomediautils.Rtmp.Chunk.Header.{
  ChunkPacket, ChunkError, invalid_csid, max_csid, fix_chunk_size, head_size, encode_head_to,
}

pub record Writer : Type 0 where
  pub csid : ℕ
  pub timestamp : ℕ
  pub current : Option ChunkPacket
  pub chunk_size : ℕ

unfoldable pub new_writer : ℕ → Writer
new_writer csid = record { csid = csid; timestamp = 0; current = none; chunk_size = fix_chunk_size }

pub record Format : Type 0 where
  pub format : ℕ
  pub delta : ℕ

-- The header format and the timestamp field that `writeData` chooses.
unfoldable pub choose_format : Writer → ℕ → ℕ → ℕ → ℕ → Format
choose_format w len msg_type stream_id ts = elim w.current [
  | none ↦ record { format = 0; delta = ts }
  | some last ↦
      let delta = ts - w.timestamp in
      if stream_id == last.msg_hdr.msg_stream_id && leb w.timestamp ts
      then (if msg_type == last.msg_hdr.msg_type_id && last.msg_hdr.msg_len == len
          then (if delta == last.msg_hdr.timestamp
              then record { format = 3; delta = delta }
              else record { format = 2; delta = delta })
          else record { format = 1; delta = delta })
      else record { format = 0; delta = ts }
]

-- `lastChunk` once its fields are assigned.
unfoldable pub start_chunk : Writer → Format → ℕ → ℕ → ℕ → ChunkPacket
start_chunk w f len msg_type stream_id = record {
  basic = record {
    fmt = f.format;
    csid = elim w.current [ none ↦ w.csid | some last ↦ last.basic.csid ];
  };
  msg_hdr = record {
    timestamp = f.delta;
    msg_len = len % 2 ^ 32;
    msg_type_id = msg_type % 256;
    msg_stream_id = stream_id;
  };
  payload = [];
}

abbrev pub continuation : ChunkPacket → ChunkPacket
continuation chk = record chk { basic = record chk.basic { fmt = 3 } }

-- `for len(data) > 0`: a header, at most `chunk_size` bytes, and format 3 from then on. The first
-- argument is fuel; each round takes a byte at least.
unfoldable pub write_chunks : ℕ → ℕ → ChunkPacket → List ℕ → Outcome ChunkError (List ℕ)
write_chunks fuel chunk_size chk [] = ok []
write_chunks zero chunk_size chk (x ∷ xs) = panic
write_chunks (suc fuel) chunk_size chk (x ∷ xs) =
    let rest = write_chunks fuel chunk_size (continuation chk) (drop chunk_size (x ∷ xs)) in
    encode_head_to chk >>= λ head. rest >>= λ more. ok (head ++ (take chunk_size (x ∷ xs) ++ more))

abbrev pub effective_size : ℕ → ℕ
effective_size n = if n == 0 then fix_chunk_size else n

-- The writer that `writeData` leaves: the last chunk is a continuation if there was a chunk.
abbrev pub finish : Writer → ℕ → ChunkPacket → Writer
finish w ts chk = record w { timestamp = ts; current = some chk }

-- The size of the buffer that `writeData` makes: `n` chunks in all.
unfoldable pub total_size : ChunkPacket → ℕ → ℕ → Outcome ChunkError ℕ
total_size chk len chunk_size = do
  first ← head_size chk
  cont ← head_size (continuation chk)
  ok (first + ((len + chunk_size - 1) / chunk_size - 1) * cont + len)

-- The chunks, in a buffer of `total_size` bytes: writing past it panics.
unfoldable pub write_message : ℕ → ChunkPacket → List ℕ → Outcome ChunkError (List ℕ)
write_message chunk_size chk bytes = do
  total ← total_size chk (length bytes) chunk_size
  out ← write_chunks (length bytes) chunk_size chk bytes
  if leb (length out) total then ok out else panic

-- `lastChunk.basic.fmt` after the call: 3 once both sizes are known.
unfoldable pub write_data : Writer → List ℕ → ℕ → ℕ → ℕ → Outcome ChunkError (List ℕ) × Writer
write_data w bytes msg_type stream_id ts =
    let f = choose_format w (length bytes) msg_type stream_id ts in
    let chk = start_chunk w f (length bytes) msg_type stream_id in
    if ltb max_csid w.csid
    then (err invalid_csid, w)
    else if length bytes == 0
    then (ok [], finish w ts chk)
    else (
      write_message (effective_size w.chunk_size) chk bytes,
      finish w ts (elim (head_size chk) [ ok _ ↦ continuation chk | _ ↦ chk ]),
    )

-- `chunkBatch`: the bytes so far, and the first error.
pub record ChunkBatch : Type 0 where
  pub buf : List ℕ
  pub err : Option ChunkError

-- `b.write(cs, msg, msgErr, …)`: the message, or the error of the call that built it.
unfoldable pub batch_write :
    ChunkBatch
    → Writer
    → Option ChunkError
    → List ℕ
    → ℕ
    → ℕ
    → ℕ
    → Outcome ChunkError (ChunkBatch × Writer)
batch_write b w msg_err msg msg_type stream_id ts = elim b.err [
  | some e ↦ ok (b, w)
  | none ↦ elim msg_err [
    | some e ↦ ok (record b { err = some e }, w)
    | none ↦
        let (out, w') = write_data w msg msg_type stream_id ts in
        elim out [
          | panic ↦ panic
          | err e ↦ ok (record b { err = some e }, w')
          | ok pkt ↦ ok (record b { buf = b.buf ++ pkt }, w')
        ]
  ]
]

unfoldable pub batch_bytes : ChunkBatch → Outcome ChunkError (List ℕ)
batch_bytes b = elim b.err [ some e ↦ err e | none ↦ ok b.buf ]
