-- ===== src/Rtmp/Chunk/RoundTrip.antt =====
-- A message through `writeData` and `readRtmpMessage`.
use gomediautils.Prelude.{
  ℕ, suc, ◌+◌, ◌-◌, ◌*◌, ◌%◌, ◌^◌, ◌≤◌, ◌<◌, ◌≡◌, refl, sym, ap, ◌∙◌, List, [], ◌∷◌, ◌++◌, arith,
  take, drop, length-take, length, length-append, ok, ◌>>=◌, ne→==, if◌then◌else◌, leb, ◌==◌,
  Option-cases, ◌⊎◌, inl, inr, le→leb, le→ltb, Option, some, none, append-nil,
}
use gomediautils.Rtmp.Chunk.Header.{
  BasicHead, ChunkMsgHead, ChunkPacket, ChunkError, head_size, encode_head_to, max_csid,
}
use gomediautils.Rtmp.Chunk.Writer.{
  Writer, write_chunks, continuation, choose_format, start_chunk, write_data, write_message,
  total_size, finish,
}
use gomediautils.Rtmp.Chunk.Reader.{
  Reader, ChunkStream, basic_head, payload, RtmpMessage, Reading, done, read_loop, goes_on,
  read_rtmp_message,
}
use gomediautils.Rtmp.Chunk.Reader.Rounds.{inside, idle, lookup-insert}
use gomediautils.Rtmp.Chunk.Reader.Advance.{Advances}
use gomediautils.Rtmp.Chunk.Reader.Head.{Fits, entered, encode_head_to-Heads}
use gomediautils.Rtmp.Chunk.Payload.{
  deliver, Delivers, advance-Delivers, mid, ended, message_of, at_payload,
}
use gomediautils.Rtmp.Chunk.Split.{
  write_chunks-Finishes, write_chunks_step, further_head, chunk_count, chunk_count_step,
}
use gomediautils.Rtmp.Chunk.Format.{InSync, CanSend, choose_format-Chosen, sent}
use mathlib.Core.Path.{subst, subst₂}

-- The buffer that `writeData` makes holds the chunks exactly.
write_message_lem :
    (n : ℕ) (chk : ChunkPacket) (x : ℕ) (xs first out : List ℕ) (size : ℕ)
    → 0 < n
    → encode_head_to chk ≡ ok first
    → head_size chk ≡ ok (length first)
    → head_size (continuation chk) ≡ ok size
    → write_chunks (length xs) n (continuation chk) (drop n (x ∷ xs)) ≡ ok out
    → length out ≡ chunk_count n (length (x ∷ xs) - n) * size + (length (x ∷ xs) - n)
    → write_message n chk (x ∷ xs) ≡ ok (first ++ (take n (x ∷ xs) ++ out))
unfolding write_message total_size
write_message_lem n chk x xs first out size p w z z' e c =
    let bytes : List ℕ = x ∷ xs in
    let all = first ++ (take n bytes ++ out) in
    let others : chunk_count n (length bytes) - 1 ≡ chunk_count n (length bytes - n) =
      omega (arith, chunk_count_step n (length bytes) p (omega arith)) in
    rw (
      z,
      ◌>>=◌,
      z',
      ◌>>=◌,
      write_chunks_step (length xs) n chk bytes first out (omega arith) w e,
      ◌>>=◌,
      le→leb (length all) (length first + (chunk_count n (length bytes) - 1) * size + length bytes)
          (omega (
            arith,
            length-append first (take n bytes ++ out),
            length-append (take n bytes) out,
            length-take n bytes,
            c,
            ap (λ (t : ℕ). t * size) others,
          )),
    )

-- The first chunk of a message, on a stream that waits for one.
module _ (on_msg : RtmpMessage → Option ChunkError) (r : Reader) (bh : BasicHead) (h : ChunkMsgHead)
    (s : ChunkStream) (f : Fits r bh h s) (some_size : 0 < r.chunk_size)
    (room : (r.max_buffered_msg_len ≡ 0) ⊎ (r.buffered + h.msg_len ≤ r.max_buffered_msg_len))
    (no_message : s.message ≡ []) (no_read : s.chunk_read ≡ 0) where
  abbrev first_packet : ChunkPacket
  first_packet = record { basic = bh; msg_hdr = h; payload = [] }

  same_place :
      inside r bh.csid (entered bh h s) payload
      ≡ at_payload bh.fmt s.timestamp h r bh.csid r.buffered bh []
  same_place =
      ap
        (λ (x : List ℕ).
          inside r bh.csid
            (record (mid bh.fmt s.timestamp h bh x) {
              first_chunk_fmt = if length x == 0 then bh.fmt else s.first_chunk_fmt;
              chunk_read = s.chunk_read;
            })
            payload)
        no_message
      ∙ ap
          (λ (x : ℕ).
            inside r bh.csid (record (mid bh.fmt s.timestamp h bh []) { chunk_read = x }) payload)
          no_read
      ∙ ap
          (λ (x : ℕ). record (inside r bh.csid (mid bh.fmt s.timestamp h bh []) payload) {
            buffered = x;
          })
          (omega arith)

  -- The chunks of the message, in the buffer that `writeData` makes, and what the parser makes of them.
  pub record Sends (bytes out : List ℕ) (bh' : BasicHead) : Type 0 where
    pub written : write_message r.chunk_size first_packet bytes ≡ ok out
    pub head_sized : (size : ℕ) × (head_size first_packet ≡ ok size)
    pub delivered :
        (rest : List ℕ)
        → Delivers on_msg
            (idle r)
            out
            rest
            (message_of bh.fmt s.timestamp h bytes)
            (inside r bh.csid (ended bh.fmt s.timestamp h bh') basic_head)

  pub write_message-Sends :
      (bytes : List ℕ)
      → 0 < length bytes
      → length bytes ≡ h.msg_len
      → (out : List ℕ) × (bh' : BasicHead) × Sends bytes out bh'
  write_message-Sends [] p e = absurd (omega arith)
  write_message-Sends (x ∷ xs) p e =
      let n = r.chunk_size in
      let bytes : List ℕ = x ∷ xs in
      let k = bh.csid in
      let t = s.timestamp in
      let v = f.basic_valid in
      let (first, a) = encode_head_to-Heads on_msg r bh h s f in
      let (cont, w, sz, _) =
        further_head on_msg bh.fmt t h f.msg_valid r k r.buffered v.csid_low v.csid_high bh (x ∷ [])
          (omega arith) in
      let (out, bh', q) =
        write_chunks-Finishes on_msg bh.fmt t h f.msg_valid r k r.buffered v.csid_low v.csid_high
          some_size room [] (length cont) (sz []) (length xs) bh [] bytes (omega arith)
          (omega arith) (omega arith) in
      (
        first ++ (take n bytes ++ out),
        bh',
        record {
          written =
              write_message_lem n first_packet x xs first out (length cont) some_size (a.written [])
                (a.sized []) (sz []) q.written q.counted;
          head_sized = (length first, a.sized []);
          delivered = λ rest.
              advance-Delivers on_msg first (take n bytes ++ out) rest _
                (subst (λ y. Advances on_msg (idle r) first ((take n bytes ++ out) ++ rest) y)
                  same_place (a.advances ((take n bytes ++ out) ++ rest)))
                (q.delivered rest);
        },
      )

-- What the parser did with the bytes of one message: it handed the message on, and is in step with
-- the writer again.
pub record ReadsBack (w' : Writer) (m : RtmpMessage) (got : Reading) : Type 0 where
  pub one_message : got.messages ≡ m ∷ []
  pub no_error : got.exit ≡ done
  pub stream : ChunkStream
  pub in_sync : InSync w' got.reader stream

-- What `writeData` was given.
abbrev pub message : List ℕ → ℕ → ℕ → ℕ → RtmpMessage
message bytes msg_type stream_id ts = record {
  timestamp = ts;
  msg = bytes;
  msgtype = msg_type;
  streamid = stream_id;
}

-- The count of bytes received is not part of being in step.
counted :
    {w : Writer} {r : Reader} {s : ChunkStream}
    → InSync w r s
    → (n : ℕ) → InSync w (record r { recv_bytes = n }) s
counted c n = record {
  found = c.found;
  no_hdr = c.no_hdr;
  no_message = c.no_message;
  no_read = c.no_read;
  waiting = c.waiting;
  no_cache = c.no_cache;
  same_size = c.same_size;
  csid_low = c.csid_low;
  csid_high = c.csid_high;
  same_last = c.same_last;
}

module _ (w : Writer) (r : Reader) (s : ChunkStream) (c : InSync w r s) (bytes : List ℕ)
    (msg_type stream_id ts : ℕ) (can : CanSend (length bytes) msg_type stream_id ts) where
  abbrev what : RtmpMessage
  what = message bytes msg_type stream_id ts

  abbrev header : BasicHead
  header = record {
    fmt = (choose_format w (length bytes) msg_type stream_id ts).format;
    csid = w.csid;
  }

  header-Fits : Fits r header (sent w r s c (length bytes) msg_type stream_id ts can) s
  header-Fits =
      let d = choose_format-Chosen w r s c (length bytes) msg_type stream_id ts can in
      record {
        basic_valid = omega (arith, d.format_small, c);
        msg_valid = omega (arith, d.delta_fits, can);
        found = c.found;
        no_hdr = c.no_hdr;
        agrees = d.agrees;
        same_ext = d.same_ext;
      }

  -- The what's bytes, in all.
  abbrev packet : ChunkPacket
  packet = record {
    basic = header;
    msg_hdr = sent w r s c (length bytes) msg_type stream_id ts can;
    payload = [];
  }

  start_chunk-packet :
      start_chunk w
        (choose_format w (length bytes) msg_type stream_id ts)
        (length bytes)
        msg_type
        stream_id
      ≡ packet
  unfolding start_chunk
  start_chunk-packet = λ i. record {
    basic = record {
      fmt = (choose_format w (length bytes) msg_type stream_id ts).format;
      csid = same_csid i;
    };
    msg_hdr = record {
      timestamp = (choose_format w (length bytes) msg_type stream_id ts).delta;
      msg_len = len_kept i;
      msg_type_id = type_kept i;
      msg_stream_id = stream_id;
    };
    payload = [];
  }
    where
      same_csid : elim w.current [ none ↦ w.csid | some last ↦ last.basic.csid ] ≡ w.csid
      same_csid = elim (Option-cases w.current) [
        | inl e ↦ ground arith
        | inr (last, e) ↦ ground (arith, c.same_last last e)
      ]

      len_kept : length bytes % 2 ^ 32 ≡ length bytes
      len_kept = omega (arith, can)

      type_kept : msg_type % 256 ≡ msg_type
      type_kept = omega (arith, can)

  write_data_lem :
      (out : List ℕ) (size : ℕ)
      → write_message r.chunk_size packet bytes ≡ ok out
      → head_size packet ≡ ok size
      → write_data w bytes msg_type stream_id ts ≡ (ok out, finish w ts (continuation packet))
  unfolding write_data
  write_data_lem out size e z =
      rw
        (
          le→ltb max_csid w.csid c.csid_high,
          ne→== (length bytes) 0 (omega (arith, can)),
          start_chunk-packet,
          z,
          ← c.same_size,
          e,
        )
        (ap (λ (chk : ChunkPacket). (ok out, finish w ts (continuation chk))) start_chunk-packet)

  -- Where the parser and its stream stand behind the what.
  abbrev after : BasicHead → Reader
  after bh' =
      inside r w.csid
        (ended header.fmt s.timestamp (sent w r s c (length bytes) msg_type stream_id ts can) bh')
        basic_head

  after-InSync :
      (bh' : BasicHead)
      → InSync
          (finish w ts (continuation packet))
          (after bh')
          (ended header.fmt s.timestamp (sent w r s c (length bytes) msg_type stream_id ts can) bh')
  after-InSync bh' = record {
    found = ground (
      arith,
      lookup-insert w.csid
          (ended header.fmt s.timestamp (sent w r s c (length bytes) msg_type stream_id ts can) bh')
          r.cks,
    );
    no_hdr = refl;
    no_message = refl;
    no_read = refl;
    waiting = refl;
    no_cache = refl;
    same_size = c.same_size;
    csid_low = c.csid_low;
    csid_high = c.csid_high;
    same_last = λ last e.
        let p : continuation packet ≡ last = cc in
        (
          (choose_format-Chosen w r s c (length bytes) msg_type stream_id ts can).new_time,
          ap (λ (x : ChunkPacket). x.msg_hdr) p,
          ap (λ (x : ChunkPacket). leb 0x00ffffff x.msg_hdr.timestamp) p,
          sym (ap (λ (x : ChunkPacket). x.basic.csid) p),
        );
  }

  read_Delivers :
      (on_msg : RtmpMessage → Option ChunkError) (out : List ℕ) (bh' : BasicHead)
      → on_msg what ≡ none
      → Delivers on_msg (idle r) out [] what (after bh')
      → read_loop (4 * length out + 8) on_msg r out
        ≡ record { messages = what ∷ []; reader = after bh'; exit = done }
  unfolding read_loop goes_on
  read_Delivers on_msg out bh' accept q =
      let f = 4 * length out + 7 - q.rounds in
      ap (λ (n : ℕ). read_loop n on_msg r out) (omega (arith, q.few))
      ∙ (λ i.
          read_loop (q.rounds + suc f) on_msg
            (record r { state = c.waiting i; head_cache = c.no_cache i }) (sym (append-nil out) i))
      ∙ q.runs (suc f)
      ∙ rw (deliver, accept)

  -- The bytes that `writeData` returns, and the run of the parser's loop on them.
  write_data-runs :
      (on_msg : RtmpMessage → Option ChunkError)
      → on_msg what ≡ none
      → (r.max_buffered_msg_len ≡ 0) ⊎ (r.buffered + length bytes ≤ r.max_buffered_msg_len)
      → 0 < r.chunk_size
      → (out : List ℕ) × (bh' : BasicHead) × (write_data w bytes msg_type stream_id ts
          ≡ (ok out, finish w ts (continuation packet)))
        × (read_loop (4 * length out + 8) on_msg r out
            ≡ record { messages = what ∷ []; reader = after bh'; exit = done })
  write_data-runs on_msg accept room size =
      let d = choose_format-Chosen w r s c (length bytes) msg_type stream_id ts can in
      let h = sent w r s c (length bytes) msg_type stream_id ts can in
      let (out, bh', q) =
        write_message-Sends on_msg r header h s header-Fits size room c.no_message c.no_read bytes
          can.some_bytes refl in
      let (n, z) = q.head_sized in
      let same : message_of header.fmt s.timestamp h bytes ≡ what =
        λ i. record what { timestamp = d.new_time i } in
      (
        out,
        bh',
        write_data_lem out n q.written z,
        read_Delivers on_msg out bh' accept
            (subst (λ m. Delivers on_msg (idle r) out [] m (after bh')) same (q.delivered [])),
      )

  after-ReadsBack :
      (bh' : BasicHead)
      → ReadsBack
          (finish w ts (continuation packet))
          what
          (record { messages = what ∷ []; reader = after bh'; exit = done })
  after-ReadsBack bh' = record {
    one_message = refl;
    no_error = refl;
    stream =
        ended header.fmt s.timestamp (sent w r s c (length bytes) msg_type stream_id ts can) bh';
    in_sync = after-InSync bh';
  }

-- A message that is written on a stream in step with the parser is sent without an error, and the
-- parser hands on just that message, with its bytes, type, stream and time, and is in step with the
-- writer again. The message has 1 to 2^24 - 1 bytes, fields of the widths of the wire, room in the
-- parser's buffer, and a callback that accepts it.
pub write_data-read :
    (w : Writer) (r : Reader) (s : ChunkStream) (bytes : List ℕ) (msg_type stream_id ts : ℕ)
    (on_msg : RtmpMessage → Option ChunkError)
    → InSync w r s
    → CanSend (length bytes) msg_type stream_id ts
    → on_msg (message bytes msg_type stream_id ts) ≡ none
    → (r.max_buffered_msg_len ≡ 0) ⊎ (r.buffered + length bytes ≤ r.max_buffered_msg_len)
    → 0 < r.chunk_size
    → (out : List ℕ) × ((write_data w bytes msg_type stream_id ts).0 ≡ ok out)
      × ReadsBack
          (write_data w bytes msg_type stream_id ts).1
          (message bytes msg_type stream_id ts)
          (read_rtmp_message on_msg r out)
unfolding read_rtmp_message
write_data-read w r s bytes msg_type stream_id ts on_msg c can accept room size =
    let (out, _, e, _) =
      write_data-runs w r s c bytes msg_type stream_id ts can on_msg accept room size in
    let r' : Reader = record r { recv_bytes = (r.recv_bytes + length out) % 2 ^ 64 } in
    let c' : InSync w r' s = counted c ((r.recv_bytes + length out) % 2 ^ 64) in
    let (out', bh', e', got) =
      write_data-runs w r' s c' bytes msg_type stream_id ts can on_msg accept room size in
    let same : out' ≡ out = cc in
    (
      out,
      ap (λ t. t.0) e,
      subst₂ (λ x y. ReadsBack x (message bytes msg_type stream_id ts) y) (sym (ap (λ t. t.1) e'))
          (sym got ∙ ap (λ (x : List ℕ). read_loop (4 * length x + 8) on_msg r' x) same)
          (after-ReadsBack w r' s c' bytes msg_type stream_id ts can bh'),
    )
