-- ===== src/Rtmp/Chunk/Payload.antt =====
-- The payload of a message that `writeData` splits into chunks, read back.
use gomediautils.Prelude.{
  ℕ, suc, ◌+◌, ◌-◌, ◌*◌, ◌%◌, ◌^◌, ◌≤◌, ◌<◌, ◌≡◌, ap, ◌∙◌, List, [], ◌∷◌, ◌++◌, arith, append_assoc,
  take_all, length, length-append, if◌then◌else◌, leb, ◌==◌, ◌⊎◌, inl, inr, true, lt→leb, le→leb,
  Option, some, none, min,
}
use gomediautils.Rtmp.Chunk.Header.{BasicHead, ChunkMsgHead, ChunkError, max_rtmp_message_len}
use gomediautils.Rtmp.Chunk.Reader.{
  Reader, ChunkStream, ParserState, basic_head, payload, put_current, RtmpMessage, Reading, next,
  emit, failed, read_loop, read_round, read_payload, end_chunk, goes_on,
}
use gomediautils.Rtmp.Chunk.Reader.Rounds.{
  inside, current_stream-inside, put_current-inside, read_payload-inside,
}
use gomediautils.Rtmp.Chunk.Reader.Advance.{Advances, goes_on-append}

-- What the loop does with a complete message.
abbrev pub deliver : (RtmpMessage → Option ChunkError) → RtmpMessage → Reader → List ℕ → ℕ → Reading
deliver on_msg m r rest f = elim (on_msg m) [
  | some e ↦ record { messages = m ∷ []; reader = r; exit = failed e }
  | none ↦
      let more = read_loop f on_msg r rest in
      record { messages = m ∷ more.messages; reader = more.reader; exit = more.exit }
]

module _ (on_msg : RtmpMessage → Option ChunkError) where
  -- From `r` with `front ++ rest` to read, the loop hands on `m` and is in `r'` with `rest` then.
  pub record Delivers (r : Reader) (front rest : List ℕ) (m : RtmpMessage) (r' : Reader)
      : Type 0 where
    pub rounds : ℕ
    pub few : rounds ≤ 4 * length front
    pub runs :
        (f : ℕ) → read_loop (rounds + f) on_msg r (front ++ rest) ≡ deliver on_msg m r' rest f

  pub advance-Delivers :
      {r r' r'' : Reader} (a b rest : List ℕ) (m : RtmpMessage)
      → Advances on_msg r a (b ++ rest) r'
      → Delivers r' b rest m r''
      → Delivers r (a ++ b) rest m r''
  advance-Delivers {r} a b rest m p q = record {
    rounds = p.rounds + q.rounds;
    few = omega (arith, p.few, q.few, length-append a b);
    runs = λ f.
        ap (λ (t : List ℕ). read_loop (p.rounds + q.rounds + f) on_msg r t) (append_assoc a b rest)
        ∙ ap (λ (t : ℕ). read_loop t on_msg r (a ++ (b ++ rest))) (omega arith)
        ∙ p.runs (q.rounds + f)
        ∙ q.runs f;
  }

  loop_emit :
      (f : ℕ) (r r' : Reader) (input rest : List ℕ) (m : RtmpMessage)
      → goes_on r input ≡ true
      → read_round r input ≡ emit r' rest m
      → read_loop (suc f) on_msg r input ≡ deliver on_msg m r' rest f
  unfolding read_loop
  loop_emit f r r' input rest m g e = rw (read_loop, g, e)

  pub round-Delivers :
      (r r' : Reader) (front rest : List ℕ) (m : RtmpMessage)
      → 0 < length front
      → read_round r (front ++ rest) ≡ emit r' rest m
      → Delivers r front rest m r'
  round-Delivers r r' front rest m h e = record {
    rounds = 1;
    few = omega arith;
    runs = λ f.
        ap (λ (t : ℕ). read_loop t on_msg r (front ++ rest)) (omega arith)
        ∙ loop_emit f r r' (front ++ rest) rest m (goes_on-append on_msg r front rest h) e;
  }

-- The stream inside a message of which the bytes `m` have come, and behind the message.
module _ (fmt time : ℕ) (h : ChunkMsgHead) where
  abbrev pub mid : BasicHead → List ℕ → ChunkStream
  mid bh m = record {
    first_chunk_fmt = fmt;
    timestamp = time;
    basic = bh;
    msg_hdr = h;
    hdr = [];
    message = m;
    has_ext_ts = leb 0x00ffffff h.timestamp;
    chunk_read = 0;
  }

  abbrev pub new_time : ℕ
  new_time = if fmt == 0 then h.timestamp else (time + h.timestamp) % 2 ^ 32

  abbrev pub ended : BasicHead → ChunkStream
  ended bh = record (mid bh []) { timestamp = new_time }

  abbrev pub message_of : List ℕ → RtmpMessage
  message_of whole = record {
    timestamp = new_time;
    msg = whole;
    msgtype = h.msg_type_id;
    streamid = h.msg_stream_id;
  }

  module _ (r : Reader) (k held : ℕ) (bh : BasicHead) (m : List ℕ) where
    -- The reader in the payload, with `held` bytes of other messages buffered.
    abbrev pub at_payload : Reader
    at_payload = inside (record r { buffered = held + length m }) k (mid bh m) payload

    module _ (part rest : List ℕ) (fits : h.msg_len ≤ max_rtmp_message_len)
        (room : (r.max_buffered_msg_len ≡ 0) ⊎ (held + h.msg_len ≤ r.max_buffered_msg_len))
        (within : length m + length part ≤ h.msg_len)
        (exact : length part ≡ min (h.msg_len - length m) r.chunk_size) where
      payload_round :
          read_round at_payload (part ++ rest)
          ≡ end_chunk
              (record at_payload { buffered = held + length m + length part })
              (mid bh (m ++ part))
              rest
      unfolding read_round
      payload_round =
          ap (λ (t : ChunkStream). read_payload at_payload t (part ++ rest))
            (current_stream-inside (record r { buffered = held + length m }) k (mid bh m) payload)
          ∙ read_payload-inside (record r { buffered = held + length m }) k (mid bh m) part rest
              fits (omega arith) (elim room [ inl z ↦ inl z | inr z ↦ inr (omega arith) ]) exact

      stored :
          (st : ParserState) (t : ChunkStream) (n : ℕ)
          → put_current (record at_payload { state = st; buffered = n }) t
            ≡ inside (record r { buffered = n }) k t st
      stored st t n =
          put_current-inside (record r { buffered = held + length m }) k (mid bh m) payload st t n

      pub chunk_end :
          length m + length part < h.msg_len
          → read_round at_payload (part ++ rest)
            ≡ next
                (inside
                  (record r { buffered = held + length (m ++ part) })
                  k
                  (mid bh (m ++ part))
                  basic_head)
                rest
      chunk_end l =
          payload_round
          ∙ (unfold end_chunk in
              rw (lt→leb h.msg_len (length (m ++ part)) (omega (arith, length-append m part))) (
                ap (λ x. next x rest)
                  (stored basic_head (mid bh (m ++ part)) (held + length m + length part))
                ∙ ap
                    (λ (n : ℕ).
                      next (inside (record r { buffered = n }) k (mid bh (m ++ part)) basic_head)
                        rest)
                    (omega (arith, length-append m part))))

      pub message_end :
          length m + length part ≡ h.msg_len
          → read_round at_payload (part ++ rest)
            ≡ emit
                (inside (record r { buffered = held }) k (ended bh) basic_head)
                rest
                (message_of (m ++ part))
      message_end l =
          payload_round
          ∙ (unfold end_chunk in
              rw
                (
                  le→leb h.msg_len (length (m ++ part)) (omega (arith, length-append m part)),
                  take_all h.msg_len (m ++ part) (omega (arith, length-append m part)),
                )
                (ap (λ x. emit x rest (message_of (m ++ part)))
                    (stored basic_head (ended bh)
                      (held + length m + length part - length (m ++ part)))
                  ∙ ap
                      (λ (n : ℕ).
                        emit (inside (record r { buffered = n }) k (ended bh) basic_head) rest
                          (message_of (m ++ part)))
                      (omega (arith, length-append m part))))
