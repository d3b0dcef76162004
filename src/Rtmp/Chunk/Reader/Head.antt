-- ===== src/Rtmp/Chunk/Reader/Head.antt =====
-- The header of one chunk, from what `encodeHeadTo` writes to the state in which the parser reads the
-- chunk's payload.
use gomediautils.Prelude.{
  ℕ, ◌≤◌, ◌<◌, ◌≡◌, refl, sym, ap, ◌∙◌, List, [], ◌++◌, arith, length, length-append, ok, ◌>>=◌,
  eq→==, ne→==, if◌then◌else◌, leb, ◌==◌, Bool, Bool-cases, inl, inr, lt→leb, le→ltb, Option, some,
}
use gomediautils.Prelude.Bytes.{u32_be}
use gomediautils.Rtmp.Chunk.Header.{
  BasicHead, ChunkMsgHead, ChunkError, has_extended_ts, encode_head_to, head_size,
}
use gomediautils.Rtmp.Chunk.Header.Basic
use gomediautils.Rtmp.Chunk.Header.Basic.{basic_encode_to-Encodes}
use gomediautils.Rtmp.Chunk.Header.Message
use gomediautils.Rtmp.Chunk.Header.Message.{
  received, wire_timestamp, Agrees, msg_head_encode_to-Encodes, head_ext,
}
use gomediautils.Rtmp.Chunk.Reader.{
  Reader, ChunkStream, msg_head, extend_ts, payload, stream_for, after_basic, start_stream,
  RtmpMessage,
}
use gomediautils.Rtmp.Chunk.Reader.Rounds.{inside, idle}
use gomediautils.Rtmp.Chunk.Reader.Advance.{
  Advances, append-Advances, basic_round, message_round, extension_rounds, extension,
}
use mathlib.Core.Path.{subst, subst₂}
use native.Mathlib.Decide.{ℕ_discrete}

-- The stream, once the header of a chunk has been read.
abbrev pub entered : BasicHead → ChunkMsgHead → ChunkStream → ChunkStream
entered bh h s = record (start_stream bh s) {
  msg_hdr = h;
  has_ext_ts = leb 0x00ffffff h.timestamp;
  hdr = [];
}

-- What the reader has to know of the stream for a chunk with these headers.
pub record Fits (r : Reader) (bh : BasicHead) (h : ChunkMsgHead) (s : ChunkStream) : Type 0 where
  pub basic_valid : Basic.IsValid bh
  pub msg_valid : Message.IsValid h
  pub found : stream_for r bh.csid ≡ some s
  pub no_hdr : s.hdr ≡ []
  pub agrees : Agrees bh.fmt s.msg_hdr h
  pub same_ext : 3 ≤ bh.fmt → s.has_ext_ts ≡ leb 0x00ffffff h.timestamp

wire_test : (h : ChunkMsgHead) → (wire_timestamp h == 0x00ffffff) ≡ leb 0x00ffffff h.timestamp
wire_test h = ground arith

module _ (on_msg : RtmpMessage → Option ChunkError) (r : Reader) (bh : BasicHead) (h : ChunkMsgHead)
    (s : ChunkStream) (c : Fits r bh h s) where
  abbrev start : ChunkStream
  start = start_stream bh s

  abbrev ext : Bool
  ext = leb 0x00ffffff h.timestamp

  -- Format 3: the header of the stream's last message stays.
  after_basic_three :
      (rest : List ℕ)
      → bh.fmt ≡ 3
      → Advances on_msg
          (inside r bh.csid start (after_basic bh s))
          (extension h)
          rest
          (inside r bh.csid (entered bh h s) payload)
  after_basic_three rest e =
      let same : s.msg_hdr ≡ h =
        head_ext s.msg_hdr h (c.agrees.same_timestamp (omega arith))
          (c.agrees.same_len (omega arith)) (c.agrees.same_type (omega arith))
          (c.agrees.same_stream (omega arith)) in
      let x : s.has_ext_ts ≡ ext = c.same_ext (omega arith) in
      let st : after_basic bh s ≡ (if ext then extend_ts else payload) =
        rw (eq→== bh.fmt 3 e) (ap (λ (b : Bool). if b then extend_ts else payload) x) in
      subst₂
        (λ st' t.
          Advances on_msg (inside r bh.csid start st') (extension h) rest
            (inside r bh.csid t payload))
        (sym st) (λ i. record start { msg_hdr = h; has_ext_ts = x i; hdr = c.no_hdr i })
        (extension_rounds on_msg r bh.csid start h rest c.no_hdr c.msg_valid.timestamp_fits
          (λ i. record (same i) { timestamp = h.timestamp }) (λ _. same))

  -- The other formats: a message header, and then the extended timestamp.
  after_basic_other :
      (bytes rest : List ℕ)
      → bh.fmt < 3
      → 0 < length bytes
      → Message.Encodes bh.fmt s.msg_hdr h bytes
      → Advances on_msg
          (inside r bh.csid start (after_basic bh s))
          (bytes ++ extension h)
          rest
          (inside r bh.csid (entered bh h s) payload)
  after_basic_other bytes rest e p m =
      let g : ChunkMsgHead = record h { timestamp = wire_timestamp h } in
      let got : received bh.fmt h ≡ g = rw (lt→leb 3 bh.fmt e) in
      let st : after_basic bh s ≡ msg_head = rw (ne→== bh.fmt 3 (omega arith)) in
      let after : ChunkStream = record start { msg_hdr = g; has_ext_ts = ext; hdr = [] } in
      subst
        (λ st'.
          Advances on_msg (inside r bh.csid start st') (bytes ++ extension h) rest
            (inside r bh.csid (entered bh h s) payload))
        (sym st)
        (append-Advances on_msg bytes (extension h) rest
          (subst₂
            (λ u b. Advances on_msg (inside r bh.csid start msg_head) bytes (extension h ++ rest) (
              inside r bh.csid (record start { msg_hdr = u; has_ext_ts = b; hdr = [] })
                (if b then extend_ts else payload)))
            got (ap (λ (u : ChunkMsgHead). u.timestamp == 0x00ffffff) got ∙ wire_test h)
            (message_round on_msg r bh.csid start h bytes (extension h ++ rest) c.no_hdr p m))
          (extension_rounds on_msg r bh.csid after h rest refl c.msg_valid.timestamp_fits refl
            (λ x. head_ext g h (rw x) refl refl refl)))

length-extension :
    (h : ChunkMsgHead) → (if leb 0x00ffffff h.timestamp then 4 else 0) ≡ length (extension h)
unfolding u32_be
length-extension h = elim (Bool-cases (leb 0x00ffffff h.timestamp)) [ inl e ↦ rw e | inr e ↦ rw e ]

-- `head` is the encoded header of a chunk, and it takes the parser to the chunk's payload.
pub record Heads (on_msg : RtmpMessage → Option ChunkError) (r : Reader) (bh : BasicHead)
    (h : ChunkMsgHead) (s : ChunkStream) (head : List ℕ) : Type 0 where
  pub written :
      (body : List ℕ)
      → encode_head_to (record { basic = bh; msg_hdr = h; payload = body }) ≡ ok head
  pub sized :
      (body : List ℕ)
      → head_size (record { basic = bh; msg_hdr = h; payload = body }) ≡ ok (length head)
  pub nonempty : 0 < length head
  pub advances :
      (rest : List ℕ)
      → Advances on_msg (idle r) head rest (inside r bh.csid (entered bh h s) payload)

pub encode_head_to-Heads :
    (on_msg : RtmpMessage → Option ChunkError) (r : Reader) (bh : BasicHead) (h : ChunkMsgHead)
    (s : ChunkStream)
    → Fits r bh h s
    → (head : List ℕ) × Heads on_msg r bh h s head
encode_head_to-Heads on_msg r bh h s c =
    let (b, eb) = basic_encode_to-Encodes bh c.basic_valid in
    let (m, em) =
      msg_head_encode_to-Encodes bh.fmt s.msg_hdr h c.basic_valid.fmt_small c.msg_valid c.agrees in
    (
      b ++ (m ++ extension h),
      record {
        written = λ body.
            unfold encode_head_to has_extended_ts in rw (eb.written, ◌>>=◌, em.written, ◌>>=◌);
        sized = λ body.
            unfold head_size has_extended_ts in
            rw (le→ltb 3 bh.fmt (omega (arith, c.basic_valid)), eb.sized, ◌>>=◌, em.sized, ◌>>=◌)
              (ap ok (
                omega (
                  arith,
                  length-append b (m ++ extension h),
                  length-append m (extension h),
                  length-extension h,
                )));
        nonempty = omega (arith, eb.nonempty, length-append b (m ++ extension h));
        advances = λ rest.
            append-Advances on_msg b (m ++ extension h) rest
              (basic_round on_msg r bh s b ((m ++ extension h) ++ rest) eb c.found)
              (elim (ℕ_discrete bh.fmt 3) [
                | yes e ↦
                    subst
                      (λ x.
                        Advances on_msg (inside r bh.csid (start_stream bh s) (after_basic bh s))
                          (x ++ extension h) rest (inside r bh.csid (entered bh h s) payload))
                      (sym (em.empty (omega arith))) (after_basic_three on_msg r bh h s c rest e)
                | no e ↦
                    after_basic_other on_msg r bh h s c m rest (omega (arith, c.basic_valid))
                      (em.nonempty (omega (arith, c.basic_valid))) em
              ]);
      },
    )
