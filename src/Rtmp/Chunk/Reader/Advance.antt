-- ===== src/Rtmp/Chunk/Reader/Advance.antt =====
-- Rounds of the parser's loop in sequence, and the header of one chunk.
use gomediautils.Prelude.{
  ℕ, suc, ◌+◌, ◌*◌, ◌≤◌, ◌<◌, ◌≡◌, refl, sym, ap, ◌∙◌, List, [], ◌∷◌, ◌++◌, arith, append_assoc,
  length, length-append, if◌then◌else◌, leb, ◌==◌, Bool-cases, inl, inr, true, false, Option, some,
}
use mathlib.Core.Path.{subst}
use gomediautils.Prelude.Bytes.{u32_be, IsU32}
use gomediautils.Rtmp.Chunk.Header.{BasicHead, ChunkMsgHead, ChunkError}
use gomediautils.Rtmp.Chunk.Header.Basic
use gomediautils.Rtmp.Chunk.Header.Message
use gomediautils.Rtmp.Chunk.Header.Message.{received, wire_timestamp}
use gomediautils.Rtmp.Chunk.Reader.{
  Reader, ChunkStream, msg_head, extend_ts, payload, stream_for, after_basic, start_stream, next,
  read_round, read_loop, goes_on, RtmpMessage, read_extend_ts, read_msg_head,
}
use gomediautils.Rtmp.Chunk.Reader.Rounds.{
  inside, idle, current_stream-inside, read_extend_ts-inside, read_msg_head-inside,
  read_basic_head-idle,
}

-- The extended timestamp, if there is one.
abbrev pub extension : ChunkMsgHead → List ℕ
extension h = if leb 0x00ffffff h.timestamp then u32_be h.timestamp else []

module _ (on_msg : RtmpMessage → Option ChunkError) where
  -- From `r` with `front ++ rest` to read, the loop comes to `r'` with `rest`, in at most four rounds
  -- for each byte of `front`.
  pub record Advances (r : Reader) (front rest : List ℕ) (r' : Reader) : Type 0 where
    pub rounds : ℕ
    pub few : rounds ≤ 4 * length front
    pub runs :
        (f : ℕ) → read_loop (rounds + f) on_msg r (front ++ rest) ≡ read_loop f on_msg r' rest

  pub append-Advances :
      {r r' r'' : Reader} (a b rest : List ℕ)
      → Advances r a (b ++ rest) r'
      → Advances r' b rest r''
      → Advances r (a ++ b) rest r''
  append-Advances {r} a b rest p q = record {
    rounds = p.rounds + q.rounds;
    few = omega (arith, p.few, q.few, length-append a b);
    runs = λ f.
        ap (λ (t : List ℕ). read_loop (p.rounds + q.rounds + f) on_msg r t) (append_assoc a b rest)
        ∙ ap (λ (t : ℕ). read_loop t on_msg r (a ++ (b ++ rest))) (omega arith)
        ∙ p.runs (q.rounds + f)
        ∙ q.runs f;
  }

  pub none-Advances : (r : Reader) (rest : List ℕ) → Advances r [] rest r
  none-Advances r rest = record {
    rounds = 0;
    few = omega arith;
    runs = λ f. ap (λ (t : ℕ). read_loop t on_msg r rest) (omega arith);
  }

  loop_next :
      (f : ℕ) (r r' : Reader) (input rest : List ℕ)
      → goes_on r input ≡ true
      → read_round r input ≡ next r' rest
      → read_loop (suc f) on_msg r input ≡ read_loop f on_msg r' rest
  unfolding read_loop
  loop_next f r r' input rest g e = rw (read_loop, g, e)

  pub goes_on-append :
      (r : Reader) (front rest : List ℕ) → 0 < length front → goes_on r (front ++ rest) ≡ true
  unfolding goes_on
  goes_on-append r [] rest h = absurd (omega arith)
  goes_on-append r (x ∷ front) rest h = refl

  pub round-Advances :
      (r r' : Reader) (front rest : List ℕ)
      → 0 < length front
      → read_round r (front ++ rest) ≡ next r' rest
      → Advances r front rest r'
  round-Advances r r' front rest h e = record {
    rounds = 1;
    few = omega arith;
    runs = λ f.
        ap (λ (t : ℕ). read_loop t on_msg r (front ++ rest)) (omega arith)
        ∙ loop_next f r r' (front ++ rest) rest (goes_on-append r front rest h) e;
  }

  module _ (r : Reader) (k : ℕ) (s : ChunkStream) where
    extend_round :
        (ts : ℕ) (rest : List ℕ)
        → s.hdr ≡ []
        → IsU32 ts
        → Advances (inside r k s extend_ts) (u32_be ts) rest (
            inside r k
              (record s { msg_hdr = record s.msg_hdr { timestamp = ts }; hdr = [] })
              payload)
    extend_round ts rest e h =
        round-Advances (inside r k s extend_ts) _ (u32_be ts) rest (unfold u32_be in omega arith) (
          unfold read_round in
          ap (λ (t : ChunkStream). read_extend_ts (inside r k s extend_ts) t (u32_be ts ++ rest))
            (current_stream-inside r k s extend_ts ∙ quiet e)
          ∙ read_extend_ts-inside r k s ts rest h)
      where
        quiet : s.hdr ≡ [] → s ≡ record s { hdr = [] }
        quiet p = λ i. record s { hdr = p i }

    pub message_round :
        (h : ChunkMsgHead) (bytes rest : List ℕ)
        → s.hdr ≡ []
        → 0 < length bytes
        → Message.Encodes s.basic.fmt s.msg_hdr h bytes
        → (let g = received s.basic.fmt h in
            let ext = g.timestamp == 0x00ffffff in
            Advances (inside r k s msg_head) bytes rest (
              inside r k
                (record s { msg_hdr = g; has_ext_ts = ext; hdr = [] })
                (if ext then extend_ts else payload)))
    message_round h bytes rest e p c = round-Advances (inside r k s msg_head) _ bytes rest p (
        unfold read_round in
        ap (λ (t : ChunkStream). read_msg_head (inside r k s msg_head) t (bytes ++ rest))
          (current_stream-inside r k s msg_head ∙ quiet e)
        ∙ read_msg_head-inside r k s h bytes rest c)
      where
        quiet : s.hdr ≡ [] → s ≡ record s { hdr = [] }
        quiet p = λ i. record s { hdr = p i }

  pub basic_round :
      (r : Reader) (bh : BasicHead) (s : ChunkStream) (bytes rest : List ℕ)
      → Basic.Encodes bh bytes
      → stream_for r bh.csid ≡ some s
      → Advances (idle r) bytes rest (inside r bh.csid (start_stream bh s) (after_basic bh s))
  basic_round r bh s bytes rest e f =
      round-Advances (idle r) _ bytes rest e.nonempty
        (unfold read_round in read_basic_head-idle r bh s bytes rest e f)

  pub extension_rounds :
      (r : Reader) (k : ℕ) (s : ChunkStream) (h : ChunkMsgHead) (rest : List ℕ)
      → s.hdr ≡ []
      → IsU32 h.timestamp
      → record s.msg_hdr { timestamp = h.timestamp } ≡ h
      → (leb 0x00ffffff h.timestamp ≡ false → s.msg_hdr ≡ h)
      → Advances
          (inside r k s (if leb 0x00ffffff h.timestamp then extend_ts else payload))
          (extension h)
          rest
          (inside r k (record s { msg_hdr = h }) payload)
  extension_rounds r k s h rest e t g g' = elim (Bool-cases (leb 0x00ffffff h.timestamp)) [
    | inl c ↦ rw c (
        subst
          (λ u. Advances (inside r k s extend_ts) (u32_be h.timestamp) rest (inside r k u payload))
          (λ i. record s { msg_hdr = g i; hdr = sym e i })
          (extend_round r k s h.timestamp rest e t))
    | inr c ↦ rw c (
        subst (λ u. Advances (inside r k s payload) [] rest (inside r k u payload))
          (λ i. record s { msg_hdr = g' c i }) (none-Advances (inside r k s payload) rest))
  ]
