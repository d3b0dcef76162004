-- ===== src/Rtmp/Chunk/Split.antt =====
-- A message in as many chunks as its length asks for: what `writeData` writes is read back whole.
use gomediautils.Prelude.{
  ℕ, zero, suc, ◌+◌, ◌-◌, ◌*◌, ◌/◌, ◌≤◌, ◌<◌, ◌≡◌, refl, sym, ap, ◌∙◌, List, [], ◌∷◌, ◌++◌, arith,
  append_assoc, take, drop, take-append-drop, length-take, length-drop, take_all, length,
  length-append, ok, ne→==, ◌⊎◌, Option, append-nil,
}
use gomediautils.Rtmp.Chunk.Header.{
  BasicHead, ChunkMsgHead, ChunkPacket, ChunkError, head_size, encode_head_to, max_csid,
}
use gomediautils.Rtmp.Chunk.Header.Message
use gomediautils.Rtmp.Chunk.Writer.{write_chunks, continuation}
use gomediautils.Rtmp.Chunk.Payload.{
  Delivers, advance-Delivers, round-Delivers, mid, ended, message_of, at_payload, chunk_end,
  message_end,
}
use gomediautils.Rtmp.Chunk.Reader.{Reader, ChunkStream, basic_head, payload, RtmpMessage}
use gomediautils.Rtmp.Chunk.Reader.Rounds.{inside, insert-insert, lookup-insert}
use gomediautils.Rtmp.Chunk.Reader.Advance.{Advances, round-Advances}
use gomediautils.Rtmp.Chunk.Reader.Head.{Fits, entered, encode_head_to-Heads}
use mathlib.Core.Path.{subst}
use native.Mathlib.Nat.{add-div_right, div-eq_of_lt}
use native.Mathlib.Decide.{dec_le}

-- The header of a further chunk of a message.
module _ (on_msg : RtmpMessage → Option ChunkError) (fmt time : ℕ) (h : ChunkMsgHead)
    (v : Message.IsValid h) (r : Reader) (k held : ℕ) (low : 2 ≤ k) (high : k ≤ max_csid) where
  abbrev further : BasicHead
  further = record { fmt = 3; csid = k }

  module _ (bh : BasicHead) (m : List ℕ) (some_read : 0 < length m) where
    abbrev between : Reader
    between = inside (record r { buffered = held + length m }) k (mid fmt time h bh m) basic_head

    further-Fits : Fits between further h (mid fmt time h bh m)
    further-Fits = record {
      basic_valid = omega arith;
      msg_valid = v;
      found = ground (arith, lookup-insert k (mid fmt time h bh m) r.cks);
      no_hdr = refl;
      agrees = ground arith;
      same_ext = λ _. refl;
    }

    same_place :
        inside between k (entered further h (mid fmt time h bh m)) payload
        ≡ at_payload fmt time h r k held further m
    same_place =
        ap
          (λ (x : ℕ).
            inside between k (record (mid fmt time h further m) { first_chunk_fmt = x }) payload)
          (rw (ne→== (length m) 0 (omega arith)))
        ∙ ap
            (λ (c : List (ℕ × ChunkStream)). record (at_payload fmt time h r k held further m) {
              cks = c;
            })
            (insert-insert k (mid fmt time h bh m) (mid fmt time h further m) r.cks)

    pub further_head :
        (head : List ℕ) × ((body : List ℕ)
          → encode_head_to (record { basic = further; msg_hdr = h; payload = body }) ≡ ok head)
        × ((body : List ℕ)
            → head_size (record { basic = further; msg_hdr = h; payload = body })
              ≡ ok (length head))
        × ((rest : List ℕ)
            → Advances on_msg between head rest (at_payload fmt time h r k held further m))
    further_head =
        let (head, c) =
          encode_head_to-Heads on_msg between further h (mid fmt time h bh m) further-Fits in
        (
          head,
          c.written,
          c.sized,
          λ rest. subst (λ x. Advances on_msg between head rest x) same_place (c.advances rest),
        )

write_chunks_nil :
    (fuel n : ℕ) (chk : ChunkPacket) (bytes : List ℕ)
    → length bytes ≡ 0
    → write_chunks fuel n chk bytes ≡ ok []
unfolding write_chunks
write_chunks_nil zero n chk [] e = refl
write_chunks_nil (suc fuel) n chk [] e = refl
write_chunks_nil fuel n chk (x ∷ xs) e = absurd (omega arith)

pub write_chunks_step :
    (fuel n : ℕ) (chk : ChunkPacket) (bytes head more : List ℕ)
    → 0 < length bytes
    → encode_head_to chk ≡ ok head
    → write_chunks fuel n (continuation chk) (drop n bytes) ≡ ok more
    → write_chunks (suc fuel) n chk bytes ≡ ok (head ++ (take n bytes ++ more))
unfolding write_chunks
write_chunks_step fuel n chk [] head more h e f = absurd (omega arith)
write_chunks_step fuel n chk (x ∷ xs) head more h e f = rw (e, f)

-- How many chunks carry `len` bytes.
abbrev pub chunk_count : ℕ → ℕ → ℕ
chunk_count n len = (len + n - 1) / n

chunk_count_zero : (n len : ℕ) → 0 < n → len ≡ 0 → chunk_count n len ≡ 0
chunk_count_zero n len p e = div-eq_of_lt (omega arith)

pub chunk_count_step :
    (n len : ℕ) → 0 < n → 0 < len → chunk_count n len ≡ chunk_count n (len - n) + 1
chunk_count_step n len p h =
    ap (λ (x : ℕ). x / n) (let e : len + n - 1 ≡ len - 1 + n = omega arith in e)
    ∙ add-div_right (len - 1) p
    ∙ ap (λ (x : ℕ). x + 1)
        (elim (dec_le len n) [
          | yes l ↦
              div-eq_of_lt {n = len - 1} {m = n} (omega arith)
              ∙ sym (chunk_count_zero n (len - n) p (omega arith))
          | no l ↦ ap (λ (x : ℕ). x / n) (omega arith)
        ])

-- The message of the bytes that came before and of those still to come.
regroup : (m bytes : List ℕ) (n : ℕ) → (m ++ take n bytes) ++ drop n bytes ≡ m ++ bytes
regroup m bytes n =
    append_assoc m (take n bytes) (drop n bytes) ∙ ap (λ x. m ++ x) (take-append-drop n bytes)

module _ (on_msg : RtmpMessage → Option ChunkError) (fmt time : ℕ) (h : ChunkMsgHead)
    (v : Message.IsValid h) (r : Reader) (k held : ℕ) (low : 2 ≤ k) (high : k ≤ max_csid)
    (some_size : 0 < r.chunk_size)
    (room : (r.max_buffered_msg_len ≡ 0) ⊎ (held + h.msg_len ≤ r.max_buffered_msg_len))
    (body : List ℕ) (size : ℕ)
    (sized : head_size
        (record { basic = record { fmt = 3; csid = k }; msg_hdr = h; payload = body })
      ≡ ok size) where
  abbrev cont : ChunkPacket
  cont = record { basic = record { fmt = 3; csid = k }; msg_hdr = h; payload = body }

  -- From the payload of a chunk on: the rest of the chunks is written, in the size that `writeData`
  -- computes, and the parser hands on the message.
  pub record Finishes (fuel : ℕ) (bh : BasicHead) (m bytes out : List ℕ) (bh' : BasicHead)
      : Type 0 where
    pub written : write_chunks fuel r.chunk_size cont (drop r.chunk_size bytes) ≡ ok out
    pub counted :
        length out
        ≡ chunk_count r.chunk_size (length bytes - r.chunk_size) * size
          + (length bytes - r.chunk_size)
    pub delivered :
        (rest : List ℕ)
        → Delivers on_msg
            (at_payload fmt time h r k held bh m)
            (take r.chunk_size bytes ++ out)
            rest
            (message_of fmt time h (m ++ bytes))
            (inside (record r { buffered = held }) k (ended fmt time h bh') basic_head)

  last_chunk :
      (fuel : ℕ) (bh : BasicHead) (m bytes : List ℕ)
      → 0 < length bytes
      → length m + length bytes ≡ h.msg_len
      → length bytes ≤ r.chunk_size
      → Finishes fuel bh m bytes [] bh
  last_chunk fuel bh m bytes p e l = record {
    written =
        write_chunks_nil fuel r.chunk_size cont (drop r.chunk_size bytes)
          (omega (arith, length-drop r.chunk_size bytes));
    counted = omega (
      arith,
      ap (λ (t : ℕ). t * size)
          (chunk_count_zero r.chunk_size (length bytes - r.chunk_size) some_size (omega arith)),
    );
    delivered = λ rest.
        rw (take_all r.chunk_size bytes l, append-nil)
          (round-Delivers on_msg _ _ bytes rest _ p (
            message_end fmt time h r k held bh m bytes rest (omega (arith, v)) room (omega arith)
              (omega arith) e));
  }

  further_chunk :
      (fuel : ℕ) (bh bh' : BasicHead) (m bytes out : List ℕ)
      → length m + length bytes ≡ h.msg_len
      → r.chunk_size < length bytes
      → Finishes fuel
          (record { fmt = 3; csid = k })
          (m ++ take r.chunk_size bytes)
          (drop r.chunk_size bytes)
          out
          bh'
      → (out' : List ℕ) × Finishes (suc fuel) bh m bytes out' bh'
  further_chunk fuel bh bh' m bytes out e l ih =
      let n = r.chunk_size in
      let d = drop n bytes in
      let m' = m ++ take n bytes in
      let lt : length (take n bytes) ≡ n = omega (arith, length-take n bytes) in
      let ld : length d ≡ length bytes - n = length-drop n bytes in
      let (head, w, sz, adv) =
        further_head on_msg fmt time h v r k held low high bh m'
          (omega (arith, length-append m (take n bytes))) in
      let q : length head ≡ size = cc (sz body) in
      (
        head ++ (take n d ++ out),
        record {
          written = write_chunks_step fuel n cont d head out (omega arith) (w body) ih.written;
          counted = omega (
            arith,
            q,
            length-append head (take n d ++ out),
            length-append (take n d) out,
            length-take n d,
            ih.counted,
            ap (λ (t : ℕ). chunk_count n (t - n) * size) ld,
            ap (λ (t : ℕ). t * size)
                (chunk_count_step n (length bytes - n) some_size (omega arith)),
          );
          delivered = λ rest.
              advance-Delivers on_msg (take n bytes) (head ++ (take n d ++ out)) rest _
                (round-Advances on_msg _ _ (take n bytes) ((head ++ (take n d ++ out)) ++ rest)
                  (omega arith)
                  (chunk_end fmt time h r k held bh m (take n bytes) _ (omega (arith, v)) room
                    (omega arith) (omega arith) (omega arith)))
                (advance-Delivers on_msg head (take n d ++ out) rest _
                  (adv ((take n d ++ out) ++ rest))
                  (subst
                    (λ x.
                      Delivers on_msg
                        (at_payload fmt time h r k held (record { fmt = 3; csid = k }) m')
                        (take n d ++ out) rest (message_of fmt time h x)
                        (inside (record r { buffered = held }) k (ended fmt time h bh') basic_head))
                    (regroup m bytes n) (ih.delivered rest)));
        },
      )

  pub write_chunks-Finishes :
      (fuel : ℕ) (bh : BasicHead) (m bytes : List ℕ)
      → 0 < length bytes
      → length m + length bytes ≡ h.msg_len
      → length bytes ≤ fuel + r.chunk_size
      → (out : List ℕ) × (bh' : BasicHead) × Finishes fuel bh m bytes out bh'
  write_chunks-Finishes zero bh m bytes p e l =
      ([], bh, last_chunk zero bh m bytes p e (omega arith))
  write_chunks-Finishes (suc fuel) bh m bytes p e l = elim (dec_le (length bytes) r.chunk_size) [
    | yes c ↦ ([], bh, last_chunk (suc fuel) bh m bytes p e c)
    | no c ↦
        let n = r.chunk_size in
        let (out, bh', ih) =
          write_chunks-Finishes fuel (record { fmt = 3; csid = k }) (m ++ take n bytes)
            (drop n bytes) (omega (arith, length-drop n bytes))
            (omega
              (arith, length-append m (take n bytes), length-take n bytes, length-drop n bytes))
            (omega (arith, length-drop n bytes)) in
        let (out', f) = further_chunk fuel bh bh' m bytes out e (omega arith) ih in (out', bh', f)
  ]
