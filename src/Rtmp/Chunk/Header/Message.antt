-- ===== src/Rtmp/Chunk/Header/Message.antt =====
-- The message header in its four formats: what `encodeTo` writes is what `decode` reads over the
-- header of the stream's last message.
use gomediautils.Prelude.{
  ℕ, zero, suc, ◌*◌, ◌^◌, ◌≤◌, ◌<◌, ◌≡◌, refl, sym, ap, ◌∙◌, List, [], ◌∷◌, ◌++◌, arith, length,
  drop, append-nil, bit_or, ok, if◌then◌else◌, leb, Bool-cases, inl, inr,
}
use gomediautils.Prelude.Bytes.{
  IsByte, IsU32, u24_be, u32_le, or_bytes₃, byte_at, read_u32_le-u32_le,
}
use gomediautils.Rtmp.Chunk.Header.{
  ChunkMsgHead, chunk_type, has_extended_ts, timestamp_field, msg_head_encode_to, msg_head_decode,
  decode_timestamp, decode_length,
}

pub record IsValid (h : ChunkMsgHead) : Type 0 where
  pub timestamp_fits : IsU32 h.timestamp
  pub len_fits : h.msg_len < 2 ^ 24
  pub type_fits : IsByte h.msg_type_id
  pub stream_fits : IsU32 h.msg_stream_id

-- The number in the timestamp field.
abbrev pub wire_timestamp : ChunkMsgHead → ℕ
wire_timestamp h = if leb 0x00ffffff h.timestamp then 0x00ffffff else h.timestamp

-- The two headers have the same fields where format `format` leaves them out.
pub record Agrees (format : ℕ) (last h : ChunkMsgHead) : Type 0 where
  pub same_stream : 1 ≤ format → last.msg_stream_id ≡ h.msg_stream_id
  pub same_len : 2 ≤ format → last.msg_len ≡ h.msg_len
  pub same_type : 2 ≤ format → last.msg_type_id ≡ h.msg_type_id
  pub same_timestamp : 3 ≤ format → last.timestamp ≡ h.timestamp

-- What `decode` makes of the header `h` sent in format `format`.
abbrev pub received : ℕ → ChunkMsgHead → ChunkMsgHead
received format h = if leb 3 format then h else record h { timestamp = wire_timestamp h }

pub record Encodes (format : ℕ) (last h : ChunkMsgHead) (bytes : List ℕ) : Type 0 where
  pub written : msg_head_encode_to format h ≡ ok bytes
  pub sized : chunk_type format ≡ ok (length bytes)
  pub read : msg_head_decode format last bytes ≡ ok (received format h)
  pub nonempty : format < 3 → 0 < length bytes
  pub empty : 3 ≤ format → bytes ≡ []

-- Three bytes that spell `v`, read back.
pub or_u24 :
    (v : ℕ)
    → v < 2 ^ 24
    → bit_or (bit_or (byte_at v 16 * 2 ^ 16) (byte_at v 8 * 2 ^ 8)) (byte_at v 0) ≡ v
or_u24 v h =
    or_bytes₃ (byte_at v 16) (byte_at v 8) (byte_at v 0) (omega arith) (omega arith) ∙ omega arith

pub head_ext :
    (a b : ChunkMsgHead)
    → a.timestamp ≡ b.timestamp
    → a.msg_len ≡ b.msg_len
    → a.msg_type_id ≡ b.msg_type_id
    → a.msg_stream_id ≡ b.msg_stream_id
    → a ≡ b
head_ext a b p q r s =
    λ i. record { timestamp = p i; msg_len = q i; msg_type_id = r i; msg_stream_id = s i }

timestamp_field_lem : (h : ChunkMsgHead) → timestamp_field h ≡ u24_be (wire_timestamp h)
unfolding timestamp_field u24_be has_extended_ts
timestamp_field_lem h = elim (Bool-cases (leb 0x00ffffff h.timestamp)) [
  | inl e ↦ rw e
  | inr e ↦ rw e
]

wire_timestamp-lt : (h : ChunkMsgHead) → wire_timestamp h < 2 ^ 24
wire_timestamp-lt h = ground arith

decode_timestamp_lem :
    (h : ChunkMsgHead) (v : ℕ) (rest : List ℕ)
    → v < 2 ^ 24
    → decode_timestamp h (u24_be v ++ rest) ≡ ok (record h { timestamp = v })
unfolding decode_timestamp u24_be
decode_timestamp_lem h v rest k = ap (λ (t : ℕ). ok (record h { timestamp = t })) (or_u24 v k)

decode_length_lem :
    (h : ChunkMsgHead) (v n t : ℕ) (rest : List ℕ)
    → v < 2 ^ 24
    → n < 2 ^ 24
    → decode_length h (u24_be v ++ (u24_be n ++ (t ∷ rest)))
      ≡ ok (record h { timestamp = v; msg_len = n; msg_type_id = t })
unfolding decode_length decode_timestamp u24_be
decode_length_lem h v n t rest k l = rw (or_u24 v k, or_u24 n l)

drop_fields : (a b t : ℕ) (rest : List ℕ) → drop 7 (u24_be a ++ (u24_be b ++ (t ∷ rest))) ≡ rest
unfolding u24_be
drop_fields a b t rest = refl

module _ (last h : ChunkMsgHead) (v : IsValid h) where
  form_zero :
      Encodes 0 last h (
        u24_be (wire_timestamp h) ++ (u24_be h.msg_len ++ (h.msg_type_id ∷ u32_le h.msg_stream_id)))
  form_zero = record {
    written = unfold msg_head_encode_to u24_be in rw timestamp_field_lem (unfold u24_be in refl);
    sized = unfold chunk_type u24_be u32_le in refl;
    read =
        unfold msg_head_decode in
        rw (drop_fields, rw append-nil at (read_u32_le-u32_le h.msg_stream_id [] v.stream_fits))
          (decode_length_lem (record last { msg_stream_id = h.msg_stream_id }) (wire_timestamp h)
            h.msg_len h.msg_type_id (u32_le h.msg_stream_id) (wire_timestamp-lt h) v.len_fits);
    nonempty = λ _. unfold u24_be in omega arith;
    empty = λ k. absurd (omega arith);
  }

  form_one :
      Agrees 1 last h
      → Encodes 1 last h (u24_be (wire_timestamp h) ++ (u24_be h.msg_len ++ (h.msg_type_id ∷ [])))
  form_one a = record {
    written = unfold msg_head_encode_to u24_be in rw timestamp_field_lem (unfold u24_be in refl);
    sized = unfold chunk_type u24_be in refl;
    read =
        unfold msg_head_decode in
        (decode_length_lem last (wire_timestamp h) h.msg_len h.msg_type_id [] (wire_timestamp-lt h)
            v.len_fits
          ∙ ap ok (head_ext _ _ refl refl refl (a.same_stream (omega arith))));
    nonempty = λ _. unfold u24_be in omega arith;
    empty = λ k. absurd (omega arith);
  }

  form_two : Agrees 2 last h → Encodes 2 last h (u24_be (wire_timestamp h))
  form_two a = record {
    written = unfold msg_head_encode_to in rw timestamp_field_lem;
    sized = unfold chunk_type u24_be in refl;
    read =
        unfold msg_head_decode in
        (ap (decode_timestamp last) (sym (append-nil (u24_be (wire_timestamp h))))
          ∙ decode_timestamp_lem last (wire_timestamp h) [] (wire_timestamp-lt h)
          ∙ ap ok (
              head_ext _ _ refl (a.same_len (omega arith)) (a.same_type (omega arith))
                (a.same_stream (omega arith))));
    nonempty = λ _. unfold u24_be in omega arith;
    empty = λ k. absurd (omega arith);
  }

  form_three : Agrees 3 last h → Encodes 3 last h []
  form_three a = record {
    written = unfold msg_head_encode_to in refl;
    sized = unfold chunk_type in refl;
    read =
        unfold msg_head_decode in
        ap ok (
          head_ext last h (a.same_timestamp (omega arith)) (a.same_len (omega arith))
            (a.same_type (omega arith)) (a.same_stream (omega arith)));
    nonempty = λ k. absurd (omega arith);
    empty = λ _. refl;
  }

-- In each of the four formats `encodeTo` writes a header of `ChunkType[format]` bytes, from which
-- `decode` gives the header back, up to the timestamp that the extended field carries.
pub msg_head_encode_to-Encodes :
    (format : ℕ) (last h : ChunkMsgHead)
    → format < 4
    → IsValid h
    → Agrees format last h
    → (bytes : List ℕ) × Encodes format last h bytes
msg_head_encode_to-Encodes zero last h k v a = (_, form_zero last h v)
msg_head_encode_to-Encodes (suc zero) last h k v a = (_, form_one last h v a)
msg_head_encode_to-Encodes (suc (suc zero)) last h k v a = (_, form_two last h v a)
msg_head_encode_to-Encodes (suc (suc (suc zero))) last h k v a = (_, form_three last h v a)
msg_head_encode_to-Encodes (suc (suc (suc (suc n)))) last h k v a = absurd (omega arith)
