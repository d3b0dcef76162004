-- ===== src/Rtp/Packet/Whole.antt =====
-- `RtpPacket.Encode` and `RtpPacket.Decode`: a whole packet is read back.
use gomediautils.Prelude.{
  ℕ, ◌+◌, ◌-◌, ◌*◌, ◌%◌, ◌^◌, ◌<◌, ◌≡◌, refl, sym, ap, ◌∙◌, ◌⊎◌, inl, inr, arith, List, [], ◌∷◌,
  ◌++◌, append_assoc, append-nil, false, ltb, ◌==◌, le→ltb, ne→==, length, length-append, take,
  drop, take_append, drop_append, Outcome, ok, some, index, ◌>>=◌, if◌then◌else◌,
}
use gomediautils.Prelude.Bytes.{read_u16_be}
use gomediautils.Rtp.Packet.{
  RtpHdr, RtpError, RtpPacket, encode_header, decode_header, need, split_extension, split_padding,
  decode_body, decode_packet, set_flags, encode_packet,
}
use gomediautils.Rtp.Packet.RoundTrip.{
  IsValid, seen, decode_header-encode_header, length-encode_header,
}

-- An extension counts its own words, behind its first two bytes, and the count fits in the
-- sixteen bits that its length in bytes is computed in.
pub record IsExtension (ext : List ℕ) : Type 0 where
  pub words : ℕ
  pub words_small : words < 16383
  pub counts : length ext ≡ 4 + 4 * words
  pub field : (rest : List ℕ) → read_u16_be (drop 2 (ext ++ rest)) ≡ some words

-- A padding ends in its own length.
pub record IsPadding (pad : List ℕ) : Type 0 where
  pub front : List ℕ
  pub ends : pad ≡ front ++ (length pad ∷ [])

pub record IsWhole (pkg : RtpPacket) : Type 0 where
  pub head : IsValid pkg.header
  pub extension : (pkg.extensions ≡ [] × pkg.header.extension_flag ≡ 0) ⊎ IsExtension pkg.extensions
  pub padded : (pkg.padding ≡ [] × pkg.header.padding_flag ≡ 0) ⊎ IsPadding pkg.padding

split_extension_lem :
    (ext rest : List ℕ) → IsExtension ext → split_extension (ext ++ rest) ≡ ok (ext, rest)
unfolding split_extension
split_extension_lem ext rest e =
    let n = length-append ext rest in
    let c = e.counts in
    let s = e.words_small in
    let m : (4 + 4 * e.words) % 2 ^ 16 ≡ length ext = omega arith in
    let a : ltb (length (ext ++ rest)) 4 ≡ false = le→ltb _ _ (omega arith) in
    let b : ltb (length (ext ++ rest) - 4) (e.words * 4) ≡ false = le→ltb _ _ (omega arith) in
    rw (
      a,
      e.field rest,
      need,
      ◌>>=◌,
      b,
      m,
      take_append ext rest (length ext) refl,
      drop_append ext rest (length ext) refl,
    )

index-last : (xs : List ℕ) (v : ℕ) → index {E = RtpError} (xs ++ (v ∷ [])) (length xs) ≡ ok v
index-last [] v = refl
index-last (x ∷ xs) v = index-last xs v

split_padding_lem :
    (body pad : List ℕ) → IsPadding pad → split_padding (body ++ pad) ≡ ok (body, pad)
unfolding split_padding
split_padding_lem body pad p =
    let n = length-append body pad in
    let m : length pad ≡ length p.front + 1 =
      ap (λ (xs : List ℕ). length xs) p.ends ∙ length-append p.front (length pad ∷ []) in
    let k = length-append body p.front in
    let whole : body ++ pad ≡ (body ++ p.front) ++ (length pad ∷ []) =
      ap (λ (xs : List ℕ). body ++ xs) p.ends ∙ sym (append_assoc body p.front (length pad ∷ [])) in
    let at : index {E = RtpError} (body ++ pad) (length (body ++ pad) - 1) ≡ ok (length pad) =
      ap (λ (i : ℕ). index {E = RtpError} (body ++ pad) i) (omega arith)
      ∙ ap (λ (xs : List ℕ). index {E = RtpError} xs (length (body ++ p.front))) whole
      ∙ index-last (body ++ p.front) (length pad) in
    let a : (length (body ++ pad) == 0) ≡ false = ne→== _ _ (omega arith) in
    let b : ltb (length (body ++ pad)) (length pad) ≡ false = le→ltb _ _ (omega arith) in
    let t : take (length (body ++ pad) - length pad) (body ++ pad) ≡ body =
      take_append body pad _ (omega arith) in
    let d : drop (length (body ++ pad) - length pad) (body ++ pad) ≡ pad =
      drop_append body pad _ (omega arith) in
    rw (a, at, ◌>>=◌, b, t, d)

-- The header that `Encode` writes has the flags that the parts ask for.
set_flags-IsValid : (pkg : RtpPacket) → IsWhole pkg → IsValid (set_flags pkg).header
unfolding set_flags
set_flags-IsValid pkg w =
    let v = w.head in
    record {
      padding_small = ground (arith, v.padding_small);
      extension_small = ground (arith, v.extension_small);
      marker_small = v.marker_small;
      type_small = v.type_small;
      sequence_u16 = v.sequence_u16;
      timestamp_u32 = v.timestamp_u32;
      ssrc_u32 = v.ssrc_u32;
      few_csrc = v.few_csrc;
      csrc_u32 = v.csrc_u32;
    }

-- The body is read back when the flags say what parts there are.
decode_body-parts :
    (pkg : RtpPacket) (ext body pad : List ℕ)
    → (ext ≡ [] × pkg.header.extension_flag ≡ 0) ⊎ (IsExtension ext × pkg.header.extension_flag ≡ 1)
    → (pad ≡ [] × pkg.header.padding_flag ≡ 0) ⊎ (IsPadding pad × pkg.header.padding_flag ≡ 1)
    → pkg.extensions ≡ []
    → pkg.padding ≡ []
    → decode_body pkg (ext ++ (body ++ pad))
      ≡ (ok tt, record pkg { extensions = ext; payload = body; padding = pad })
unfolding decode_body
decode_body-parts pkg ext body pad x p e0 p0 =
    let ex : (if ltb 0 pkg.header.extension_flag
          then split_extension (ext ++ (body ++ pad))
          else ok (pkg.extensions, ext ++ (body ++ pad)))
        ≡ ok (ext, body ++ pad) =
      elim x [
        | inl (n, f) ↦ rw (n, f, e0)
        | inr (i, f) ↦ rw (f, split_extension_lem ext (body ++ pad) i)
      ] in
    let pd : (if ltb 0 pkg.header.padding_flag
          then split_padding (body ++ pad)
          else ok (body ++ pad, pkg.padding))
        ≡ ok (body, pad) =
      elim p [
        | inl (n, f) ↦ rw (n, f, p0, append-nil body)
        | inr (i, f) ↦ rw (f, split_padding_lem body pad i)
      ] in
    rw (decode_body, ex, pd)

-- The flags that `Encode` writes say what parts there are.
flag-extension :
    (pkg : RtpPacket)
    → IsWhole pkg
    → (pkg.extensions ≡ [] × (set_flags pkg).header.extension_flag ≡ 0)
      ⊎ (IsExtension pkg.extensions × (set_flags pkg).header.extension_flag ≡ 1)
unfolding set_flags
flag-extension pkg w = elim w.extension [
  | inl (n, f) ↦
      let n' : length pkg.extensions ≡ 0 = ap (λ (xs : List ℕ). length xs) n in
      inl (n, ground (arith, n', f))
  | inr e ↦ let c = e.counts in inr (e, ground (arith, c))
]

flag-padding :
    (pkg : RtpPacket)
    → IsWhole pkg
    → (pkg.padding ≡ [] × (set_flags pkg).header.padding_flag ≡ 0)
      ⊎ (IsPadding pkg.padding × (set_flags pkg).header.padding_flag ≡ 1)
unfolding set_flags
flag-padding pkg w = elim w.padded [
  | inl (n, f) ↦
      let n' : length pkg.padding ≡ 0 = ap (λ (xs : List ℕ). length xs) n in
      inl (n, ground (arith, n', f))
  | inr p ↦
      let m : length pkg.padding ≡ length p.front + 1 =
        ap (λ (xs : List ℕ). length xs) p.ends ∙ length-append p.front (length pkg.padding ∷ []) in
      inr (p, ground (arith, m))
]

-- A packet without extension, payload and padding, as a reader starts from.
abbrev pub fresh : RtpHdr → RtpPacket
fresh head = record { header = head; extensions = []; payload = []; padding = [] }

-- The packet as a reader sees it.
unfoldable pub received : RtpPacket → RtpPacket
received pkg = record pkg { header = seen (set_flags pkg).header }

decode_packet_steps :
    (pkg : RtpPacket) (bytes : List ℕ) (n : ℕ) (head : RtpHdr)
    → decode_header pkg.header bytes ≡ (ok n, head)
    → decode_packet pkg bytes ≡ decode_body (record pkg { header = head }) (drop n bytes)
unfolding decode_packet
decode_packet_steps pkg bytes n head h =
    let h1 : (decode_header pkg.header bytes).1 ≡ head =
      ap (λ (r : Outcome RtpError ℕ × RtpHdr). r.1) h in
    rw (decode_packet, h, h1)

-- A packet whose header fields fit, whose extension counts its own words and whose padding ends in
-- its own length, or that has none and does not flag it, is read back into a packet without parts:
-- the same extension, payload and padding, and the header with the flags that `Encode` sets,
-- version 2 and the count of its CSRCs.
pub decode_packet-encode_packet :
    (pkg : RtpPacket) (old : RtpHdr)
    → IsWhole pkg
    → decode_packet (fresh old) (encode_packet pkg).0 ≡ (ok tt, received pkg)
unfolding encode_packet received seen set_flags
decode_packet-encode_packet pkg old w =
    let head = (set_flags pkg).header in
    let body = pkg.extensions ++ (pkg.payload ++ pkg.padding) in
    let h = decode_header-encode_header old head body (set_flags-IsValid pkg w) in
    let d : drop (12 + 4 * length head.csrc) (encode_header head ++ body) ≡ body =
      drop_append (encode_header head) body _ (sym (length-encode_header head)) in
    let x : (pkg.extensions ≡ [] × (seen head).extension_flag ≡ 0)
        ⊎ (IsExtension pkg.extensions × (seen head).extension_flag ≡ 1) =
      flag-extension pkg w in
    let p : (pkg.padding ≡ [] × (seen head).padding_flag ≡ 0)
        ⊎ (IsPadding pkg.padding × (seen head).padding_flag ≡ 1) =
      flag-padding pkg w in
    let b =
      decode_body-parts (fresh (seen head)) pkg.extensions pkg.payload pkg.padding x p refl refl in
    decode_packet_steps (fresh old) (encode_header head ++ body) _ _ h
    ∙ ap (λ (rest : List ℕ). decode_body (fresh (seen head)) rest) d
    ∙ b
