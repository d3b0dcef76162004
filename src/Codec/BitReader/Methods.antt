-- ===== src/Codec/BitReader/Methods.antt =====
-- `GetBit`, `SkipBits`, `UnRead` and `NextBits` beside `GetBits`.
use gomediautils.Prelude.{
  ℕ, ◌+◌, ◌-◌, ◌*◌, ◌/◌, ◌%◌, ◌^◌, ◌≤◌, ◌<◌, ◌≡◌, sym, ap, ◌∙◌, arith, length, some, none,
  get_elem?-eq-get_or, Bool-cases, Option-cases, min, ◌⊎◌, inl, inr, eq→==, ne→==, le→ltb, lt→leb,
  le→leb, lt→ltb, ltb→lt, ltb→le, leb→le, leb→lt, leb, ltb, true,
}
use gomediautils.Prelude.Bits.{bit_and_low}
use gomediautils.Prelude.Int.{ℤ, pos, negsuc}
use gomediautils.Prelude.Panics.{◌>>=◌}
use gomediautils.Codec.BitMask.{StreamError}
use gomediautils.Codec.BitReader.{
  BitStream, remain_bits, land, get_bits, get_bits_within, failed, set_err, get_bit, skip_bits,
  next_bits, unread,
}
use gomediautils.Codec.BitReader.State.{IsValid, Reads, here, remain_bits_lem, get_bits_within_lem}
use gomediautils.Codec.BitReader.Compose.{inside_of_remain}
use gomediautils.Codec.BitReader.Read.{get_bits-Reads, failed_of_none}
use native.Mathlib.Decide.{dec_lt, dec_le}

set_err-IsValid : (bs : BitStream) → IsValid bs → IsValid (set_err bs)
unfolding set_err
set_err-IsValid bs v = ground (arith, v)

pub failed_of_some : (bs : BitStream) {e : StreamError} → bs.err ≡ some e → failed bs ≡ true
unfolding failed
failed_of_some bs f = ground arith

module _ (bs : BitStream) (n : ℕ) where
  get_bits-failed : failed bs ≡ true → get_bits bs (pos n) ≡ some (0, bs)
  unfolding get_bits
  get_bits-failed f = rw f

  -- A count above 64, or above what is left, sets the error and moves nothing.
  pub get_bits_refused :
      bs.err ≡ none → ((64 < n) ⊎ (remain_bits bs < n)) → get_bits bs (pos n) ≡ some (0, set_err bs)
  unfolding get_bits
  get_bits_refused e h = elim (dec_lt 64 n) [
    | yes w ↦ rw (failed_of_none bs e, lt→ltb 64 n w)
    | no w ↦ rw (
      failed_of_none bs e,
      le→ltb 64 n (omega arith),
      ne→== n 0 (omega arith),
      lt→ltb (remain_bits bs) n (omega arith),
    )
  ]

-- Every call of `GetBits`, on any stream that keeps the invariant and for any count, returns: it does
-- not panic, and the stream keeps the invariant.
pub get_bits_total :
    (bs : BitStream) (n : ℤ)
    → IsValid bs
    → (r : ℕ × BitStream) × (get_bits bs n ≡ some r) × IsValid r.1
get_bits_total bs (negsuc n) v = elim (Bool-cases (failed bs)) [
  | inl f ↦ ((0, bs), unfold get_bits in rw f, v)
  | inr f ↦ ((0, set_err bs), unfold get_bits in rw f, set_err-IsValid bs v)
]
get_bits_total bs (pos n) v = elim (Option-cases bs.err) [
  | inr (e, f) ↦ ((0, bs), get_bits-failed bs n (failed_of_some bs f), v)
  | inl e ↦ elim (dec_le n (min 64 (remain_bits bs))) [
    | no w ↦ (
      (0, set_err bs),
      get_bits_refused bs n e (elim (dec_lt 64 n) [ yes h ↦ inl h | no h ↦ inr (omega arith) ]),
      set_err-IsValid bs v,
    )
    | yes w ↦ let (r, g, q) = get_bits-Reads bs n v e (omega arith) (omega arith) in (r, g, q.valid)
  ]
]

stream_ext :
    (a b : BitStream)
    → a.bits ≡ b.bits
    → a.bytes_offset ≡ b.bytes_offset
    → a.bits_offset ≡ b.bits_offset
    → a.bits_mark ≡ b.bits_mark
    → a.byte_mark ≡ b.byte_mark
    → a.err ≡ b.err
    → a ≡ b
stream_ext a b p q r s t u = λ i. record {
  bits = p i;
  bytes_offset = q i;
  bits_offset = r i;
  bits_mark = s i;
  byte_mark = t i;
  err = u i;
}

get_bit_value :
    (bs : BitStream)
    → IsValid bs
    → bs.err ≡ none
    → bs.bytes_offset < length bs.bits
    → get_bit bs ≡ some (here bs / 2 ^ (7 - bs.bits_offset) % 2 ^ 1, land bs (bs.bits_offset + 1))
unfolding get_bit
get_bit_value bs v e i =
    rw
      (
        failed_of_none bs e,
        lt→leb (length bs.bits) bs.bytes_offset i,
        get_elem?-eq-get_or bs.bits bs.bytes_offset 0 i,
        ◌>>=◌,
        bit_and_low 1,
      )
      (elim (Bool-cases (leb 8 (bs.bits_offset + 1))) [
        | inl h ↦ rw (h, eq→== (bs.bits_offset + 1) 8 (omega (arith, v, leb→le _ _ h)))
        | inr h ↦ rw (h, ne→== (bs.bits_offset + 1) 8 (omega (arith, leb→lt _ _ h)))
      ])

get_bits-one :
    (bs : BitStream)
    → bs.err ≡ none
    → IsValid bs
    → 0 < remain_bits bs
    → get_bits bs (pos 1) ≡ get_bits_within bs 1
unfolding get_bits
get_bits-one bs e v h = rw (
  failed_of_none bs e,
  le→ltb (remain_bits bs) 1 h,
  le→leb 1 (8 - bs.bits_offset) (omega (arith, v)),
)

-- `GetBit` is `GetBits(1)` on every valid stream, with or without an error.
pub get_bit-eq-get_bits : (bs : BitStream) → IsValid bs → get_bit bs ≡ get_bits bs (pos 1)
get_bit-eq-get_bits bs v = elim (Option-cases bs.err) [
  | inr (e, f) ↦
      unfold get_bit in rw (failed_of_some bs f) (sym (get_bits-failed bs 1 (failed_of_some bs f)))
  | inl e ↦ elim (dec_lt 0 (remain_bits bs)) [
    | no w ↦
        unfold get_bit in
        rw
          (
            failed_of_none bs e,
            le→leb (length bs.bits) bs.bytes_offset (omega (arith, remain_bits_lem bs v)),
          )
          (sym (get_bits_refused bs 1 e (inr (omega arith))))
    | yes w ↦
        let i = inside_of_remain bs v w in
        let m : 8 - (bs.bits_offset + 1) ≡ 7 - bs.bits_offset = omega arith in
        get_bit_value bs v e i
        ∙ sym (
            get_bits-one bs e v w
            ∙ get_bits_within_lem bs v i 0 (7 - bs.bits_offset) (omega (arith, v)))
  ]
]

module _ (n : ℕ) {bs bs' : BitStream} (v : ℕ) (a : IsValid bs) (q : Reads n bs v bs') where
  -- Where a read leaves the stream.
  place_lem :
      (bs'.bytes_offset ≡ (bs.bytes_offset * 8 + bs.bits_offset + n) / 8)
      × (bs'.bits_offset ≡ (bs.bytes_offset * 8 + bs.bits_offset + n) % 8)
  place_lem = omega (
    arith,
    remain_bits_lem bs a,
    remain_bits_lem bs' q.valid,
    q.moved,
    ap length q.bits_kept,
    q.valid,
  )

  skip_bits-Reads : bs.err ≡ none → n ≤ remain_bits bs → skip_bits bs (pos n) ≡ bs'
  unfolding skip_bits
  skip_bits-Reads e h =
      rw (failed_of_none bs e, le→ltb (remain_bits bs) n h)
        (elim (Bool-cases (ltb (bs.bits_offset + n % 8) 8)) [
          | inl w ↦ rw w (
              stream_ext _ bs' (sym q.bits_kept) (omega (arith, place_lem, ltb→lt _ _ w))
                (omega (arith, place_lem, ltb→lt _ _ w)) (sym q.bits_mark_kept)
                (sym q.byte_mark_kept) (sym q.err_kept))
          | inr w ↦ rw w (
              stream_ext _ bs' (sym q.bits_kept) (omega (arith, place_lem, a, ltb→le _ _ w))
                (omega (arith, place_lem, a, ltb→le _ _ w)) (sym q.bits_mark_kept)
                (sym q.byte_mark_kept) (sym q.err_kept))
        ])

  -- `UnRead` of as many bits as were read leads back.
  pub unread-Reads : unread bs' (pos n) ≡ bs
  unfolding unread
  unread-Reads = rw (le→ltb (bs'.bytes_offset * 8 + bs'.bits_offset) n (omega (arith, place_lem))) (
      stream_ext _ bs q.bits_kept (omega (arith, place_lem, a)) (omega (arith, place_lem, a))
        q.bits_mark_kept q.byte_mark_kept q.err_kept)

module _ (bs : BitStream) (n : ℕ) (a : IsValid bs) (e : bs.err ≡ none) (h : n ≤ 64)
    (hr : n ≤ remain_bits bs) where
  -- On a valid stream without error, `SkipBits` of at most 64 bits that are there leaves the stream
  -- where `GetBits` does.
  pub skip_bits-get_bits :
      (v : ℕ) (bs' : BitStream) → get_bits bs (pos n) ≡ some (v, bs') → skip_bits bs (pos n) ≡ bs'
  skip_bits-get_bits v bs' g =
      let (r, g', q) = get_bits-Reads bs n a e h hr in
      let p : r ≡ (v, bs') = cc in
      skip_bits-Reads n r.0 a q e hr ∙ ap (λ (t : ℕ × BitStream). t.1) p

  -- On a valid stream without error, `NextBits` of at most 64 bits that are there returns what
  -- `GetBits` would, and leaves the stream as it is.
  pub next_bits-get_bits :
      (v : ℕ) (bs' : BitStream)
      → get_bits bs (pos n) ≡ some (v, bs')
      → next_bits bs (pos n) ≡ some (v, bs)
  unfolding next_bits
  next_bits-get_bits v bs' g =
      let (r, g', q) = get_bits-Reads bs n a e h hr in
      let p : (v, bs') ≡ r = cc in
      let back : unread bs' (pos n) ≡ bs =
        ap (λ (t : ℕ × BitStream). unread t.1 (pos n)) p ∙ unread-Reads n r.0 a q in
      rw (failed_of_none bs e, le→ltb (remain_bits bs) n hr, g, ◌>>=◌, back)
