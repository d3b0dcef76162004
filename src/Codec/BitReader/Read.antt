-- ===== src/Codec/BitReader/Read.antt =====
-- `GetBits`, `GetBit`, `SkipBits` and `NextBits` against the number that is left to read.
use gomediautils.Prelude.{
  ℕ, zero, suc, ◌+◌, ◌-◌, ◌/◌, ◌%◌, ◌^◌, ◌≤◌, ◌<◌, ◌≡◌, refl, ap, ◌∙◌, arith, length, some, none,
  false, get_elem?-eq-get_or, eq→==, ne→==, le→ltb, lt→leb, le→leb,
}
use gomediautils.Prelude.Bits.{bit_and_low}
use gomediautils.Prelude.Int.{pos}
use gomediautils.Prelude.Panics.{◌>>=◌}
use gomediautils.Codec.BitMask.{mask_at_lem}
use gomediautils.Codec.BitReader.{
  BitStream, remain_bits, get_bits_loop, land, get_bits, get_bits_within, get_bits_across, failed,
}
use gomediautils.Codec.BitReader.State.{IsValid, Reads, here, land-Reads, get_bits_within_lem}
use gomediautils.Codec.BitReader.Compose.{
  zero-Reads, append-Reads, inside_of_remain, get_bits_loop_lem,
}
use mathlib.Core.Path.{subst₂}
use native.Mathlib.Decide.{dec_le, ℕ_discrete}

within-Reads :
    (bs : BitStream) (n : ℕ)
    → IsValid bs
    → 0 < n
    → n ≤ remain_bits bs
    → n ≤ 8 - bs.bits_offset
    → (r : ℕ × BitStream) × (get_bits_within bs n ≡ some r) × Reads n bs r.0 r.1
within-Reads bs zero v z hr h = absurd (omega arith)
within-Reads bs (suc n) v z hr h =
    let i = inside_of_remain bs v (omega arith) in
    let m = 8 - bs.bits_offset - suc n in
    (
      _,
      get_bits_within_lem bs v i n m (omega (arith, v)),
      land-Reads bs v i (suc n) m (omega (arith, v)),
    )

-- The rest of the current byte, `k` bits of it.
byte_rest-Reads :
    (bs : BitStream) (k : ℕ)
    → IsValid bs
    → bs.bytes_offset < length bs.bits
    → bs.bits_offset + k ≡ 8
    → Reads k bs (here bs % 2 ^ k) (land bs 8)
byte_rest-Reads bs k v i e =
    let whole : here bs / 2 ^ 0 % 2 ^ k ≡ here bs % 2 ^ k =
      ap (λ (t : ℕ). t % 2 ^ k) (omega arith) in
    subst₂ (λ t o. Reads k bs t (land bs o)) whole e (land-Reads bs v i k 0 (omega arith))

get_bits_across_lem :
    (bs : BitStream) (n j : ℕ)
    → bs.bytes_offset < length bs.bits
    → bs.bits_offset + suc j ≡ 8
    → get_bits_across bs n ≡ get_bits_loop 9 (n - suc j) (here bs % 2 ^ suc j) (land bs 8)
unfolding get_bits_across
get_bits_across_lem bs n j i e =
    let e' : 8 - bs.bits_offset ≡ suc j = omega arith in
    let e'' : suc j - 1 ≡ j = omega arith in
    rw (
      get_elem?-eq-get_or bs.bits bs.bytes_offset 0 i,
      ◌>>=◌,
      e',
      e'',
      mask_at_lem j (omega arith),
      ◌>>=◌,
      bit_and_low (suc j),
    )

-- The rest of the current byte, and then the loop.
across-Reads :
    (bs : BitStream) (n : ℕ)
    → IsValid bs
    → n ≤ 64
    → n ≤ remain_bits bs
    → 8 - bs.bits_offset < n
    → (r : ℕ × BitStream) × (get_bits_across bs n ≡ some r) × Reads n bs r.0 r.1
across-Reads bs n v h hr w =
    let i = inside_of_remain bs v (omega arith) in
    let j = 7 - bs.bits_offset in
    let e : bs.bits_offset + suc j ≡ 8 = omega (arith, v) in
    let q = byte_rest-Reads bs (suc j) v i e in
    let (r, eq, l) =
      get_bits_loop_lem 9 (n - suc j) (here bs % 2 ^ suc j) (suc j) (land bs 8) q.valid refl q.small
        (omega arith) (omega (arith, q.moved)) (omega arith) in
    (
      _,
      get_bits_across_lem bs n j i e ∙ eq,
      append-Reads (suc j) (n - suc j) n (here bs % 2 ^ suc j) r.0 (omega arith) q l,
    )

pub failed_of_none : (bs : BitStream) → bs.err ≡ none → failed bs ≡ false
unfolding failed
failed_of_none bs e = ground arith

-- On a valid stream without error, a read of at most 64 bits that are there returns the number that
-- they spell and moves behind them; the stream stays valid, with its buffer, marks and error.
pub get_bits-Reads :
    (bs : BitStream) (n : ℕ)
    → IsValid bs
    → bs.err ≡ none
    → n ≤ 64
    → n ≤ remain_bits bs
    → (r : ℕ × BitStream) × (get_bits bs (pos n) ≡ some r) × Reads n bs r.0 r.1
unfolding get_bits
get_bits-Reads bs n v e h hr = elim (ℕ_discrete n 0) [
  | yes z ↦ ((0, bs), rw (failed_of_none bs e, le→ltb 64 n h, eq→== n 0 z), zero-Reads n bs z v)
  | no z ↦ elim (dec_le n (8 - bs.bits_offset)) [
    | yes w ↦
        rw
          (
            failed_of_none bs e,
            le→ltb 64 n h,
            ne→== n 0 z,
            le→ltb (remain_bits bs) n hr,
            le→leb _ _ w,
          )
          (within-Reads bs n v (omega arith) hr w)
    | no w ↦
        rw
          (
            failed_of_none bs e,
            le→ltb 64 n h,
            ne→== n 0 z,
            le→ltb (remain_bits bs) n hr,
            lt→leb n (8 - bs.bits_offset) (omega arith),
          )
          (across-Reads bs n v h hr (omega arith))
  ]
]
