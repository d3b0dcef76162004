-- ===== src/Codec/BitReader/State.antt =====
-- The invariant of `BitStream`, and what it means to read `n` bits from one.
use gomediautils.Prelude.{
  ℕ, zero, suc, ◌+◌, ◌-◌, ◌*◌, ◌/◌, ◌%◌, ◌^◌, ◌≤◌, ◌<◌, ◌≡◌, refl, ap, ◌∙◌, arith, List, [], ◌∷◌,
  length, drop, All, get_or, drop-eq-cons, length-drop, get_elem?-eq-get_or, some, Bool-cases,
  ==→eq, ◌==◌, inl, inr,
}
use gomediautils.Prelude.Bytes.{IsByte}
use gomediautils.Prelude.Bits.{bit_and_low}
use gomediautils.Prelude.Panics.{◌>>=◌}
use gomediautils.Prelude.Pow.{two-pow-pos}
use native.Mathlib.Nat.{mod-lt, mod-one}
use native.Mathlib.Numerals.{add-one}
use gomediautils.Codec.BitMask.{mask_at_lem}
use gomediautils.Codec.BitReader.{BitStream, remain_bits, get_bits_within, land}
use gomediautils.Codec.BitReader.Value.{be, be_from, be_from-zero, be_from-take}

pub record IsValid (bs : BitStream) : Type 0 where
  pub aligned : bs.bits_offset < 8
  pub inside : bs.bytes_offset * 8 + bs.bits_offset ≤ 8 * length bs.bits
  pub bytes : All IsByte bs.bits

-- What is left to read, as a big-endian number of `remain_bits` binary digits.
abbrev pub rest_value : BitStream → ℕ
rest_value bs = be_from bs.bits_offset (drop bs.bytes_offset bs.bits)

-- `bs'` stands `n` bits behind `bs`, and `v` is the number that these bits spell.
pub record Reads (n : ℕ) (bs : BitStream) (v : ℕ) (bs' : BitStream) : Type 0 where
  pub value : rest_value bs ≡ v * 2 ^ remain_bits bs' + rest_value bs'
  pub small : v < 2 ^ n
  pub moved : remain_bits bs ≡ n + remain_bits bs'
  pub valid : IsValid bs'
  pub bits_kept : bs'.bits ≡ bs.bits
  pub err_kept : bs'.err ≡ bs.err
  pub bits_mark_kept : bs'.bits_mark ≡ bs.bits_mark
  pub byte_mark_kept : bs'.byte_mark ≡ bs.byte_mark

pub remain_bits_lem :
    (bs : BitStream)
    → IsValid bs
    → remain_bits bs + bs.bytes_offset * 8 + bs.bits_offset ≡ 8 * length bs.bits
unfolding remain_bits
remain_bits_lem bs v = ground arith

All-drop : (n : ℕ) (xs : List ℕ) → All IsByte xs → All IsByte (drop n xs)
All-drop zero xs h = h
All-drop (suc n) [] h = h
All-drop (suc n) (x ∷ xs) (p, h) = All-drop n xs h

-- The byte that the stream stands in, and the bytes behind it.
abbrev pub here : BitStream → ℕ
here bs = get_or bs.bits bs.bytes_offset 0

abbrev pub after : BitStream → List ℕ
after bs = drop (suc bs.bytes_offset) bs.bits

module _ (bs : BitStream) (v : IsValid bs) (inside : bs.bytes_offset < length bs.bits) where
  rest_value-land :
      (off m : ℕ)
      → off + m ≡ 8
      → rest_value (land bs off) ≡ here bs % 2 ^ m * 2 ^ (8 * length (after bs)) + be (after bs)
  rest_value-land off m h = elim (Bool-cases (off == 8)) [
    | inl e ↦
        let e' : m ≡ 0 = omega (arith, ==→eq off 8 e) in
        rw (e, e', add-one)
          (be_from-zero (after bs) (All-drop (suc bs.bytes_offset) bs.bits v.bytes)
            ∙ omega (arith, ap (λ (t : ℕ). t * 2 ^ (8 * length (after bs))) (mod-one (here bs))))
    | inr e ↦
        let e' : m ≡ 8 - off = omega arith in
        rw (e, e', drop-eq-cons bs.bits bs.bytes_offset 0 inside) (unfold be_from in refl)
  ]

  remain_bits-land :
      (off m : ℕ) → off + m ≡ 8 → remain_bits (land bs off) ≡ m + 8 * length (after bs)
  unfolding remain_bits
  remain_bits-land off m h = ground (arith, length-drop (suc bs.bytes_offset) bs.bits)

  land-IsValid : (off : ℕ) → off ≤ 8 → IsValid (land bs off)
  land-IsValid off h = ground (arith, v)

  land-value :
      (n m : ℕ)
      → bs.bits_offset + n + m ≡ 8
      → rest_value bs
        ≡ here bs / 2 ^ m % 2 ^ n * 2 ^ remain_bits (land bs (bs.bits_offset + n))
          + rest_value (land bs (bs.bits_offset + n))
  land-value n m h =
      ap (be_from bs.bits_offset) (drop-eq-cons bs.bits bs.bytes_offset 0 inside)
      ∙ be_from-take bs.bits_offset n m (here bs) (after bs) h
      ∙ rw (remain_bits-land (bs.bits_offset + n) m h, rest_value-land (bs.bits_offset + n) m h)

  pub land-Reads :
      (n m : ℕ)
      → bs.bits_offset + n + m ≡ 8
      → Reads n bs (here bs / 2 ^ m % 2 ^ n) (land bs (bs.bits_offset + n))
  land-Reads n m h = record {
    value = land-value n m h;
    small = mod-lt _ (two-pow-pos n);
    moved = omega (
      arith,
      remain_bits-land (bs.bits_offset + n) m h,
      remain_bits_lem bs v,
      length-drop (suc bs.bytes_offset) bs.bits,
    );
    valid = land-IsValid _ (omega arith);
    bits_kept = ground arith;
    err_kept = ground arith;
    bits_mark_kept = ground arith;
    byte_mark_kept = ground arith;
  }

  pub get_bits_within_lem :
      (n m : ℕ)
      → bs.bits_offset + suc n + m ≡ 8
      → get_bits_within bs (suc n)
        ≡ some (here bs / 2 ^ m % 2 ^ suc n, land bs (bs.bits_offset + suc n))
  unfolding get_bits_within
  get_bits_within_lem n m h =
      let e : suc n - 1 ≡ n = omega arith in
      let e' : 8 - bs.bits_offset - suc n ≡ m = omega arith in
      rw (
        get_elem?-eq-get_or bs.bits bs.bytes_offset 0 inside,
        ◌>>=◌,
        e,
        mask_at_lem n (omega arith),
        ◌>>=◌,
        e',
        bit_and_low (suc n),
      )
