-- ===== src/Rtmp/Chunk/Header/Basic.antt =====
-- The basic header: what `encodeTo` writes is what `size`, `clacBasicHeadLen` and `decode` read.
use gomediautils.Prelude.{
  ℕ, ◌+◌, ◌-◌, ◌*◌, ◌/◌, ◌%◌, ◌^◌, ◌≤◌, ◌<◌, ◌≡◌, ap, ◌∙◌, List, [], ◌∷◌, ◌++◌, arith, length,
  bit_and, bit_or, ok,
}
use gomediautils.Prelude.Bits.{bit_and_low, bit_or_sum}
use gomediautils.Prelude.Bytes.{u16_le}
use gomediautils.Rtmp.Chunk.Header.{
  BasicHead, basic_size, basic_encode_to, basic_decode, clac_basic_head_len, max_csid,
}
use native.Mathlib.Decide.{dec_lt}

-- Chunk stream ids 0 and 1 stand for the longer forms.
pub record IsValid (bh : BasicHead) : Type 0 where
  pub fmt_small : bh.fmt < 4
  pub csid_low : 2 ≤ bh.csid
  pub csid_high : bh.csid ≤ max_csid

-- `bytes` encodes `bh`, for each function that deals with the encoded form.
pub record Encodes (bh : BasicHead) (bytes : List ℕ) : Type 0 where
  pub written : basic_encode_to bh ≡ ok bytes
  pub sized : basic_size bh ≡ ok (length bytes)
  pub measured : (rest : List ℕ) → clac_basic_head_len (bytes ++ rest) ≡ ok (length bytes)
  pub read : basic_decode bytes ≡ ok bh
  pub nonempty : 0 < length bytes

low_six : (b : ℕ) → bit_and b 0x3F ≡ b % 64
low_six b = bit_and_low 6 b

head_ext : (bh : BasicHead) (f c : ℕ) → f ≡ bh.fmt → c ≡ bh.csid → record { fmt = f; csid = c } ≡ bh
head_ext bh f c p q = λ i. record { fmt = p i; csid = q i }

module _ (bh : BasicHead) (v : IsValid bh) where
  short_first : bh.csid < 64 → bit_or (bh.fmt * 2 ^ 6 % 256) (bh.csid % 256) ≡ bh.fmt * 64 + bh.csid
  short_first h =
      ap (λ (t : ℕ). bit_or t (bh.csid % 256)) (omega (arith, v))
      ∙ bit_or_sum 6 bh.fmt (bh.csid % 256) (omega arith)
      ∙ omega arith

  long_first : bit_or (bh.fmt * 2 ^ 6 % 256) 1 ≡ bh.fmt * 64 + 1
  long_first = ap (λ (t : ℕ). bit_or t 1) (omega (arith, v)) ∙ bit_or_sum 6 bh.fmt 1 (omega arith)

  -- One byte, two and three.
  short_form : bh.csid < 64 → Encodes bh ((bh.fmt * 64 + bh.csid) ∷ [])
  unfolding basic_encode_to basic_size basic_decode clac_basic_head_len
  short_form h = record {
    written = ground (arith, v, short_first h);
    sized = ground arith;
    measured = λ rest. ground (arith, v, low_six (bh.fmt * 64 + bh.csid));
    read = ground (arith, v, low_six (bh.fmt * 64 + bh.csid));
    nonempty = omega arith;
  }

  middle_form : 64 ≤ bh.csid → bh.csid < 320 → Encodes bh ((bh.fmt * 64) ∷ (bh.csid - 64) ∷ [])
  unfolding basic_encode_to basic_size basic_decode clac_basic_head_len
  middle_form h k = record {
    written = ground (arith, v);
    sized = ground arith;
    measured = λ rest. ground (arith, v, low_six (bh.fmt * 64));
    read = ground (arith, v, low_six (bh.fmt * 64));
    nonempty = omega arith;
  }

  long_form :
      320 ≤ bh.csid
      → Encodes bh ((bh.fmt * 64 + 1) ∷ ((bh.csid - 64) % 256) ∷ ((bh.csid - 64) / 256) ∷ [])
  unfolding basic_encode_to basic_size basic_decode clac_basic_head_len u16_le
  long_form h = record {
    written = ground (arith, v, long_first);
    sized = ground (arith, v);
    measured = λ rest. ground (arith, v, low_six (bh.fmt * 64 + 1));
    read = ground (arith, v, low_six (bh.fmt * 64 + 1));
    nonempty = omega arith;
  }

-- For every header with a format below 4 and a chunk stream id from 2 to 65599, `encodeTo` writes
-- bytes from which `decode` gives the header back; `size` is their number, and so is
-- `clacBasicHeadLen` on them, whatever follows.
pub basic_encode_to-Encodes : (bh : BasicHead) → IsValid bh → (bytes : List ℕ) × Encodes bh bytes
basic_encode_to-Encodes bh v = elim (dec_lt bh.csid 64) [
  | yes h ↦ (_, short_form bh v h)
  | no h ↦ elim (dec_lt bh.csid 320) [
    | yes k ↦ (_, middle_form bh v (omega arith) k)
    | no k ↦ (_, long_form bh v (omega arith))
  ]
]
