-- ===== src/Codec/BitReader/Compose.antt =====
-- Reads one after the other, and the byte loop of `GetBits`.
use gomediautils.Prelude.{
  ℕ, zero, suc, ◌+◌, ◌-◌, ◌*◌, ◌/◌, ◌%◌, ◌^◌, ◌≤◌, ◌<◌, ◌≡◌, refl, ap, ◌∙◌, arith, length, some,
  get_elem?-eq-get_or, eq→==, ne→==, lt→leb, le→leb, bit_or, All-get_or,
}
use gomediautils.Prelude.Bits.{bit_and_low, bit_or_sum}
use gomediautils.Prelude.Bytes.{IsByte}
use gomediautils.Prelude.Panics.{◌>>=◌}
use gomediautils.Prelude.Pow.{two-pow-pos, two-pow-add, digits-lt}
use gomediautils.Codec.BitMask.{mask_at_lem}
use gomediautils.Codec.BitReader.{BitStream, remain_bits, get_bits_loop, land}
use gomediautils.Codec.BitReader.State.{IsValid, Reads, here, land-Reads, remain_bits_lem}
use mathlib.Core.Path.{subst₂}
use native.Mathlib.Decide.{dec_lt}
use native.Mathlib.Nat.{mod-eq_of_lt, pow-le-pow_right}

-- Reading nothing.
pub zero-Reads : (n : ℕ) (bs : BitStream) → n ≡ 0 → IsValid bs → Reads n bs 0 bs
zero-Reads n bs e v = record {
  value = omega arith;
  small = two-pow-pos n;
  moved = omega arith;
  valid = v;
  bits_kept = refl;
  err_kept = refl;
  bits_mark_kept = refl;
  byte_mark_kept = refl;
}

-- `n` bits and then `k` bits are one read of `n + k` bits.
pub append-Reads :
    (n k t : ℕ) {bs bs' bs'' : BitStream} (x y : ℕ)
    → t ≡ n + k
    → Reads n bs x bs'
    → Reads k bs' y bs''
    → Reads t bs (x * 2 ^ k + y) bs''
append-Reads n k t {bs} {bs'} {bs''} x y e p q = record {
  value = omega (
    arith,
    p.value,
    q.value,
    ap (λ (t : ℕ). x * 2 ^ t) q.moved,
    ap (λ (t : ℕ). x * t) (two-pow-add k (remain_bits bs'')),
  );
  small = rw (e, two-pow-add n k) (digits-lt (2 ^ n) (2 ^ k) x y p.small q.small);
  moved = omega (arith, p.moved, q.moved);
  valid = q.valid;
  bits_kept = q.bits_kept ∙ p.bits_kept;
  err_kept = q.err_kept ∙ p.err_kept;
  bits_mark_kept = q.bits_mark_kept ∙ p.bits_mark_kept;
  byte_mark_kept = q.byte_mark_kept ∙ p.byte_mark_kept;
}

-- Some bits remain exactly when the stream stands inside the buffer.
pub inside_of_remain :
    (bs : BitStream) → IsValid bs → 0 < remain_bits bs → bs.bytes_offset < length bs.bits
inside_of_remain bs v h = omega (arith, remain_bits_lem bs v)

-- `ret<<n | w` keeps its 64 bits and is a sum.
pub shift_in :
    (ret j n w : ℕ)
    → ret < 2 ^ j
    → w < 2 ^ n
    → j + n ≤ 64
    → bit_or (ret * 2 ^ n % 2 ^ 64) w ≡ ret * 2 ^ n + w
shift_in ret j n w hr hw h =
    let fits : ret * 2 ^ n + w < 2 ^ (j + n) =
      rw (two-pow-add j n) (digits-lt (2 ^ j) (2 ^ n) ret w hr hw) in
    let room : 2 ^ (j + n) ≤ 2 ^ 64 = pow-le-pow_right (omega arith) h in
    rw (mod-eq_of_lt {n = ret * 2 ^ n} {m = 2 ^ 64} (omega arith)) (bit_or_sum n ret w hw)

module _ (fuel n ret : ℕ) (bs : BitStream) where
  loop_done : n ≡ 0 → get_bits_loop (suc fuel) n ret bs ≡ some (ret, bs)
  unfolding get_bits_loop
  loop_done e = rw (eq→== n 0 e)

  -- A whole byte.
  loop_whole :
      bs.bits_offset ≡ 0
      → bs.bytes_offset < length bs.bits
      → 8 ≤ n
      → get_bits_loop (suc fuel) n ret bs
        ≡ get_bits_loop fuel (n - 8) (bit_or (ret * 2 ^ 8 % 2 ^ 64) (here bs)) (land bs 8)
  unfolding get_bits_loop
  loop_whole a i h =
      rw (ne→== n 0 (omega arith), le→leb 8 n h, get_elem?-eq-get_or bs.bits bs.bytes_offset 0 i)
        (ap
          (λ (t : ℕ).
            get_bits_loop fuel (n - 8) (bit_or (ret * 2 ^ 8 % 2 ^ 64) (here bs))
              (record bs { bytes_offset = bs.bytes_offset + 1; bits_offset = t }))
          a)

  -- The top `n` bits of a byte.
  loop_last :
      bs.bits_offset ≡ 0
      → bs.bytes_offset < length bs.bits
      → (k m : ℕ) → n ≡ suc k
      → n + m ≡ 8
      → 0 < m
      → get_bits_loop (suc fuel) n ret bs
        ≡ some
            (bit_or (ret * 2 ^ n % 2 ^ 64) (here bs / 2 ^ m % 2 ^ n), land bs (bs.bits_offset + n))
  unfolding get_bits_loop
  loop_last a i k m e h p =
      let e' : bs.bits_offset + n ≡ n = omega arith in
      let e'' : 8 - n ≡ m = omega arith in
      let e₁ : n - 1 ≡ k = omega arith in
      rw (
        e',
        ne→== n 8 (omega arith),
        ne→== n 0 (omega arith),
        lt→leb 8 n (omega arith),
        get_elem?-eq-get_or bs.bits bs.bytes_offset 0 i,
        ◌>>=◌,
        e₁,
        mask_at_lem k (omega arith),
        ◌>>=◌,
        e'',
        ← e,
        bit_and_low n,
      )

-- A whole byte, read from a byte boundary.
byte-Reads :
    (bs : BitStream)
    → IsValid bs
    → bs.bytes_offset < length bs.bits
    → bs.bits_offset ≡ 0
    → Reads 8 bs (here bs) (land bs 8)
byte-Reads bs v i a =
    let whole : here bs / 2 ^ 0 % 2 ^ 8 ≡ here bs =
      omega (arith, All-get_or IsByte bs.bits bs.bytes_offset 0 v.bytes i) in
    let off : bs.bits_offset + 8 ≡ 8 = omega arith in
    subst₂ (λ t o. Reads 8 bs t (land bs o)) whole off (land-Reads bs v i 8 0 (omega arith))

-- What the loop gives, from `ret` on.
abbrev LoopReads : ℕ → ℕ → ℕ → BitStream → Type 0
LoopReads fuel n ret bs =
    (r : ℕ × BitStream) × (get_bits_loop fuel n ret bs ≡ some (ret * 2 ^ n + r.0, r.1))
    × Reads n bs r.0 r.1

loop_whole-LoopReads :
    (fuel n ret j : ℕ) (bs : BitStream)
    → IsValid bs
    → bs.bits_offset ≡ 0
    → ret < 2 ^ j
    → j + n ≤ 64
    → bs.bytes_offset < length bs.bits
    → 8 ≤ n
    → LoopReads fuel (n - 8) (ret * 2 ^ 8 + here bs) (land bs 8)
    → LoopReads (suc fuel) n ret bs
loop_whole-LoopReads fuel n ret j bs v a hr hj i h ((w, bs'), e, q) =
    let c = here bs in
    let hc : c < 256 = All-get_or IsByte bs.bits bs.bytes_offset 0 v.bytes i in
    let p : 2 ^ n ≡ 2 ^ 8 * 2 ^ (n - 8) =
      ap (λ (t : ℕ). 2 ^ t) (omega arith) ∙ two-pow-add 8 (n - 8) in
    (
      (c * 2 ^ (n - 8) + w, bs'),
      loop_whole fuel n ret bs a i h
          ∙ ap (λ (t : ℕ). get_bits_loop fuel (n - 8) t (land bs 8))
              (shift_in ret j 8 c hr hc (omega arith))
          ∙ e
          ∙ ap (λ (t : ℕ). some (t, bs')) (omega (arith, ap (λ (t : ℕ). ret * t) p)),
      append-Reads 8 (n - 8) n c w (omega arith) (byte-Reads bs v i a) q,
    )

loop_last-LoopReads :
    (fuel n ret j : ℕ) (bs : BitStream)
    → IsValid bs
    → bs.bits_offset ≡ 0
    → ret < 2 ^ j
    → j + n ≤ 64
    → bs.bytes_offset < length bs.bits
    → (k m : ℕ) → n ≡ suc k
    → n + m ≡ 8
    → 0 < m
    → LoopReads (suc fuel) n ret bs
loop_last-LoopReads fuel n ret j bs v a hr hj i k m e h p =
    let q = land-Reads bs v i n m (omega arith) in
    (
      (here bs / 2 ^ m % 2 ^ n, land bs (bs.bits_offset + n)),
      loop_last fuel n ret bs a i k m e h p
          ∙ ap (λ (t : ℕ). some (t, land bs (bs.bits_offset + n)))
              (shift_in ret j n (here bs / 2 ^ m % 2 ^ n) hr q.small hj),
      q,
    )

-- The loop from a byte boundary on appends the next `n` bits to `ret`.
pub get_bits_loop_lem :
    (fuel n ret j : ℕ) (bs : BitStream)
    → IsValid bs
    → bs.bits_offset ≡ 0
    → ret < 2 ^ j
    → j + n ≤ 64
    → n ≤ remain_bits bs
    → n < 8 * fuel
    → LoopReads fuel n ret bs
get_bits_loop_lem zero n ret j bs v a hr hj hn hf = absurd (omega arith)
get_bits_loop_lem (suc fuel) n ret j bs v a hr hj hn hf = elim (dec_lt 0 n) [
  | no z ↦
      let e : n ≡ 0 = omega arith in
      (
        (0, bs),
        loop_done fuel n ret bs e
            ∙ ap (λ (t : ℕ). some (t, bs)) (omega (arith, ap (λ (t : ℕ). ret * 2 ^ t) e)),
        zero-Reads n bs e v,
      )
  | yes z ↦
      let i = inside_of_remain bs v (omega arith) in
      elim (dec_lt n 8) [
        | no w ↦
            let q = byte-Reads bs v i a in
            loop_whole-LoopReads fuel n ret j bs v a hr hj i (omega arith) (
              get_bits_loop_lem fuel (n - 8) (ret * 2 ^ 8 + here bs) (j + 8) (land bs 8) q.valid
                refl (rw (two-pow-add j 8) (digits-lt (2 ^ j) (2 ^ 8) ret (here bs) hr q.small))
                (omega arith) (omega (arith, q.moved)) (omega arith))
        | yes w ↦
            loop_last-LoopReads fuel n ret j bs v a hr hj i (n - 1) (8 - n) (omega arith)
              (omega arith) (omega arith)
      ]
]
