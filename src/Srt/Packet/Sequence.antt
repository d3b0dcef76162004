-- ===== src/Srt/Packet/Sequence.antt =====
-- The arithmetic of 31-bit sequence numbers.
use gomediautils.Prelude.{
  ℕ, suc, ◌+◌, ◌-◌, ◌%◌, ◌^◌, ◌<◌, ◌≡◌, refl, ap, ◌∙◌, arith, ltb, leb, bit_and, if◌then◌else◌,
  lt→leb, le→leb, lt_or_ge, inl, inr, ◌&&◌,
}
use gomediautils.Prelude.Bits.{bit_and_low}
use gomediautils.Prelude.Int.{ℤ, pos, negsuc, sub_ℕ, ltb_ℤ}
use gomediautils.Srt.Packet.{seq_mask, seq_add, seq_next, seq_diff, seq_less}

abbrev pub IsSeq : ℕ → Type 0
IsSeq s = s < 2 ^ 31

pub seq_add_lem : (s n : ℕ) → seq_add s (pos n) ≡ (s + n) % 2 ^ 31
unfolding seq_add
seq_add_lem s n = bit_and_low 31 ((s + n % 2 ^ 32) % 2 ^ 32) ∙ omega arith

seq_add-negsuc : (s n : ℕ) → n < 2 ^ 31 → seq_add s (negsuc n) ≡ (s + (2 ^ 31 - suc n)) % 2 ^ 31
unfolding seq_add
seq_add-negsuc s n h = bit_and_low 31 ((s + (2 ^ 32 - 1 - n % 2 ^ 32)) % 2 ^ 32) ∙ omega arith

pub seq_next_lem : (s : ℕ) → seq_next s ≡ (s + 1) % 2 ^ 31
unfolding seq_next
seq_next_lem s = bit_and_low 31 ((s + 1) % 2 ^ 32) ∙ omega arith

-- How far `b` lies ahead of `a` on the circle.
abbrev pub ahead : ℕ → ℕ → ℕ
ahead a b = (b + (2 ^ 31 - a)) % 2 ^ 31

pub seq_diff_lem :
    (a b : ℕ)
    → IsSeq a
    → IsSeq b
    → seq_diff a b
      ≡ (if leb (2 ^ 30) (ahead a b) then sub_ℕ (ahead a b) (2 ^ 31) else pos (ahead a b))
unfolding seq_diff
seq_diff_lem a b ha hb =
    let d : bit_and ((b + (2 ^ 32 - a)) % 2 ^ 32) seq_mask ≡ ahead a b =
      bit_and_low 31 ((b + (2 ^ 32 - a)) % 2 ^ 32) ∙ omega arith in
    rw d refl

-- From -2^30 up to 2^30, the latter not included.
abbrev pub IsShort : ℤ → Type 0
IsShort (pos n) = n < 2 ^ 30
IsShort (negsuc n) = n < 2 ^ 30

-- For a sequence number of 31 bits, adding a number from -2^30 up to 2^30, the latter not included,
-- and taking the difference gives the number added, forwards and backwards and across the wrap.
pub seq_diff-seq_add : (a : ℕ) (n : ℤ) → IsSeq a → IsShort n → seq_diff a (seq_add a n) ≡ n
seq_diff-seq_add a (pos n) ha hn =
    let e = seq_add_lem a n in
    let d : ahead a (seq_add a (pos n)) ≡ n = omega arith in
    seq_diff_lem a (seq_add a (pos n)) ha (omega arith) ∙ rw (d, lt→leb (2 ^ 30) n hn) refl
seq_diff-seq_add a (negsuc n) ha hn =
    let e = seq_add-negsuc a n (omega arith) in
    let d : ahead a (seq_add a (negsuc n)) ≡ 2 ^ 31 - suc n = omega arith in
    let back : sub_ℕ (2 ^ 31 - suc n) (2 ^ 31) ≡ negsuc n = ground arith in
    seq_diff_lem a (seq_add a (negsuc n)) ha (omega arith)
    ∙ rw (d, le→leb (2 ^ 30) (2 ^ 31 - suc n) (omega arith)) back

by_half :
    (d : ℕ)
    → d < 2 ^ 31
    → ltb_ℤ (pos 0) (if leb (2 ^ 30) d then sub_ℕ d (2 ^ 31) else pos d)
      ≡ (ltb 0 d && ltb d (2 ^ 30))
by_half d h = ground (arith, h)

-- `seqLess` holds when the second number lies ahead by less than half of the circle.
pub seq_less_lem :
    (a b : ℕ) → IsSeq a → IsSeq b → seq_less a b ≡ (ltb 0 (ahead a b) && ltb (ahead a b) (2 ^ 30))
unfolding seq_less
seq_less_lem a b ha hb =
    let d = seq_diff_lem a b ha hb in
    let k : ahead a b < 2 ^ 31 = omega arith in
    ap (λ (t : ℤ). ltb_ℤ (pos 0) t) d ∙ by_half (ahead a b) k

within :
    (d i j : ℕ)
    → i < 2 ^ 30
    → j < 2 ^ 30
    → d ≡ (j + (2 ^ 31 - i)) % 2 ^ 31
    → (ltb 0 d && ltb d (2 ^ 30)) ≡ ltb i j
within d i j hi hj e = elim (lt_or_ge i j) [
  | inl h ↦ let k : d ≡ j - i = omega arith in ground (arith, h, k, hi, hj)
  | inr h ↦ elim (lt_or_ge j i) [
    | inl lt ↦ let k : d ≡ j + (2 ^ 31 - i) = omega arith in ground (arith, h, lt, k, hi, hj)
    | inr ge ↦ let k : d ≡ 0 = omega arith in ground (arith, h, ge, k)
  ]
]

-- In a window of 2^30 sequence numbers, from any number on and across the wrap, `seqLess` compares
-- two numbers as their places in the window: it is irreflexive, transitive and total there.
pub seq_less-seq_add :
    (base i j : ℕ)
    → IsSeq base
    → i < 2 ^ 30
    → j < 2 ^ 30
    → seq_less (seq_add base (pos i)) (seq_add base (pos j)) ≡ ltb i j
seq_less-seq_add base i j hb hi hj =
    let e = seq_add_lem base i in
    let f = seq_add_lem base j in
    seq_less_lem (seq_add base (pos i)) (seq_add base (pos j)) (omega arith) (omega arith)
    ∙ within (ahead (seq_add base (pos i)) (seq_add base (pos j))) i j hi hj (omega arith)
