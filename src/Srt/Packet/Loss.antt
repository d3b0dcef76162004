-- ===== src/Srt/Packet/Loss.antt =====
-- A loss list that `encodeLossList` writes is read back by `decodeLossList`.
use gomediautils.Prelude.{
  ℕ, zero, suc, ◌+◌, ◌/◌, ◌^◌, ◌≤◌, ◌≡◌, refl, sym, ap, ◌∙◌, arith, List, [], ◌∷◌, ◌++◌, Bool, true,
  false, ◌==◌, ==→eq, Bool-cases, length, length-append, All, bit_and, bit_or, inl, inr, le→ltb,
  eq→==, ne→==,
}
use gomediautils.Prelude.Bits.{bit_and_low, bit_or_middle}
use gomediautils.Prelude.Bytes.{u32_be, read_u32_be, read_u32_be-u32_be}
use gomediautils.Srt.Packet.{
  seq_mask, seq_add, seq_next, run_end, loss_entry, encode_loss_loop, encode_loss_list, seq_range,
  loss_range, decode_loss_loop, decode_loss_list, max_loss_range,
}
use gomediautils.Prelude.Int.{pos}
use gomediautils.Srt.Packet.Sequence.{IsSeq, seq_next_lem, seq_add_lem, seq_diff-seq_add}

-- A run: the numbers from `s` to its end, and what is left, are the list.
record IsRun (s : ℕ) (ss : List ℕ) (run : ℕ × List ℕ) : Type 0 where
  more : ℕ
  whole : s ∷ ss ≡ seq_range s (suc more) ++ run.1
  ends : run.0 ≡ seq_add s (pos more)
  shorter : length run.1 + more ≡ length ss
  left : All IsSeq run.1

seq_add-seq_next : (s m : ℕ) → seq_add (seq_next s) (pos m) ≡ seq_add s (pos (suc m))
seq_add-seq_next s m =
    let a = seq_add_lem (seq_next s) m in
    let b = seq_add_lem s (suc m) in let n = seq_next_lem s in omega arith

alone : (s : ℕ) (ss : List ℕ) → IsSeq s → All IsSeq ss → IsRun s ss (s, ss)
unfolding seq_range
alone s ss h hs =
    let a = seq_add_lem s 0 in
    record { more = 0; whole = refl; ends = omega arith; shorter = omega arith; left = hs }

longer :
    (s t : ℕ) (ts : List ℕ) (run : ℕ × List ℕ)
    → t ≡ seq_next s
    → IsRun t ts run
    → IsRun s (t ∷ ts) run
unfolding seq_range
longer s t ts run e r =
    let sh = r.shorter in
    record {
      more = suc r.more;
      whole =
          ap (λ (xs : List ℕ). s ∷ xs)
            (r.whole ∙ ap (λ (x : ℕ). seq_range x (suc r.more) ++ run.1) e);
      ends = r.ends ∙ ap (λ (x : ℕ). seq_add x (pos r.more)) e ∙ seq_add-seq_next s r.more;
      shorter = omega arith;
      left = r.left;
    }

run_end-IsRun : (s : ℕ) (ss : List ℕ) → IsSeq s → All IsSeq ss → IsRun s ss (run_end s ss)
unfolding run_end
run_end-IsRun s [] h hs = alone s [] h hs
run_end-IsRun s (t ∷ ts) h (k, hs) = elim (Bool-cases (t == seq_next s)) [
  | inl e ↦ rw e (longer s t ts (run_end t ts) (==→eq t (seq_next s) e) (run_end-IsRun t ts k hs))
  | inr e ↦ rw e (alone s (t ∷ ts) h (k, hs))
]

-- A word with the top bit set is the start of a range.
flagged : (s : ℕ) → IsSeq s → bit_or s 0x80000000 ≡ 0x80000000 + s
flagged s h =
    ap (λ (t : ℕ). bit_or t 0x80000000) (omega arith) ∙ bit_or_middle 31 0 s h ∙ omega arith

loss_range_lem :
    (s m : ℕ)
    → IsSeq s
    → m ≤ max_loss_range
    → loss_range s (seq_add s (pos m)) ≡ seq_range s (suc m)
unfolding loss_range
loss_range_lem s m h k =
    rw (loss_range, seq_diff-seq_add s (pos m) h (omega arith), le→ltb max_loss_range m k) refl

decode_one :
    (k s : ℕ) (t : List ℕ)
    → IsSeq s
    → decode_loss_loop (suc k) (u32_be s ++ t) ≡ s ∷ decode_loss_loop k t
unfolding decode_loss_loop u32_be
decode_one k s t h =
    let r = read_u32_be-u32_be s t (omega arith) in
    let c : (bit_and (s / 2 ^ 31) 1 == 0) ≡ true =
      eq→== _ _ (bit_and_low 1 (s / 2 ^ 31) ∙ omega arith) in
    unfold u32_be in rw (decode_loss_loop, r, c)

decode_two :
    (k s e : ℕ) (t : List ℕ)
    → IsSeq s
    → IsSeq e
    → decode_loss_loop (suc k) ((u32_be (bit_or s 0x80000000) ++ u32_be e) ++ t)
      ≡ loss_range s e ++ decode_loss_loop k t
unfolding decode_loss_loop u32_be
decode_two k s e t h g =
    let f = flagged s h in
    let r = read_u32_be-u32_be (bit_or s 0x80000000) (u32_be e ++ t) (omega arith) in
    let q = read_u32_be-u32_be e t (omega arith) in
    let c : (bit_and (bit_or s 0x80000000 / 2 ^ 31) 1 == 0) ≡ false =
      ne→== _ _ (omega (arith, bit_and_low 1 (bit_or s 0x80000000 / 2 ^ 31))) in
    let s' : bit_and (bit_or s 0x80000000) seq_mask ≡ s =
      bit_and_low 31 (bit_or s 0x80000000) ∙ omega arith in
    let e' : bit_and e seq_mask ≡ e = bit_and_low 31 e ∙ omega arith in
    unfold u32_be in rw (decode_loss_loop, r, c, q, s', e')

length-u32_be : (v : ℕ) → length (u32_be v) ≡ 4
unfolding u32_be
length-u32_be v = refl

length-loss_entry : (s e : ℕ) (single : Bool) → 4 ≤ length (loss_entry s e single)
unfolding loss_entry
length-loss_entry s e true = omega (arith, length-u32_be s)
length-loss_entry s e false = omega (
  arith,
  length-append (u32_be (bit_or s 0x80000000)) (u32_be e),
  length-u32_be (bit_or s 0x80000000),
)

one_long : (s : ℕ) (rest : List ℕ) → seq_range s 1 ++ rest ≡ s ∷ rest
unfolding seq_range
one_long s rest = refl

decode_nil : (k : ℕ) → decode_loss_loop k [] ≡ []
unfolding decode_loss_loop read_u32_be
decode_nil zero = refl
decode_nil (suc k) = refl

-- One entry is read back as the run that it stands for.
decode_entry :
    (k s : ℕ) (ss : List ℕ) (run : ℕ × List ℕ) (t : List ℕ)
    → IsSeq s
    → length ss ≤ max_loss_range
    → IsRun s ss run
    → decode_loss_loop k t ≡ run.1
    → decode_loss_loop (suc k) (loss_entry s run.0 (length run.1 == length ss) ++ t) ≡ s ∷ ss
unfolding loss_entry
decode_entry k s ss run t h b r d =
    let sh = r.shorter in
    let a = seq_add_lem s r.more in
    let e = r.ends in
    elim (Bool-cases (length run.1 == length ss)) [
      | inl q ↦
          let q' = ==→eq (length run.1) (length ss) q in
          let z : r.more ≡ 0 = omega arith in
          rw q (
            decode_one k s t h
            ∙ ap (λ (xs : List ℕ). s ∷ xs) d
            ∙ sym (r.whole ∙ ap (λ (m : ℕ). seq_range s (suc m) ++ run.1) z ∙ one_long s run.1))
      | inr q ↦ rw q (
          decode_two k s run.0 t h (omega arith)
          ∙ ap (λ (x : ℕ). loss_range s x ++ decode_loss_loop k t) e
          ∙ ap (λ (xs : List ℕ). xs ++ decode_loss_loop k t)
              (loss_range_lem s r.more h (omega arith))
          ∙ ap (λ (xs : List ℕ). seq_range s (suc r.more) ++ xs) d
          ∙ sym r.whole)
    ]

decode_loss_loop-encode_loss_loop :
    (n k : ℕ) (seqs : List ℕ)
    → All IsSeq seqs
    → length seqs ≤ n
    → length seqs ≤ suc max_loss_range
    → length (encode_loss_loop n seqs) ≤ k
    → decode_loss_loop k (encode_loss_loop n seqs) ≡ seqs
unfolding encode_loss_loop
decode_loss_loop-encode_loss_loop zero k [] h a b c = decode_nil k
decode_loss_loop-encode_loss_loop zero k (s ∷ ss) h a b c = absurd (omega arith)
decode_loss_loop-encode_loss_loop (suc n) k [] h a b c = decode_nil k
decode_loss_loop-encode_loss_loop (suc n) zero (s ∷ ss) h a b c =
    let run = run_end s ss in
    let single = length run.1 == length ss in
    absurd (
      omega (
        arith,
        length-loss_entry s run.0 single,
        length-append (loss_entry s run.0 single) (encode_loss_loop n run.1),
      ))
decode_loss_loop-encode_loss_loop (suc n) (suc k) (s ∷ ss) (h, hs) a b c =
    let run = run_end s ss in
    let r = run_end-IsRun s ss h hs in
    let sh = r.shorter in
    let single = length run.1 == length ss in
    let l = length-loss_entry s run.0 single in
    let l' = length-append (loss_entry s run.0 single) (encode_loss_loop n run.1) in
    decode_entry k s ss run (encode_loss_loop n run.1) h (omega arith) r
      (decode_loss_loop-encode_loss_loop n k run.1 r.left (omega arith) (omega arith) (omega arith))

-- A list of at most 65537 sequence numbers of 31 bits, in any order, is written as a report that
-- is read back as the same list.
pub decode_loss_list-encode_loss_list :
    (seqs : List ℕ)
    → All IsSeq seqs
    → length seqs ≤ suc max_loss_range
    → decode_loss_list (encode_loss_list seqs) ≡ seqs
unfolding decode_loss_list encode_loss_list
decode_loss_list-encode_loss_list seqs h b =
    decode_loss_loop-encode_loss_loop (length seqs) (length (encode_loss_loop (length seqs) seqs))
      seqs h (omega arith) b (omega arith)
