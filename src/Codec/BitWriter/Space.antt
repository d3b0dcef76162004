-- ===== src/Codec/BitWriter/Space.antt =====
-- Room for a write, and where a write leaves the position.
use gomediautils.Prelude.{
  ℕ, zero, suc, ◌+◌, ◌-◌, ◌*◌, ◌/◌, ◌%◌, ◌^◌, ◌≤◌, ◌<◌, ◌≡◌, refl, ap, ◌∙◌, arith, List, Option,
  none, some, Bool, true, false, ltb, leb, ◌==◌, Bool-cases, length, length-append,
  length-replicate, length-set, replicate, set, get_or, get_elem?-eq-get_or, inl, inr, bit_and,
  bit_or, ltb→lt, ltb→le, leb→le, leb→lt, ne→==, le→ltb, lt→ltb, ==→eq, ==→ne,
}
use gomediautils.Prelude.Panics.{◌>>=◌}
use gomediautils.Codec.BitMask.{StreamError, mask_at, mask_at_lem}
use gomediautils.Codec.BitWriter.{
  BitStreamWriter, new_length, expand_space, modify, put_within, put_loop, put_across, put_uint64,
  failed,
}

-- The write position, in bits.
unfoldable pub position : BitStreamWriter → ℕ
position bsw = bsw.byte_offset * 8 + bsw.bits_offset

-- The position is inside the buffer, and the bit offset inside a byte.
pub record IsValid (bsw : BitStreamWriter) : Type 0 where
  pub within : bsw.bits_offset < 8
  pub inside : position bsw ≤ length bsw.bits * 8

new_length_room : (bsw : BitStreamWriter) (n : ℕ) → n + length bsw.bits * 8 ≤ new_length bsw n * 8
unfolding new_length
new_length_room bsw n = elim (Bool-cases (ltb (length bsw.bits * 8) n)) [
  | inl e ↦ rw e (omega arith)
  | inr e ↦ let h = ltb→le _ _ e in rw e (omega arith)
]

-- After `expandSpace` of a valid writer there is room for the bits asked for behind the position.
pub expand_space-room :
    (bsw : BitStreamWriter) (n : ℕ)
    → IsValid bsw
    → n + position bsw ≤ length (expand_space bsw n).bits * 8
unfolding expand_space position
expand_space-room bsw n v =
    let i : bsw.byte_offset * 8 + bsw.bits_offset ≤ length bsw.bits * 8 = v.inside in
    let r = length-replicate {A = ℕ} (new_length bsw n - length bsw.bits) 0 in
    let a = length-append bsw.bits (replicate (new_length bsw n - length bsw.bits) 0) in
    let g = new_length_room bsw n in
    elim (Bool-cases (ltb (length bsw.bits * 8) (n + bsw.byte_offset * 8 + bsw.bits_offset))) [
      | inl e ↦ let h = ltb→lt _ _ e in rw e (omega arith)
      | inr e ↦ let h = ltb→le _ _ e in rw e (omega arith)
    ]

modify-some :
    (bits : List ℕ) (i : ℕ) (f : ℕ → ℕ)
    → i < length bits
    → modify bits i f ≡ some (set bits i (f (get_or bits i 0)))
modify-some bits i f h = rw (get_elem?-eq-get_or bits i 0 h)

-- A write that succeeds, moves the position on, and keeps the rest of the state.
pub record Moves (w : BitStreamWriter) (n : ℕ) (r : Option BitStreamWriter) : Type 0 where
  pub after : BitStreamWriter
  pub returns : r ≡ some after
  pub moved : position after ≡ n + position w
  pub valid : IsValid after
  pub err_kept : after.err ≡ w.err

put_within-Moves :
    (w : BitStreamWriter) (v n : ℕ)
    → IsValid w
    → 1 ≤ n
    → n ≤ 8 - w.bits_offset
    → n + position w ≤ length w.bits * 8
    → Moves w n (put_within w v n)
unfolding put_within position
put_within-Moves w v n k p q r =
    let i : w.byte_offset * 8 + w.bits_offset ≤ length w.bits * 8 = k.inside in
    let o = k.within in
    let f = λ (x : ℕ).
      bit_or x (bit_and (v % 256) (2 ^ suc (n - 1) - 1) * 2 ^ (8 - w.bits_offset - n) % 256) in
    let bits = set w.bits w.byte_offset (f (get_or w.bits w.byte_offset 0)) in
    let m = mask_at_lem (n - 1) (omega arith) in
    let s = modify-some w.bits w.byte_offset f (omega arith) in
    let l = length-set w.bits w.byte_offset (f (get_or w.bits w.byte_offset 0)) in
    elim (Bool-cases (w.bits_offset + n == 8)) [
      | inl e ↦
          let e' = ==→eq _ _ e in
          record {
            after = record w { bits = bits; byte_offset = w.byte_offset + 1; bits_offset = 0 };
            returns = rw (m, ◌>>=◌, s, e);
            moved = omega arith;
            valid = record { within = omega arith; inside = omega arith };
            err_kept = refl;
          }
      | inr e ↦
          let e' = ==→ne _ _ e in
          record {
            after = record w { bits = bits; bits_offset = w.bits_offset + n };
            returns = rw (m, ◌>>=◌, s, e);
            moved = omega arith;
            valid = record { within = omega arith; inside = omega arith };
            err_kept = refl;
          }
    ]

-- The loop of a long write leaves the position `n` bits behind the byte that it starts in.
record Ends (w : BitStreamWriter) (n : ℕ) (r : Option BitStreamWriter) : Type 0 where
  after : BitStreamWriter
  returns : r ≡ some after
  moved : position after ≡ n + w.byte_offset * 8
  within : after.bits_offset < 8
  err_kept : after.err ≡ w.err
  size_kept : length after.bits ≡ length w.bits

put_last :
    (fuel : ℕ) (w : BitStreamWriter) (v n : ℕ)
    → leb 8 n ≡ false
    → n < 8
    → n + w.byte_offset * 8 ≤ length w.bits * 8
    → Ends w n (put_loop (suc fuel) w v n)
unfolding put_loop position
put_last fuel w v zero e h r = record {
  after = record w { bits_offset = 0 };
  returns = refl;
  moved = omega arith;
  within = omega arith;
  err_kept = refl;
  size_kept = refl;
}
put_last fuel w v (suc n) e h r =
    let f = λ (x : ℕ). bit_or x (bit_and (v % 256) (2 ^ suc n - 1) * 2 ^ (8 - suc n) % 256) in
    let m : mask_at (suc n - 1) ≡ some (2 ^ suc n - 1) =
      ap mask_at (omega arith) ∙ mask_at_lem n (omega arith) in
    let s = modify-some w.bits w.byte_offset f (omega arith) in
    record {
      after = record w {
        bits = set w.bits w.byte_offset (f (get_or w.bits w.byte_offset 0));
        bits_offset = suc n;
      };
      returns = rw (e, lt→ltb 0 (suc n) (omega arith), m, ◌>>=◌, s);
      moved = omega arith;
      within = h;
      err_kept = refl;
      size_kept = length-set w.bits w.byte_offset (f (get_or w.bits w.byte_offset 0));
    }

put_loop-Ends :
    (fuel : ℕ) (w : BitStreamWriter) (v n : ℕ)
    → n < fuel * 8
    → n + w.byte_offset * 8 ≤ length w.bits * 8
    → Ends w n (put_loop fuel w v n)
unfolding put_loop position
put_loop-Ends zero w v n h r = absurd (omega arith)
put_loop-Ends (suc fuel) w v n h r = elim (Bool-cases (leb 8 n)) [
  | inl e ↦
      let e' = leb→le _ _ e in
      let f = λ (x : ℕ). v / 2 ^ (n - 8) % 256 in
      let bits = set w.bits w.byte_offset (v / 2 ^ (n - 8) % 256) in
      let s = modify-some w.bits w.byte_offset f (omega arith) in
      let l = length-set w.bits w.byte_offset (v / 2 ^ (n - 8) % 256) in
      let ih =
        put_loop-Ends fuel (record w { bits = bits; byte_offset = w.byte_offset + 1 }) v (n - 8)
          (omega arith) (omega arith) in
      let m = ih.moved in
      record {
        after = ih.after;
        returns = rw (e, s, ◌>>=◌) ih.returns;
        moved = omega arith;
        within = ih.within;
        err_kept = ih.err_kept;
        size_kept = ih.size_kept ∙ l;
      }
  | inr e ↦ put_last fuel w v n e (leb→lt _ _ e) r
]

put_across-Moves :
    (w : BitStreamWriter) (v n : ℕ)
    → IsValid w
    → 8 - w.bits_offset < n
    → n ≤ 64
    → n + position w ≤ length w.bits * 8
    → Moves w n (put_across w v n)
unfolding put_across position
put_across-Moves w v n k p q r =
    let i : w.byte_offset * 8 + w.bits_offset ≤ length w.bits * 8 = k.inside in
    let o = k.within in
    let free = 8 - w.bits_offset in
    let f = λ (x : ℕ). bit_or x (bit_and (v / 2 ^ (n - free) % 256) (2 ^ suc (free - 1) - 1)) in
    let bits = set w.bits w.byte_offset (f (get_or w.bits w.byte_offset 0)) in
    let m = mask_at_lem (free - 1) (omega arith) in
    let s = modify-some w.bits w.byte_offset f (omega arith) in
    let l = length-set w.bits w.byte_offset (f (get_or w.bits w.byte_offset 0)) in
    let e =
      put_loop-Ends 9 (record w { bits = bits; byte_offset = w.byte_offset + 1 }) v (n - free)
        (omega arith) (omega arith) in
    let mv : e.after.byte_offset * 8 + e.after.bits_offset ≡ (n - free) + (w.byte_offset + 1) * 8 =
      e.moved in
    let sz = e.size_kept in
    record {
      after = e.after;
      returns = rw (m, ◌>>=◌, s) e.returns;
      moved = omega arith;
      valid = record { within = e.within; inside = omega arith };
      err_kept = e.err_kept;
    }

-- `expandSpace` moves nothing.
record Stays (bsw w : BitStreamWriter) : Type 0 where
  byte_same : w.byte_offset ≡ bsw.byte_offset
  bits_same : w.bits_offset ≡ bsw.bits_offset
  err_same : w.err ≡ bsw.err

expand_space-Stays : (bsw : BitStreamWriter) (n : ℕ) → Stays bsw (expand_space bsw n)
unfolding expand_space
expand_space-Stays bsw n =
    elim (Bool-cases (ltb (length bsw.bits * 8) (n + bsw.byte_offset * 8 + bsw.bits_offset))) [
      | inl e ↦ rw e (record { byte_same = refl; bits_same = refl; err_same = refl })
      | inr e ↦ rw e (record { byte_same = refl; bits_same = refl; err_same = refl })
    ]

failed_of_none : (bsw : BitStreamWriter) → bsw.err ≡ none → failed bsw ≡ false
unfolding failed
failed_of_none bsw e =
    ap (λ (o : Option StreamError). elim o as (λ _. Bool) [ none ↦ false | some _ ↦ true ]) e

from_start :
    (bsw w : BitStreamWriter) (n : ℕ) (r : Option BitStreamWriter)
    → Stays bsw w
    → Moves w n r
    → Moves bsw n r
unfolding position
from_start bsw w n r s m =
    let b = s.byte_same in
    let o = s.bits_same in
    let p : m.after.byte_offset * 8 + m.after.bits_offset
        ≡ n + (w.byte_offset * 8 + w.bits_offset) =
      m.moved in
    record {
      after = m.after;
      returns = m.returns;
      moved = omega arith;
      valid = m.valid;
      err_kept = m.err_kept ∙ s.err_same;
    }

-- A write of 1 to 64 bits by a valid writer without error returns a valid writer without error,
-- whose position is as many bits further on.
pub put_uint64-Moves :
    (bsw : BitStreamWriter) (v n : ℕ)
    → IsValid bsw
    → bsw.err ≡ none
    → 1 ≤ n
    → n ≤ 64
    → Moves bsw n (put_uint64 bsw v n)
unfolding put_uint64 position
put_uint64-Moves bsw v n k e p q =
    let w = expand_space bsw n in
    let s = expand_space-Stays bsw n in
    let b : w.byte_offset ≡ bsw.byte_offset = s.byte_same in
    let o : w.bits_offset ≡ bsw.bits_offset = s.bits_same in
    let r : n + (bsw.byte_offset * 8 + bsw.bits_offset) ≤ length w.bits * 8 =
      expand_space-room bsw n k in
    let kw : IsValid w = record { within = omega (arith, k.within); inside = omega arith } in
    let f = failed_of_none bsw e in
    let z : (n == 0) ≡ false = ne→== n 0 (omega arith) in
    let t : ltb 64 n ≡ false = le→ltb 64 n q in
    from_start bsw w n (put_uint64 bsw v n) s (elim (Bool-cases (leb n (8 - w.bits_offset))) [
      | inl c ↦
          let c' = leb→le n (8 - w.bits_offset) c in
          rw (f, z, t, c) (put_within-Moves w v n kw p c' (omega arith))
      | inr c ↦
          let c' = leb→lt n (8 - w.bits_offset) c in
          rw (f, z, t, c) (put_across-Moves w v n kw c' q (omega arith))
    ])
