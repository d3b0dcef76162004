-- ===== src/Codec/BitWriter.antt =====
-- `BitStreamWriter` of go-codec/bitstream.go. A method takes the writer first and returns it; `none`
-- is a run-time panic. A count of bits or bytes is not negative; a position can be.
pub mod Space
use gomediautils.Prelude.{
  ℕ, zero, suc, ◌+◌, ◌-◌, ◌*◌, ◌/◌, ◌%◌, ◌^◌, List, [], ◌∷◌, ◌++◌, Option, none, some, Bool, true,
  false, ◌&&◌, ◌||◌, not, ltb, leb, ◌==◌, if◌then◌else◌, length, get_elem?, set, take, drop,
  replicate, bit_and, bit_or,
}
use gomediautils.Prelude.Bytes.{u16_be}
use gomediautils.Prelude.Int.{ℤ, pos, negsuc, sub_ℕ, ◌+ℤ◌}
use gomediautils.Prelude.Panics.{◌>>=◌}
use gomediautils.Codec.BitMask.{StreamError, out_of_range, not_byte_aligned, bad_bit_count, mask_at}

pub record BitStreamWriter : Type 0 where
  pub bits : List ℕ
  pub byte_offset : ℕ
  pub bits_offset : ℕ
  pub bits_mark : ℕ
  pub byte_mark : ℕ
  pub err : Option StreamError

unfoldable pub new_bit_stream_writer : ℕ → BitStreamWriter
new_bit_stream_writer n = record {
  bits = replicate n 0;
  byte_offset = 0;
  bits_offset = 0;
  bits_mark = 0;
  byte_mark = 0;
  err = none;
}

-- `bsw.err != nil`
unfoldable pub failed : BitStreamWriter → Bool
failed bsw = elim bsw.err [ none ↦ false | some _ ↦ true ]

-- `Fail`: the first error stays.
unfoldable pub fail : BitStreamWriter → StreamError → BitStreamWriter
fail bsw e = elim bsw.err [ none ↦ record bsw { err = some e } | some _ ↦ bsw ]

-- The length that `expandSpace` asks for.
unfoldable pub new_length : BitStreamWriter → ℕ → ℕ
new_length bsw n =
    if ltb (length bsw.bits * 8) n then length bsw.bits + n / 8 + 1 else length bsw.bits * 2

-- `(len(bits)-byteoffset-1)*8 + 8 - bitsoffset < n`, with the subtractions on the other side.
unfoldable pub expand_space : BitStreamWriter → ℕ → BitStreamWriter
unfolding new_length
expand_space bsw n =
    if ltb (length bsw.bits * 8) (n + bsw.byte_offset * 8 + bsw.bits_offset)
    then record bsw { bits = bsw.bits ++ replicate (new_length bsw n - length bsw.bits) 0 }
    else bsw

unfoldable pub mark_dot : BitStreamWriter → BitStreamWriter
mark_dot bsw = record bsw { bits_mark = bsw.bits_offset; byte_mark = bsw.byte_offset }

unfoldable pub distance_from_mark_dot : BitStreamWriter → ℤ
distance_from_mark_dot bsw =
    sub_ℕ (bsw.byte_offset * 8 + bsw.bits_offset + 8) (bsw.byte_mark * 8 + 8 + bsw.bits_mark)

-- `bits[i] = f(bits[i])`
abbrev pub modify : List ℕ → ℕ → (ℕ → ℕ) → Option (List ℕ)
modify bits i f = get_elem? bits i >>= λ x. some (set bits i (f x))

unfoldable pub put_byte : BitStreamWriter → ℕ → Option BitStreamWriter
put_byte bsw v =
    let w = expand_space bsw 8 in
    if w.bits_offset == 0
    then (modify w.bits w.byte_offset (λ _. v) >>= λ bits.
        some (record w { bits = bits; byte_offset = w.byte_offset + 1 }))
    else (modify w.bits w.byte_offset (λ x. bit_or x (v / 2 ^ w.bits_offset)) >>= λ bits.
        mask_at (w.bits_offset - 1) >>= λ m.
        modify bits (w.byte_offset + 1) (λ _. bit_and v m) >>= λ bits'.
        some (record w { bits = bits'; byte_offset = w.byte_offset + 1 }))

-- `copy(bits[i:], v)`
abbrev pub copy_at : List ℕ → ℕ → List ℕ → List ℕ
copy_at bits i v = take i bits ++ (take (length bits - i) v ++ drop (i + length v) bits)

unfoldable pub put_bytes : BitStreamWriter → List ℕ → Option BitStreamWriter
unfolding expand_space
put_bytes bsw v =
    let w = expand_space bsw (8 * length v) in
    if failed bsw
    then some bsw
    else if not (bsw.bits_offset == 0)
    then some (record bsw { err = some not_byte_aligned })
    else if ltb (length w.bits) w.byte_offset
    then none
    else some
        (record w { bits = copy_at w.bits w.byte_offset v; byte_offset = w.byte_offset + length v })

-- The loop of `PutRepetValue`.
unfoldable pub repeat_value : ℕ → BitStreamWriter → ℕ → Option BitStreamWriter
repeat_value zero bsw v = some bsw
repeat_value (suc n) bsw v = modify bsw.bits bsw.byte_offset (λ _. v) >>= λ bits.
    repeat_value n (record bsw { bits = bits; byte_offset = bsw.byte_offset + 1 }) v

unfoldable pub put_repet_value : BitStreamWriter → ℕ → ℕ → Option BitStreamWriter
unfolding repeat_value
put_repet_value bsw v n =
    if failed bsw
    then some bsw
    else if not (bsw.bits_offset == 0)
    then some (record bsw { err = some not_byte_aligned })
    else repeat_value n (expand_space bsw (8 * n)) v

-- The write that stays in the current byte.
unfoldable pub put_within : BitStreamWriter → ℕ → ℕ → Option BitStreamWriter
put_within w v n = mask_at (n - 1) >>= λ m.
    modify w.bits w.byte_offset
      (λ x. bit_or x (bit_and (v % 256) m * 2 ^ (8 - w.bits_offset - n) % 256))
    >>= λ bits.
        if w.bits_offset + n == 8
        then some (record w { bits = bits; byte_offset = w.byte_offset + 1; bits_offset = 0 })
        else some (record w { bits = bits; bits_offset = w.bits_offset + n })

-- `for n-8 >= 0`, and the bits left over. The fuel is a bound on the whole bytes.
unfoldable pub put_loop : ℕ → BitStreamWriter → ℕ → ℕ → Option BitStreamWriter
put_loop zero w v n = none
put_loop (suc fuel) w v n =
    let whole =
      (modify w.bits w.byte_offset (λ _. v / 2 ^ (n - 8) % 256) >>= λ bits.
      put_loop fuel (record w { bits = bits; byte_offset = w.byte_offset + 1 }) v (n - 8)) in
    let last =
      (mask_at (n - 1) >>= λ m.
      modify w.bits w.byte_offset (λ x. bit_or x (bit_and (v % 256) m * 2 ^ (8 - n) % 256))
      >>= λ bits. some (record w { bits = bits; bits_offset = n })) in
    if leb 8 n then whole else if ltb 0 n then last else some (record w { bits_offset = n })

-- The write that reaches past the current byte; 64 bits take 8 rounds and the last bits.
unfoldable pub put_across : BitStreamWriter → ℕ → ℕ → Option BitStreamWriter
unfolding put_loop
put_across w v n =
    let free = 8 - w.bits_offset in
    mask_at (free - 1) >>= λ m.
    modify w.bits w.byte_offset (λ x. bit_or x (bit_and (v / 2 ^ (n - free) % 256) m)) >>= λ bits.
    put_loop 9 (record w { bits = bits; byte_offset = w.byte_offset + 1 }) v (n - free)

unfoldable pub put_uint64 : BitStreamWriter → ℕ → ℕ → Option BitStreamWriter
unfolding put_within put_across
put_uint64 bsw v n =
    let w = expand_space bsw n in
    if failed bsw
    then some bsw
    else if (n == 0) || ltb 64 n
    then some (record bsw { err = some bad_bit_count })
    else if leb n (8 - w.bits_offset)
    then put_within w v n
    else put_across w v n

unfoldable pub set_byte : BitStreamWriter → ℕ → ℤ → BitStreamWriter
set_byte bsw v (negsuc _) = fail bsw out_of_range
set_byte bsw v (pos i) =
    if leb (length bsw.bits) i
    then fail bsw out_of_range
    else record bsw { bits = set bsw.bits i v }

unfoldable pub set_uint16 : BitStreamWriter → ℕ → ℤ → BitStreamWriter
set_uint16 bsw v (negsuc _) = fail bsw out_of_range
set_uint16 bsw v (pos i) =
    if ltb (length bsw.bits) (i + 2)
    then fail bsw out_of_range
    else record bsw { bits = copy_at bsw.bits i (u16_be v) }

-- `Bits`: what has been written.
unfoldable pub written : BitStreamWriter → List ℕ
written bsw =
    if bsw.byte_offset == length bsw.bits
    then bsw.bits
    else if ltb 0 bsw.bits_offset
    then take (bsw.byte_offset + 1) bsw.bits
    else take bsw.byte_offset bsw.bits

-- `keep | (v & mask)` with `keep = x &^ mask`: the high bits of `x` and the low bits of `v`.
unfoldable pub fill_low : ℕ → ℕ → ℕ → ℕ
fill_low x v mask = bit_or (x - bit_and x mask) (bit_and v mask)

unfoldable pub fill_remain_data : BitStreamWriter → ℕ → Option BitStreamWriter
unfolding fill_low
fill_remain_data bsw v =
    let n = length bsw.bits in
    if ltb 0 bsw.bits_offset
    then if leb n bsw.byte_offset
      then some bsw
      else (mask_at (7 - bsw.bits_offset) >>= λ m.
          modify bsw.bits bsw.byte_offset (λ x. fill_low x v m) >>= λ bits. some (record bsw {
            bits = take (bsw.byte_offset + 1) bits ++ replicate (n - (bsw.byte_offset + 1)) v;
            byte_offset = n;
            bits_offset = 0;
          }))
    else some (record bsw {
      bits = take bsw.byte_offset bsw.bits ++ replicate (n - bsw.byte_offset) v;
      byte_offset = n;
    })

unfoldable pub reset : BitStreamWriter → BitStreamWriter
reset bsw = record {
  bits = replicate (length bsw.bits) 0;
  byte_offset = 0;
  bits_offset = 0;
  bits_mark = 0;
  byte_mark = 0;
  err = none;
}
