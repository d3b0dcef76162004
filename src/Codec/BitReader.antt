-- ===== src/Codec/BitReader.antt =====
-- `BitStream` of go-codec/bitstream.go. A method takes the stream first and returns its value with
-- the new stream; `none` is a run-time panic. Go's `int` is unbounded here but for `get_bytes`,
-- where the sum that the guard compares is kept to 64 bits.
pub mod Value
pub mod State
pub mod Compose
pub mod Read
pub mod Methods
use gomediautils.Prelude.{
  ℕ, zero, suc, ◌+◌, ◌-◌, ◌*◌, ◌/◌, ◌%◌, ◌^◌, List, [], Option, none, some, Bool, true, false, ◌&&◌,
  ◌||◌, not, ltb, leb, ◌==◌, if◌then◌else◌, length, get_elem?, take, drop, bit_and, bit_or,
}
use gomediautils.Prelude.Int.{ℤ, pos, negsuc, sub_ℕ, signed64, halve, ◌+ℤ◌}
use gomediautils.Prelude.Panics.{◌>>=◌}
use gomediautils.Codec.BitMask.{StreamError, out_of_range, mask_at}

pub record BitStream : Type 0 where
  pub bits : List ℕ
  pub bytes_offset : ℕ
  pub bits_offset : ℕ
  pub bits_mark : ℕ
  pub byte_mark : ℕ
  pub err : Option StreamError

unfoldable pub new_bit_stream : List ℕ → BitStream
new_bit_stream buf = record {
  bits = buf;
  bytes_offset = 0;
  bits_offset = 0;
  bits_mark = 0;
  byte_mark = 0;
  err = none;
}

-- `bs.err != nil`
unfoldable pub failed : BitStream → Bool
failed bs = elim bs.err [ none ↦ false | some _ ↦ true ]

-- `Fail`: the first error stays.
unfoldable pub fail : BitStream → StreamError → BitStream
fail bs e = elim bs.err [ none ↦ record bs { err = some e } | some _ ↦ bs ]

unfoldable pub set_err : BitStream → BitStream
unfolding fail
set_err bs = fail bs out_of_range

unfoldable pub remain_bytes : BitStream → ℕ
remain_bytes bs =
    if ltb 0 bs.bits_offset
    then length bs.bits - bs.bytes_offset - 1
    else length bs.bits - bs.bytes_offset

unfoldable pub remain_bits : BitStream → ℕ
unfolding remain_bytes
remain_bits bs =
    if ltb 0 bs.bits_offset then remain_bytes bs * 8 + 8 - bs.bits_offset else remain_bytes bs * 8

-- The comparison reads `bytesOffset + n` as a 64-bit sum, which is negative from 2^63 on; `make` and
-- the slice expression then panic.
unfoldable pub get_bytes : BitStream → ℤ → Option (Option (List ℕ) × BitStream)
unfolding set_err
get_bytes bs (negsuc n) = some (none, if failed bs then bs else set_err bs)
get_bytes bs (pos n) =
    let end = bs.bytes_offset + n in
    if failed bs
    then some (none, bs)
    else if not (bs.bits_offset == 0) || (ltb end (2 ^ 63) && ltb (length bs.bits) end)
    then some (none, set_err bs)
    else if leb (2 ^ 63) end
    then none
    else some (some (take n (drop bs.bytes_offset bs.bits)), record bs { bytes_offset = end })

-- `bitsOffset = off`, and on to the next byte if that is 8.
abbrev pub land : BitStream → ℕ → BitStream
land bs off =
    if off == 8
    then record bs { bytes_offset = bs.bytes_offset + 1; bits_offset = 0 }
    else record bs { bits_offset = off }

-- The bits from `bs` on that lie in one byte.
unfoldable pub get_bits_within : BitStream → ℕ → Option (ℕ × BitStream)
get_bits_within bs n = do
  x ← get_elem? bs.bits bs.bytes_offset
  m ← mask_at (n - 1)
  some (bit_and (x / 2 ^ (8 - bs.bits_offset - n)) m, land bs (bs.bits_offset + n))

-- `for n > 0`, from a byte boundary on: whole bytes, then the top `n` bits of one. The first argument
-- is fuel, of which each whole byte takes one.
unfoldable pub get_bits_loop : ℕ → ℕ → ℕ → BitStream → Option (ℕ × BitStream)
get_bits_loop zero n ret bs = none
get_bits_loop (suc fuel) n ret bs =
    let whole =
      (get_elem? bs.bits bs.bytes_offset >>= λ x.
      get_bits_loop fuel (n - 8) (bit_or (ret * 2 ^ 8 % 2 ^ 64) x)
        (record bs { bytes_offset = bs.bytes_offset + 1 })) in
    let last =
      (get_elem? bs.bits bs.bytes_offset >>= λ x. mask_at (n - 1) >>= λ m. some (
        bit_or (ret * 2 ^ n % 2 ^ 64) (bit_and (x / 2 ^ (8 - n)) m),
        record bs { bits_offset = n },
      )) in
    if n == 0 then some (ret, bs) else if leb 8 n then whole else last

-- The bits that reach past the current byte. A read of 64 bits takes 9 rounds at most.
unfoldable pub get_bits_across : BitStream → ℕ → Option (ℕ × BitStream)
unfolding get_bits_loop
get_bits_across bs n = do
  x ← get_elem? bs.bits bs.bytes_offset
  m ← mask_at (8 - bs.bits_offset - 1)
  get_bits_loop 9 (n - (8 - bs.bits_offset)) (bit_and x m)
      (record bs { bytes_offset = bs.bytes_offset + 1; bits_offset = 0 })

unfoldable pub get_bits : BitStream → ℤ → Option (ℕ × BitStream)
unfolding set_err remain_bits get_bits_within get_bits_across
get_bits bs (negsuc n) = some (0, if failed bs then bs else set_err bs)
get_bits bs (pos n) =
    if failed bs
    then some (0, bs)
    else if ltb 64 n
    then some (0, set_err bs)
    else if n == 0
    then some (0, bs)
    else if ltb (remain_bits bs) n
    then some (0, set_err bs)
    else if leb n (8 - bs.bits_offset)
    then get_bits_within bs n
    else get_bits_across bs n

-- `Uint8`, `Uint16` and `Uint32`, for `w` of 8, 16 and 32: the low `w` bits of the value.
unfoldable pub get_uint : ℕ → BitStream → ℤ → Option (ℕ × BitStream)
unfolding get_bits
get_uint w bs n = do (v, bs') ← get_bits bs n; some (v % 2 ^ w, bs')

unfoldable pub get_bit : BitStream → Option (ℕ × BitStream)
unfolding set_err
get_bit bs =
    if failed bs
    then some (0, bs)
    else if leb (length bs.bits) bs.bytes_offset
    then some (0, set_err bs)
    else (get_elem? bs.bits bs.bytes_offset >>= λ x. some (
      bit_and (x / 2 ^ (7 - bs.bits_offset)) 0x01,
      if leb 8 (bs.bits_offset + 1)
          then record bs { bytes_offset = bs.bytes_offset + 1; bits_offset = 0 }
          else record bs { bits_offset = bs.bits_offset + 1 },
    ))

unfoldable pub skip_bits : BitStream → ℤ → BitStream
unfolding set_err remain_bits
skip_bits bs (negsuc n) = if failed bs then bs else set_err bs
skip_bits bs (pos n) =
    if failed bs
    then bs
    else if ltb (remain_bits bs) n
    then set_err bs
    else if ltb (bs.bits_offset + n % 8) 8
    then record bs { bytes_offset = bs.bytes_offset + n / 8; bits_offset = bs.bits_offset + n % 8 }
    else record bs {
      bytes_offset = bs.bytes_offset + n / 8 + 1;
      bits_offset = bs.bits_offset + n % 8 - 8;
    }

unfoldable pub mark_dot : BitStream → BitStream
mark_dot bs = record bs { bits_mark = bs.bits_offset; byte_mark = bs.bytes_offset }

-- `bytecount*8 + bitscount`, which is negative when the stream stands before the mark.
unfoldable pub distance_from_mark_dot : BitStream → ℤ
distance_from_mark_dot bs =
    sub_ℕ (bs.bytes_offset * 8 + bs.bits_offset + 8) (bs.byte_mark * 8 + 8 + bs.bits_mark)

unfoldable pub remain_data : BitStream → List ℕ
remain_data bs = if leb (length bs.bits) bs.bytes_offset then [] else drop bs.bytes_offset bs.bits

-- The prefix loop of `ReadUE`: `left` rounds are left of 64. The option in the result is none where
-- the loop made `ReadUE` return 0.
unfoldable pub ue_prefix : ℕ → ℕ → BitStream → Option (Option ℕ × BitStream)
unfolding get_bit set_err
ue_prefix zero leading bs = some (none, set_err bs)
ue_prefix (suc left) leading bs =
    if failed bs
    then some (none, bs)
    else (get_bit bs >>= λ r. elim (r.0 == 0) [
      | true ↦ ue_prefix left (leading + 1) r.1
      | false ↦ some (some leading, r.1)
    ])

unfoldable pub read_ue : BitStream → Option (ℕ × BitStream)
unfolding ue_prefix get_bits
read_ue bs = do
  (leading, bs') ← ue_prefix 64 0 bs
  elim leading [
    | none ↦ some (0, bs')
    | some zero ↦ some (0, bs')
    | some (suc k) ↦
        (get_bits bs' (pos (suc k)) >>= λ r. some ((2 ^ suc k - 1 + r.0) % 2 ^ 64, r.1))
  ]

-- `ReadSE` on the value of `ReadUE`.
unfoldable pub signed_code : ℕ → ℤ
signed_code v = if v % 2 == 0 then sub_ℕ 0 (v / 2) else halve (signed64 ((v + 1) % 2 ^ 64))

unfoldable pub read_se : BitStream → Option (ℤ × BitStream)
unfolding read_ue signed_code
read_se bs = do (v, bs') ← read_ue bs; some (signed_code v, bs')

unfoldable pub unread : BitStream → ℤ → BitStream
unfolding set_err
unread bs (negsuc n) = set_err bs
unread bs (pos n) =
    let here = bs.bytes_offset * 8 + bs.bits_offset in
    if ltb here n
    then record (set_err bs) { bytes_offset = 0; bits_offset = 0 }
    else record bs { bytes_offset = (here - n) / 8; bits_offset = (here - n) % 8 }

unfoldable pub next_bits : BitStream → ℤ → Option (ℕ × BitStream)
unfolding set_err
next_bits bs (negsuc n) = some (0, if failed bs then bs else set_err bs)
next_bits bs (pos n) =
    if failed bs
    then some (0, bs)
    else if ltb (remain_bits bs) n
    then some (0, set_err bs)
    else (get_bits bs (pos n) >>= λ r. some (r.0, unread r.1 (pos n)))

unfoldable pub eos : BitStream → Bool
eos bs = failed bs || (bs.bytes_offset == length bs.bits && bs.bits_offset == 0)
