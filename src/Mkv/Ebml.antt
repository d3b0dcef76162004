-- ===== src/Mkv/Ebml.antt =====
-- go-mkv/ebml.go: variable size integers, element ids and sizes, and the payloads of elements. A
-- byte string stands for Go's string; floating-point payloads are left out.
pub mod Sizes
pub mod Payload
use gomediautils.Prelude.{
  ℕ, zero, suc, ◌+◌, ◌-◌, ◌*◌, ◌/◌, ◌%◌, ◌^◌, List, [], ◌∷◌, ◌++◌, Bool, true, false, not, ltb, leb,
  ◌==◌, if◌then◌else◌, ◌&&◌, ◌||◌, length, take, drop, replicate, bit_and, bit_or, Outcome, ok, err,
  panic,
}
use gomediautils.Prelude.Bytes.{byte_at}
use gomediautils.Prelude.Int.{ℤ, pos, negsuc, signed64}

pub data EbmlError : Type 0 where
  bad_vint too_large : EbmlError

abbrev pub id_void : ℕ
id_void = 0xEC

-- The loop of `vintLen`, from the bit `i` on.
unfoldable pub vint_len_from : ℕ → ℕ → ℕ → ℕ
vint_len_from zero i first = 0
vint_len_from (suc fuel) i first =
    let rest = vint_len_from fuel (suc i) first in
    if not (bit_and first (0x80 / 2 ^ i) == 0) then suc i else rest

unfoldable pub vint_len : ℕ → ℕ
unfolding vint_len_from
vint_len first = vint_len_from 8 0 first

-- The loop of `sizeLen`, which stops at 8.
unfoldable pub size_len_from : ℕ → ℕ → ℕ → ℕ
size_len_from zero n v = n
size_len_from (suc fuel) n v =
    let rest = size_len_from fuel (suc n) v in
    if ltb n 8 && leb (2 ^ (7 * n) - 1) v then rest else n

unfoldable pub size_len : ℕ → ℕ
unfolding size_len_from
size_len v = size_len_from 7 1 v

-- The `n` low bytes of a number, the highest first.
unfoldable pub be_bytes : ℕ → ℕ → List ℕ
be_bytes zero v = []
be_bytes (suc i) v = byte_at v (8 * i) ∷ be_bytes i v

unfoldable pub append_size : List ℕ → ℕ → ℕ → List ℕ
append_size buf v n = buf ++ be_bytes n (bit_or v (2 ^ (7 * n)))

unfoldable pub append_id : List ℕ → ℕ → List ℕ
unfolding be_bytes
append_id buf id =
    if leb (2 ^ 24) id
    then buf ++ be_bytes 4 id
    else if leb (2 ^ 16) id
    then buf ++ be_bytes 3 id
    else if leb (2 ^ 8) id
    then buf ++ be_bytes 2 id
    else buf ++ be_bytes 1 id

unfoldable pub element : ℕ → List ℕ → List ℕ
element id payload =
    append_size (append_id [] id) (length payload) (size_len (length payload)) ++ payload

unfoldable pub concat_all : List (List ℕ) → List ℕ
concat_all [] = []
concat_all (c ∷ cs) = c ++ concat_all cs

unfoldable pub master : ℕ → List (List ℕ) → List ℕ
unfolding concat_all
master id children = element id (concat_all children)

-- The loop that counts the bytes of `v`, which stops at 8.
unfoldable pub uint_len_from : ℕ → ℕ → ℕ → ℕ
uint_len_from zero n v = n
uint_len_from (suc fuel) n v =
    let rest = uint_len_from fuel (suc n) v in
    if ltb n 8 && not (v / 2 ^ (8 * n) == 0) then rest else n

unfoldable pub uint_len : ℕ → ℕ
unfolding uint_len_from
uint_len v = uint_len_from 7 1 v

unfoldable pub uint_payload : ℕ → List ℕ
uint_payload v = be_bytes (uint_len v) v

unfoldable pub uint_element : ℕ → ℕ → List ℕ
uint_element id v = element id (uint_payload v)

unfoldable pub string_element : ℕ → List ℕ → List ℕ
string_element id s = element id s

-- `voidElement`, of at least 2 bytes.
unfoldable pub void_element : ℕ → List ℕ
void_element total =
    if ltb (total - 2) 127
    then append_size (id_void ∷ []) (total - 2) 1 ++ replicate (total - 2) 0
    else append_size (id_void ∷ []) (total - 9) 8 ++ replicate (total - 9) 0

-- `v = v<<8 | uint64(b)` over the bytes.
unfoldable pub shift_bytes : ℕ → List ℕ → ℕ
shift_bytes v [] = v
shift_bytes v (b ∷ bs) = shift_bytes (bit_or (v * 2 ^ 8 % 2 ^ 64) b) bs

pub record Vint : Type 0 where
  pub value : ℕ
  pub taken : ℕ
  pub unknown : Bool

unfoldable pub vint_of : ℕ → ℕ → List ℕ → Vint
vint_of n first rest =
    let v = shift_bytes (bit_and first (0xFF / 2 ^ n)) (take (n - 1) rest) in
    record { value = v; taken = n; unknown = v == (2 ^ (7 * n) - 1) }

unfoldable pub read_vint : List ℕ → Outcome EbmlError Vint
read_vint [] = err bad_vint
read_vint (first ∷ rest) =
    if (vint_len first == 0) || ltb (suc (length rest)) (vint_len first)
    then err bad_vint
    else ok (vint_of (vint_len first) first rest)

unfoldable pub read_uint : List ℕ → Outcome EbmlError ℕ
read_uint payload = if ltb 8 (length payload) then err too_large else ok (shift_bytes 0 payload)

-- `int64(int8(b))` as its bit pattern.
abbrev pub sign_byte : ℕ → ℕ
sign_byte b = if ltb b 128 then b else 2 ^ 64 - 256 + b

unfoldable pub read_int : List ℕ → Outcome EbmlError ℤ
unfolding shift_bytes
read_int [] = ok (pos 0)
read_int (b ∷ bs) =
    if ltb 8 (suc (length bs)) then err too_large else ok (signed64 (shift_bytes (sign_byte b) bs))

unfoldable pub read_string : List ℕ → List ℕ
read_string [] = []
read_string (b ∷ bs) = let rest = read_string bs in if b == 0 then [] else (b ∷ rest)
