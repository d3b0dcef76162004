-- ===== src/Mp4/Box.antt =====
-- go-mp4/box.go: the headers of boxes. An io.Reader is the list of the bytes that it still has, and
-- gives no error before its end; a call that fails gives no reader back. A `Type` of four bytes is a
-- list, and so is a `UserType` of sixteen.
pub mod RoundTrip
use gomediautils.Prelude.{
  ℕ, ◌+◌, ◌-◌, ◌*◌, ◌^◌, List, [], ◌∷◌, ◌++◌, Bool, true, false, ltb, leb, ◌==◌, ◌&&◌,
  if◌then◌else◌, length, take, drop, replicate, Outcome, ok, err, panic, ◌>>=◌, Option, none, some,
  index,
}
use gomediautils.Prelude.Bytes.{u32_be, u64_be, read_u32_be, read_u64_be}

pub data BoxError : Type 0 where
  eof box_truncated no_track size_below_header payload_over_limit : BoxError
  table_over_limit table_over_box box_too_small no_stbl parser_error large_box : BoxError

abbrev pub basic_box_len : ℕ
basic_box_len = 8

abbrev pub full_box_len : ℕ
full_box_len = 12

abbrev pub max_box_payload_size : ℕ
max_box_payload_size = 256 * 2 ^ 20

unfoldable pub box_payload_len : ℕ → ℕ → Outcome BoxError ℕ
box_payload_len size header_len =
    if ltb size header_len
    then err size_below_header
    else if ltb max_box_payload_size (size - header_len)
    then err payload_over_limit
    else ok (size - header_len)

-- `io.ReadFull(r, buf)` with a buffer of `n` bytes: the bytes, and the reader behind them.
unfoldable pub read_full : ℕ → List ℕ → Outcome BoxError (List ℕ × List ℕ)
read_full n r = if ltb (length r) n then err eof else ok (take n r, drop n r)

unfoldable pub read_box_payload : List ℕ → ℕ → ℕ → Outcome BoxError (List ℕ × List ℕ)
unfolding box_payload_len read_full
read_box_payload r size header_len = box_payload_len size header_len >>= λ n. read_full n r

-- `checkRemain` at a position and for a count that are not negative.
unfoldable pub check_remain : List ℕ → ℕ → ℕ → Outcome BoxError (Unit {0})
check_remain buf n need = if ltb (length buf) (n + need) then err box_truncated else ok tt

-- `checkTableSize`; a `remain` that is negative is none.
unfoldable pub check_table_size : ℕ → ℕ → Option ℕ → Outcome BoxError (Unit {0})
check_table_size count entry_size remain =
    if ltb max_box_payload_size (count * entry_size) then err table_over_limit else elim remain [
      | none ↦ ok tt
      | some n ↦ if ltb n (count * entry_size) then err table_over_box else ok tt
    ]

pub record BasicBox : Type 0 where
  pub size : ℕ
  pub box_type : List ℕ
  pub user_type : List ℕ

-- A field read from the front of a buffer that holds it.
abbrev pub box_field {ℓ} : {A : Type ℓ} → Option A → Outcome BoxError A
box_field none = panic
box_field (some x) = ok x

abbrev pub is_uuid : List ℕ → Bool
is_uuid (a ∷ b ∷ c ∷ d ∷ []) = (a == 0x75) && ((b == 0x75) && ((c == 0x69) && (d == 0x64)))
is_uuid _ = false

pub record BoxHead : Type 0 where
  pub box : BasicBox
  pub taken : ℕ
  pub rest : List ℕ

-- The user type of a uuid box, behind a header of `taken` bytes.
unfoldable pub decode_user_type : BasicBox → ℕ → List ℕ → Outcome BoxError BoxHead
decode_user_type box taken r =
    if is_uuid box.box_type
    then (read_full 16 r >>= λ (uuid, r').
        ok (record { box = record box { user_type = uuid }; taken = taken + 16; rest = r' }))
    else ok (record { box = box; taken = taken; rest = r })

-- `BasicBox.Decode`, on a box whose user type is `old`.
unfoldable pub decode_box : List ℕ → List ℕ → Outcome BoxError BoxHead
unfolding decode_user_type
decode_box old r = read_full 8 r >>= λ (head, r'). box_field (read_u32_be head) >>= λ size.
    if size == 1
    then (read_full 8 r' >>= λ (large, r''). box_field (read_u64_be large) >>= λ size'.
        decode_user_type (record { size = size'; box_type = drop 4 head; user_type = old }) 16 r'')
    else decode_user_type (record { size = size; box_type = drop 4 head; user_type = old }) 8 r'

-- A buffer of `size` bytes with these copied to its start, of which `least` must have room: what is
-- behind them is cut.
unfoldable pub fill : ℕ → ℕ → List ℕ → Outcome BoxError (List ℕ)
fill least size bytes =
    if ltb size least then panic else ok (take size (bytes ++ replicate (size - length bytes) 0))

-- What `BasicBox.Encode` writes, and the size of its buffer.
unfoldable pub box_bytes : BasicBox → List ℕ
box_bytes box =
    if ltb 0xFFFFFFFF box.size
    then u32_be 1 ++ (box.box_type ++ u64_be box.size)
    else u32_be box.size ++ (box.box_type ++ (if is_uuid box.box_type then box.user_type else []))

unfoldable pub buffer_size : BasicBox → ℕ
buffer_size box = if ltb 0xFFFFFFFF box.size then 16 else box.size

-- The bytes that are written, and not only copied as far as there is room.
unfoldable pub box_least : BasicBox → ℕ
box_least box = if ltb 0xFFFFFFFF box.size then 16 else if is_uuid box.box_type then 24 else 4

unfoldable pub encode_box : BasicBox → Outcome BoxError (List ℕ)
encode_box box = fill (box_least box) (buffer_size box) (box_bytes box)

pub record FullBox : Type 0 where
  pub box : BasicBox
  pub version : ℕ
  pub flags : List ℕ

unfoldable pub new_full_box : List ℕ → ℕ → FullBox
new_full_box box_type version = record {
  box = record { size = 0; box_type = box_type; user_type = replicate 16 0 };
  version = version;
  flags = 0 ∷ 0 ∷ 0 ∷ [];
}

unfoldable pub full_size : FullBox → ℕ
full_size b = if ltb 0 b.box.size then b.box.size else 12

-- `tableRemain`: none for a negative number, which is the -1 of an unknown size, or one that int64 has
-- no room for.
unfoldable pub table_remain : FullBox → ℕ → Outcome BoxError (Option ℕ)
table_remain b fixed =
    if b.box.size == 0
    then ok none
    else if ltb b.box.size (full_box_len + fixed)
    then err box_too_small
    else (let remain = b.box.size - (full_box_len + fixed) in
        ok (if ltb remain (2 ^ 63) then some remain else none))

unfoldable pub decode_full : FullBox → List ℕ → Outcome BoxError (FullBox × List ℕ)
decode_full b r = read_full 4 r >>= λ (head, r').
    index head 0 >>= λ version. ok (record b { version = version; flags = drop 1 head }, r')

-- `FullBox.Encode` of a box whose size is set, and the writes of its caller behind it: all into the
-- one buffer. Only the flags are copied as far as there is room.
unfoldable pub encode_full : FullBox → List ℕ → Outcome BoxError (List ℕ)
unfolding full_size
encode_full b fields =
    let box = record b.box { size = full_size b } in
    let bytes = box_bytes box ++ (b.version ∷ (b.flags ++ fields)) in
    let least : ℕ = if length fields == 0 then length (box_bytes box) + 1 else length bytes in
    fill least (buffer_size box) bytes
