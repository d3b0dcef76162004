-- ===== src/Srt/Packet.antt =====
-- go-srt/packet.go: the packet of SRT, the 31-bit sequence numbers, and the loss list of a NAK.
-- The pointer that a parse returns is the packet itself; a uint32 is a number below 2^32.
pub mod Sequence
pub mod Loss
pub mod Walk
pub mod RoundTrip
use gomediautils.Prelude.{
  ℕ, zero, suc, ◌+◌, ◌-◌, ◌*◌, ◌/◌, ◌%◌, ◌^◌, List, [], ◌∷◌, ◌++◌, Bool, true, false, not, ltb, leb,
  ◌==◌, if◌then◌else◌, length, drop, take, set, bit_and, bit_or, Outcome, ok, err, panic, ◌>>=◌,
  Option, none, some, get_or,
}
use gomediautils.Prelude.Bytes.{u32_be, read_u32_be}
use gomediautils.Prelude.Int.{ℤ, pos, negsuc, signed32, ltb_ℤ, leb_ℤ, sub_ℕ, word32}

pub data SrtError : Type 0 where
  short_packet : SrtError

abbrev pub header_size : ℕ
header_size = 16

pub record Packet : Type 0 where
  pub control : Bool
  pub seq : ℕ
  pub position : ℕ
  pub in_order : Bool
  pub key_flags : ℕ
  pub retransmit : Bool
  pub msg_no : ℕ
  pub ctrl_type : ℕ
  pub subtype : ℕ
  pub type_info : ℕ
  pub timestamp : ℕ
  pub dst_socket : ℕ
  pub payload : List ℕ

-- A field read from the front of a slice; a slice that is too short panics.
abbrev pub need {ℓ} : {A : Type ℓ} → Option A → Outcome SrtError A
need none = panic
need (some x) = ok x

-- The packet that the four words of a header make, of either kind.
abbrev pub control_packet : ℕ → ℕ → ℕ → ℕ → List ℕ → Packet
control_packet w0 w1 timestamp dst_socket payload = record {
  control = true;
  seq = 0;
  position = 0;
  in_order = false;
  key_flags = 0;
  retransmit = false;
  msg_no = 0;
  ctrl_type = bit_and (w0 / 2 ^ 16 % 2 ^ 16) 0x7FFF;
  subtype = w0 % 2 ^ 16;
  type_info = w1;
  timestamp = timestamp;
  dst_socket = dst_socket;
  payload = payload;
}

abbrev pub data_packet : ℕ → ℕ → ℕ → ℕ → List ℕ → Packet
data_packet w0 w1 timestamp dst_socket payload = record {
  control = false;
  seq = w0;
  position = w1 / 2 ^ 30 % 256;
  in_order = bit_and (w1 / 2 ^ 29) 1 == 1;
  key_flags = bit_and (w1 / 2 ^ 27 % 256) 0x03;
  retransmit = bit_and (w1 / 2 ^ 26) 1 == 1;
  msg_no = bit_and w1 0x03FFFFFF;
  ctrl_type = 0;
  subtype = 0;
  type_info = 0;
  timestamp = timestamp;
  dst_socket = dst_socket;
  payload = payload;
}

unfoldable pub the_packet : ℕ → ℕ → ℕ → ℕ → List ℕ → Packet
the_packet w0 w1 timestamp dst_socket payload =
    if bit_and (w0 / 2 ^ 31) 1 == 1
    then control_packet w0 w1 timestamp dst_socket payload
    else data_packet w0 w1 timestamp dst_socket payload

unfoldable pub parse_packet : List ℕ → Outcome SrtError Packet
parse_packet b =
    if ltb (length b) header_size
    then err short_packet
    else (need (read_u32_be (drop 8 b)) >>= λ timestamp.
        need (read_u32_be (drop 12 b)) >>= λ dst_socket. need (read_u32_be b) >>= λ w0.
        need (read_u32_be (drop 4 b)) >>= λ w1.
        ok (the_packet w0 w1 timestamp dst_socket (drop header_size b)))

abbrev pub seq_mask : ℕ
seq_mask = 0x7FFFFFFF

abbrev pub seq_half : ℕ
seq_half = 0x40000000

unfoldable pub word0 : Packet → ℕ
word0 p =
    if p.control
    then bit_or (bit_or 0x80000000 (p.ctrl_type * 2 ^ 16 % 2 ^ 32)) p.subtype
    else bit_and p.seq seq_mask

unfoldable pub word1 : Packet → ℕ
word1 p =
    let w1 =
      bit_or (bit_or (p.position * 2 ^ 30 % 2 ^ 32) (bit_and p.key_flags 0x03 * 2 ^ 27 % 2 ^ 32))
        (bit_and p.msg_no 0x03FFFFFF) in
    let w1' = if p.in_order then bit_or w1 (2 ^ 29) else w1 in
    let w1'' = if p.retransmit then bit_or w1' (2 ^ 26) else w1' in
    if p.control then p.type_info else w1''

unfoldable pub marshal : Packet → List ℕ
marshal p =
    u32_be (word0 p)
    ++ (u32_be (word1 p) ++ (u32_be p.timestamp ++ (u32_be p.dst_socket ++ p.payload)))

-- `raw[4] |= 0x04`
unfoldable pub mark_retransmitted : List ℕ → Outcome SrtError (List ℕ)
mark_retransmitted raw =
    if ltb 4 (length raw) then ok (set raw 4 (bit_or (get_or raw 4 0) 0x04)) else panic

-- `uint32(int32(s)+n) & seqMask`, with an int32 `n`.
unfoldable pub seq_add : ℕ → ℤ → ℕ
seq_add s n = bit_and ((s + word32 n) % 2 ^ 32) seq_mask

unfoldable pub seq_next : ℕ → ℕ
seq_next s = bit_and ((s + 1) % 2 ^ 32) seq_mask

unfoldable pub seq_diff : ℕ → ℕ → ℤ
seq_diff a b =
    let d = bit_and ((b + (2 ^ 32 - a)) % 2 ^ 32) seq_mask in
    if leb seq_half d then sub_ℕ d (seq_mask + 1) else pos d

unfoldable pub seq_less : ℕ → ℕ → Bool
unfolding seq_diff
seq_less a b = ltb_ℤ (pos 0) (seq_diff a b)

-- The inner loop of `encodeLossList`: the end of the run that starts with `s`, and what is left.
unfoldable pub run_end : ℕ → List ℕ → ℕ × List ℕ
run_end s [] = (s, [])
run_end s (t ∷ ts) = let rest = run_end t ts in if t == seq_next s then rest else (s, t ∷ ts)

-- One entry of the list: a number, or the two ends of a range.
unfoldable pub loss_entry : ℕ → ℕ → Bool → List ℕ
loss_entry first last single =
    if single then u32_be first else u32_be (bit_or first 0x80000000) ++ u32_be last

-- `encodeLossList`. The fuel is the number of entries still to write; the length of the list is
-- enough, since each round takes at least one number.
unfoldable pub encode_loss_loop : ℕ → List ℕ → List ℕ
unfolding run_end loss_entry
encode_loss_loop zero seqs = []
encode_loss_loop (suc fuel) [] = []
encode_loss_loop (suc fuel) (s ∷ ss) =
    let (last, rest) = run_end s ss in
    let tail = encode_loss_loop fuel rest in loss_entry s last (length rest == length ss) ++ tail

unfoldable pub encode_loss_list : List ℕ → List ℕ
unfolding encode_loss_loop
encode_loss_list seqs = encode_loss_loop (length seqs) seqs

abbrev pub max_loss_range : ℕ
max_loss_range = 2 ^ 16

-- `n` numbers from `s` on.
unfoldable pub seq_range : ℕ → ℕ → List ℕ
unfolding seq_next
seq_range s zero = []
seq_range s (suc n) = s ∷ seq_range (seq_next s) n

-- The numbers that one range of a report names.
unfoldable pub loss_range : ℕ → ℕ → List ℕ
unfolding seq_range seq_diff
loss_range start end = elim (seq_diff start end) [
  | negsuc _ ↦ []
  | pos n ↦ if ltb max_loss_range n then [] else seq_range start (suc n)
]

-- The rounds of `decodeLossList`: the numbers that `fn` is called with, in order. Each round takes
-- four bytes at least, so the length of the report is enough fuel.
unfoldable pub decode_loss_loop : ℕ → List ℕ → List ℕ
decode_loss_loop zero b = []
decode_loss_loop (suc fuel) b =
    let after_one = decode_loss_loop fuel (drop 4 b) in
    let after_two = decode_loss_loop fuel (drop 8 b) in
    elim (read_u32_be b) [
      | none ↦ []
      | some v ↦
          if bit_and (v / 2 ^ 31) 1 == 0 then v ∷ after_one else elim (read_u32_be (drop 4 b)) [
            | none ↦ []
            | some w ↦ loss_range (bit_and v seq_mask) (bit_and w seq_mask) ++ after_two
          ]
    ]

unfoldable pub decode_loss_list : List ℕ → List ℕ
decode_loss_list b = decode_loss_loop (length b) b
