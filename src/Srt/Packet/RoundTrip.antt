-- ===== src/Srt/Packet/RoundTrip.antt =====
-- `marshal` and `parsePacket`: what is written is read back.
use gomediautils.Prelude.{
  ℕ, suc, ◌+◌, ◌*◌, ◌/◌, ◌%◌, ◌^◌, ◌<◌, ◌≡◌, refl, sym, ap, ◌∙◌, arith, ◌++◌, Bool, true, false,
  ltb, ◌==◌, Bool-cases, length, bit_and, bit_or, ok, if◌then◌else◌, ◌>>=◌, inl, inr, le→ltb, eq→==,
  ne→==,
}
use gomediautils.Prelude.Bits.{bit_and_low, bit_or_sum, bit_or_middle}
use gomediautils.Prelude.Bytes.{IsU16, IsU32, u32_be, read_u32_be-u32_be}
use gomediautils.Srt.Packet.{
  Packet, control_packet, data_packet, need, the_packet, parse_packet, word0, word1, marshal,
}
use gomediautils.Srt.Packet.Sequence.{IsSeq}

-- The fields fit in their bits.
pub record IsValid (p : Packet) : Type 0 where
  pub seq_small : IsSeq p.seq
  pub position_small : p.position < 4
  pub key_small : p.key_flags < 4
  pub msg_small : p.msg_no < 2 ^ 26
  pub type_small : p.ctrl_type < 2 ^ 15
  pub subtype_u16 : IsU16 p.subtype
  pub info_u32 : IsU32 p.type_info
  pub timestamp_u32 : IsU32 p.timestamp
  pub socket_u32 : IsU32 p.dst_socket

-- The fields of the kind of packet that is sent; the others are zero.
abbrev control_part : Packet → Packet
control_part p = record p {
  control = true;
  seq = 0;
  position = 0;
  in_order = false;
  key_flags = 0;
  retransmit = false;
  msg_no = 0;
}

abbrev data_part : Packet → Packet
data_part p = record p { control = false; ctrl_type = 0; subtype = 0; type_info = 0 }

unfoldable pub as_sent : Packet → Packet
as_sent p = if p.control then control_part p else data_part p

abbrev bit : Bool → ℕ
bit true = 1
bit false = 0

control_word :
    (t s : ℕ)
    → t < 2 ^ 15
    → s < 2 ^ 16
    → bit_or (bit_or 0x80000000 (t * 2 ^ 16 % 2 ^ 32)) s ≡ 2 ^ 31 + t * 2 ^ 16 + s
control_word t s ht hs =
    ap (λ (x : ℕ). bit_or (bit_or 0x80000000 x) s) (omega arith)
    ∙ ap (λ (x : ℕ). bit_or x s) (bit_or_sum 31 1 (t * 2 ^ 16) (omega arith))
    ∙ ap (λ (x : ℕ). bit_or x s) (omega arith)
    ∙ bit_or_sum 16 (2 ^ 15 + t) s hs
    ∙ omega arith

with_bit :
    (b : Bool) (k q r : ℕ)
    → r < 2 ^ k
    → (if b then bit_or (q * 2 ^ suc k + r) (2 ^ k) else q * 2 ^ suc k + r)
      ≡ q * 2 ^ suc k + bit b * 2 ^ k + r
with_bit true k q r h = bit_or_middle k q r h ∙ omega arith
with_bit false k q r h = omega arith

low_fields :
    (a k m : ℕ)
    → a < 4
    → k < 4
    → m < 2 ^ 26
    → bit_or
        (bit_or (a * 2 ^ 30 % 2 ^ 32) (bit_and k 0x03 * 2 ^ 27 % 2 ^ 32))
        (bit_and m 0x03FFFFFF)
      ≡ a * 2 ^ 30 + (k * 2 ^ 27 + m)
low_fields a k m ha hk hm =
    let k' : bit_and k 0x03 * 2 ^ 27 % 2 ^ 32 ≡ k * 2 ^ 27 = omega (arith, bit_and_low 2 k) in
    let m' : bit_and m 0x03FFFFFF ≡ m = bit_and_low 26 m ∙ omega arith in
    let a' : a * 2 ^ 30 % 2 ^ 32 ≡ a * 2 ^ 30 = omega arith in
    rw (k', m', a')
      (ap (λ (t : ℕ). bit_or t m) (bit_or_sum 30 a (k * 2 ^ 27) (omega arith))
        ∙ ap (λ (t : ℕ). bit_or t m) (omega arith)
        ∙ bit_or_sum 27 (a * 8 + k) m (omega arith)
        ∙ omega arith)

both : (b : Bool) {x y u v : ℕ} → x ≡ u → y ≡ v → (if b then x else y) ≡ (if b then u else v)
both true p q = p
both false p q = q

small : (s : ℕ) → IsSeq s → s % 2 ^ 31 ≡ s
small s h = omega arith

word1_lem :
    (p : Packet)
    → p.control ≡ false
    → IsValid p
    → word1 p
      ≡ p.position * 2 ^ 30
        + bit p.in_order * 2 ^ 29
        + p.key_flags * 2 ^ 27
        + bit p.retransmit * 2 ^ 26
        + p.msg_no
unfolding word1
word1_lem p c v =
    let low =
      bit_or (bit_or (p.position * 2 ^ 30 % 2 ^ 32) (bit_and p.key_flags 0x03 * 2 ^ 27 % 2 ^ 32))
        (bit_and p.msg_no 0x03FFFFFF) in
    let a = v.position_small in
    let k = v.key_small in
    let m = v.msg_small in
    let base = low_fields p.position p.key_flags p.msg_no a k m in
    let i = with_bit p.in_order 29 p.position (p.key_flags * 2 ^ 27 + p.msg_no) (omega arith) in
    let r =
      with_bit p.retransmit 26 (p.position * 8 + bit p.in_order * 4 + p.key_flags) p.msg_no m in
    let ordered = λ (w : ℕ). if p.in_order then bit_or w (2 ^ 29) else w in
    let resent = λ (w : ℕ). if p.retransmit then bit_or w (2 ^ 26) else w in
    ap (λ (b : Bool). if b then p.type_info else resent (ordered low)) c
    ∙ ap resent (ap ordered base ∙ i ∙ omega arith)
    ∙ r
    ∙ omega arith

word0_lem :
    (p : Packet)
    → IsValid p
    → word0 p ≡ (if p.control then 2 ^ 31 + p.ctrl_type * 2 ^ 16 + p.subtype else p.seq)
unfolding word0
word0_lem p v =
    both p.control (control_word p.ctrl_type p.subtype v.type_small v.subtype_u16)
      (bit_and_low 31 p.seq ∙ small p.seq v.seq_small)

false-ne-true : false ≡ true → ⊥
false-ne-true h = cc

choose : (b : Bool) (x y : ℕ) → b ≡ true → (if b then x else y) ≡ x
choose true x y h = refl
choose false x y h = absurd (false-ne-true h)

word1_control : (p : Packet) → p.control ≡ true → word1 p ≡ p.type_info
unfolding word1
word1_control p c = choose p.control _ _ c

bit-lt : (b : Bool) → bit b < 2
bit-lt true = omega arith
bit-lt false = omega arith

flag_of_bit : (b : Bool) (x : ℕ) → x % 2 ≡ bit b → (bit_and x 1 == 1) ≡ b
flag_of_bit true x h = eq→== _ _ (bit_and_low 1 x ∙ omega arith)
flag_of_bit false x h = ne→== _ _ (omega (arith, bit_and_low 1 x))

-- The header of a packet is read back from its words.
control_packet_lem :
    (p : Packet)
    → p.control ≡ true
    → IsValid p
    → control_packet (word0 p) (word1 p) p.timestamp p.dst_socket p.payload ≡ control_part p
control_packet_lem p c v =
    let t = v.type_small in
    let s = v.subtype_u16 in
    let w0 : word0 p ≡ 2 ^ 31 + p.ctrl_type * 2 ^ 16 + p.subtype =
      word0_lem p v
      ∙ ap (λ (b : Bool). if b then 2 ^ 31 + p.ctrl_type * 2 ^ 16 + p.subtype else p.seq) c in
    let e1 : bit_and (word0 p / 2 ^ 16 % 2 ^ 16) 0x7FFF ≡ p.ctrl_type =
      bit_and_low 15 (word0 p / 2 ^ 16 % 2 ^ 16) ∙ omega arith in
    let e2 : word0 p % 2 ^ 16 ≡ p.subtype = omega arith in
    let e3 : word1 p ≡ p.type_info = word1_control p c in
    λ i. record (control_part p) { ctrl_type = e1 i; subtype = e2 i; type_info = e3 i }

data_packet_lem :
    (p : Packet)
    → p.control ≡ false
    → IsValid p
    → data_packet (word0 p) (word1 p) p.timestamp p.dst_socket p.payload ≡ data_part p
data_packet_lem p c v =
    let w0 : word0 p ≡ p.seq =
      word0_lem p v
      ∙ ap (λ (b : Bool). if b then 2 ^ 31 + p.ctrl_type * 2 ^ 16 + p.subtype else p.seq) c in
    let w1 = word1_lem p c v in
    let a = v.position_small in
    let k = v.key_small in
    let m = v.msg_small in
    let bi = bit-lt p.in_order in
    let br = bit-lt p.retransmit in
    let e1 : word1 p / 2 ^ 30 % 256 ≡ p.position = omega arith in
    let e2 : (bit_and (word1 p / 2 ^ 29) 1 == 1) ≡ p.in_order =
      flag_of_bit p.in_order (word1 p / 2 ^ 29) (omega arith) in
    let e3 : bit_and (word1 p / 2 ^ 27 % 256) 0x03 ≡ p.key_flags =
      bit_and_low 2 (word1 p / 2 ^ 27 % 256) ∙ omega arith in
    let e4 : (bit_and (word1 p / 2 ^ 26) 1 == 1) ≡ p.retransmit =
      flag_of_bit p.retransmit (word1 p / 2 ^ 26) (omega arith) in
    let e5 : bit_and (word1 p) 0x03FFFFFF ≡ p.msg_no = bit_and_low 26 (word1 p) ∙ omega arith in
    λ i. record (data_part p) {
      seq = w0 i;
      position = e1 i;
      in_order = e2 i;
      key_flags = e3 i;
      retransmit = e4 i;
      msg_no = e5 i;
    }

the_packet_lem :
    (p : Packet)
    → IsValid p
    → the_packet (word0 p) (word1 p) p.timestamp p.dst_socket p.payload ≡ as_sent p
unfolding the_packet as_sent
the_packet_lem p v = elim (Bool-cases p.control) [
  | inl c ↦
      let w = word0_lem p v ∙ choose p.control _ _ c in
      let t : (bit_and (word0 p / 2 ^ 31) 1 == 1) ≡ true =
        flag_of_bit true (word0 p / 2 ^ 31) (omega (arith, v.type_small, v.subtype_u16)) in
      rw t (control_packet_lem p c v)
      ∙ ap (λ (b : Bool). if b then control_part p else data_part p) (sym c)
  | inr c ↦
      let w =
        word0_lem p v
        ∙ ap (λ (b : Bool). if b then 2 ^ 31 + p.ctrl_type * 2 ^ 16 + p.subtype else p.seq) c in
      let t : (bit_and (word0 p / 2 ^ 31) 1 == 1) ≡ false =
        flag_of_bit false (word0 p / 2 ^ 31) (omega (arith, v.seq_small)) in
      rw t (data_packet_lem p c v)
      ∙ ap (λ (b : Bool). if b then control_part p else data_part p) (sym c)
]

word0-lt : (p : Packet) → IsValid p → IsU32 (word0 p)
word0-lt p v = elim (Bool-cases p.control) [
  | inl c ↦
      let w = word0_lem p v ∙ choose p.control _ _ c in omega (arith, v.type_small, v.subtype_u16)
  | inr c ↦
      let w =
        word0_lem p v
        ∙ ap (λ (b : Bool). if b then 2 ^ 31 + p.ctrl_type * 2 ^ 16 + p.subtype else p.seq) c in
      omega (arith, v.seq_small)
]

word1-lt : (p : Packet) → IsValid p → IsU32 (word1 p)
word1-lt p v = elim (Bool-cases p.control) [
  | inl c ↦ let w = word1_control p c in omega (arith, v.info_u32)
  | inr c ↦ omega (
    arith,
    word1_lem p c v,
    bit-lt p.in_order,
    bit-lt p.retransmit,
    v.position_small,
    v.key_small,
    v.msg_small,
  )
]

-- A packet whose fields fit in their bits is read back by `parsePacket`, with the fields of the
-- other kind of packet zero.
pub parse_packet-marshal : (p : Packet) → IsValid p → parse_packet (marshal p) ≡ ok (as_sent p)
unfolding parse_packet marshal u32_be
parse_packet-marshal p v =
    let r8 = read_u32_be-u32_be p.timestamp (u32_be p.dst_socket ++ p.payload) v.timestamp_u32 in
    let r12 = read_u32_be-u32_be p.dst_socket p.payload v.socket_u32 in
    let r0 =
      read_u32_be-u32_be (word0 p)
        (u32_be (word1 p) ++ (u32_be p.timestamp ++ (u32_be p.dst_socket ++ p.payload)))
        (word0-lt p v) in
    let r4 =
      read_u32_be-u32_be (word1 p) (u32_be p.timestamp ++ (u32_be p.dst_socket ++ p.payload))
        (word1-lt p v) in
    let n : ltb (length (marshal p)) 16 ≡ false = le→ltb _ _ (omega arith) in
    unfold u32_be in rw (n, r8, r12, r0, r4, ◌>>=◌, need, the_packet_lem p v)
