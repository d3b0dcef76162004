-- ===== src/Prelude/Bytes.antt =====
-- Bytes and the fixed-width fields of encoding/binary. A byte is a number below 256.
use Prim.Native.Nat.{ℕ, ◌+◌, ◌*◌, ◌/◌, ◌%◌, ◌^◌, ◌<◌, bit_or}
use mathlib.Core.Path.{◌≡◌, ap, ◌∙◌}
use mathlib.Core.List.{List, [], ◌∷◌, ◌++◌}
use mathlib.Core.Option.{Option, none, some}
use native.Mathlib.Omega.{arith}
use gomediautils.Prelude.Bits.{bit_or_sum}

abbrev pub IsByte : ℕ → Type 0
IsByte b = b < 256

abbrev pub IsU16 : ℕ → Type 0
IsU16 v = v < 2 ^ 16

abbrev pub IsU32 : ℕ → Type 0
IsU32 v = v < 2 ^ 32

abbrev pub IsU64 : ℕ → Type 0
IsU64 v = v < 2 ^ 64

-- `byte(v >> s)`
abbrev pub byte_at : ℕ → ℕ → ℕ
byte_at v s = v / 2 ^ s % 256

-- binary.BigEndian.PutUint16, PutUint32 and PutUint64, as the bytes that they write.
unfoldable pub u16_be : ℕ → List ℕ
u16_be v = byte_at v 8 ∷ byte_at v 0 ∷ []

unfoldable pub u24_be : ℕ → List ℕ
u24_be v = byte_at v 16 ∷ byte_at v 8 ∷ byte_at v 0 ∷ []

unfoldable pub u32_be : ℕ → List ℕ
u32_be v = byte_at v 24 ∷ byte_at v 16 ∷ byte_at v 8 ∷ byte_at v 0 ∷ []

unfoldable pub u64_be : ℕ → List ℕ
unfolding u32_be
u64_be v = u32_be (v / 2 ^ 32) ++ u32_be v

-- binary.LittleEndian.PutUint16 and PutUint32.
unfoldable pub u16_le : ℕ → List ℕ
u16_le v = byte_at v 0 ∷ byte_at v 8 ∷ []

unfoldable pub u32_le : ℕ → List ℕ
u32_le v = byte_at v 0 ∷ byte_at v 8 ∷ byte_at v 16 ∷ byte_at v 24 ∷ []

-- binary.BigEndian.Uint16, Uint32 and Uint64: a slice that is too short panics.
unfoldable pub read_u16_be : List ℕ → Option ℕ
read_u16_be (a ∷ b ∷ _) = some (a * 2 ^ 8 + b)
read_u16_be _ = none

unfoldable pub read_u32_be : List ℕ → Option ℕ
read_u32_be (a ∷ b ∷ c ∷ d ∷ _) = some (a * 2 ^ 24 + b * 2 ^ 16 + c * 2 ^ 8 + d)
read_u32_be _ = none

unfoldable pub read_u64_be : List ℕ → Option ℕ
read_u64_be (a ∷ b ∷ c ∷ d ∷ e ∷ f ∷ g ∷ h ∷ _) =
    some (
      (a * 2 ^ 24 + b * 2 ^ 16 + c * 2 ^ 8 + d) * 2 ^ 32
      + (e * 2 ^ 24 + f * 2 ^ 16 + g * 2 ^ 8 + h))
read_u64_be _ = none

unfoldable pub read_u32_le : List ℕ → Option ℕ
read_u32_le (a ∷ b ∷ c ∷ d ∷ _) = some (d * 2 ^ 24 + c * 2 ^ 16 + b * 2 ^ 8 + a)
read_u32_le _ = none

pub read_u16_be-u16_be : (v : ℕ) (r : List ℕ) → IsU16 v → read_u16_be (u16_be v ++ r) ≡ some v
unfolding read_u16_be u16_be
read_u16_be-u16_be v r h = ap some (omega arith)

pub read_u32_be-u32_be : (v : ℕ) (r : List ℕ) → IsU32 v → read_u32_be (u32_be v ++ r) ≡ some v
unfolding read_u32_be u32_be
read_u32_be-u32_be v r h = ap some (omega arith)

pub read_u64_be-u64_be : (v : ℕ) (r : List ℕ) → IsU64 v → read_u64_be (u64_be v ++ r) ≡ some v
unfolding read_u64_be u64_be u32_be
read_u64_be-u64_be v r h = ap some (omega arith)

pub read_u32_le-u32_le : (v : ℕ) (r : List ℕ) → IsU32 v → read_u32_le (u32_le v ++ r) ≡ some v
unfolding read_u32_le u32_le
read_u32_le-u32_le v r h = ap some (omega arith)

-- `a<<8 | b` and `a<<16 | b<<8 | c` of bytes are sums.
pub or_bytes : (a b : ℕ) → IsByte b → bit_or (a * 2 ^ 8) b ≡ a * 2 ^ 8 + b
or_bytes a b h = bit_or_sum 8 a b h

pub or_bytes₃ :
    (a b c : ℕ)
    → IsByte b
    → IsByte c
    → bit_or (bit_or (a * 2 ^ 16) (b * 2 ^ 8)) c ≡ a * 2 ^ 16 + b * 2 ^ 8 + c
or_bytes₃ a b c hb hc =
    ap (λ (t : ℕ). bit_or t c) (bit_or_sum 16 a (b * 2 ^ 8) (omega arith))
    ∙ ap (λ (t : ℕ). bit_or t c) (omega arith)
    ∙ bit_or_sum 8 (a * 256 + b) c hc
    ∙ omega arith
