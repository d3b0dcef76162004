-- ===== src/Prelude/Bits.antt =====
-- `&` with a low mask and `|` of disjoint fields as arithmetic, at every width.
mod Digits
use Digits.{bit_and-digit, bit_or-digit}
use Prim.Native.Nat.{ℕ, zero, suc, ◌+◌, ◌-◌, ◌*◌, ◌/◌, ◌%◌, ◌^◌, ◌≤◌, ◌<◌, bit_and, bit_or}
use mathlib.Core.Path.{◌≡◌, refl, ap, ◌∙◌}
use native.Mathlib.Nat.{pow-suc, one-le-pow, mod-lt, div-add-mod'}
use native.Mathlib.Omega.{arith}

two-pow-suc : (q k : ℕ) → q * 2 ^ suc k ≡ 2 * (q * 2 ^ k)
two-pow-suc q k = omega (arith, ap (λ (t : ℕ). q * t) (pow-suc 2 k))

and-zero_upto : (n a : ℕ) → a ≤ n → bit_and a 0 ≡ 0
and-zero_upto n zero h = refl
and-zero_upto zero (suc a) h = absurd (omega arith)
and-zero_upto (suc n) (suc a) h =
    omega (arith, bit_and-digit (suc a) 0, and-zero_upto n (suc a / 2) (omega arith))

or-zero_upto : (n a : ℕ) → a ≤ n → bit_or a 0 ≡ a
or-zero_upto n zero h = refl
or-zero_upto zero (suc a) h = absurd (omega arith)
or-zero_upto (suc n) (suc a) h =
    omega (arith, bit_or-digit (suc a) 0, or-zero_upto n (suc a / 2) (omega arith))

pub bit_or-zero : (a : ℕ) → bit_or a 0 ≡ a
bit_or-zero a = or-zero_upto a a (omega arith)

-- `(q << k) | r` is a sum when `r` fits into `k` bits.
pub bit_or_sum : (k q r : ℕ) → r < 2 ^ k → bit_or (q * 2 ^ k) r ≡ q * 2 ^ k + r
bit_or_sum zero q r h = ground (arith, bit_or-zero q)
bit_or_sum (suc k) q r h = ground (
  arith,
  bit_or-digit (q * 2 ^ suc k) r,
  two-pow-suc q k,
  pow-suc 2 k,
  bit_or_sum k q (r / 2) (omega (arith, pow-suc 2 k)),
)

and_low_digits : (k q r : ℕ) → r < 2 ^ k → bit_and (q * 2 ^ k + r) (2 ^ k - 1) ≡ r
and_low_digits zero q r h =
    omega (arith, and-zero_upto (q * 2 ^ 0 + r) (q * 2 ^ 0 + r) (omega arith))
and_low_digits (suc k) q r h = ground (
  arith,
  bit_and-digit (q * 2 ^ suc k + r) (2 ^ suc k - 1),
  two-pow-suc q k,
  pow-suc 2 k,
  one-le-pow k 2,
  and_low_digits k q (r / 2) (omega (arith, pow-suc 2 k)),
)

-- `a & (2^k - 1)` is the remainder by `2 ^ k`.
pub bit_and_low : (k a : ℕ) → bit_and a (2 ^ k - 1) ≡ a % 2 ^ k
bit_and_low k a = ground (
  arith,
  one-le-pow k 2,
  div-add-mod' a (2 ^ k),
  and_low_digits k (a / 2 ^ k) (a % 2 ^ k) (mod-lt a (omega (arith, one-le-pow k 2))),
)

-- A single bit set in front of `k` low bits and behind the high ones, when it is clear.
pub bit_or_middle :
    (k q r : ℕ) → r < 2 ^ k → bit_or (q * 2 ^ suc k + r) (2 ^ k) ≡ q * 2 ^ suc k + 2 ^ k + r
bit_or_middle zero q r h = ground (arith, bit_or_sum 1 q 1, pow-suc 2 0)
bit_or_middle (suc k) q r h = ground (
  arith,
  bit_or-digit (q * 2 ^ suc (suc k) + r) (2 ^ suc k),
  two-pow-suc q k,
  two-pow-suc q (suc k),
  pow-suc 2 k,
  pow-suc 2 (suc k),
  bit_or_middle k q (r / 2) (omega (arith, pow-suc 2 k)),
)
