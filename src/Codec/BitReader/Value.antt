-- ===== src/Codec/BitReader/Value.antt =====
-- What is left to read, as a number: the specification of the reading methods of `BitStream`.
use gomediautils.Prelude.{
  ℕ, ◌+◌, ◌-◌, ◌*◌, ◌/◌, ◌%◌, ◌^◌, ◌<◌, ◌≡◌, refl, arith, List, [], ◌∷◌, length, All,
}
use gomediautils.Prelude.Bytes.{IsByte}
use gomediautils.Prelude.Pow.{two-pow-pos, two-pow-add, mod-split, digits-lt}
use native.Mathlib.Nat.{mod-lt, mod-eq_of_lt}

-- A list of bytes as one big-endian number.
unfoldable pub be : List ℕ → ℕ
be [] = 0
be (x ∷ xs) = x * 2 ^ (8 * length xs) + be xs

pub be-lt : (xs : List ℕ) → All IsByte xs → be xs < 2 ^ (8 * length xs)
unfolding be
be-lt [] h = omega arith
be-lt (x ∷ xs) (p, h) =
    let e : 8 * length (x ∷ xs) ≡ 8 + 8 * length xs = omega arith in
    rw (e, two-pow-add 8 (8 * length xs))
      (digits-lt (2 ^ 8) (2 ^ (8 * length xs)) x (be xs) p (be-lt xs h))

-- The bytes `xs` without the first `off` bits.
unfoldable pub be_from : ℕ → List ℕ → ℕ
be_from off [] = 0
be_from off (x ∷ xs) = x % 2 ^ (8 - off) * 2 ^ (8 * length xs) + be xs

pub be_from-zero : (xs : List ℕ) → All IsByte xs → be_from 0 xs ≡ be xs
unfolding be be_from
be_from-zero [] h = refl
be_from-zero (x ∷ xs) (p, h) = rw (mod-eq_of_lt p)

-- `n` bits taken at offset `off` of the byte `x` stand in front of the rest of it.
pub be_from-take :
    (off n m x : ℕ) (xs : List ℕ)
    → off + n + m ≡ 8
    → be_from off (x ∷ xs)
      ≡ x / 2 ^ m % 2 ^ n * 2 ^ (m + 8 * length xs) + (x % 2 ^ m * 2 ^ (8 * length xs) + be xs)
unfolding be_from
be_from-take off n m x xs e =
    let e' : 8 - off ≡ n + m = omega arith in
    rw (e', mod-split x n m, two-pow-add m (8 * length xs)) (omega arith)

pub be_from-lt :
    (off x : ℕ) (xs : List ℕ) → All IsByte xs → be_from off (x ∷ xs) < 2 ^ (8 - off + 8 * length xs)
unfolding be_from
be_from-lt off x xs h = rw (two-pow-add (8 - off) (8 * length xs)) (
    digits-lt (2 ^ (8 - off)) (2 ^ (8 * length xs)) (x % 2 ^ (8 - off)) (be xs)
      (mod-lt x (two-pow-pos (8 - off))) (be-lt xs h))
