-- ===== src/Prelude/Pow.antt =====
-- Powers of two and the digits that division by them takes apart.
use Prim.Native.Nat.{ℕ, zero, suc, ◌+◌, ◌*◌, ◌/◌, ◌%◌, ◌^◌, ◌<◌}
use mathlib.Core.Path.{◌≡◌, ap, ◌∙◌}
use native.Mathlib.Nat.{
  pow-suc, one-le-pow, mod-lt, div-add-mod', add-mul-mod_self_right, mod-eq_of_lt,
}
use native.Mathlib.Omega.{arith}

pub two-pow-pos : (k : ℕ) → 0 < 2 ^ k
two-pow-pos k = omega (arith, one-le-pow k 2)

pub two-pow-add : (n m : ℕ) → 2 ^ (n + m) ≡ 2 ^ n * 2 ^ m
two-pow-add zero m = omega (arith, ap (λ (t : ℕ). 2 ^ t) (let e : zero + m ≡ m = omega arith in e))
two-pow-add (suc n) m =
    ap (λ (t : ℕ). 2 ^ t) (let e : suc n + m ≡ suc (n + m) = omega arith in e)
    ∙ omega (
      arith,
      pow-suc 2 (n + m),
      ap (λ (t : ℕ). t * 2 ^ m) (pow-suc 2 n),
      ap (λ (t : ℕ). t * 2) (two-pow-add n m),
    )

-- A digit below `a` in front of a rest below `b`.
pub digits-lt : (a b q r : ℕ) → q < a → r < b → q * b + r < a * b
digits-lt a b q r hq hr = grind arith

pub mod-digits :
    (a b q r : ℕ) → q < a → r < b → (x t : ℕ) → x ≡ (t * a + q) * b + r → x % (a * b) ≡ q * b + r
mod-digits a b q r hq hr x t e =
    ap (λ (y : ℕ). y % (a * b)) (e ∙ omega arith)
    ∙ add-mul-mod_self_right (q * b + r) t (a * b)
    ∙ mod-eq_of_lt (digits-lt a b q r hq hr)

-- The low `n + m` bits are the `n` bits above the `m` lowest, and these.
pub mod-split : (x n m : ℕ) → x % 2 ^ (n + m) ≡ x / 2 ^ m % 2 ^ n * 2 ^ m + x % 2 ^ m
mod-split x n m =
    ap (λ (t : ℕ). x % t) (two-pow-add n m)
    ∙ mod-digits (2 ^ n) (2 ^ m) (x / 2 ^ m % 2 ^ n) (x % 2 ^ m) (mod-lt _ (two-pow-pos n))
        (mod-lt _ (two-pow-pos m)) x (x / 2 ^ m / 2 ^ n)
        (omega (
          arith,
          div-add-mod' x (2 ^ m),
          ap (λ (t : ℕ). t * 2 ^ m) (div-add-mod' (x / 2 ^ m) (2 ^ n)),
        ))
