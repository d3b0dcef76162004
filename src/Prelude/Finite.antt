-- ===== src/Prelude/Finite.antt =====
-- Tests of all numbers below a bound, which are decided by running them.
use Prim.Native.Nat.{ℕ, zero, suc, ◌<◌}
use mathlib.Core.Path.{◌≡◌, refl, ap, ◌∙◌}
use mathlib.Core.Logic.{inl, inr}
use mathlib.Core.Bool.{Bool, true, false, ◌&&◌}
use native.Mathlib.Omega.{arith}
use gomediautils.Prelude.Tests.{◌==◌, ==→eq, ==→ne, Bool-cases}

-- A test of every number below a bound.
abbrev pub all_below : ℕ → (ℕ → Bool) → Bool
all_below zero p = true
all_below (suc n) p = p n && all_below n p

pub and_left : (a b : Bool) → (a && b) ≡ true → a ≡ true
and_left true b h = refl
and_left false b h = h

pub and_right : (a b : Bool) → (a && b) ≡ true → b ≡ true
and_right true b h = h
and_right false b h = absurd cc

pub all_below-at : (n : ℕ) (p : ℕ → Bool) (i : ℕ) → all_below n p ≡ true → i < n → p i ≡ true
all_below-at zero p i h b = absurd (omega arith)
all_below-at (suc n) p i h b = elim (Bool-cases (i == n)) [
  | inl e ↦ ap p (==→eq i n e) ∙ and_left (p n) (all_below n p) h
  | inr e ↦ all_below-at n p i (and_right (p n) (all_below n p) h) (omega (arith, ==→ne i n e))
]
