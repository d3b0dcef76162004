-- ===== src/Mkv/Ebml/Sizes.antt =====
-- A data size that `appendSize` writes is read back by `readVint`.
use gomediautils.Prelude.{
  ℕ, zero, suc, ◌+◌, ◌-◌, ◌*◌, ◌/◌, ◌%◌, ◌^◌, ◌≤◌, ◌<◌, ◌≡◌, refl, sym, ap, ◌∙◌, arith, List, [],
  ◌∷◌, ◌++◌, Bool, true, false, ltb, ◌==◌, ◌&&◌, length, length-append, take, take_append, bit_and,
  bit_or, ok, le→ltb, ne→==, ==→eq,
}
use gomediautils.Prelude.Finite.{all_below, all_below-at, and_left, and_right}
use native.Mathlib.Nat.{
  div-div-eq-div-mul, div-le_self, add-mul-div_right, div-lt_iff_lt-mul, pow-le-pow_right,
}
use gomediautils.Prelude.Pow.{two-pow-add, two-pow-pos}
use gomediautils.Prelude.Bits.{bit_or_middle}
use gomediautils.Prelude.Bytes.{IsU64, byte_at, or_bytes}
use gomediautils.Mkv.Ebml.{vint_len, be_bytes, append_size, shift_bytes, vint_of, read_vint}

-- The bytes of a number are read back behind what stands above them.
pub shift_bytes-be_bytes : (n w : ℕ) → IsU64 w → shift_bytes (w / 2 ^ (8 * n)) (be_bytes n w) ≡ w
unfolding shift_bytes be_bytes
shift_bytes-be_bytes zero w h = omega arith
shift_bytes-be_bytes (suc n) w h =
    let d : w / 2 ^ (8 * suc n) ≡ w / 2 ^ (8 * n) / 256 =
      ap (λ (t : ℕ). w / t) (ap (λ (k : ℕ). 2 ^ k) (omega arith) ∙ two-pow-add (8 * n) 8)
      ∙ sym (div-div-eq-div-mul w (2 ^ (8 * n)) 256) in
    let q = w / 2 ^ (8 * n) in
    let small : q ≤ w = div-le_self w (2 ^ (8 * n)) in
    let step : bit_or (w / 2 ^ (8 * suc n) * 2 ^ 8 % 2 ^ 64) (q % 256) ≡ q =
      ap (λ (t : ℕ). bit_or t (q % 256)) (omega arith)
      ∙ or_bytes (q / 256) (q % 256) (omega arith)
      ∙ omega arith in
    ap (λ (t : ℕ). shift_bytes t (be_bytes n w)) step ∙ shift_bytes-be_bytes n w h

-- What stands above the bytes is not written.
be_bytes_high : (n k v : ℕ) → be_bytes n (k * 2 ^ (8 * n) + v) ≡ be_bytes n v
unfolding be_bytes
be_bytes_high zero k v = refl
be_bytes_high (suc n) k v =
    let p = two-pow-pos (8 * n) in
    let e : k * 2 ^ (8 * suc n) + v ≡ k * 256 * 2 ^ (8 * n) + v =
      ap (λ (t : ℕ). k * t + v) (ap (λ (j : ℕ). 2 ^ j) (omega arith) ∙ two-pow-add 8 (8 * n))
      ∙ omega arith in
    let q : (k * 256 * 2 ^ (8 * n) + v) / 2 ^ (8 * n) ≡ v / 2 ^ (8 * n) + k * 256 =
      ap (λ (t : ℕ). t / 2 ^ (8 * n)) (omega arith) ∙ add-mul-div_right v (k * 256) p in
    let f : byte_at (k * 256 * 2 ^ (8 * n) + v) (8 * n) ≡ byte_at v (8 * n) =
      ap (λ (t : ℕ). t % 256) q ∙ omega arith in
    ap (λ (t : ℕ). be_bytes (suc n) t) e ∙ λ i. f i ∷ be_bytes_high n (k * 256) v i

-- The first byte of a size of `suc m` bytes, and what it says.
check : ℕ → ℕ → Bool
check m r =
    (vint_len (2 ^ (7 - m) + r) == suc m) && (bit_and (2 ^ (7 - m) + r) (0xFF / 2 ^ suc m) == r)

check_all : all_below 8 (λ m. all_below (2 ^ (7 - m)) (check m)) ≡ true
unfolding check vint_len
check_all = refl

vint_len_lem : (m r : ℕ) → m < 8 → r < 2 ^ (7 - m) → vint_len (2 ^ (7 - m) + r) ≡ suc m
unfolding check
vint_len_lem m r h k = ==→eq _ _ (
    and_left _ (bit_and (2 ^ (7 - m) + r) (0xFF / 2 ^ suc m) == r) (
      all_below-at (2 ^ (7 - m)) (check m) r
        (all_below-at 8 (λ m. all_below (2 ^ (7 - m)) (check m)) m check_all h) k))

vint_mask_lem :
    (m r : ℕ) → m < 8 → r < 2 ^ (7 - m) → bit_and (2 ^ (7 - m) + r) (0xFF / 2 ^ suc m) ≡ r
unfolding check
vint_mask_lem m r h k = ==→eq _ _ (
    and_right (vint_len (2 ^ (7 - m) + r) == suc m) _ (
      all_below-at (2 ^ (7 - m)) (check m) r
        (all_below-at 8 (λ m. all_below (2 ^ (7 - m)) (check m)) m check_all h) k))

size_bound : (m : ℕ) → m < 8 → 2 ^ (7 * suc m) ≡ 2 ^ (7 - m) * 2 ^ (8 * m)
size_bound m h = ap (λ (j : ℕ). 2 ^ j) (omega arith) ∙ two-pow-add (7 - m) (8 * m)

first_bits : (m v : ℕ) → m < 8 → v < 2 ^ (7 * suc m) → v / 2 ^ (8 * m) < 2 ^ (7 - m)
first_bits m v h k = (div-lt_iff_lt-mul (two-pow-pos (8 * m))).1 (omega (arith, size_bound m h))

-- The bytes of a size, with the length marker in the first one.
size_bytes :
    (m v : ℕ)
    → m < 8
    → v < 2 ^ (7 * suc m)
    → append_size [] v (suc m) ≡ (2 ^ (7 - m) + v / 2 ^ (8 * m)) ∷ be_bytes m v
unfolding append_size be_bytes
size_bytes m v h k =
    let p = two-pow-pos (8 * m) in
    let w = size_bound m h in
    let e : bit_or v (2 ^ (7 * suc m)) ≡ 2 ^ (7 - m) * 2 ^ (8 * m) + v =
      ap (λ (t : ℕ). bit_or t (2 ^ (7 * suc m))) (omega arith)
      ∙ bit_or_middle (7 * suc m) 0 v k
      ∙ omega arith in
    let q : (2 ^ (7 - m) * 2 ^ (8 * m) + v) / 2 ^ (8 * m) ≡ v / 2 ^ (8 * m) + 2 ^ (7 - m) =
      ap (λ (t : ℕ). t / 2 ^ (8 * m)) (omega arith) ∙ add-mul-div_right v (2 ^ (7 - m)) p in
    let r : v / 2 ^ (8 * m) < 2 ^ (7 - m) = first_bits m v h k in
    let d : 2 ^ (7 - m) ≤ 2 ^ 7 = pow-le-pow_right {n = 2} (omega arith) {j = 7} (omega arith) in
    let f : byte_at (2 ^ (7 - m) * 2 ^ (8 * m) + v) (8 * m) ≡ 2 ^ (7 - m) + v / 2 ^ (8 * m) =
      ap (λ (t : ℕ). t % 256) q ∙ omega arith in
    rw e (λ i. f i ∷ be_bytes_high m (2 ^ (7 - m)) v i)

pub length-be_bytes : (n v : ℕ) → length (be_bytes n v) ≡ n
unfolding be_bytes
length-be_bytes zero v = refl
length-be_bytes (suc n) v = ap suc (length-be_bytes n v)

-- A size below 2^(7n) that is written in n bytes, 1 to 8, is read back in front of any bytes, with
-- the number of bytes taken; it is reported as unknown exactly when all of its bits are set.
pub read_vint-append_size :
    (m v : ℕ) (rest : List ℕ)
    → m < 8
    → v < 2 ^ (7 * suc m)
    → read_vint (append_size [] v (suc m) ++ rest)
      ≡ ok (record { value = v; taken = suc m; unknown = v == (2 ^ (7 * suc m) - 1) })
unfolding read_vint vint_of
read_vint-append_size m v rest h k =
    let r = v / 2 ^ (8 * m) in
    let small : r < 2 ^ (7 - m) = first_bits m v h k in
    let u : 2 ^ (7 * suc m) ≤ 2 ^ 56 =
      pow-le-pow_right {n = 2} (omega arith) {j = 56} (omega arith) in
    let n = vint_len_lem m r h small in
    let mask = vint_mask_lem m r h small in
    let l = length-append (be_bytes m v) rest in
    let l' = length-be_bytes m v in
    let t : take (suc m - 1) (be_bytes m v ++ rest) ≡ be_bytes m v =
      take_append (be_bytes m v) rest (suc m - 1) (omega arith) in
    let z : (suc m == 0) ≡ false = ne→== _ _ (omega arith) in
    let b : ltb (suc (length (be_bytes m v ++ rest))) (suc m) ≡ false = le→ltb _ _ (omega arith) in
    let s : shift_bytes r (be_bytes m v) ≡ v = shift_bytes-be_bytes m v (omega arith) in
    rw (size_bytes m v h k, n, z, b, mask, t, s)
