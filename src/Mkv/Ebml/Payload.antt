-- ===== src/Mkv/Ebml/Payload.antt =====
-- An unsigned number that `uintElement` writes is read back by `readUint`, and the size of an
-- element is never the reserved one.
use gomediautils.Prelude.{
  ℕ, zero, suc, ◌+◌, ◌-◌, ◌*◌, ◌/◌, ◌^◌, ◌≤◌, ◌<◌, ◌≡◌, refl, sym, ap, ◌∙◌, arith, List, [], ◌++◌,
  ne→==, false, ltb, leb, ◌==◌, Bool-cases, length, ok, inl, inr, le→ltb, lt→ltb, leb→lt, ==→eq,
}
use gomediautils.Prelude.Bytes.{IsU64}
use gomediautils.Mkv.Ebml.{
  be_bytes, shift_bytes, uint_len_from, uint_len, uint_payload, read_uint, size_len_from, size_len,
  append_size, read_vint,
}
use gomediautils.Mkv.Ebml.Sizes.{shift_bytes-be_bytes, read_vint-append_size, length-be_bytes}

record HasLength (v n : ℕ) : Type 0 where
  few : n ≤ 8
  all_bits : v / 2 ^ (8 * n) ≡ 0

uint_len_from-HasLength :
    (fuel n v : ℕ) → n + fuel ≡ 8 → IsU64 v → HasLength v (uint_len_from fuel n v)
unfolding uint_len_from
uint_len_from-HasLength zero n v e h = record {
  few = omega arith;
  all_bits = ap (λ (k : ℕ). v / 2 ^ (8 * k)) (let n8 : n ≡ 8 = omega arith in n8) ∙ omega arith;
}
uint_len_from-HasLength (suc fuel) n v e h =
    let ih = uint_len_from-HasLength fuel (suc n) v (omega arith) h in
    elim (Bool-cases (v / 2 ^ (8 * n) == 0)) [
      | inl z ↦
          rw (lt→ltb n 8 (omega arith), z) (record { few = omega arith; all_bits = ==→eq _ _ z })
      | inr z ↦ rw (lt→ltb n 8 (omega arith), z) ih
    ]

-- A number of 64 bits is read back by `readUint` from the payload that `uintElement` makes.
pub read_uint-uint_payload : (v : ℕ) → IsU64 v → read_uint (uint_payload v) ≡ ok v
unfolding read_uint uint_payload uint_len
read_uint-uint_payload v h =
    let k = uint_len_from-HasLength 7 1 v refl h in
    let n = uint_len_from 7 1 v in
    let l = length-be_bytes n v in
    let few = k.few in
    let b : ltb 8 (length (be_bytes n v)) ≡ false = le→ltb 8 _ (omega arith) in
    let s : shift_bytes 0 (be_bytes n v) ≡ v =
      ap (λ (t : ℕ). shift_bytes t (be_bytes n v))
        (let e : 0 ≡ v / 2 ^ (8 * n) = omega (arith, k.all_bits) in e)
      ∙ shift_bytes-be_bytes n v h in
    rw (b, s)

-- A size has 1 to 8 bytes, and is below the value with all bits set.
record Fits (v n : ℕ) : Type 0 where
  some_bytes : 1 ≤ n
  few_bytes : n ≤ 8
  below : v < 2 ^ (7 * n) - 1

at_eight : (n v : ℕ) → n ≡ 8 → v < 2 ^ 56 - 1 → v < 2 ^ (7 * n) - 1
at_eight n v e h = let p : 2 ^ (7 * n) ≡ 2 ^ 56 = ap (λ (k : ℕ). 2 ^ (7 * k)) e in omega arith

size_len_from-Fits :
    (fuel n v : ℕ) → n + fuel ≡ 8 → 1 ≤ n → v < 2 ^ 56 - 1 → Fits v (size_len_from fuel n v)
unfolding size_len_from
size_len_from-Fits zero n v e p h = record {
  some_bytes = p;
  few_bytes = omega arith;
  below = at_eight n v (omega arith) h;
}
size_len_from-Fits (suc fuel) n v e p h =
    let ih = size_len_from-Fits fuel (suc n) v (omega arith) (omega arith) h in
    elim (Bool-cases (leb (2 ^ (7 * n) - 1) v)) [
      | inl z ↦ rw (lt→ltb n 8 (omega arith), z) ih
      | inr z ↦
          rw (lt→ltb n 8 (omega arith), z)
            (record { some_bytes = p; few_bytes = omega arith; below = leb→lt _ _ z })
    ]

below_marker : (v m n : ℕ) → suc m ≡ n → v < 2 ^ (7 * n) - 1 → v < 2 ^ (7 * suc m)
below_marker v m n e h =
    let p : 2 ^ (7 * suc m) ≡ 2 ^ (7 * n) = ap (λ (k : ℕ). 2 ^ (7 * k)) e in omega arith

read_as :
    (m n v : ℕ) (rest : List ℕ)
    → suc m ≡ n
    → (v == (2 ^ (7 * n) - 1)) ≡ false
    → read_vint (append_size [] v (suc m) ++ rest)
      ≡ ok (record { value = v; taken = suc m; unknown = v == (2 ^ (7 * suc m) - 1) })
    → read_vint (append_size [] v n ++ rest) ≡ ok (record { value = v; taken = n; unknown = false })
read_as m n v rest e u r = ap (λ (k : ℕ). read_vint (append_size [] v k ++ rest)) (sym e) ∙ r ∙ λ i.
    ok (record {
      value = v;
      taken = e i;
      unknown = (ap (λ (k : ℕ). v == (2 ^ (7 * k) - 1)) e ∙ u) i;
    })

-- A size below 2^56 - 1 that is written in the number of bytes that `sizeLen` gives is read back, in
-- front of any bytes, and is not reported as unknown.
pub read_vint-size_len :
    (len : ℕ) (rest : List ℕ)
    → len < 2 ^ 56 - 1
    → read_vint (append_size [] len (size_len len) ++ rest)
      ≡ ok (record { value = len; taken = size_len len; unknown = false })
unfolding size_len
read_vint-size_len len rest h =
    let f = size_len_from-Fits 7 1 len refl (omega arith) h in
    let n = size_len_from 7 1 len in
    let m = n - 1 in
    let p = f.some_bytes in
    let q = f.few_bytes in
    let b = f.below in
    let e : suc m ≡ n = omega arith in
    let bn : (len == (2 ^ (7 * n) - 1)) ≡ false = ne→== _ _ (omega arith) in
    let bm : len < 2 ^ (7 * suc m) = below_marker len m n e b in
    let r = read_vint-append_size m len rest (omega arith) bm in read_as m n len rest e bn r
