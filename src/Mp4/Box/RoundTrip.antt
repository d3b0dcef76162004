-- ===== src/Mp4/Box/RoundTrip.antt =====
-- A full box that is written is read back, header first.
use gomediautils.Prelude.{
  ℕ, ◌+◌, ◌<◌, ◌≤◌, ◌≡◌, arith, List, [], ◌∷◌, ◌++◌, append-nil, length, ok, true, false, ltb, ◌==◌,
  le→ltb, lt→ltb, take_all, Bool-cases, inl, inr, ◌-◌,
}
use gomediautils.Prelude.Bytes.{u32_be, IsU32, read_u32_be-u32_be}
use gomediautils.Mp4.Box.{
  FullBox, is_uuid, read_full, decode_user_type, decode_box, fill, box_bytes, buffer_size,
  full_size, encode_full, decode_full,
}

-- The bytes of a full box of version `v` without flags, whose type has the bytes `a` to `d`.
unfoldable pub full_bytes : ℕ → ℕ → ℕ → ℕ → ℕ → ℕ → List ℕ → List ℕ
full_bytes n a b c d v fields = u32_be n ++ (a ∷ b ∷ c ∷ d ∷ v ∷ 0 ∷ 0 ∷ 0 ∷ fields)

fill_lem :
    (least n : ℕ) (bytes : List ℕ) → n ≡ length bytes → least ≤ n → fill least n bytes ≡ ok bytes
unfolding fill
fill_lem least n bytes e h =
    let l : ltb n least ≡ false = le→ltb _ _ h in
    let z : n - length bytes ≡ 0 = omega arith in
    rw (l, z, append-nil bytes, take_all n bytes (omega arith))

module _ (a b c d : ℕ) (named : is_uuid (a ∷ b ∷ c ∷ d ∷ []) ≡ false) where
  pub encode_full_lem :
      (v n : ℕ) (user fields : List ℕ)
      → n ≡ 12 + length fields
      → IsU32 n
      → encode_full
          (record {
            box = record { size = n; box_type = a ∷ b ∷ c ∷ d ∷ []; user_type = user };
            version = v;
            flags = 0 ∷ 0 ∷ 0 ∷ [];
          })
          fields
        ≡ ok (full_bytes n a b c d v fields)
  unfolding encode_full full_size box_bytes buffer_size full_bytes u32_be
  encode_full_lem v n user fields e h =
      let s : ltb 0 n ≡ true = lt→ltb _ _ (omega arith) in
      let f : ltb 0xFFFFFFFF n ≡ false = le→ltb _ _ (omega arith) in
      let bytes = full_bytes n a b c d v fields in
      elim (Bool-cases (length fields == 0)) [
        | inl z ↦ rw (s, f, named, z) (fill_lem 9 n bytes (omega arith) (omega arith))
        | inr z ↦ rw (s, f, named, z) (fill_lem (length bytes) n bytes (omega arith) (omega arith))
      ]

  -- The header gives the size and the type, and leaves the version and what is behind it.
  pub decode_box-full_bytes :
      (v n : ℕ) (old fields : List ℕ)
      → 1 < n
      → IsU32 n
      → decode_box old (full_bytes n a b c d v fields)
        ≡ ok (record {
          box = record { size = n; box_type = a ∷ b ∷ c ∷ d ∷ []; user_type = old };
          taken = 8;
          rest = v ∷ 0 ∷ 0 ∷ 0 ∷ fields;
        })
  unfolding decode_box decode_user_type read_full full_bytes u32_be
  decode_box-full_bytes v n old fields big h =
      let l : ltb (length (full_bytes n a b c d v fields)) 8 ≡ false = le→ltb _ _ (omega arith) in
      let w = read_u32_be-u32_be n (a ∷ b ∷ c ∷ d ∷ []) h in
      let k : (n == 1) ≡ false = ground (arith, big) in rw (l, w, k, named)

pub decode_full_lem :
    (box : FullBox) (v : ℕ) (fields : List ℕ)
    → decode_full box (v ∷ 0 ∷ 0 ∷ 0 ∷ fields)
      ≡ ok (record box { version = v; flags = 0 ∷ 0 ∷ 0 ∷ [] }, fields)
unfolding decode_full read_full
decode_full_lem box v fields =
    let l : ltb (length (v ∷ 0 ∷ 0 ∷ 0 ∷ fields)) 4 ≡ false = le→ltb _ _ (omega arith) in rw l
