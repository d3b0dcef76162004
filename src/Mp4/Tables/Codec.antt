-- ===== src/Mp4/Tables/Codec.antt =====
-- The tables of go-mp4 written and read back: what the boxes of the sample table have in common.
use gomediautils.Prelude.{
  lt→ltb, true, ◌^◌, ℕ, ◌+◌, ◌-◌, ◌*◌, ◌≤◌, ◌≡◌, refl, ap, ◌∙◌, arith, List, [], ◌∷◌, ◌++◌,
  append_assoc, All, length, length-append, take_append, drop_append, Outcome, ok, ◌>>=◌, Option,
  some, false, ltb, ◌==◌, le→ltb,
}
use gomediautils.Prelude.Bytes.{IsU32, u32_be, read_u32_be, read_u32_be-u32_be}
use gomediautils.Mp4.Box.{
  BoxError, FullBox, read_full, table_remain, check_table_size, full_box_len, max_box_payload_size,
  is_uuid, decode_full, encode_full,
}
use gomediautils.Mp4.Box.RoundTrip.{full_bytes, encode_full_lem, decode_full_lem}
use gomediautils.Mp4.Table.{parse_entries, write_entries, read_entries, read_count}

pub read_full_lem : (n : ℕ) (xs ys : List ℕ) → n ≡ length xs → read_full n (xs ++ ys) ≡ ok (xs, ys)
unfolding read_full
read_full_lem n xs ys e =
    let l : ltb (length (xs ++ ys)) n ≡ false = le→ltb _ _ (omega (arith, length-append xs ys)) in
    rw (l, take_append xs ys n e, drop_append xs ys n e)

pub read_count_lem : (n : ℕ) (r : List ℕ) → IsU32 n → read_count (u32_be n ++ r) ≡ ok (n, r)
unfolding read_count
read_count_lem n r h =
    let p = read_full_lem 4 (u32_be n) r (unfold u32_be in refl) in
    let w : read_u32_be (u32_be n) ≡ some n = unfold u32_be in read_u32_be-u32_be n [] h in
    rw (p, w)

module _ {ℓ} {A : Type ℓ} (write : A → List ℕ) where
  unfoldable pub entry_bytes : List A → List ℕ
  entry_bytes [] = []
  entry_bytes (e ∷ es) = write e ++ entry_bytes es

  pub write_entries_lem : (es : List A) → write_entries write (length es) es ≡ ok (entry_bytes es)
  unfolding write_entries entry_bytes
  write_entries_lem [] = refl
  write_entries_lem (e ∷ es) = rw (write_entries_lem es)

  module _ (width : ℕ) (wide : (e : A) → length (write e) ≡ width) where
    pub length-entry_bytes : (es : List A) → length (entry_bytes es) ≡ length es * width
    unfolding entry_bytes
    length-entry_bytes [] = omega arith
    length-entry_bytes (e ∷ es) =
        omega (arith, length-append (write e) (entry_bytes es), length-entry_bytes es, wide e)

    module _ {κ} (parse : List ℕ → Option A) (Fits : A → Type κ)
        (back : (e : A) (r : List ℕ) → Fits e → parse (write e ++ r) ≡ some e) where
      parse_entries-entry_bytes :
          (es : List A)
          → All Fits es
          → parse_entries parse width (length es) (entry_bytes es) ≡ ok es
      unfolding parse_entries entry_bytes
      parse_entries-entry_bytes [] h = refl
      parse_entries-entry_bytes (e ∷ es) (h, hs) =
          let b = back e (entry_bytes es) h in
          let d = drop_append (write e) (entry_bytes es) width (omega (arith, wide e)) in
          rw (d, b, parse_entries-entry_bytes es hs)

      -- Entries that their box has room for are read from behind the fields in front of them.
      pub read_entries-entry_bytes :
          (es : List A) (b : FullBox) (fixed : ℕ) (r : List ℕ)
          → All Fits es
          → length es * width ≤ max_box_payload_size
          → b.box.size ≡ 12 + fixed + length es * width
          → read_entries parse width b fixed (length es) (entry_bytes es ++ r) ≡ ok (es, r)
      unfolding read_entries table_remain check_table_size
      read_entries-entry_bytes es b fixed r h few s =
          let l = length-entry_bytes es in
          let n0 : (b.box.size == 0) ≡ false = ground (arith, s) in
          let n1 : ltb b.box.size (full_box_len + fixed) ≡ false = le→ltb _ _ (omega (arith, s)) in
          let n2 : ltb max_box_payload_size (length es * width) ≡ false = le→ltb _ _ few in
          let n3 : ltb (b.box.size - (full_box_len + fixed)) (length es * width) ≡ false =
            le→ltb _ _ (omega (arith, s)) in
          let n4 : ltb (b.box.size - (full_box_len + fixed)) (2 ^ 63) ≡ true =
            lt→ltb _ _ (omega (arith, s, few)) in
          let p = read_full_lem (length es * width) (entry_bytes es) r (omega (arith, l)) in
          rw (n0, n1, n4, n2, n3, p, parse_entries-entry_bytes es h)

      -- A count, and as many entries behind it: the shape of all tables but one.
      module _ (n : ℕ) (es : List A) (total : ℕ) (counted : n ≡ length es)
          (few : n * width ≤ max_box_payload_size) (sum : total ≡ 16 + n * width)
          (word : IsU32 n) where
        pub encode_counted :
            (a b c d v : ℕ) (user : List ℕ)
            → is_uuid (a ∷ b ∷ c ∷ d ∷ []) ≡ false
            → (write_entries write n es >>= λ bytes.
                encode_full
                  (record {
                    box = record { size = total; box_type = a ∷ b ∷ c ∷ d ∷ []; user_type = user };
                    version = v;
                    flags = 0 ∷ 0 ∷ 0 ∷ [];
                  })
                  (u32_be n ++ bytes))
              ≡ ok (full_bytes (total) a b c d v (u32_be n ++ entry_bytes es))
        encode_counted a b c d v user named =
            let l = length-entry_bytes es in
            let m : n * width ≡ length es * width = ap (λ (x : ℕ). x * width) counted in
            let fields = u32_be n ++ entry_bytes es in
            let f : total ≡ 12 + length fields = unfold u32_be in omega (arith, sum, l, m) in
            let w : write_entries write n es ≡ ok (entry_bytes es) =
              ap (λ (x : ℕ). write_entries write x es) counted ∙ write_entries_lem es in
            rw (w, encode_full_lem a b c d named v total user fields f (omega (arith, sum, few)))

        pub decode_counted {κ'} :
            {B : Type κ'} (k : FullBox → ℕ → List A → List ℕ → Outcome BoxError B)
            → (box : FullBox) (v : ℕ) (rest : List ℕ) → All Fits es
            → box.box.size ≡ total
            → (decode_full box (v ∷ 0 ∷ 0 ∷ 0 ∷ ((u32_be n ++ entry_bytes es) ++ rest))
                >>= λ (b, r1). read_count r1 >>= λ (m, r2).
                    read_entries parse width b 4 m r2 >>= λ (xs, r3). k b m xs r3)
              ≡ k (record box { version = v; flags = 0 ∷ 0 ∷ 0 ∷ [] }) n es rest
        decode_counted k box v rest h s =
            let m : n * width ≡ length es * width = ap (λ (x : ℕ). x * width) counted in
            let seen : FullBox = record box { version = v; flags = 0 ∷ 0 ∷ 0 ∷ [] } in
            let q = decode_full_lem box v ((u32_be n ++ entry_bytes es) ++ rest) in
            let a = append_assoc (u32_be n) (entry_bytes es) rest in
            let c = read_count_lem n (entry_bytes es ++ rest) word in
            let r : read_entries parse width seen 4 n (entry_bytes es ++ rest) ≡ ok (es, rest) =
              ap (λ (x : ℕ). read_entries parse width seen 4 x (entry_bytes es ++ rest)) counted
              ∙ read_entries-entry_bytes es seen 4 rest h (omega (arith, few, m))
                  (omega (arith, sum, s, m)) in
            rw (q, a, c, r)
