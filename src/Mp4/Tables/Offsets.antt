-- ===== src/Mp4/Tables/Offsets.antt =====
-- The offsets of chunks, written in words of 32 bits or of 64, and read back.
use gomediautils.Prelude.{
  ℕ, zero, suc, ◌+◌, ◌-◌, ◌*◌, ◌%◌, ◌^◌, ◌≤◌, ◌<◌, ◌≡◌, refl, arith, List, [], ◌∷◌, ◌++◌, true,
  false, ltb, ◌==◌, le→ltb, lt→ltb, Bool-cases, inl, inr, length, All, get_or, ok, index, some,
}
use gomediautils.Prelude.Bytes.{
  IsU32, IsU64, u32_be, u64_be, read_u32_be, read_u64_be, read_u32_be-u32_be, read_u64_be-u64_be,
}
use gomediautils.Mp4.Box.{BoxError, new_full_box, full_size}
use gomediautils.Mp4.Box.RoundTrip.{full_bytes}
use gomediautils.Mp4.Tables.Codec.{entry_bytes, encode_counted, decode_counted}
use gomediautils.Mp4.Tables.Counted.{Fits}
use gomediautils.Mp4.Tables.Chunk.{
  Movstco, ChunkOffsetBox, ChunkLargeOffsetBox, write_offset32, new_chunk_offset_box, stco_size,
  decode_stco, encode_stco, new_chunk_large_offset_box, co64_size, decode_co64, encode_co64,
  needs_large, make_stco,
}

offset_back : (v : ℕ) (r : List ℕ) → IsU32 v → read_u32_be (write_offset32 v ++ r) ≡ some v
offset_back v r h = let e : v % 2 ^ 32 ≡ v = omega arith in rw e (read_u32_be-u32_be v r h)

unfoldable pub stco_fields : Movstco → List ℕ
stco_fields t = u32_be t.entry_count ++ entry_bytes write_offset32 t.chunk_offsetlist

unfoldable pub co64_fields : Movstco → List ℕ
co64_fields t = u32_be t.entry_count ++ entry_bytes u64_be t.chunk_offsetlist

pub encode_stco_lem :
    (t : Movstco)
    → Fits IsU32 4 t.entry_count t.chunk_offsetlist
    → encode_stco (record new_chunk_offset_box { stco = some t })
      ≡ ok (full_bytes (16 + 4 * t.entry_count) 0x73 0x74 0x63 0x6F 0 (stco_fields t))
unfolding encode_stco stco_size new_chunk_offset_box new_full_box full_size stco_fields
encode_stco_lem t v =
    encode_counted write_offset32 4 (λ e. unfold u32_be in refl) read_u32_be IsU32 offset_back
      t.entry_count t.chunk_offsetlist _ v.counted v.few (omega arith) (omega (arith, v.few)) 0x73
      0x74 0x63 0x6F 0 _ refl

pub decode_stco_lem :
    (t : Movstco) (box : ChunkOffsetBox) (rest : List ℕ)
    → Fits IsU32 4 t.entry_count t.chunk_offsetlist
    → box.box.box.size ≡ 16 + 4 * t.entry_count
    → decode_stco box (0 ∷ 0 ∷ 0 ∷ 0 ∷ (stco_fields t ++ rest))
      ≡ ok (record { table = t; offset = 8 + t.entry_count * 4; rest = rest })
unfolding decode_stco stco_fields
decode_stco_lem t box rest v e =
    decode_counted write_offset32 4 (λ e. unfold u32_be in refl) read_u32_be IsU32 offset_back
      t.entry_count t.chunk_offsetlist (16 + 4 * t.entry_count) v.counted v.few (omega arith)
      (omega (arith, v.few))
      (λ b m xs r3. ok (record {
        table = record { entry_count = m; chunk_offsetlist = xs };
        offset = 8 + m * 4;
        rest = r3;
      }))
      box.box 0 rest v.fields e

pub encode_co64_lem :
    (t : Movstco)
    → Fits IsU64 8 t.entry_count t.chunk_offsetlist
    → encode_co64 (record new_chunk_large_offset_box { stco = some t })
      ≡ ok (full_bytes (16 + 8 * t.entry_count) 0x63 0x6F 0x36 0x34 0 (co64_fields t))
unfolding encode_co64 co64_size new_chunk_large_offset_box new_full_box full_size co64_fields
encode_co64_lem t v =
    encode_counted u64_be 8 (λ e. unfold u64_be u32_be in refl) read_u64_be IsU64 read_u64_be-u64_be
      t.entry_count t.chunk_offsetlist _ v.counted v.few (omega arith) (omega (arith, v.few)) 0x63
      0x6F 0x36 0x34 0 _ refl

pub decode_co64_lem :
    (t : Movstco) (box : ChunkLargeOffsetBox) (rest : List ℕ)
    → Fits IsU64 8 t.entry_count t.chunk_offsetlist
    → box.box.box.size ≡ 16 + 8 * t.entry_count
    → decode_co64 box (0 ∷ 0 ∷ 0 ∷ 0 ∷ (co64_fields t ++ rest))
      ≡ ok (record { table = t; offset = 8 + t.entry_count * 8; rest = rest })
unfolding decode_co64 co64_fields
decode_co64_lem t box rest v e =
    decode_counted u64_be 8 (λ e. unfold u64_be u32_be in refl) read_u64_be IsU64 read_u64_be-u64_be
      t.entry_count t.chunk_offsetlist (16 + 8 * t.entry_count) v.counted v.few (omega arith)
      (omega (arith, v.few))
      (λ b m xs r3. ok (record {
        table = record { entry_count = m; chunk_offsetlist = xs };
        offset = 8 + m * 8;
        rest = r3;
      }))
      box.box 0 rest v.fields e

-- What a table of offsets is written by, which is decided by the last of them.
unfoldable pub last_offset : Movstco → ℕ
last_offset t = get_or t.chunk_offsetlist (t.entry_count - 1) 0

-- The offsets are words of 64 bits, none of them above the last.
pub record FitsStco (t : Movstco) : Type 0 where
  pub fits : Fits IsU64 8 t.entry_count t.chunk_offsetlist
  pub ascending : All (λ v. v ≤ last_offset t) t.chunk_offsetlist

All-below : (xs : List ℕ) (m : ℕ) → m < 2 ^ 32 → All (λ v. v ≤ m) xs → All IsU32 xs
All-below [] m h hs = hs
All-below (x ∷ xs) m h (k, ks) = (omega arith, All-below xs m h ks)

pub small-Fits :
    (t : Movstco)
    → FitsStco t
    → last_offset t < 2 ^ 32
    → Fits IsU32 4 t.entry_count t.chunk_offsetlist
small-Fits t v h = record {
  counted = v.fits.counted;
  few = omega (arith, v.fits.few);
  fields = All-below t.chunk_offsetlist (last_offset t) h v.ascending;
}

index_lem : (xs : List ℕ) (i : ℕ) → i < length xs → index {E = BoxError} xs i ≡ ok (get_or xs i 0)
index_lem [] i h = absurd (omega arith)
index_lem (x ∷ xs) zero h = refl
index_lem (x ∷ xs) (suc i) h = index_lem xs i (omega arith)

get_or-end : (xs : List ℕ) (i : ℕ) → length xs ≤ i → get_or xs i 0 ≡ 0
get_or-end [] i h = refl
get_or-end (x ∷ xs) zero h = absurd (omega arith)
get_or-end (x ∷ xs) (suc i) h = get_or-end xs i (omega arith)

needs_large_lem : (t : Movstco) → FitsStco t → needs_large t ≡ ok (ltb 0xFFFFFFFF (last_offset t))
unfolding needs_large last_offset
needs_large_lem t v =
    let n = v.fits.counted in
    elim (Bool-cases (t.entry_count == 0)) [
      | inl c ↦
          let z : t.entry_count ≡ 0 = ground (arith, c) in
          let g = get_or-end t.chunk_offsetlist (t.entry_count - 1) (omega arith) in rw (c, g)
      | inr c ↦
          let p : 0 < t.entry_count = ground (arith, c) in
          let g = index_lem t.chunk_offsetlist (t.entry_count - 1) (omega arith) in rw (c, g)
    ]

pub make_stco-small :
    (t : Movstco)
    → FitsStco t
    → last_offset t < 2 ^ 32
    → make_stco t ≡ ok (full_bytes (16 + 4 * t.entry_count) 0x73 0x74 0x63 0x6F 0 (stco_fields t))
unfolding make_stco
make_stco-small t v h =
    let l : ltb 0xFFFFFFFF (last_offset t) ≡ false = le→ltb _ _ (omega arith) in
    rw (needs_large_lem t v, l) (encode_stco_lem t (small-Fits t v h))

pub make_stco-large :
    (t : Movstco)
    → FitsStco t
    → 2 ^ 32 ≤ last_offset t
    → make_stco t ≡ ok (full_bytes (16 + 8 * t.entry_count) 0x63 0x6F 0x36 0x34 0 (co64_fields t))
unfolding make_stco
make_stco-large t v h =
    let l : ltb 0xFFFFFFFF (last_offset t) ≡ true = lt→ltb _ _ (omega arith) in
    rw (needs_large_lem t v, l) (encode_co64_lem t v.fits)
