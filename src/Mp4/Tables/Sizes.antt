-- ===== src/Mp4/Tables/Sizes.antt =====
-- The sizes of samples and the key frames, written and read back.
use gomediautils.Prelude.{
  ℕ, ◌+◌, ◌*◌, ◌%◌, ◌^◌, ◌≤◌, ◌≡◌, ◌≢◌, ◌⊎◌, inl, inr, refl, sym, ap, ◌∙◌, arith, List, [], ◌∷◌,
  ◌++◌, true, false, ◌==◌, length, Outcome, ok, some, replicate, if◌then◌else◌,
}
use gomediautils.Prelude.Bytes.{IsU32, u32_be, read_u32_be, read_u32_be-u32_be}
use gomediautils.Mp4.Box.{BoxError, FullBox, new_full_box, full_size, max_box_payload_size}
use gomediautils.Mp4.Box.RoundTrip.{full_bytes, encode_full_lem, decode_full_lem}
use gomediautils.Mp4.Table.{read_entries}
use gomediautils.Mp4.Tables.Codec.{
  entry_bytes, length-entry_bytes, write_entries_lem, read_full_lem, read_entries-entry_bytes,
  encode_counted, decode_counted,
}
use gomediautils.Mp4.Tables.Counted.{Fits, word}
use gomediautils.Mp4.Tables.Time.{TableRead, two_words}
use gomediautils.Mp4.Tables.Size.{
  Movstsz, SampleSizeBox, SyncSampleBox, new_sample_size_box, stsz_entry_count, stsz_size,
  decode_sizes, decode_stsz, encode_stsz, make_stsz, new_sync_sample_box, stss_size, decode_stss,
  encode_stss,
}

-- Either all samples have one size, or the count is that of the sizes.
pub record FitsStsz (t : Movstsz) : Type 0 where
  pub size_fits : IsU32 t.sample_size
  pub count_fits : IsU32 t.sample_count
  pub form :
      (t.sample_size ≡ 0 × Fits IsU32 4 t.sample_count t.entry_sizelist)
      ⊎ (t.sample_size ≢ 0 × t.entry_sizelist ≡ [])

unfoldable pub stsz_fields : Movstsz → List ℕ
stsz_fields t =
    u32_be t.sample_size ++ (u32_be t.sample_count ++ entry_bytes u32_be t.entry_sizelist)

unfoldable pub stss_fields : List ℕ → List ℕ
stss_fields xs = u32_be (length xs) ++ entry_bytes u32_be xs

pub encode_stss_lem :
    (xs : List ℕ)
    → Fits IsU32 4 (length xs) xs
    → encode_stss (record new_sync_sample_box { entrys = xs })
      ≡ ok (full_bytes (16 + 4 * length xs) 0x73 0x74 0x73 0x73 0 (stss_fields xs))
unfolding encode_stss stss_size new_sync_sample_box new_full_box full_size stss_fields
encode_stss_lem xs v =
    let few = v.few in
    let m : length xs % 2 ^ 32 ≡ length xs = omega arith in
    rw m (
      encode_counted u32_be 4 (λ e. unfold u32_be in refl) read_u32_be IsU32 read_u32_be-u32_be
        (length xs) xs _ v.counted few (omega arith) (omega arith) 0x73 0x74 0x73 0x73 0 _ refl)

pub decode_stss_lem :
    (xs : List ℕ) (box : SyncSampleBox) (rest : List ℕ)
    → Fits IsU32 4 (length xs) xs
    → box.box.box.size ≡ 16 + 4 * length xs
    → decode_stss box (0 ∷ 0 ∷ 0 ∷ 0 ∷ (stss_fields xs ++ rest))
      ≡ ok (record { table = xs; offset = 8 + length xs * 4; rest = rest })
unfolding decode_stss stss_fields
decode_stss_lem xs box rest v e =
    decode_counted u32_be 4 (λ e. unfold u32_be in refl) read_u32_be IsU32 read_u32_be-u32_be
      (length xs) xs (16 + 4 * length xs) v.counted v.few (omega arith) (omega (arith, v.few))
      (λ b m xs r3. ok (record { table = xs; offset = 8 + m * 4; rest = r3 })) box.box 0 rest
      v.fields e

pub few_sizes : (t : Movstsz) → FitsStsz t → length t.entry_sizelist * 4 ≤ max_box_payload_size
few_sizes t v = elim v.form [
  | inl (z, f) ↦ omega (arith, f.counted, f.few)
  | inr (z, e) ↦
      let l : length t.entry_sizelist ≡ 0 = ap (λ (xs : List ℕ). length xs) e in omega arith
]

stsz_entry_count_lem : (t : Movstsz) → FitsStsz t → stsz_entry_count t ≡ length t.entry_sizelist
unfolding stsz_entry_count
stsz_entry_count_lem t v = elim v.form [
  | inl (z, f) ↦ let c = f.counted in ground (arith, z, c)
  | inr (z, e) ↦
      let l : length t.entry_sizelist ≡ 0 = ap (λ (xs : List ℕ). length xs) e in
      ground (arith, z, l)
]

written_count :
    (t : Movstsz)
    → FitsStsz t
    → (if t.sample_size == 0 then length t.entry_sizelist % 2 ^ 32 else t.sample_count)
      ≡ t.sample_count
written_count t v =
    let few = few_sizes t v in
    elim v.form [
      | inl (z, f) ↦ let c = f.counted in ground (arith, z, c, few)
      | inr (z, e) ↦ ground (arith, z)
    ]

pub make_stsz_lem :
    (t : Movstsz)
    → FitsStsz t
    → make_stsz t
      ≡ ok (full_bytes (20 + 4 * length t.entry_sizelist) 0x73 0x74 0x73 0x7A 0 (stsz_fields t))
unfolding make_stsz encode_stsz stsz_size new_sample_size_box new_full_box full_size stsz_fields
make_stsz_lem t v =
    let xs = t.entry_sizelist in
    let n : ℕ = 20 + 4 * length xs in
    let l = length-entry_bytes u32_be 4 (λ e. unfold u32_be in refl) xs in
    let f : n ≡ 12 + length (stsz_fields t) = unfold u32_be in omega arith in
    let e =
      encode_full_lem 0x73 0x74 0x73 0x7A refl 0 n (replicate 16 0) (stsz_fields t) f
        (omega (arith, few_sizes t v)) in
    rw (stsz_entry_count_lem t v, write_entries_lem u32_be xs, written_count t v, e)

decode_sizes_lem :
    (t : Movstsz) (b : FullBox) (rest : List ℕ)
    → FitsStsz t
    → b.box.size ≡ 20 + 4 * length t.entry_sizelist
    → decode_sizes b t.sample_size t.sample_count (entry_bytes u32_be t.entry_sizelist ++ rest)
      ≡ ok (record { table = t; offset = 12 + 4 * length t.entry_sizelist; rest = rest })
unfolding decode_sizes entry_bytes
decode_sizes_lem t b rest v s = elim v.form [
  | inl (z, f) ↦
      let c = f.counted in
      let r : read_entries read_u32_be 4 b 8 t.sample_count
            (entry_bytes u32_be t.entry_sizelist ++ rest)
          ≡ ok (t.entry_sizelist, rest) =
        ap
          (λ (n : ℕ).
            read_entries read_u32_be 4 b 8 n (entry_bytes u32_be t.entry_sizelist ++ rest))
          c
        ∙ read_entries-entry_bytes u32_be 4 (λ e. unfold u32_be in refl) read_u32_be IsU32
            read_u32_be-u32_be t.entry_sizelist b 8 rest f.fields (few_sizes t v) (omega arith) in
      let k : (t.sample_size == 0) ≡ true = ground (arith, z) in
      let o : 12 + t.sample_count * 4 ≡ 12 + 4 * length t.entry_sizelist = omega arith in
      rw (k, r, o)
  | inr (z, e) ↦
      let k : (t.sample_size == 0) ≡ false = ground (arith, z) in
      let back : decode_sizes b t.sample_size t.sample_count rest
          ≡ ok (record { table = record t { entry_sizelist = [] }; offset = 12; rest = rest }) =
        rw k in
      let ret : List ℕ → Outcome BoxError (TableRead Movstsz) = λ xs. ok (record {
        table = record t { entry_sizelist = xs };
        offset = 12 + 4 * length xs;
        rest = rest;
      }) in
      ap
        (λ (xs : List ℕ).
          decode_sizes b t.sample_size t.sample_count (entry_bytes u32_be xs ++ rest))
        e
      ∙ back
      ∙ sym (ap ret e)
]

pub decode_stsz_lem :
    (t : Movstsz) (box : SampleSizeBox) (rest : List ℕ)
    → FitsStsz t
    → box.box.box.size ≡ 20 + 4 * length t.entry_sizelist
    → decode_stsz box (0 ∷ 0 ∷ 0 ∷ 0 ∷ (stsz_fields t ++ rest))
      ≡ ok (record { table = t; offset = 12 + 4 * length t.entry_sizelist; rest = rest })
unfolding decode_stsz stsz_fields
decode_stsz_lem t box rest v e =
    let xs = t.entry_sizelist in
    let seen : FullBox = record box.box { version = 0; flags = 0 ∷ 0 ∷ 0 ∷ [] } in
    let q = decode_full_lem box.box 0 (stsz_fields t ++ rest) in
    let two = u32_be t.sample_size ++ u32_be t.sample_count in
    let p = read_full_lem 8 two (entry_bytes u32_be xs ++ rest) (unfold u32_be in refl) in
    let a : stsz_fields t ++ rest ≡ two ++ (entry_bytes u32_be xs ++ rest) =
      unfold u32_be in refl in
    let w : two_words two ≡ some (t.sample_size, t.sample_count) =
      unfold u32_be read_u32_be in
      λ i. some (word t.sample_size v.size_fits i, word t.sample_count v.count_fits i) in
    rw (q, a, p, w, decode_sizes_lem t seen rest v e)
