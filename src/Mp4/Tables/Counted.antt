-- ===== src/Mp4/Tables/Counted.antt =====
-- The tables of times and of chunks written and read back.
use gomediautils.Mp4.Table.{write_entries}
use gomediautils.Prelude.{
  [], zero, suc, take, ◌>>=◌, ap, ℕ, ◌+◌, ◌*◌, ◌/◌, ◌%◌, ◌^◌, ◌≤◌, ◌≡◌, refl, arith, List, ◌∷◌,
  ◌++◌, length, All, ok, some,
}
use gomediautils.Prelude.Bytes.{IsU32, u32_be, read_u32_be}
use gomediautils.Mp4.Tables.Time.{with_size}
use gomediautils.Mp4.Box.{encode_full, max_box_payload_size, new_full_box, full_size}
use gomediautils.Mp4.Box.RoundTrip.{full_bytes}
use gomediautils.Mp4.Tables.Codec.{entry_bytes, encode_counted, decode_counted}
use gomediautils.Mp4.Tables.Time.{
  SttsEntry, Movstts, CttsEntry, Movctts, TimeToSampleBox, CompositionOffsetBox, parse_stts,
  write_stts, new_time_to_sample_box, stts_size, decode_stts, encode_stts, make_stts, parse_ctts,
  write_ctts, new_composition_offset_box, ctts_size, decode_ctts, encode_ctts, make_ctts,
}
use gomediautils.Mp4.Tables.Chunk.{
  StscEntry, Movstsc, SampleToChunkBox, parse_stsc, write_stsc, new_sample_to_chunk_box, stsc_size,
  decode_stsc, encode_stsc, make_stsc,
}

-- The count is that of the entries, all of whose fields fit, and the table is within the limit.
pub record Fits {ℓ} {A : Type ℓ} (P : A → Type 0) (width n : ℕ) (es : List A) : Type ℓ where
  pub counted : n ≡ length es
  pub few : n * width ≤ max_box_payload_size
  pub fields : All P es

pub word :
    (w : ℕ)
    → IsU32 w
    → w / 2 ^ 24 % 256 * 2 ^ 24
        + w / 2 ^ 16 % 256 * 2 ^ 16
        + w / 2 ^ 8 % 256 * 2 ^ 8
        + w / 2 ^ 0 % 256
      ≡ w
word w h = omega arith

-- The times of decoding.
abbrev pub IsSttsEntry : SttsEntry → Type 0
IsSttsEntry e = IsU32 e.sample_count × IsU32 e.sample_delta

stts_back : (e : SttsEntry) (r : List ℕ) → IsSttsEntry e → parse_stts (write_stts e ++ r) ≡ some e
unfolding u32_be read_u32_be
stts_back e r h = λ i.
    some (record {
      sample_count = word e.sample_count h.0 i;
      sample_delta = word e.sample_delta h.1 i;
    })

unfoldable pub stts_fields : Movstts → List ℕ
stts_fields t = u32_be t.entry_count ++ entry_bytes write_stts t.entrys

pub make_stts_lem :
    (t : Movstts)
    → Fits IsSttsEntry 8 t.entry_count t.entrys
    → make_stts t ≡ ok (full_bytes (16 + 8 * t.entry_count) 0x73 0x74 0x74 0x73 0 (stts_fields t))
unfolding make_stts encode_stts stts_size new_time_to_sample_box new_full_box full_size stts_fields
make_stts_lem t v =
    encode_counted write_stts 8 (λ e. unfold u32_be in refl) parse_stts IsSttsEntry stts_back
      t.entry_count t.entrys _ v.counted v.few (omega arith) (omega (arith, v.few)) 0x73 0x74 0x74
      0x73 0 _ refl

pub decode_stts_lem :
    (t : Movstts) (box : TimeToSampleBox) (rest : List ℕ)
    → Fits IsSttsEntry 8 t.entry_count t.entrys
    → box.box.box.size ≡ 16 + 8 * t.entry_count
    → decode_stts box (0 ∷ 0 ∷ 0 ∷ 0 ∷ (stts_fields t ++ rest))
      ≡ ok (record { table = t; offset = 8 + t.entry_count * 8; rest = rest })
unfolding decode_stts stts_fields
decode_stts_lem t box rest v e =
    decode_counted write_stts 8 (λ e. unfold u32_be in refl) parse_stts IsSttsEntry stts_back
      t.entry_count t.entrys (16 + 8 * t.entry_count) v.counted v.few (omega arith)
      (omega (arith, v.few))
      (λ b m xs r3.
        ok (record {
          table = record { entry_count = m; entrys = xs };
          offset = 8 + m * 8;
          rest = r3;
        }))
      box.box 0 rest v.fields e

-- The offsets of presentation.
abbrev pub IsCttsEntry : CttsEntry → Type 0
IsCttsEntry e = IsU32 e.sample_count × IsU32 e.sample_offset

ctts_back : (e : CttsEntry) (r : List ℕ) → IsCttsEntry e → parse_ctts (write_ctts e ++ r) ≡ some e
unfolding u32_be read_u32_be
ctts_back e r h = λ i. some (record {
  sample_count = word e.sample_count h.0 i;
  sample_offset = word e.sample_offset h.1 i;
})

unfoldable pub ctts_fields : Movctts → List ℕ
ctts_fields t = u32_be t.entry_count ++ entry_bytes write_ctts t.entrys

pub make_ctts_lem :
    (t : Movctts)
    → Fits IsCttsEntry 8 t.entry_count t.entrys
    → make_ctts t
      ≡ ok (full_bytes (16 + 8 * t.entry_count) 0x63 0x74 0x74 0x73 t.version (ctts_fields t))
unfolding make_ctts encode_ctts ctts_size new_composition_offset_box new_full_box full_size
    ctts_fields
make_ctts_lem t v =
    encode_counted write_ctts 8 (λ e. unfold u32_be in refl) parse_ctts IsCttsEntry ctts_back
      t.entry_count t.entrys _ v.counted v.few (omega arith) (omega (arith, v.few)) 0x63 0x74 0x74
      0x73 t.version _ refl

pub decode_ctts_lem :
    (t : Movctts) (box : CompositionOffsetBox) (rest : List ℕ)
    → Fits IsCttsEntry 8 t.entry_count t.entrys
    → box.box.box.size ≡ 16 + 8 * t.entry_count
    → decode_ctts box (t.version ∷ 0 ∷ 0 ∷ 0 ∷ (ctts_fields t ++ rest))
      ≡ ok (record { table = t; offset = 8 + t.entry_count * 8; rest = rest })
unfolding decode_ctts ctts_fields
decode_ctts_lem t box rest v e =
    decode_counted write_ctts 8 (λ e. unfold u32_be in refl) parse_ctts IsCttsEntry ctts_back
      t.entry_count t.entrys (16 + 8 * t.entry_count) v.counted v.few (omega arith)
      (omega (arith, v.few))
      (λ b m xs r3. ok (record {
        table = record { version = b.version; entry_count = m; entrys = xs };
        offset = 8 + m * 8;
        rest = r3;
      }))
      box.box t.version rest v.fields e

-- The samples of chunks.
abbrev pub IsStscEntry : StscEntry → Type 0
IsStscEntry e = IsU32 e.first_chunk × (IsU32 e.samples_per_chunk × IsU32 e.sample_description_index)

stsc_back : (e : StscEntry) (r : List ℕ) → IsStscEntry e → parse_stsc (write_stsc e ++ r) ≡ some e
unfolding u32_be read_u32_be
stsc_back e r h = λ i. some (record {
  first_chunk = word e.first_chunk h.0 i;
  samples_per_chunk = word e.samples_per_chunk h.1.0 i;
  sample_description_index = word e.sample_description_index h.1.1 i;
})

unfoldable pub stsc_fields : Movstsc → List ℕ
stsc_fields t = u32_be t.entry_count ++ entry_bytes write_stsc t.entrys

pub make_stsc_lem :
    (t : Movstsc)
    → Fits IsStscEntry 12 t.entry_count t.entrys
    → make_stsc t ≡ ok (full_bytes (16 + 12 * t.entry_count) 0x73 0x74 0x73 0x63 0 (stsc_fields t))
unfolding make_stsc encode_stsc stsc_size new_sample_to_chunk_box new_full_box full_size stsc_fields
make_stsc_lem t v =
    encode_counted write_stsc 12 (λ e. unfold u32_be in refl) parse_stsc IsStscEntry stsc_back
      t.entry_count t.entrys _ v.counted v.few (omega arith) (omega (arith, v.few)) 0x73 0x74 0x73
      0x63 0 _ refl

pub decode_stsc_lem :
    (t : Movstsc) (box : SampleToChunkBox) (rest : List ℕ)
    → Fits IsStscEntry 12 t.entry_count t.entrys
    → box.box.box.size ≡ 16 + 12 * t.entry_count
    → decode_stsc box (0 ∷ 0 ∷ 0 ∷ 0 ∷ (stsc_fields t ++ rest))
      ≡ ok (record { table = t; offset = 8 + t.entry_count * 12; rest = rest })
unfolding decode_stsc stsc_fields
decode_stsc_lem t box rest v e =
    decode_counted write_stsc 12 (λ e. unfold u32_be in refl) parse_stsc IsStscEntry stsc_back
      t.entry_count t.entrys (16 + 12 * t.entry_count) v.counted v.few (omega arith)
      (omega (arith, v.few))
      (λ b m xs r3. ok (record {
        table = record { entry_count = m; entrys = xs };
        offset = 8 + m * 12;
        rest = r3;
      }))
      box.box 0 rest v.fields e

-- The entries that are counted, which are those that are written.
unfoldable pub counted_stsc : Movstsc → Movstsc
counted_stsc t = record t { entrys = take t.entry_count t.entrys }

write_entries-take {ℓ} :
    {A : Type ℓ} (write : A → List ℕ) (n : ℕ) (es : List A)
    → write_entries write n es ≡ write_entries write n (take n es)
unfolding write_entries
write_entries-take write zero es = refl
write_entries-take write (suc n) [] = refl
write_entries-take write (suc n) (e ∷ es) =
    ap (λ o. o >>= λ bytes. ok (write e ++ bytes)) (write_entries-take write n es)

pub make_stsc-counted_stsc : (t : Movstsc) → make_stsc t ≡ make_stsc (counted_stsc t)
unfolding make_stsc encode_stsc stsc_size new_sample_to_chunk_box counted_stsc
make_stsc-counted_stsc t =
    ap
      (λ o. o >>= λ bytes.
        encode_full
          (with_size new_sample_to_chunk_box.box
            (stsc_size (record new_sample_to_chunk_box { stscentrys = some t })))
          (u32_be t.entry_count ++ bytes))
      (write_entries-take write_stsc t.entry_count t.entrys)
