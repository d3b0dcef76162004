-- ===== src/Mp4/Tables/Chunk.antt =====
-- go-mp4/stsc-box.go and stco-box.go, with their records of mp4table.go.
use gomediautils.Prelude.{
  ℕ, ◌+◌, ◌-◌, ◌*◌, ◌%◌, ◌^◌, List, [], ◌∷◌, ◌++◌, Bool, false, ltb, ◌==◌, if◌then◌else◌, drop,
  Outcome, ok, panic, ◌>>=◌, Option, none, some, index,
}
use gomediautils.Prelude.Bytes.{u32_be, u64_be, read_u32_be, read_u64_be}
use gomediautils.Mp4.Box.{BoxError, FullBox, full_size, new_full_box, decode_full, encode_full}
use gomediautils.Mp4.Table.{read_count, read_entries, write_entries}
use gomediautils.Mp4.Tables.Time.{TableRead, with_size, two_words}

pub record StscEntry : Type 0 where
  pub first_chunk : ℕ
  pub samples_per_chunk : ℕ
  pub sample_description_index : ℕ

pub record Movstsc : Type 0 where
  pub entry_count : ℕ
  pub entrys : List StscEntry

pub record Movstco : Type 0 where
  pub entry_count : ℕ
  pub chunk_offsetlist : List ℕ

abbrev pub parse_stsc : List ℕ → Option StscEntry
parse_stsc buf = elim (two_words buf) [
  | none ↦ none
  | some (a, b) ↦ elim (read_u32_be (drop 8 buf)) [
    | none ↦ none
    | some c ↦
        some (record { first_chunk = a; samples_per_chunk = b; sample_description_index = c })
  ]
]

abbrev pub write_stsc : StscEntry → List ℕ
write_stsc e =
    u32_be e.first_chunk ++ (u32_be e.samples_per_chunk ++ u32_be e.sample_description_index)

pub record SampleToChunkBox : Type 0 where
  pub box : FullBox
  pub stscentrys : Option Movstsc

unfoldable pub new_sample_to_chunk_box : SampleToChunkBox
new_sample_to_chunk_box = record {
  box = new_full_box (0x73 ∷ 0x74 ∷ 0x73 ∷ 0x63 ∷ []) 0;
  stscentrys = none;
}

unfoldable pub stsc_size : SampleToChunkBox → ℕ
stsc_size s = elim s.stscentrys [
  | none ↦ full_size s.box
  | some t ↦ full_size s.box + 4 + 12 * t.entry_count
]

unfoldable pub decode_stsc : SampleToChunkBox → List ℕ → Outcome BoxError (TableRead Movstsc)
decode_stsc s r = decode_full s.box r >>= λ (b, r1). read_count r1 >>= λ (n, r2).
    read_entries parse_stsc 12 b 4 n r2 >>= λ (es, r3).
    ok (record { table = record { entry_count = n; entrys = es }; offset = 8 + n * 12; rest = r3 })

unfoldable pub encode_stsc : SampleToChunkBox → Outcome BoxError (List ℕ)
encode_stsc s = elim s.stscentrys [
  | none ↦ panic
  | some t ↦ write_entries write_stsc t.entry_count t.entrys >>= λ bytes.
      encode_full (with_size s.box (stsc_size s)) (u32_be t.entry_count ++ bytes)
]

unfoldable pub make_stsc : Movstsc → Outcome BoxError (List ℕ)
make_stsc t = encode_stsc (record new_sample_to_chunk_box { stscentrys = some t })

-- The offsets of chunks, in words of 32 or of 64 bits.
abbrev pub write_offset32 : ℕ → List ℕ
write_offset32 v = u32_be (v % 2 ^ 32)

pub record ChunkOffsetBox : Type 0 where
  pub box : FullBox
  pub stco : Option Movstco

unfoldable pub new_chunk_offset_box : ChunkOffsetBox
new_chunk_offset_box = record { box = new_full_box (0x73 ∷ 0x74 ∷ 0x63 ∷ 0x6F ∷ []) 0; stco = none }

unfoldable pub stco_size : ChunkOffsetBox → ℕ
stco_size s = elim s.stco [
  | none ↦ full_size s.box
  | some t ↦ full_size s.box + 4 + 4 * t.entry_count
]

unfoldable pub decode_stco : ChunkOffsetBox → List ℕ → Outcome BoxError (TableRead Movstco)
decode_stco s r = decode_full s.box r >>= λ (b, r1). read_count r1 >>= λ (n, r2).
    read_entries read_u32_be 4 b 4 n r2 >>= λ (es, r3). ok (record {
      table = record { entry_count = n; chunk_offsetlist = es };
      offset = 8 + n * 4;
      rest = r3;
    })

unfoldable pub encode_stco : ChunkOffsetBox → Outcome BoxError (List ℕ)
encode_stco s = elim s.stco [
  | none ↦ panic
  | some t ↦ write_entries write_offset32 t.entry_count t.chunk_offsetlist >>= λ bytes.
      encode_full (with_size s.box (stco_size s)) (u32_be t.entry_count ++ bytes)
]

pub record ChunkLargeOffsetBox : Type 0 where
  pub box : FullBox
  pub stco : Option Movstco

unfoldable pub new_chunk_large_offset_box : ChunkLargeOffsetBox
new_chunk_large_offset_box = record {
  box = new_full_box (0x63 ∷ 0x6F ∷ 0x36 ∷ 0x34 ∷ []) 0;
  stco = none;
}

unfoldable pub co64_size : ChunkLargeOffsetBox → ℕ
co64_size s = elim s.stco [
  | none ↦ full_size s.box
  | some t ↦ full_size s.box + 4 + 8 * t.entry_count
]

unfoldable pub decode_co64 : ChunkLargeOffsetBox → List ℕ → Outcome BoxError (TableRead Movstco)
decode_co64 s r = decode_full s.box r >>= λ (b, r1). read_count r1 >>= λ (n, r2).
    read_entries read_u64_be 8 b 4 n r2 >>= λ (es, r3). ok (record {
      table = record { entry_count = n; chunk_offsetlist = es };
      offset = 8 + n * 8;
      rest = r3;
    })

unfoldable pub encode_co64 : ChunkLargeOffsetBox → Outcome BoxError (List ℕ)
encode_co64 s = elim s.stco [
  | none ↦ panic
  | some t ↦ write_entries u64_be t.entry_count t.chunk_offsetlist >>= λ bytes.
      encode_full (with_size s.box (co64_size s)) (u32_be t.entry_count ++ bytes)
]

-- `stco.entryCount > 0 && stco.chunkOffsetlist[stco.entryCount-1] > 0xFFFFFFFF`
unfoldable pub needs_large : Movstco → Outcome BoxError Bool
needs_large t =
    if t.entry_count == 0
    then ok false
    else (index t.chunk_offsetlist (t.entry_count - 1) >>= λ v. ok (ltb 0xFFFFFFFF v))

unfoldable pub make_stco : Movstco → Outcome BoxError (List ℕ)
unfolding needs_large
make_stco t = needs_large t >>= λ large.
    if large
    then encode_co64 (record new_chunk_large_offset_box { stco = some t })
    else encode_stco (record new_chunk_offset_box { stco = some t })
