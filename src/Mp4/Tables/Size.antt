-- ===== src/Mp4/Tables/Size.antt =====
-- go-mp4/stsz-box.go and stss-box.go, with the records of mp4table.go that they fill.
use gomediautils.Prelude.{
  ℕ, suc, ◌+◌, ◌*◌, ◌%◌, ◌^◌, List, [], ◌∷◌, ◌++◌, Bool, ltb, ◌==◌, if◌then◌else◌, length, Outcome,
  ok, panic, ◌>>=◌, Option, none, some,
}
use gomediautils.Prelude.Bytes.{u32_be, read_u32_be}
use gomediautils.Mp4.Box.{
  BoxError, FullBox, box_field, full_size, new_full_box, read_full, decode_full, encode_full,
}
use gomediautils.Mp4.Table.{read_count, read_entries, write_entries}
use gomediautils.Mp4.Tables.Time.{TableRead, with_size, two_words}

pub record Movstsz : Type 0 where
  pub sample_size : ℕ
  pub sample_count : ℕ
  pub entry_sizelist : List ℕ

pub record SampleSizeBox : Type 0 where
  pub box : FullBox
  pub stsz : Option Movstsz

unfoldable pub new_sample_size_box : SampleSizeBox
new_sample_size_box = record { box = new_full_box (0x73 ∷ 0x74 ∷ 0x73 ∷ 0x7A ∷ []) 0; stsz = none }

-- `SampleSizeBox.entryCount` of a box with a table.
unfoldable pub stsz_entry_count : Movstsz → ℕ
stsz_entry_count t =
    if t.sample_size == 0
    then (if ltb (length t.entry_sizelist) t.sample_count
        then length t.entry_sizelist
        else t.sample_count)
    else 0

unfoldable pub stsz_size : SampleSizeBox → ℕ
stsz_size s = elim s.stsz [
  | none ↦ full_size s.box
  | some t ↦ full_size s.box + 8 + 4 * stsz_entry_count t
]

-- The sizes behind the two words: none of them when all samples have one size.
unfoldable pub decode_sizes : FullBox → ℕ → ℕ → List ℕ → Outcome BoxError (TableRead Movstsz)
decode_sizes b n count r =
    if n == 0
    then (read_entries read_u32_be 4 b 8 count r >>= λ (es, r'). ok (record {
      table = record { sample_size = n; sample_count = count; entry_sizelist = es };
      offset = 12 + count * 4;
      rest = r';
    }))
    else ok (record {
      table = record { sample_size = n; sample_count = count; entry_sizelist = [] };
      offset = 12;
      rest = r;
    })

unfoldable pub decode_stsz : SampleSizeBox → List ℕ → Outcome BoxError (TableRead Movstsz)
decode_stsz s r = decode_full s.box r >>= λ (b, r1). read_full 8 r1 >>= λ (tmp, r2).
    box_field (two_words tmp) >>= λ (n, count). decode_sizes b n count r2

unfoldable pub encode_stsz : SampleSizeBox → Outcome BoxError (List ℕ)
encode_stsz s = elim s.stsz [
  | none ↦ panic
  | some t ↦
      let n = stsz_entry_count t in
      let count : ℕ = if t.sample_size == 0 then n % 2 ^ 32 else t.sample_count in
      write_entries u32_be n t.entry_sizelist >>= λ bytes.
      encode_full (with_size s.box (stsz_size s)) (u32_be t.sample_size ++ (u32_be count ++ bytes))
]

unfoldable pub make_stsz : Movstsz → Outcome BoxError (List ℕ)
make_stsz t = encode_stsz (record new_sample_size_box { stsz = some t })

pub record SyncSampleBox : Type 0 where
  pub box : FullBox
  pub entrys : List ℕ

unfoldable pub new_sync_sample_box : SyncSampleBox
new_sync_sample_box = record { box = new_full_box (0x73 ∷ 0x74 ∷ 0x73 ∷ 0x73 ∷ []) 0; entrys = [] }

unfoldable pub stss_size : SyncSampleBox → ℕ
stss_size s = full_size s.box + 4 + 4 * length s.entrys

unfoldable pub decode_stss : SyncSampleBox → List ℕ → Outcome BoxError (TableRead (List ℕ))
decode_stss s r = decode_full s.box r >>= λ (b, r1). read_count r1 >>= λ (n, r2).
    read_entries read_u32_be 4 b 4 n r2 >>= λ (es, r3).
    ok (record { table = es; offset = 8 + n * 4; rest = r3 })

unfoldable pub encode_stss : SyncSampleBox → Outcome BoxError (List ℕ)
encode_stss s = write_entries u32_be (length s.entrys) s.entrys >>= λ bytes.
    encode_full (with_size s.box (stss_size s)) (u32_be (length s.entrys % 2 ^ 32) ++ bytes)

-- The loop of `makeStss` from the sample `i`, whether each one is a key frame given.
unfoldable pub key_frames_from : ℕ → List Bool → List ℕ
key_frames_from i [] = []
key_frames_from i (key ∷ keys) =
    let rest = key_frames_from (suc i) keys in if key then suc i % 2 ^ 32 ∷ rest else rest

unfoldable pub make_stss : List Bool → Outcome BoxError (List ℕ)
unfolding key_frames_from
make_stss keys = encode_stss (record new_sync_sample_box { entrys = key_frames_from 0 keys })
