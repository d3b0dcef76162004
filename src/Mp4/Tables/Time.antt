-- ===== src/Mp4/Tables/Time.antt =====
-- go-mp4/stts-box.go and ctts-box.go, with their records of mp4table.go. A `Decode` gives the table
-- that it fills, the offset that it returns and the reader behind it; its receiver is a new box whose
-- size is set, as its callers make it.
use gomediautils.Prelude.{
  ℕ, ◌+◌, ◌*◌, List, [], ◌∷◌, ◌++◌, ◌==◌, if◌then◌else◌, drop, Outcome, ok, panic, ◌>>=◌, Option,
  none, some, index,
}
use gomediautils.Prelude.Bytes.{u32_be, read_u32_be}
use gomediautils.Prelude.Int.{ℤ, pos, signed32}
use gomediautils.Mp4.Box.{BoxError, FullBox, full_size, new_full_box, decode_full, encode_full}
use gomediautils.Mp4.Table.{read_count, read_entries, write_entries}

pub record SttsEntry : Type 0 where
  pub sample_count : ℕ
  pub sample_delta : ℕ

pub record Movstts : Type 0 where
  pub entry_count : ℕ
  pub entrys : List SttsEntry

pub record CttsEntry : Type 0 where
  pub sample_count : ℕ
  pub sample_offset : ℕ

pub record Movctts : Type 0 where
  pub version : ℕ
  pub entry_count : ℕ
  pub entrys : List CttsEntry

-- Version 1 offsets are signed.
abbrev pub entry_offset : ℕ → ℕ → ℤ
entry_offset version offset = if version == 1 then signed32 offset else pos offset

-- `movctts.sampleOffset`
unfoldable pub sample_offset_at : Movctts → ℕ → Outcome BoxError ℤ
sample_offset_at ctts i =
    index ctts.entrys i >>= λ e. ok (entry_offset ctts.version e.sample_offset)

-- What a `Decode` gives.
pub record TableRead {ℓ} (A : Type ℓ) : Type ℓ where
  pub table : A
  pub offset : ℕ
  pub rest : List ℕ

abbrev pub two_words : List ℕ → Option (ℕ × ℕ)
two_words buf = elim (read_u32_be buf) [
  | none ↦ none
  | some a ↦ elim (read_u32_be (drop 4 buf)) [ none ↦ none | some b ↦ some (a, b) ]
]

-- One round of the loop of `TimeToSampleBox.Decode` and of that of `Encode`.
abbrev pub parse_stts : List ℕ → Option SttsEntry
parse_stts buf = elim (two_words buf) [
  | none ↦ none
  | some (a, b) ↦ some (record { sample_count = a; sample_delta = b })
]

abbrev pub write_stts : SttsEntry → List ℕ
write_stts e = u32_be e.sample_count ++ u32_be e.sample_delta

pub record TimeToSampleBox : Type 0 where
  pub box : FullBox
  pub entry_list : Option Movstts

unfoldable pub new_time_to_sample_box : TimeToSampleBox
new_time_to_sample_box = record {
  box = new_full_box (0x73 ∷ 0x74 ∷ 0x74 ∷ 0x73 ∷ []) 0;
  entry_list = none;
}

unfoldable pub stts_size : TimeToSampleBox → ℕ
stts_size stts = elim stts.entry_list [
  | none ↦ full_size stts.box
  | some t ↦ full_size stts.box + 4 + 8 * t.entry_count
]

unfoldable pub decode_stts : TimeToSampleBox → List ℕ → Outcome BoxError (TableRead Movstts)
decode_stts stts r = decode_full stts.box r >>= λ (b, r1). read_count r1 >>= λ (n, r2).
    read_entries parse_stts 8 b 4 n r2 >>= λ (es, r3).
    ok (record { table = record { entry_count = n; entrys = es }; offset = 8 + n * 8; rest = r3 })

-- The box with its size set, as an `Encode` leaves it before it writes.
abbrev pub with_size : FullBox → ℕ → FullBox
with_size b n = record b { box = record b.box { size = n } }

unfoldable pub encode_stts : TimeToSampleBox → Outcome BoxError (List ℕ)
encode_stts stts = elim stts.entry_list [
  | none ↦ panic
  | some t ↦ write_entries write_stts t.entry_count t.entrys >>= λ bytes.
      encode_full (with_size stts.box (stts_size stts)) (u32_be t.entry_count ++ bytes)
]

unfoldable pub make_stts : Movstts → Outcome BoxError (List ℕ)
make_stts t = encode_stts (record new_time_to_sample_box { entry_list = some t })

abbrev pub parse_ctts : List ℕ → Option CttsEntry
parse_ctts buf = elim (two_words buf) [
  | none ↦ none
  | some (a, b) ↦ some (record { sample_count = a; sample_offset = b })
]

abbrev pub write_ctts : CttsEntry → List ℕ
write_ctts e = u32_be e.sample_count ++ u32_be e.sample_offset

pub record CompositionOffsetBox : Type 0 where
  pub box : FullBox
  pub ctts : Option Movctts

unfoldable pub new_composition_offset_box : CompositionOffsetBox
new_composition_offset_box = record {
  box = new_full_box (0x63 ∷ 0x74 ∷ 0x74 ∷ 0x73 ∷ []) 0;
  ctts = none;
}

unfoldable pub ctts_size : CompositionOffsetBox → ℕ
ctts_size c = elim c.ctts [
  | none ↦ full_size c.box
  | some t ↦ full_size c.box + 4 + 8 * t.entry_count
]

unfoldable pub decode_ctts : CompositionOffsetBox → List ℕ → Outcome BoxError (TableRead Movctts)
decode_ctts c r = decode_full c.box r >>= λ (b, r1). read_count r1 >>= λ (n, r2).
    read_entries parse_ctts 8 b 4 n r2 >>= λ (es, r3). ok (record {
      table = record { version = b.version; entry_count = n; entrys = es };
      offset = 8 + n * 8;
      rest = r3;
    })

unfoldable pub encode_ctts : CompositionOffsetBox → Outcome BoxError (List ℕ)
encode_ctts c = elim c.ctts [
  | none ↦ panic
  | some t ↦ write_entries write_ctts t.entry_count t.entrys >>= λ bytes.
      encode_full (with_size c.box (ctts_size c)) (u32_be t.entry_count ++ bytes)
]

unfoldable pub make_ctts : Movctts → Outcome BoxError (List ℕ)
make_ctts t =
    let c = new_composition_offset_box in
    encode_ctts (record { box = record c.box { version = t.version }; ctts = some t })
