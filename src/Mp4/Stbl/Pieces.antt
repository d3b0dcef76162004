-- ===== src/Mp4/Stbl/Pieces.antt =====
-- The box of each table: it is written, and a round of `ReadHead` puts its table into the last track.
use gomediautils.Prelude.{
  ℕ, ◌+◌, ◌*◌, ◌^◌, ◌≤◌, ◌<◌, ◌≡◌, inl, inr, refl, ◌∙◌, arith, List, [], lt_or_ge, length, Outcome,
  ok, some, none,
}
use gomediautils.Prelude.Bytes.{IsU32}
use gomediautils.Mp4.Box.{BoxError}
use gomediautils.Mp4.Box.RoundTrip.{full_bytes}
use gomediautils.Mp4.Stbl.{
  Movstbl, box_of_size, type_eq, table_case, decode_stts_box, decode_ctts_box, decode_stsc_box,
  decode_stsz_box, decode_stco_box, decode_co64_box, decode_stss_box,
}
use gomediautils.Mp4.Stbl.Reads.{Reads, Reads-one, read_table-full_bytes}
use gomediautils.Mp4.Tables.Time.{Movstts, Movctts, make_stts, make_ctts}
use gomediautils.Mp4.Tables.Chunk.{Movstsc, Movstco, make_stsc, make_stco}
use gomediautils.Mp4.Tables.Size.{Movstsz, make_stsz, encode_stss, new_sync_sample_box}
use gomediautils.Mp4.Tables.Counted.{
  Fits, IsSttsEntry, stts_fields, make_stts_lem, decode_stts_lem, IsCttsEntry, ctts_fields,
  make_ctts_lem, decode_ctts_lem, IsStscEntry, stsc_fields, make_stsc_lem, decode_stsc_lem,
}
use gomediautils.Mp4.Tables.Offsets.{
  FitsStco, small-Fits, stco_fields, co64_fields, last_offset, make_stco-small, make_stco-large,
  decode_stco_lem, decode_co64_lem,
}
use gomediautils.Mp4.Tables.Sizes.{
  FitsStsz, few_sizes, stsz_fields, make_stsz_lem, decode_stsz_lem, stss_fields, encode_stss_lem,
  decode_stss_lem,
}

-- What is written by `make`, and read in `n` rounds.
pub record Piece (make : Outcome BoxError (List ℕ)) (n : ℕ) (s s' : Movstbl) : Type 0 where
  pub bytes : List ℕ
  pub made : make ≡ ok bytes
  pub reads : Reads n bytes s s'

pub stts-Piece :
    (s : Movstbl) (t : Movstts)
    → Fits IsSttsEntry 8 t.entry_count t.entrys
    → Piece (make_stts t) 1 s (record s { stts = some t })
unfolding table_case type_eq decode_stts_box
stts-Piece s t v = record {
  bytes = full_bytes (16 + 8 * t.entry_count) 0x73 0x74 0x74 0x73 0 (stts_fields t);
  made = make_stts_lem t v;
  reads = Reads-one _ s _ (λ rest tracks l.
      read_table-full_bytes 0x73 0x74 0x74 0x73 0 (16 + 8 * t.entry_count) (stts_fields t) rest
        tracks refl (omega arith) (omega (arith, v.few))
      ∙ rw (
        l,
        decode_stts_lem t (record { box = box_of_size (16 + 8 * t.entry_count); entry_list = none })
            rest v refl,
      ));
}

pub ctts-Piece :
    (s : Movstbl) (t : Movctts)
    → Fits IsCttsEntry 8 t.entry_count t.entrys
    → Piece (make_ctts t) 1 s (record s { ctts = some t })
unfolding table_case type_eq decode_ctts_box
ctts-Piece s t v = record {
  bytes = full_bytes (16 + 8 * t.entry_count) 0x63 0x74 0x74 0x73 t.version (ctts_fields t);
  made = make_ctts_lem t v;
  reads = Reads-one _ s _ (λ rest tracks l.
      read_table-full_bytes 0x63 0x74 0x74 0x73 t.version (16 + 8 * t.entry_count) (ctts_fields t)
        rest tracks refl (omega arith) (omega (arith, v.few))
      ∙ rw (
        l,
        decode_ctts_lem t (record { box = box_of_size (16 + 8 * t.entry_count); ctts = none }) rest
            v refl,
      ));
}

pub stsc-Piece :
    (s : Movstbl) (t : Movstsc)
    → Fits IsStscEntry 12 t.entry_count t.entrys
    → Piece (make_stsc t) 1 s (record s { stsc = some t })
unfolding table_case type_eq decode_stsc_box
stsc-Piece s t v = record {
  bytes = full_bytes (16 + 12 * t.entry_count) 0x73 0x74 0x73 0x63 0 (stsc_fields t);
  made = make_stsc_lem t v;
  reads = Reads-one _ s _ (λ rest tracks l.
      read_table-full_bytes 0x73 0x74 0x73 0x63 0 (16 + 12 * t.entry_count) (stsc_fields t) rest
        tracks refl (omega arith) (omega (arith, v.few))
      ∙ rw (
        l,
        decode_stsc_lem t
            (record { box = box_of_size (16 + 12 * t.entry_count); stscentrys = none }) rest v refl,
      ));
}

pub stsz-Piece :
    (s : Movstbl) (t : Movstsz) → FitsStsz t → Piece (make_stsz t) 1 s (record s { stsz = some t })
unfolding table_case type_eq decode_stsz_box
stsz-Piece s t v = record {
  bytes = full_bytes (20 + 4 * length t.entry_sizelist) 0x73 0x74 0x73 0x7A 0 (stsz_fields t);
  made = make_stsz_lem t v;
  reads = Reads-one _ s _ (λ rest tracks l.
      read_table-full_bytes 0x73 0x74 0x73 0x7A 0 (20 + 4 * length t.entry_sizelist) (stsz_fields t)
        rest tracks refl (omega arith) (omega (arith, few_sizes t v))
      ∙ rw (
        l,
        decode_stsz_lem t
            (record { box = box_of_size (20 + 4 * length t.entry_sizelist); stsz = none }) rest v
            refl,
      ));
}

stco_small-Piece :
    (s : Movstbl) (t : Movstco)
    → FitsStco t
    → last_offset t < 2 ^ 32
    → Piece (make_stco t) 1 s (record s { stco = some t })
unfolding table_case type_eq decode_stco_box
stco_small-Piece s t v h = record {
  bytes = full_bytes (16 + 4 * t.entry_count) 0x73 0x74 0x63 0x6F 0 (stco_fields t);
  made = make_stco-small t v h;
  reads = Reads-one _ s _ (λ rest tracks l.
      read_table-full_bytes 0x73 0x74 0x63 0x6F 0 (16 + 4 * t.entry_count) (stco_fields t) rest
        tracks refl (omega arith) (omega (arith, v.fits.few))
      ∙ rw (
        l,
        decode_stco_lem t (record { box = box_of_size (16 + 4 * t.entry_count); stco = none }) rest
            (small-Fits t v h) refl,
      ));
}

stco_large-Piece :
    (s : Movstbl) (t : Movstco)
    → FitsStco t
    → 2 ^ 32 ≤ last_offset t
    → Piece (make_stco t) 1 s (record s { stco = some t })
unfolding table_case type_eq decode_co64_box
stco_large-Piece s t v h = record {
  bytes = full_bytes (16 + 8 * t.entry_count) 0x63 0x6F 0x36 0x34 0 (co64_fields t);
  made = make_stco-large t v h;
  reads = Reads-one _ s _ (λ rest tracks l.
      read_table-full_bytes 0x63 0x6F 0x36 0x34 0 (16 + 8 * t.entry_count) (co64_fields t) rest
        tracks refl (omega arith) (omega (arith, v.fits.few))
      ∙ rw (
        l,
        decode_co64_lem t (record { box = box_of_size (16 + 8 * t.entry_count); stco = none }) rest
            v.fits refl,
      ));
}

pub stco-Piece :
    (s : Movstbl) (t : Movstco) → FitsStco t → Piece (make_stco t) 1 s (record s { stco = some t })
stco-Piece s t v = elim (lt_or_ge (last_offset t) (2 ^ 32)) [
  | inl h ↦ stco_small-Piece s t v h
  | inr h ↦ stco_large-Piece s t v h
]

pub stss-Piece :
    (s : Movstbl) (t : List ℕ)
    → Fits IsU32 4 (length t) t
    → Piece
        (encode_stss (record new_sync_sample_box { entrys = t }))
        1
        s
        (record s { stss = some t })
unfolding table_case type_eq decode_stss_box
stss-Piece s t v = record {
  bytes = full_bytes (16 + 4 * length t) 0x73 0x74 0x73 0x73 0 (stss_fields t);
  made = encode_stss_lem t v;
  reads = Reads-one _ s _ (λ rest tracks l.
      read_table-full_bytes 0x73 0x74 0x73 0x73 0 (16 + 4 * length t) (stss_fields t) rest tracks
        refl (omega arith) (omega (arith, v.few))
      ∙ rw (
        l,
        decode_stss_lem t (record { box = box_of_size (16 + 4 * length t); entrys = [] }) rest v
            refl,
      ));
}
