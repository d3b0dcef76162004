-- ===== src/Mp4/Stbl.antt =====
-- The sample tables of a track: movstbl of go-mp4/mp4table.go, the state that the demuxer of
-- go-mp4/mp4demuxer.go keeps of them and its functions decodeSttsBox to decodeStssBox in the files of
-- the boxes, and the tables that stbl-box.go writes.
pub mod Reads
pub mod Pieces
pub mod RoundTrip
use gomediautils.Prelude.{
  ℕ, zero, suc, ◌+◌, ◌*◌, List, [], ◌∷◌, ◌++◌, Bool, true, false, ltb, ◌==◌, ◌&&◌, ◌||◌,
  if◌then◌else◌, length, replicate, Outcome, ok, err, panic, ◌>>=◌, Option, none, some,
}
use gomediautils.Mp4.Box.{
  BoxError, no_track, no_stbl, parser_error, large_box, BasicBox, BoxHead, FullBox, decode_box,
  fill, buffer_size, box_bytes,
}
use gomediautils.Mp4.Tables.Time.{Movstts, Movctts, decode_stts, decode_ctts, make_stts, make_ctts}
use gomediautils.Mp4.Tables.Chunk.{
  Movstsc, Movstco, decode_stsc, decode_stco, decode_co64, make_stsc, make_stco,
}
use gomediautils.Mp4.Tables.Size.{Movstsz, decode_stsz, decode_stss, make_stsz, make_stss}

pub record Movstbl : Type 0 where
  pub stts : Option Movstts
  pub ctts : Option Movctts
  pub stsc : Option Movstsc
  pub stsz : Option Movstsz
  pub stco : Option Movstco
  pub stss : Option (List ℕ)

-- `new(movstbl)`
abbrev pub no_tables : Movstbl
no_tables = record { stts = none; ctts = none; stsc = none; stsz = none; stco = none; stss = none }

-- Of a track, only its table.
pub record MovDemuxer : Type 0 where
  pub reader : List ℕ
  pub tracks : List (Option Movstbl)

-- `lastTrack` and `lastStbl`: the table of the track that came last.
unfoldable pub last_stbl : List (Option Movstbl) → Outcome BoxError Movstbl
last_stbl [] = err no_track
last_stbl (none ∷ []) = err no_stbl
last_stbl (some t ∷ []) = ok t
last_stbl (t ∷ u ∷ ts) = last_stbl (u ∷ ts)

-- A write to the table of that track.
unfoldable pub put_stbl : Movstbl → List (Option Movstbl) → List (Option Movstbl)
put_stbl new [] = []
put_stbl new (t ∷ []) = some new ∷ []
put_stbl new (t ∷ u ∷ ts) = t ∷ put_stbl new (u ∷ ts)

-- `&FullBox{Box: &BasicBox{Size: size}}`
abbrev pub box_of_size : ℕ → FullBox
box_of_size n = record {
  box = record { size = n; box_type = replicate 4 0; user_type = replicate 16 0 };
  version = 0;
  flags = replicate 3 0;
}

unfoldable pub decode_stts_box : MovDemuxer → ℕ → Outcome BoxError MovDemuxer
decode_stts_box d size = last_stbl d.tracks >>= λ t.
    decode_stts (record { box = box_of_size size; entry_list = none }) d.reader >>= λ r.
    ok (record { reader = r.rest; tracks = put_stbl (record t { stts = some r.table }) d.tracks })

unfoldable pub decode_ctts_box : MovDemuxer → ℕ → Outcome BoxError MovDemuxer
decode_ctts_box d size = last_stbl d.tracks >>= λ t.
    decode_ctts (record { box = box_of_size size; ctts = none }) d.reader >>= λ r.
    ok (record { reader = r.rest; tracks = put_stbl (record t { ctts = some r.table }) d.tracks })

unfoldable pub decode_stsc_box : MovDemuxer → ℕ → Outcome BoxError MovDemuxer
decode_stsc_box d size = last_stbl d.tracks >>= λ t.
    decode_stsc (record { box = box_of_size size; stscentrys = none }) d.reader >>= λ r.
    ok (record { reader = r.rest; tracks = put_stbl (record t { stsc = some r.table }) d.tracks })

unfoldable pub decode_stsz_box : MovDemuxer → ℕ → Outcome BoxError MovDemuxer
decode_stsz_box d size = last_stbl d.tracks >>= λ t.
    decode_stsz (record { box = box_of_size size; stsz = none }) d.reader >>= λ r.
    ok (record { reader = r.rest; tracks = put_stbl (record t { stsz = some r.table }) d.tracks })

unfoldable pub decode_stco_box : MovDemuxer → ℕ → Outcome BoxError MovDemuxer
decode_stco_box d size = last_stbl d.tracks >>= λ t.
    decode_stco (record { box = box_of_size size; stco = none }) d.reader >>= λ r.
    ok (record { reader = r.rest; tracks = put_stbl (record t { stco = some r.table }) d.tracks })

unfoldable pub decode_co64_box : MovDemuxer → ℕ → Outcome BoxError MovDemuxer
decode_co64_box d size = last_stbl d.tracks >>= λ t.
    decode_co64 (record { box = box_of_size size; stco = none }) d.reader >>= λ r.
    ok (record { reader = r.rest; tracks = put_stbl (record t { stco = some r.table }) d.tracks })

unfoldable pub decode_stss_box : MovDemuxer → ℕ → Outcome BoxError MovDemuxer
decode_stss_box d size = last_stbl d.tracks >>= λ t.
    decode_stss (record { box = box_of_size size; entrys = [] }) d.reader >>= λ r.
    ok (record { reader = r.rest; tracks = put_stbl (record t { stss = some r.table }) d.tracks })

unfoldable pub type_eq : List ℕ → List ℕ → Bool
type_eq [] [] = true
type_eq (x ∷ xs) (y ∷ ys) = (x == y) && type_eq xs ys
type_eq _ _ = false

-- The case of `ReadHead` for a box of this type and size; none for the types that are not of a sample
-- table.
unfoldable pub table_case : List ℕ → ℕ → MovDemuxer → Option (Outcome BoxError MovDemuxer)
unfolding type_eq
table_case t size d =
    if type_eq t (0x73 ∷ 0x74 ∷ 0x74 ∷ 0x73 ∷ [])
    then some (decode_stts_box d size)
    else if type_eq t (0x63 ∷ 0x74 ∷ 0x74 ∷ 0x73 ∷ [])
    then some (decode_ctts_box d size)
    else if type_eq t (0x73 ∷ 0x74 ∷ 0x73 ∷ 0x63 ∷ [])
    then some (decode_stsc_box d size)
    else if type_eq t (0x73 ∷ 0x74 ∷ 0x73 ∷ 0x7A ∷ [])
    then some (decode_stsz_box d size)
    else if type_eq t (0x73 ∷ 0x74 ∷ 0x63 ∷ 0x6F ∷ [])
    then some (decode_stco_box d size)
    else if type_eq t (0x63 ∷ 0x6F ∷ 0x36 ∷ 0x34 ∷ [])
    then some (decode_co64_box d size)
    else if type_eq t (0x73 ∷ 0x74 ∷ 0x73 ∷ 0x73 ∷ [])
    then some (decode_stss_box d size)
    else none

-- `isMdat || isMoov`
unfoldable pub is_mdat_or_moov : List ℕ → Bool
unfolding type_eq
is_mdat_or_moov t =
    type_eq t (0x6D ∷ 0x64 ∷ 0x61 ∷ 0x74 ∷ []) || type_eq t (0x6D ∷ 0x6F ∷ 0x6F ∷ 0x76 ∷ [])

-- One round of the loop of `ReadHead` at such a box; a size of 0 reaches to the end of the file.
unfoldable pub read_table : MovDemuxer → Option (Outcome BoxError MovDemuxer)
read_table d = elim (decode_box (replicate 16 0) d.reader) [
  | err e ↦ some (err e)
  | panic ↦ some panic
  | ok h ↦
      let n : ℕ = if h.box.size == 0 then length h.rest + h.taken else h.box.size in
      if ltb n h.taken
      then some (err parser_error)
      else if ltb 0xFFFFFFFF n
      then (if is_mdat_or_moov h.box.box_type then none else some (err large_box))
      else table_case h.box.box_type n (record d { reader = h.rest })
]

-- Rounds of the loop at `n` boxes of sample tables.
unfoldable pub read_tables : ℕ → MovDemuxer → Option (Outcome BoxError MovDemuxer)
read_tables zero d = some (ok d)
read_tables (suc n) d = elim (read_table d) [
  | none ↦ none
  | some (err e) ↦ some (err e)
  | some panic ↦ some panic
  | some (ok d') ↦ read_tables n d'
]

-- The bytes of a table, if it is there.
unfoldable pub if_there {ℓ} :
    {A : Type ℓ} → (A → Outcome BoxError (List ℕ)) → Option A → Outcome BoxError (List ℕ)
if_there make none = ok []
if_there make (some t) = make t

unfoldable pub writes_stss : Bool → Movstbl → Bool
writes_stss video t = elim t.stts [ none ↦ false | some s ↦ video && ltb 0 s.entry_count ]

-- The boxes of the tables, in the order of `makeStblBox`; of each sample, whether it is a key frame.
unfoldable pub make_tables : Bool → List Bool → Movstbl → Outcome BoxError (List ℕ)
unfolding if_there
make_tables video keys t = if_there make_stts t.stts >>= λ stts.
    if_there make_ctts t.ctts >>= λ ctts. if_there make_stsc t.stsc >>= λ stsc.
    if_there make_stsz t.stsz >>= λ stsz. if_there make_stco t.stco >>= λ stco.
    (if writes_stss video t then make_stss keys else ok []) >>= λ stss.
    ok (stts ++ (ctts ++ (stsc ++ (stsz ++ (stco ++ stss)))))

-- `makeStblBox` from the stsd box on, whose bytes are given; the copies of it and of the tables into the
-- buffer, each behind the one before.
unfoldable pub make_stbl_box :
    Bool → List Bool → Option Movstbl → List ℕ → Outcome BoxError (List ℕ)
make_stbl_box video keys tables stsd = if_there (make_tables video keys) tables >>= λ bytes.
    let stbl : BasicBox = record {
      size = 8 + length stsd + length bytes;
      box_type = 0x73 ∷ 0x74 ∷ 0x62 ∷ 0x6C ∷ [];
      user_type = replicate 16 0;
    } in
    fill (8 + length stsd + length bytes) (buffer_size stbl) (box_bytes stbl ++ (stsd ++ bytes))
