-- ===== src/Mp4/Stbl/RoundTrip.antt =====
-- What `makeStblBox` writes of the tables is what the rounds of `ReadHead` read.
use gomediautils.Prelude.{
  ℕ, suc, ◌+◌, ◌*◌, ◌≤◌, ◌≡◌, ◌∙◌, refl, arith, List, [], ◌∷◌, ◌++◌, length, Outcome, ok, ◌>>=◌,
  Option, some, none, Bool, true, false, All, if◌then◌else◌,
}
use gomediautils.Prelude.Bytes.{IsU32}
use gomediautils.Mp4.Box.{BoxError, max_box_payload_size}
use gomediautils.Mp4.Stbl.{
  Movstbl, no_tables, last_stbl, put_stbl, read_tables, if_there, writes_stss, make_tables,
}
use gomediautils.Mp4.Stbl.Reads.{Reads-none, Reads-append, Reads-run}
use gomediautils.Mp4.Stbl.Pieces.{
  Piece, stts-Piece, ctts-Piece, stsc-Piece, stsz-Piece, stco-Piece, stss-Piece,
}
use gomediautils.Mp4.Tables.Counted.{
  counted_stsc, make_stsc-counted_stsc, Fits, IsSttsEntry, IsCttsEntry, IsStscEntry,
}
use gomediautils.Mp4.Tables.Chunk.{Movstsc, make_stsc}
use gomediautils.Mp4.Tables.Offsets.{FitsStco}
use gomediautils.Mp4.Tables.Sizes.{FitsStsz}
use gomediautils.Mp4.Tables.Size.{make_stss, key_frames_from}

-- A table that is there fits.
unfoldable pub IfThere {ℓ} : {A : Type ℓ} → (A → Type 0) → Option A → Type 0
IfThere P none = Unit {0}
IfThere P (some t) = P t

pub record FitsStbl (keys : List Bool) (t : Movstbl) : Type 0 where
  pub stts_fits : IfThere (λ x. Fits IsSttsEntry 8 x.entry_count x.entrys) t.stts
  pub ctts_fits : IfThere (λ x. Fits IsCttsEntry 8 x.entry_count x.entrys) t.ctts
  pub stsc_fits : IfThere (λ x. Fits IsStscEntry 12 x.entry_count (counted_stsc x).entrys) t.stsc
  pub stsz_fits : IfThere FitsStsz t.stsz
  pub stco_fits : IfThere FitsStco t.stco
  pub keys_few : length keys * 4 ≤ max_box_payload_size

-- The entries of stsc that are counted.
abbrev pub counted_only : Option Movstsc → Option Movstsc
counted_only none = none
counted_only (some t) = some (counted_stsc t)

-- How many boxes an optional table takes.
abbrev pub boxes {ℓ} : {A : Type ℓ} → Option A → ℕ
boxes none = 0
boxes (some _) = 1

-- The key frames that are written, if any are.
unfoldable pub key_frames : Bool → List Bool → Movstbl → Option (List ℕ)
unfolding writes_stss
key_frames video keys t = if writes_stss video t then some (key_frames_from 0 keys) else none

unfoldable pub count_boxes : Bool → List Bool → Movstbl → ℕ
count_boxes video keys t =
    boxes t.stts
    + (boxes t.ctts
        + (boxes t.stsc + (boxes t.stsz + (boxes t.stco + boxes (key_frames video keys t)))))

if_there-Piece {ℓ} :
    {A : Type ℓ} (make : A → Outcome BoxError (List ℕ)) (Fit : A → Type 0)
    (put : Option A → Movstbl)
    → ((t : A) → Fit t → Piece (make t) 1 (put none) (put (some t)))
    → (o : Option A) → IfThere Fit o
    → Piece (if_there make o) (boxes o) (put none) (put o)
unfolding IfThere if_there
if_there-Piece make Fit put each none h = record {
  bytes = [];
  made = refl;
  reads = Reads-none (put none);
}
if_there-Piece make Fit put each (some t) h = each t h

length-key_frames_from : (i : ℕ) (keys : List Bool) → length (key_frames_from i keys) ≤ length keys
unfolding key_frames_from
length-key_frames_from i [] = omega arith
length-key_frames_from i (true ∷ keys) = omega (arith, length-key_frames_from (suc i) keys)
length-key_frames_from i (false ∷ keys) = omega (arith, length-key_frames_from (suc i) keys)

All-key_frames_from : (i : ℕ) (keys : List Bool) → All IsU32 (key_frames_from i keys)
unfolding key_frames_from
All-key_frames_from i [] = tt
All-key_frames_from i (true ∷ keys) = (omega arith, All-key_frames_from (suc i) keys)
All-key_frames_from i (false ∷ keys) = All-key_frames_from (suc i) keys

key_frames-Piece :
    (written : Bool) (keys : List Bool) (s : Movstbl)
    → length keys * 4 ≤ max_box_payload_size
    → let o : Option (List ℕ) = if written then some (key_frames_from 0 keys) else none in
      Piece
        (if written then make_stss keys else ok [])
        (boxes o)
        (record s { stss = none })
        (record s { stss = o })
unfolding make_stss
key_frames-Piece true keys s few =
    stss-Piece (record s { stss = none }) (key_frames_from 0 keys)
      (record {
        counted = refl;
        few = omega (arith, length-key_frames_from 0 keys, few);
        fields = All-key_frames_from 0 keys;
      })
key_frames-Piece false keys s few = record {
  bytes = [];
  made = refl;
  reads = Reads-none (record s { stss = none });
}

stsc_counted-Piece :
    (s : Movstbl) (t : Movstsc)
    → Fits IsStscEntry 12 t.entry_count (counted_stsc t).entrys
    → Piece (make_stsc t) 1 (record s { stsc = none }) (record s { stsc = some (counted_stsc t) })
unfolding counted_stsc
stsc_counted-Piece s t v =
    let p = stsc-Piece (record s { stsc = none }) (counted_stsc t) v in
    record { bytes = p.bytes; made = make_stsc-counted_stsc t ∙ p.made; reads = p.reads }

-- The tables of a track, each of which is there or not, fits its fields and is within the limit of a
-- payload, are written without a panic, and rounds of `ReadHead` at the boxes that are written give
-- the last track just these tables, of stsc the entries that are counted, with the numbers of the key
-- frames if it is a video's, and the reader behind them.
pub read_tables-make_tables :
    (video : Bool) (keys : List Bool) (t : Movstbl) (rest : List ℕ)
    → (tracks : List (Option Movstbl)) → FitsStbl keys t
    → last_stbl tracks ≡ ok no_tables
    → make_tables video keys t >>= (λ bytes.
      ok (
        read_tables
          (count_boxes video keys t)
          (record { reader = bytes ++ rest; tracks = tracks })))
      ≡ ok (
          some (
            ok (record {
              reader = rest;
              tracks =
                  put_stbl
                    (record t { stsc = counted_only t.stsc; stss = key_frames video keys t })
                    tracks;
            })))
unfolding make_tables count_boxes key_frames
read_tables-make_tables video keys t rest tracks v l =
    let s0 = no_tables in
    let s1 : Movstbl = record no_tables { stts = t.stts } in
    let s2 : Movstbl = record s1 { ctts = t.ctts } in
    let s3 : Movstbl = record s2 { stsc = counted_only t.stsc } in
    let s4 : Movstbl = record s3 { stsz = t.stsz } in
    let s5 : Movstbl = record s4 { stco = t.stco } in
    let p1 =
      if_there-Piece _ _ (λ o. record no_tables { stts = o }) (stts-Piece s0) t.stts v.stts_fits in
    let p2 = if_there-Piece _ _ (λ o. record s1 { ctts = o }) (ctts-Piece s1) t.ctts v.ctts_fits in
    let p3 =
      if_there-Piece _ _ (λ o. record s2 { stsc = counted_only o })
        (λ x h. stsc_counted-Piece s2 x h) t.stsc v.stsc_fits in
    let p4 = if_there-Piece _ _ (λ o. record s3 { stsz = o }) (stsz-Piece s3) t.stsz v.stsz_fits in
    let p5 = if_there-Piece _ _ (λ o. record s4 { stco = o }) (stco-Piece s4) t.stco v.stco_fits in
    let p6 = key_frames-Piece (writes_stss video t) keys s5 v.keys_few in
    let s6 : Movstbl = record s5 { stss = key_frames video keys t } in
    let r5 = Reads-append _ _ p5.bytes p6.bytes s4 s5 s6 p5.reads p6.reads in
    let r4 = Reads-append _ _ p4.bytes _ s3 s4 s6 p4.reads r5 in
    let r3 = Reads-append _ _ p3.bytes _ s2 s3 s6 p3.reads r4 in
    let r2 = Reads-append _ _ p2.bytes _ s1 s2 s6 p2.reads r3 in
    let r1 = Reads-append _ _ p1.bytes _ s0 s1 s6 p1.reads r2 in
    let r = Reads-run _ _ s0 s6 r1 rest tracks l in
    rw (make_tables, p1.made, p2.made, p3.made, p4.made, p5.made, p6.made, r)
