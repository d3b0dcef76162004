-- ===== src/Mp4/Times.antt =====
-- The times of a track's samples: the runs that `makeStblTable` of go-mp4/mp4track.go makes of
-- them, and the times that `buildSampleList` of go-mp4/mp4demuxer.go gives back.
use gomediautils.Prelude.{
  ℕ, zero, suc, ◌+◌, ◌-◌, ◌%◌, ◌^◌, List, [], ◌∷◌, ◌++◌, Bool, leb, ltb, ◌==◌, ◌*◌, ◌/◌, false,
  if◌then◌else◌, length, replicate,
}
use gomediautils.Mp4.Tables.Time.{SttsEntry, Movstts, CttsEntry, Movctts, entry_offset}
use gomediautils.Prelude.Int.{ℤ, pos, negsuc}
use mathlib.Core.Option.{Option, none, some, map}
pub mod Runs
pub mod RoundTrip
pub mod Offsets
pub mod Start

-- `delta`: a time that goes back counts as one tick.
abbrev pub delta_of : ℕ → ℕ → ℕ
delta_of dts next = if leb dts next then next - dts else 1

-- One more of what the last entry of a table counts, or a new entry.
unfoldable pub put_last {ℓ} : {A : Type ℓ} → (A → Bool) → (A → A) → A → List A → List A
put_last same more new [] = new ∷ []
put_last same more new (e ∷ []) = if same e then more e ∷ [] else e ∷ new ∷ []
put_last same more new (e ∷ f ∷ es) = let rest = put_last same more new (f ∷ es) in e ∷ rest

-- A further delta.
unfoldable pub put_delta : ℕ → List SttsEntry → List SttsEntry
put_delta delta es =
    put_last (λ e. delta == e.sample_delta)
      (λ e. record e { sample_count = (e.sample_count + 1) % 2 ^ 32 })
      (record { sample_count = 1; sample_delta = delta % 2 ^ 32 }) es

-- The rounds of the loop of `makeStblTable` on the times from a sample on; the last sample has an
-- entry of its own, with the delta `last`.
unfoldable pub stts_rounds : ℕ → List SttsEntry → List ℕ → List SttsEntry
stts_rounds last entrys [] = entrys
stts_rounds last entrys (dts ∷ []) =
    entrys ++ (record { sample_count = 1; sample_delta = last } ∷ [])
stts_rounds last entrys (dts ∷ next ∷ times) =
    stts_rounds last (put_delta (delta_of dts next) entrys) (next ∷ times)

-- `lastSampleDelta` of the times: the last interval, or one tick.
unfoldable pub last_sample_delta : List ℕ → ℕ
last_sample_delta [] = 1
last_sample_delta (dts ∷ []) = 1
last_sample_delta (dts ∷ next ∷ []) = if ltb dts next then (next - dts) % 2 ^ 32 else 1
last_sample_delta (dts ∷ next ∷ third ∷ times) =
    let rest = last_sample_delta (next ∷ third ∷ times) in rest

-- The table of the times of a track's samples; its count goes with the entries.
unfoldable pub stts_table : List ℕ → Movstts
unfolding stts_rounds last_sample_delta
stts_table times =
    let entrys = stts_rounds (last_sample_delta times) [] times in
    record { entry_count = length entrys % 2 ^ 32; entrys = entrys }

-- The loop of `buildSampleList` over one entry, from the time before: the times that it gives, with
-- the samples that are left and the last time.
pub record Run : Type 0 where
  pub times : List ℕ
  pub left : ℕ
  pub last : ℕ

unfoldable pub run_entry : ℕ → ℕ → ℕ → ℕ → Run
run_entry zero count delta dts = record { times = []; left = 0; last = dts }
run_entry (suc left) zero delta dts = record { times = []; left = suc left; last = dts }
run_entry (suc left) (suc count) delta dts =
    let dts' : ℕ = (delta + dts) % 2 ^ 64 in
    let rest = run_entry left count delta dts' in record rest { times = dts' ∷ rest.times }

-- The loop over the entries: the times of the samples that are left, 0 for those that no entry covers.
unfoldable pub run_entries : List SttsEntry → ℕ → ℕ → List ℕ
run_entries [] left dts = replicate left 0
run_entries (e ∷ es) left dts =
    let run = run_entry left e.sample_count e.sample_delta dts in
    run.times ++ run_entries es run.left run.last

-- Of an entry of an edit list, what the decode times depend on.
pub record ElstEntry : Type 0 where
  pub segment_duration : ℕ
  pub media_time : ℤ

-- `entry.mediaTime == -1`
abbrev pub is_minus_one : ℤ → Bool
is_minus_one (pos _) = false
is_minus_one (negsuc n) = n == 0

-- The decode time of the first sample behind the entries of an edit list, from the one so far: the
-- last empty edit says it, in the timescale of the movie; none for the error that this is 0.
unfoldable pub first_time : ℕ → ℕ → List ElstEntry → ℕ → Option ℕ
first_time movie track [] dts = some dts
first_time movie track (e ∷ es) dts =
    let unchanged = first_time movie track es dts in
    let changed = first_time movie track es (e.segment_duration * track % 2 ^ 64 / movie) in
    if is_minus_one e.media_time then if movie == 0 then none else changed else unchanged

abbrev pub start_time : ℕ → ℕ → Option (List ElstEntry) → Option ℕ
start_time movie track none = some 0
start_time movie track (some entrys) = first_time movie track entrys 0

-- The decode times of `count` samples of a track with or without an edit list, where `movie` and
-- `track` are the timescales.
unfoldable pub decode_times : ℕ → ℕ → ℕ → Option (List ElstEntry) → Movstts → Option (List ℕ)
unfolding run_entries first_time
decode_times zero movie track elst stts = some []
decode_times (suc left) movie track elst stts =
    map (λ dts. dts ∷ run_entries stts.entrys left dts) (start_time movie track elst)

-- Of a sample, its times.
pub record SampleEntry : Type 0 where
  pub pts : ℕ
  pub dts : ℕ

-- `offset < 0` and `uint32(int32(offset))` for the difference of the times as int64.
unfoldable pub is_negative : SampleEntry → Bool
is_negative s = leb (2 ^ 63) ((s.pts + 2 ^ 64 - s.dts) % 2 ^ 64)

unfoldable pub offset_word : SampleEntry → ℕ
offset_word s = (s.pts + 2 ^ 64 - s.dts) % 2 ^ 32

-- A further offset.
unfoldable pub put_offset : ℕ → List CttsEntry → List CttsEntry
put_offset offset es =
    put_last (λ e. e.sample_offset == offset)
      (λ e. record e { sample_count = (e.sample_count + 1) % 2 ^ 32 })
      (record { sample_count = 1; sample_offset = offset }) es

-- The rounds of the loop of `makeStblTable`, on the version and the entries so far.
unfoldable pub ctts_rounds : ℕ → List CttsEntry → List SampleEntry → Movctts
ctts_rounds version entrys [] = record {
  version = version;
  entry_count = length entrys % 2 ^ 32;
  entrys = entrys;
}
ctts_rounds version entrys (s ∷ ss) =
    ctts_rounds (if is_negative s then 1 else version) (put_offset (offset_word s) entrys) ss

unfoldable pub ctts_table : List SampleEntry → Movctts
unfolding ctts_rounds
ctts_table samples = ctts_rounds 0 [] samples

-- `uint64(int64(dts) + offset)`
unfoldable pub add_offset : ℕ → ℤ → ℕ
add_offset dts (pos n) = (dts + n) % 2 ^ 64
add_offset dts (negsuc n) = (dts + 2 ^ 64 - suc n) % 2 ^ 64

-- The loop of `buildSampleList` over one entry: the presentation times that it gives, and the decode
-- times that are left.
unfoldable pub pts_entry : ℕ → ℤ → List ℕ → List ℕ × List ℕ
pts_entry count offset [] = ([], [])
pts_entry zero offset (t ∷ times) = ([], t ∷ times)
pts_entry (suc count) offset (t ∷ times) =
    let rest = pts_entry count offset times in (add_offset t offset ∷ rest.0, rest.1)

-- The loop over the entries; a sample that they do not cover is presented at its decode time.
unfoldable pub pts_entries : ℕ → List CttsEntry → List ℕ → List ℕ
pts_entries version [] times = times
pts_entries version (e ∷ es) times =
    let run = pts_entry e.sample_count (entry_offset version e.sample_offset) times in
    run.0 ++ pts_entries version es run.1

unfoldable pub presentation_times : Movctts → List ℕ → List ℕ
unfolding pts_entries
presentation_times ctts times =
    if ctts.entry_count == 0 then times else pts_entries ctts.version ctts.entrys times
