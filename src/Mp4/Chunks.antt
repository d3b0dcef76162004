-- ===== src/Mp4/Chunks.antt =====
-- The chunks of a track: the ones that `makeStblTable` of go-mp4/mp4track.go makes of the samples, the
-- stsc and stco tables of them, and the chunks and offsets that `buildSampleList` of
-- go-mp4/mp4demuxer.go gives back.
pub mod Samples
pub mod Places
use gomediautils.Prelude.{
  ℕ, zero, suc, ◌+◌, ◌-◌, ◌%◌, ◌^◌, List, [], ◌∷◌, ◌++◌, Bool, leb, ◌==◌, if◌then◌else◌, length,
  replicate, Option, none, some,
}
use gomediautils.Mp4.Tables.Chunk.{StscEntry, Movstsc, Movstco}
use gomediautils.Mp4.Times.{put_last}

pub record Movchunk : Type 0 where
  pub chunknum : ℕ
  pub samplenum : ℕ
  pub chunkoffset : ℕ

-- Of a sample, its place.
pub record Place : Type 0 where
  pub offset : ℕ
  pub size : ℕ

-- `samplelist[i-1].offset+samplelist[i-1].size`
abbrev pub place_end : Place → ℕ
place_end s = (s.offset + s.size) % 2 ^ 64

-- The chunk of a sample: the last one, if the sample is behind the one before it, or a new one.
unfoldable pub put_chunk : Bool → Place → List Movchunk → List Movchunk
put_chunk behind s chunks =
    put_last (λ _. behind) (λ c. record c { samplenum = (c.samplenum + 1) % 2 ^ 32 })
      (record { chunknum = length chunks % 2 ^ 32; samplenum = 1; chunkoffset = s.offset }) chunks

-- The rounds behind the first, from the sample before on.
unfoldable pub chunk_rounds : Place → List Movchunk → List Place → List Movchunk
chunk_rounds before chunks [] = chunks
chunk_rounds before chunks (s ∷ ss) =
    chunk_rounds s (put_chunk (s.offset == place_end before) s chunks) ss

unfoldable pub make_chunks : List Place → List Movchunk
unfolding chunk_rounds
make_chunks [] = []
make_chunks (s ∷ ss) =
    chunk_rounds s (record { chunknum = 0; samplenum = 1; chunkoffset = s.offset } ∷ []) ss

-- The entries of stsc behind a chunk of `before` samples.
unfoldable pub stsc_entries : ℕ → List Movchunk → List StscEntry
stsc_entries before [] = []
stsc_entries before (c ∷ cs) =
    let rest = stsc_entries c.samplenum cs in
    if c.samplenum == before
    then rest
    else record {
      first_chunk = (c.chunknum + 1) % 2 ^ 32;
      samples_per_chunk = c.samplenum;
      sample_description_index = 1;
    }
      ∷ rest

-- All entries: one for the first chunk, and the table with room for one per chunk.
unfoldable pub stsc_table : List Movchunk → Movstsc
unfolding stsc_entries
stsc_table [] = record { entry_count = 0; entrys = [] }
stsc_table (c ∷ cs) =
    let es =
      record {
        first_chunk = (c.chunknum + 1) % 2 ^ 32;
        samples_per_chunk = c.samplenum;
        sample_description_index = 1;
      }
      ∷ stsc_entries c.samplenum cs in
    record {
      entry_count = length es;
      entrys =
          es
          ++ replicate (suc (length cs) - length es)
              (record { first_chunk = 0; samples_per_chunk = 0; sample_description_index = 0 });
    }

unfoldable pub offsets_of : List Movchunk → List ℕ
offsets_of [] = []
offsets_of (c ∷ cs) = c.chunkoffset ∷ offsets_of cs

-- `ckn` counts the chunks, as a uint32 of which there are fewer than 2 ^ 32.
unfoldable pub stco_table : List Movchunk → Movstco
unfolding offsets_of
stco_table chunks = record { entry_count = length chunks; chunk_offsetlist = offsets_of chunks }

-- The inner loop over the entries of stsc, at the entry `e` with those behind it.
unfoldable pub advance : ℕ → StscEntry → List StscEntry → StscEntry × List StscEntry
advance chunknum e [] = (e, [])
advance chunknum e (f ∷ es) =
    let next = advance chunknum f es in if leb f.first_chunk chunknum then next else (e, f ∷ es)

-- The chunks of these offsets, from the index `i` on.
unfoldable pub read_chunks : ℕ → StscEntry → List StscEntry → List ℕ → List Movchunk
read_chunks i e es [] = []
read_chunks i e es (offset ∷ offsets) =
    let chunknum : ℕ = (i + 1) % 2 ^ 32 in
    let (e', es') = advance chunknum e es in
    record { chunknum = chunknum; samplenum = e'.samples_per_chunk; chunkoffset = offset }
    ∷ read_chunks (suc i) e' es' offsets

-- The chunks of a track; none for the error that an empty stsc is refused with.
abbrev pub chunks_from : List StscEntry → List ℕ → Option (List Movchunk)
chunks_from [] offsets = none
chunks_from (e ∷ es) offsets = some (read_chunks 0 e es offsets)

unfoldable pub track_chunks : Movstsc → Movstco → Option (List Movchunk)
track_chunks stsc stco =
    if stsc.entry_count == 0 then none else chunks_from stsc.entrys stco.chunk_offsetlist

-- The offsets of samples of these sizes in a chunk of `n` more samples, the next of which is at `at`:
-- with the sizes of the samples that are left.
unfoldable pub chunk_places : ℕ → ℕ → List ℕ → List ℕ × List ℕ
chunk_places n at [] = ([], [])
chunk_places zero at (z ∷ sizes) = ([], z ∷ sizes)
chunk_places (suc n) at (z ∷ sizes) =
    let rest = chunk_places n ((at + z) % 2 ^ 64) sizes in (at ∷ rest.0, rest.1)

-- The loop over the chunks; a sample that they do not cover stays at 0.
unfoldable pub sample_offsets : List Movchunk → List ℕ → List ℕ
sample_offsets [] sizes = replicate (length sizes) 0
sample_offsets (c ∷ cs) sizes =
    let run = chunk_places c.samplenum c.chunkoffset sizes in run.0 ++ sample_offsets cs run.1

-- The offsets of the samples of these sizes, from the tables of a track.
unfoldable pub track_offsets : Movstsc → Movstco → List ℕ → Option (List ℕ)
track_offsets stsc stco sizes = elim (track_chunks stsc stco) [
  | none ↦ none
  | some cs ↦ some (sample_offsets cs sizes)
]
