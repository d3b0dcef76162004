-- ===== src/Mp4/Chunks/Samples.antt =====
-- The chunks that are written as stsc and stco are the chunks that are read.
use gomediautils.Prelude.{
  ℕ, suc, ◌+◌, ◌%◌, ◌^◌, ◌≤◌, ◌<◌, ◌≡◌, refl, sym, ap, ◌∙◌, arith, List, [], ◌∷◌, Bool, true, false,
  leb, ◌==◌, le→leb, lt→leb, ==→eq, length, Bool-cases, inl, inr, take_append, eq→==, ne→==, some,
}
use gomediautils.Mp4.Tables.Chunk.{StscEntry}
use gomediautils.Mp4.Times.{put_last}
use gomediautils.Mp4.Times.Runs.{length-put_last}
use gomediautils.Mp4.Chunks.{
  Movchunk, Place, place_end, put_chunk, chunk_rounds, make_chunks, stsc_entries, stsc_table,
  offsets_of, stco_table, advance, read_chunks, chunks_from, track_chunks,
}
use gomediautils.Mp4.Tables.Counted.{counted_stsc}

-- The chunks are numbered from `i` on.
unfoldable pub Numbered : ℕ → List Movchunk → Type 0
Numbered i [] = Unit {0}
Numbered i (c ∷ cs) = (c.chunknum ≡ i) × Numbered (suc i) cs

-- The chunks with the numbers of a reader, which counts from 1.
abbrev pub from_one : List Movchunk → List Movchunk
from_one [] = []
from_one (c ∷ cs) = record c { chunknum = c.chunknum + 1 } ∷ from_one cs

-- Entries of chunks behind the one with this number are not reached by it.
advance-stays :
    (i j before : ℕ) (e : StscEntry) (cs : List Movchunk)
    → Numbered j cs
    → i ≤ j
    → j + length cs < 2 ^ 32
    → advance i e (stsc_entries before cs) ≡ (e, stsc_entries before cs)
unfolding advance stsc_entries Numbered
advance-stays i j before e [] n l b = refl
advance-stays i j before e (c ∷ cs) (n, ns) l b = elim (Bool-cases (c.samplenum == before)) [
  | inl s ↦ rw s (advance-stays i (suc j) c.samplenum e cs ns (omega arith) (omega arith))
  | inr s ↦
      let g : leb ((c.chunknum + 1) % 2 ^ 32) i ≡ false = lt→leb _ _ (omega arith) in
      rw (s, advance, g)
]

read_chunks-step :
    (i offset : ℕ) (e e' : StscEntry) (es es' : List StscEntry) (offsets : List ℕ)
    → advance ((i + 1) % 2 ^ 32) e es ≡ (e', es')
    → read_chunks i e es (offset ∷ offsets)
      ≡ record {
        chunknum = (i + 1) % 2 ^ 32;
        samplenum = e'.samples_per_chunk;
        chunkoffset = offset;
      }
        ∷ read_chunks (suc i) e' es' offsets
unfolding read_chunks
read_chunks-step i offset e e' es es' offsets h =
    let chunks : StscEntry × List StscEntry → List Movchunk = λ r.
      record {
        chunknum = (i + 1) % 2 ^ 32;
        samplenum = r.0.samples_per_chunk;
        chunkoffset = offset;
      }
      ∷ read_chunks (suc i) r.0 r.1 offsets in
    ap chunks h

read_chunks-stsc_entries :
    (i : ℕ) (e : StscEntry) (cs : List Movchunk)
    → Numbered i cs
    → i + length cs < 2 ^ 32
    → read_chunks i e (stsc_entries e.samples_per_chunk cs) (offsets_of cs) ≡ from_one cs
unfolding stsc_entries offsets_of Numbered
read_chunks-stsc_entries i e [] n b = unfold read_chunks in refl
read_chunks-stsc_entries i e (c ∷ cs) (n, ns) b =
    let k : (i + 1) % 2 ^ 32 ≡ c.chunknum + 1 = omega arith in
    elim (Bool-cases (c.samplenum == e.samples_per_chunk)) [
      | inl s ↦
          let q : c.samplenum ≡ e.samples_per_chunk = ==→eq _ _ s in
          let a =
            advance-stays ((i + 1) % 2 ^ 32) (suc i) c.samplenum e cs ns (omega arith)
              (omega arith) in
          let t =
            ap (λ (x : ℕ). read_chunks (suc i) e (stsc_entries x cs) (offsets_of cs)) q
            ∙ read_chunks-stsc_entries (suc i) e cs ns (omega arith) in
          rw s (
            read_chunks-step i c.chunkoffset e e _ _ (offsets_of cs) a ∙ (λ j.
              record { chunknum = k j; samplenum = (sym q) j; chunkoffset = c.chunkoffset } ∷ t j))
      | inr s ↦
          let new : StscEntry = record {
            first_chunk = (c.chunknum + 1) % 2 ^ 32;
            samples_per_chunk = c.samplenum;
            sample_description_index = 1;
          } in
          let g : leb ((c.chunknum + 1) % 2 ^ 32) ((i + 1) % 2 ^ 32) ≡ true =
            le→leb _ _ (omega arith) in
          let a =
            advance-stays ((i + 1) % 2 ^ 32) (suc i) c.samplenum new cs ns (omega arith)
              (omega arith) in
          let a' : advance ((i + 1) % 2 ^ 32) e (new ∷ stsc_entries c.samplenum cs)
              ≡ (new, stsc_entries c.samplenum cs) =
            unfold advance in rw (advance, g) a in
          let t = read_chunks-stsc_entries (suc i) new cs ns (omega arith) in
          rw s (
            read_chunks-step i c.chunkoffset e new _ _ (offsets_of cs) a' ∙ (λ j.
              record { chunknum = k j; samplenum = c.samplenum; chunkoffset = c.chunkoffset }
              ∷ t j))
    ]

same_again :
    (c : Movchunk) (cs : List Movchunk)
    → stsc_entries c.samplenum (c ∷ cs) ≡ stsc_entries c.samplenum cs
unfolding stsc_entries
same_again c cs = rw (eq→== c.samplenum c.samplenum refl)

track_chunks-stsc_table :
    (c : Movchunk) (cs : List Movchunk)
    → Numbered 0 (c ∷ cs)
    → length (c ∷ cs) < 2 ^ 32
    → track_chunks (counted_stsc (stsc_table (c ∷ cs))) (stco_table (c ∷ cs))
      ≡ some (from_one (c ∷ cs))
unfolding stsc_table stco_table track_chunks counted_stsc
track_chunks-stsc_table c cs n b =
    let e : StscEntry = record {
      first_chunk = (c.chunknum + 1) % 2 ^ 32;
      samples_per_chunk = c.samplenum;
      sample_description_index = 1;
    } in
    let es = stsc_entries c.samplenum cs in
    let z : (length (e ∷ es) == 0) ≡ false = ne→== _ 0 (λ q. absurd (omega arith)) in
    rw z (
      ap (λ (x : List StscEntry). chunks_from x (offsets_of (c ∷ cs)))
        (take_append (e ∷ es) _ (length (e ∷ es)) refl)
      ∙ ap (λ (x : List StscEntry). some (read_chunks 0 e x (offsets_of (c ∷ cs))))
          (sym (same_again c cs))
      ∙ ap some (read_chunks-stsc_entries 0 e (c ∷ cs) n (omega arith)))

Numbered-put_last :
    (same : Movchunk → Bool) (more : Movchunk → Movchunk) (new : Movchunk)
    → ((c : Movchunk) → (more c).chunknum ≡ c.chunknum)
    → (cs : List Movchunk) (i : ℕ) → new.chunknum ≡ i + length cs
    → Numbered i cs
    → Numbered i (put_last same more new cs)
unfolding Numbered put_last
Numbered-put_last same more new k [] i e n = (omega arith, tt)
Numbered-put_last same more new k (c ∷ []) i e (n, ns) = elim (Bool-cases (same c)) [
  | inl s ↦ rw (put_last, s) (k c ∙ n, tt)
  | inr s ↦ rw (put_last, s) (n, (omega arith, tt))
]
Numbered-put_last same more new k (c ∷ d ∷ cs) i e (n, ns) =
    (n, Numbered-put_last same more new k (d ∷ cs) (suc i) (omega arith) ns)

length-put_chunk :
    (behind : Bool) (s : Place) (cs : List Movchunk)
    → (0 < length (put_chunk behind s cs)) × (length (put_chunk behind s cs) ≤ suc (length cs))
unfolding put_chunk
length-put_chunk behind s cs = length-put_last _ _ _ cs

Numbered-chunk_rounds :
    (ss : List Place) (before : Place) (cs : List Movchunk)
    → Numbered 0 cs
    → length cs + length ss < 2 ^ 32
    → 0 < length cs
    → Numbered 0 (chunk_rounds before cs ss)
      × ((0 < length (chunk_rounds before cs ss)) × (length (chunk_rounds before cs ss) < 2 ^ 32))
unfolding chunk_rounds
Numbered-chunk_rounds [] before cs n b p = (n, (p, omega arith))
Numbered-chunk_rounds (s ∷ ss) before cs n b p =
    let l = length-put_chunk (s.offset == place_end before) s cs in
    Numbered-chunk_rounds ss s _
      (unfold put_chunk in Numbered-put_last _ _ _ (λ c. refl) cs 0 (omega arith) n)
      (omega (arith, l.1)) l.0

some_chunks :
    (cs : List Movchunk)
    → Numbered 0 cs
    → 0 < length cs
    → length cs < 2 ^ 32
    → track_chunks (counted_stsc (stsc_table cs)) (stco_table cs) ≡ some (from_one cs)
some_chunks [] n p b = absurd (omega arith)
some_chunks (c ∷ cs) n p b = track_chunks-stsc_table c cs n b

-- The chunks that are made of the places of samples, of which there are one at least and fewer than
-- 2 ^ 32, are read back from stco and from the entries of stsc that are counted: the same chunks, with
-- their numbers of samples and their offsets, numbered from 1.
pub track_chunks-make_chunks :
    (s : Place) (ss : List Place)
    → length (s ∷ ss) < 2 ^ 32
    → let cs = make_chunks (s ∷ ss) in
      track_chunks (counted_stsc (stsc_table cs)) (stco_table cs) ≡ some (from_one cs)
unfolding make_chunks
track_chunks-make_chunks s ss b =
    let first : Movchunk = record { chunknum = 0; samplenum = 1; chunkoffset = s.offset } in
    let r =
      Numbered-chunk_rounds ss s (first ∷ []) (unfold Numbered in (refl, tt)) (omega arith)
        (omega arith) in
    some_chunks _ r.0 r.1.0 r.1.1
