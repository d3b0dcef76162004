-- ===== src/Mp4/Chunks/Places.antt =====
-- The places of samples are those that the chunks made of them give.
use gomediautils.Prelude.{
  ℕ, suc, ◌+◌, ◌%◌, ◌^◌, ◌<◌, ◌≡◌, refl, sym, ap, ◌∙◌, arith, List, [], ◌∷◌, ◌++◌, append-nil,
  append_assoc, Bool, true, false, ◌==◌, ==→eq, if◌then◌else◌, length, length-append, Bool-cases,
  inl, inr, some,
}
use gomediautils.Mp4.Times.{put_last}
use gomediautils.Mp4.Chunks.{
  Movchunk, Place, place_end, put_chunk, chunk_rounds, make_chunks, chunk_places, sample_offsets,
  track_offsets, stsc_table, stco_table,
}
use gomediautils.Mp4.Chunks.Samples.{from_one, track_chunks-make_chunks}
use gomediautils.Mp4.Tables.Counted.{counted_stsc}

abbrev pub sizes_of : List Place → List ℕ
sizes_of [] = []
sizes_of (s ∷ ss) = s.size ∷ sizes_of ss

abbrev pub places_of : List Place → List ℕ
places_of [] = []
places_of (s ∷ ss) = s.offset ∷ places_of ss

sizes_of-append : (ss ts : List Place) → sizes_of (ss ++ ts) ≡ sizes_of ss ++ sizes_of ts
sizes_of-append [] ts = refl
sizes_of-append (s ∷ ss) ts = ap (λ (x : List ℕ). s.size ∷ x) (sizes_of-append ss ts)

places_of-append : (ss ts : List Place) → places_of (ss ++ ts) ≡ places_of ss ++ places_of ts
places_of-append [] ts = refl
places_of-append (s ∷ ss) ts = ap (λ (x : List ℕ). s.offset ∷ x) (places_of-append ss ts)

put_last-snoc {ℓ} :
    {A : Type ℓ} (same : A → Bool) (more : A → A) (new : A) (init : List A) (c : A)
    → put_last same more new (init ++ (c ∷ []))
      ≡ init ++ (if same c then more c ∷ [] else c ∷ new ∷ [])
unfolding put_last
put_last-snoc same more new [] c = refl
put_last-snoc same more new (a ∷ []) c = refl
put_last-snoc {A = A} same more new (a ∷ b ∷ init) c =
    ap (λ (x : List A). a ∷ x) (put_last-snoc same more new (b ∷ init) c)

-- Samples that stand one behind the other from a place on, and where they end.
Contiguous : ℕ → List Place → Type 0
Contiguous at [] = Unit {0}
Contiguous at (s ∷ ss) = (s.offset ≡ at) × Contiguous ((at + s.size) % 2 ^ 64) ss

end_of : ℕ → List Place → ℕ
end_of at [] = at
end_of at (s ∷ ss) = end_of ((at + s.size) % 2 ^ 64) ss

Contiguous-snoc :
    (run : List Place) (at : ℕ) (s : Place)
    → Contiguous at run
    → s.offset ≡ end_of at run
    → Contiguous at (run ++ (s ∷ []))
unfolding Contiguous end_of
Contiguous-snoc [] at s h e = (e, tt)
Contiguous-snoc (r ∷ run) at s (h, hs) e = (h, Contiguous-snoc run ((at + r.size) % 2 ^ 64) s hs e)

end_of-snoc :
    (run : List Place) (at : ℕ) (s : Place)
    → end_of at (run ++ (s ∷ [])) ≡ (end_of at run + s.size) % 2 ^ 64
unfolding end_of
end_of-snoc [] at s = refl
end_of-snoc (r ∷ run) at s = end_of-snoc run ((at + r.size) % 2 ^ 64) s

chunk_places_lem :
    (run : List Place) (at : ℕ) (rest : List ℕ)
    → Contiguous at run
    → chunk_places (length run) at (sizes_of run ++ rest) ≡ (places_of run, rest)
unfolding chunk_places Contiguous
chunk_places_lem [] at [] h = refl
chunk_places_lem [] at (z ∷ rest) h = refl
chunk_places_lem (s ∷ run) at rest (h, hs) =
    let r = chunk_places_lem run ((at + s.size) % 2 ^ 64) rest hs in
    λ i. (sym h i ∷ (r i).0, (r i).1)

-- The chunks give these samples their places, whatever chunks and sizes follow.
Covers : List Movchunk → List Place → Type 0
Covers chunks ss =
    (cs : List Movchunk) (rest : List ℕ)
    → sample_offsets (chunks ++ cs) (sizes_of ss ++ rest) ≡ places_of ss ++ sample_offsets cs rest

Covers-snoc :
    (init : List Movchunk) (c : Movchunk) (ss run : List Place)
    → Covers init ss
    → Contiguous c.chunkoffset run
    → c.samplenum ≡ length run
    → Covers (init ++ (c ∷ [])) (ss ++ run)
unfolding Covers sample_offsets
Covers-snoc init c ss run v h n cs rest =
    let sizes : sizes_of (ss ++ run) ++ rest ≡ sizes_of ss ++ (sizes_of run ++ rest) =
      ap (λ (x : List ℕ). x ++ rest) (sizes_of-append ss run)
      ∙ append_assoc (sizes_of ss) (sizes_of run) rest in
    let p : chunk_places c.samplenum c.chunkoffset (sizes_of run ++ rest) ≡ (places_of run, rest) =
      ap (λ (k : ℕ). chunk_places k c.chunkoffset (sizes_of run ++ rest)) n
      ∙ chunk_places_lem run c.chunkoffset rest h in
    ap (λ (x : List Movchunk). sample_offsets x (sizes_of (ss ++ run) ++ rest))
      (append_assoc init (c ∷ []) cs)
    ∙ ap (λ (x : List ℕ). sample_offsets (init ++ (c ∷ cs)) x) sizes
    ∙ v (c ∷ cs) (sizes_of run ++ rest)
    ∙ ap (λ (r : List ℕ × List ℕ). places_of ss ++ (r.0 ++ sample_offsets cs r.1)) p
    ∙ sym (append_assoc (places_of ss) (places_of run) (sample_offsets cs rest))
    ∙ ap (λ (x : List ℕ). x ++ sample_offsets cs rest) (sym (places_of-append ss run))

-- The last chunk holds the samples of `run`, and the chunks before it give the samples before those.
record Amid (init : List Movchunk) (c : Movchunk) (ss run : List Place) (before : Place)
    : Type 0 where
  covered : Covers init ss
  contiguous : Contiguous c.chunkoffset run
  counted : c.samplenum ≡ length run
  ended : end_of c.chunkoffset run ≡ place_end before

put_chunk-behind :
    (s : Place) (init : List Movchunk) (c : Movchunk)
    → put_chunk true s (init ++ (c ∷ []))
      ≡ init ++ (record c { samplenum = (c.samplenum + 1) % 2 ^ 32 } ∷ [])
unfolding put_chunk
put_chunk-behind s init c = put_last-snoc _ _ _ init c

Amid-behind :
    (init : List Movchunk) (c : Movchunk) (ss run : List Place) (before s : Place)
    → Amid init c ss run before
    → s.offset ≡ place_end before
    → suc (length run) < 2 ^ 32
    → Amid init (record c { samplenum = (c.samplenum + 1) % 2 ^ 32 }) ss (run ++ (s ∷ [])) s
Amid-behind init c ss run before s a e b =
    let n = a.counted in
    record {
      covered = a.covered;
      contiguous = Contiguous-snoc run c.chunkoffset s a.contiguous (e ∙ sym a.ended);
      counted = omega (arith, length-append run (s ∷ []));
      ended =
          end_of-snoc run c.chunkoffset s ∙ ap (λ (x : ℕ). (x + s.size) % 2 ^ 64) (a.ended ∙ sym e);
    }

Amid-new :
    (init : List Movchunk) (c new : Movchunk) (ss run : List Place) (before s : Place)
    → Amid init c ss run before
    → new.chunkoffset ≡ s.offset
    → new.samplenum ≡ 1
    → Amid (init ++ (c ∷ [])) new (ss ++ run) (s ∷ []) s
unfolding Contiguous end_of
Amid-new init c new ss run before s a e n = record {
  covered = Covers-snoc init c ss run a.covered a.contiguous a.counted;
  contiguous = (sym e, tt);
  counted = n;
  ended = ap (λ (x : ℕ). (x + s.size) % 2 ^ 64) e;
}

put_chunk-new :
    (s : Place) (init : List Movchunk) (c : Movchunk)
    → put_chunk false s (init ++ (c ∷ []))
      ≡ (init ++ (c ∷ []))
        ++ (record {
          chunknum = length (init ++ (c ∷ [])) % 2 ^ 32;
          samplenum = 1;
          chunkoffset = s.offset;
        }
            ∷ [])
unfolding put_chunk
put_chunk-new s init c = put_last-snoc _ _ _ init c ∙ sym (append_assoc init (c ∷ []) _)

placed_all :
    (init : List Movchunk) (c : Movchunk) (ss run : List Place) (before : Place)
    → Amid init c ss run before
    → sample_offsets (init ++ (c ∷ [])) (sizes_of ((ss ++ run) ++ []))
      ≡ places_of ((ss ++ run) ++ [])
unfolding sample_offsets Covers
placed_all init c ss run before a =
    let w = append-nil (ss ++ run) in
    let k = Covers-snoc init c ss run a.covered a.contiguous a.counted [] [] in
    ap (λ (x : List Place). sample_offsets (init ++ (c ∷ [])) (sizes_of x)) w
    ∙ (λ i.
        sample_offsets (sym (append-nil (init ++ (c ∷ []))) i)
          (sym (append-nil (sizes_of (ss ++ run))) i))
    ∙ k
    ∙ append-nil (places_of (ss ++ run))
    ∙ ap places_of (sym w)

placed_rounds :
    (more : List Place) (before : Place) (init : List Movchunk) (c : Movchunk)
    → (ss run : List Place) → Amid init c ss run before
    → length run + length more < 2 ^ 32
    → sample_offsets (chunk_rounds before (init ++ (c ∷ [])) more) (sizes_of ((ss ++ run) ++ more))
      ≡ places_of ((ss ++ run) ++ more)
unfolding chunk_rounds
placed_rounds [] before init c ss run a b = placed_all init c ss run before a
placed_rounds (s ∷ more) before init c ss run a b =
    let all : List Place = (ss ++ run) ++ (s ∷ more) in
    let offsets : List Movchunk → List Place → List ℕ =
      λ cs ps. sample_offsets (chunk_rounds s cs more) (sizes_of ps) in
    elim (Bool-cases (s.offset == place_end before)) [
      | inl e ↦
          let w : all ≡ (ss ++ (run ++ (s ∷ []))) ++ more =
            sym (append_assoc (ss ++ run) (s ∷ []) more)
            ∙ ap (λ (x : List Place). x ++ more) (append_assoc ss run (s ∷ [])) in
          let c' : Movchunk = record c { samplenum = (c.samplenum + 1) % 2 ^ 32 } in
          let ih =
            placed_rounds more s init c' ss (run ++ (s ∷ []))
              (Amid-behind init c ss run before s a (==→eq _ _ e) (omega arith))
              (omega (arith, length-append run (s ∷ []))) in
          ap (λ (x : Bool). offsets (put_chunk x s (init ++ (c ∷ []))) all) e
          ∙ ap (λ (x : List Movchunk). offsets x all) (put_chunk-behind s init c)
          ∙ ap (λ (x : List Place). offsets (init ++ (c' ∷ [])) x) w
          ∙ ih
          ∙ ap places_of (sym w)
      | inr e ↦
          let new : Movchunk = record {
            chunknum = length (init ++ (c ∷ [])) % 2 ^ 32;
            samplenum = 1;
            chunkoffset = s.offset;
          } in
          let w : all ≡ ((ss ++ run) ++ (s ∷ [])) ++ more =
            sym (append_assoc (ss ++ run) (s ∷ []) more) in
          let ih =
            placed_rounds more s (init ++ (c ∷ [])) new (ss ++ run) (s ∷ [])
              (Amid-new init c new ss run before s a refl refl) (omega arith) in
          ap (λ (x : Bool). offsets (put_chunk x s (init ++ (c ∷ []))) all) e
          ∙ ap (λ (x : List Movchunk). offsets x all) (put_chunk-new s init c)
          ∙ ap (λ (x : List Place). offsets ((init ++ (c ∷ [])) ++ (new ∷ [])) x) w
          ∙ ih
          ∙ ap places_of (sym w)
    ]

sample_offsets-make_chunks :
    (ss : List Place)
    → length ss < 2 ^ 32
    → sample_offsets (make_chunks ss) (sizes_of ss) ≡ places_of ss
unfolding make_chunks
sample_offsets-make_chunks [] b = unfold sample_offsets in refl
sample_offsets-make_chunks (s ∷ ss) b =
    placed_rounds ss s [] (record { chunknum = 0; samplenum = 1; chunkoffset = s.offset }) []
      (s ∷ [])
      (record {
        covered = unfold Covers in λ cs rest. refl;
        contiguous = unfold Contiguous in (refl, tt);
        counted = refl;
        ended = unfold end_of in refl;
      })
      (omega arith)

sample_offsets-from_one :
    (cs : List Movchunk) (sizes : List ℕ)
    → sample_offsets (from_one cs) sizes ≡ sample_offsets cs sizes
unfolding sample_offsets
sample_offsets-from_one [] sizes = refl
sample_offsets-from_one (c ∷ cs) sizes =
    let run = chunk_places c.samplenum c.chunkoffset sizes in
    ap (λ (x : List ℕ). run.0 ++ x) (sample_offsets-from_one cs run.1)

-- The offsets of samples, one at least and fewer than 2 ^ 32, are read back from the sizes, from stco and
-- from the entries of stsc that are counted, which are made of the chunks that the samples form.
pub track_offsets-make_chunks :
    (s : Place) (ss : List Place)
    → length (s ∷ ss) < 2 ^ 32
    → let cs = make_chunks (s ∷ ss) in
      track_offsets (counted_stsc (stsc_table cs)) (stco_table cs) (sizes_of (s ∷ ss))
      ≡ some (places_of (s ∷ ss))
unfolding track_offsets
track_offsets-make_chunks s ss b =
    let cs = make_chunks (s ∷ ss) in
    let sizes = sizes_of (s ∷ ss) in
    rw (track_offsets, track_chunks-make_chunks s ss b)
      (ap some (sample_offsets-from_one cs sizes ∙ sample_offsets-make_chunks (s ∷ ss) b))
