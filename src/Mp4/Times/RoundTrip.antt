-- ===== src/Mp4/Times/RoundTrip.antt =====
-- The decode times that are written as runs are the times that are read.
use gomediautils.Prelude.{
  ℕ, zero, suc, ◌+◌, ◌-◌, ◌%◌, ◌^◌, ◌≤◌, ◌<◌, ◌≡◌, refl, sym, ap, ◌∙◌, arith, List, [], ◌∷◌, ◌++◌,
  append_assoc, ◌==◌, le→leb, ==→eq, length, length-append, length-replicate, replicate,
}
use gomediautils.Mp4.Tables.Time.{SttsEntry}
use gomediautils.Mp4.Times.Runs.{covers, covers-put_last, one_more}
use gomediautils.Mp4.Times.{
  delta_of, put_delta, stts_rounds, last_sample_delta, stts_table, run_entry, run_entries,
  decode_times, ElstEntry, start_time,
}
use mathlib.Core.Option.{Option, map}
use mathlib.Core.Path.{fun_ext}

-- The delta of each sample that the entries cover.
deltas_of : List SttsEntry → List ℕ
deltas_of [] = []
deltas_of (e ∷ es) = replicate e.sample_count e.sample_delta ++ deltas_of es

-- The times of `left` samples behind one at `dts`, by their deltas.
times_by : ℕ → ℕ → List ℕ → List ℕ
times_by zero dts deltas = []
times_by (suc left) dts [] = replicate (suc left) 0
times_by (suc left) dts (delta ∷ deltas) =
    (delta + dts) % 2 ^ 64 ∷ times_by left ((delta + dts) % 2 ^ 64) deltas

run_entry-times_by :
    (es : List SttsEntry) (left count delta dts : ℕ)
    → ((left dts : ℕ) → run_entries es left dts ≡ times_by left dts (deltas_of es))
    → (run_entry left count delta dts).times
        ++ run_entries es
            (run_entry left count delta dts).left
            (run_entry left count delta dts).last
      ≡ times_by left dts (replicate count delta ++ deltas_of es)
unfolding run_entry times_by
run_entry-times_by es zero count delta dts h = h zero dts
run_entry-times_by es (suc left) zero delta dts h = h (suc left) dts
run_entry-times_by es (suc left) (suc count) delta dts h =
    ap (λ (x : List ℕ). (delta + dts) % 2 ^ 64 ∷ x)
      (run_entry-times_by es left count delta ((delta + dts) % 2 ^ 64) h)

run_entries-times_by :
    (es : List SttsEntry) (left dts : ℕ)
    → run_entries es left dts ≡ times_by left dts (deltas_of es)
unfolding run_entries deltas_of times_by
run_entries-times_by [] zero dts = refl
run_entries-times_by [] (suc left) dts = refl
run_entries-times_by (e ∷ es) left dts =
    run_entry-times_by es left e.sample_count e.sample_delta dts
      (λ l d. run_entries-times_by es l d)

abbrev run_of : SttsEntry → List ℕ
run_of e = replicate e.sample_count e.sample_delta

deltas_of-covers : (es : List SttsEntry) → deltas_of es ≡ covers run_of es
unfolding deltas_of covers
deltas_of-covers [] = refl
deltas_of-covers (e ∷ es) =
    ap (λ (x : List ℕ). replicate e.sample_count e.sample_delta ++ x) (deltas_of-covers es)

deltas_of-put_delta :
    (delta : ℕ) (es : List SttsEntry)
    → delta < 2 ^ 32
    → suc (length (deltas_of es)) < 2 ^ 32
    → deltas_of (put_delta delta es) ≡ deltas_of es ++ (delta ∷ [])
unfolding put_delta
deltas_of-put_delta delta es h k =
    let m : delta % 2 ^ 32 ≡ delta = omega arith in
    let c = deltas_of-covers es in
    let l : length (deltas_of es) ≡ length (covers run_of es) = ap (λ (x : List ℕ). length x) c in
    deltas_of-covers (put_delta delta es)
    ∙ covers-put_last run_of (λ e. delta == e.sample_delta)
        (λ e. record e { sample_count = (e.sample_count + 1) % 2 ^ 32 })
        (record { sample_count = 1; sample_delta = delta % 2 ^ 32 }) delta
        (ap (λ (x : ℕ). x ∷ []) m)
        (λ e s b.
          one_more e.sample_count e.sample_delta delta (==→eq _ _ s)
            (omega (arith, length-replicate e.sample_count e.sample_delta)))
        es (omega arith)
    ∙ ap (λ (x : List ℕ). x ++ (delta ∷ [])) (sym c)

-- The deltas between times.
steps : List ℕ → List ℕ
steps [] = []
steps (dts ∷ []) = []
steps (dts ∷ next ∷ times) = delta_of dts next ∷ steps (next ∷ times)

-- No time goes back, none is a word of 32 bits or more behind the one before, and all are words of 64.
unfoldable pub Ascending : List ℕ → Type 0
Ascending [] = Unit {0}
Ascending (dts ∷ []) = Unit {0}
Ascending (dts ∷ next ∷ times) =
    (dts ≤ next) × ((next < dts + 2 ^ 32) × ((next < 2 ^ 64) × Ascending (next ∷ times)))

deltas_of-append : (es fs : List SttsEntry) → deltas_of (es ++ fs) ≡ deltas_of es ++ deltas_of fs
unfolding deltas_of
deltas_of-append [] fs = refl
deltas_of-append (e ∷ es) fs =
    let one = replicate e.sample_count e.sample_delta in
    ap (λ (x : List ℕ). one ++ x) (deltas_of-append es fs)
    ∙ sym (append_assoc one (deltas_of es) (deltas_of fs))

deltas_of-last :
    (es : List SttsEntry) (last : ℕ)
    → deltas_of (es ++ (record { sample_count = 1; sample_delta = last } ∷ []))
      ≡ deltas_of es ++ (last ∷ [])
unfolding deltas_of
deltas_of-last es last = deltas_of-append es (record { sample_count = 1; sample_delta = last } ∷ [])

delta_of_lem : (dts next : ℕ) → dts ≤ next → delta_of dts next ≡ next - dts
delta_of_lem dts next h = rw (le→leb dts next h)

deltas_of-stts_rounds :
    (last : ℕ) (es : List SttsEntry) (dts : ℕ) (times : List ℕ)
    → Ascending (dts ∷ times)
    → length (deltas_of es) + length times < 2 ^ 32
    → deltas_of (stts_rounds last es (dts ∷ times))
      ≡ deltas_of es ++ (steps (dts ∷ times) ++ (last ∷ []))
unfolding stts_rounds steps Ascending
deltas_of-stts_rounds last es dts [] a h = deltas_of-last es last
deltas_of-stts_rounds last es dts (next ∷ times) (le, (small, (word, a))) h =
    let delta = delta_of dts next in
    let d : delta < 2 ^ 32 = omega (arith, delta_of_lem dts next le) in
    let p = deltas_of-put_delta delta es d (omega arith) in
    let l : length (deltas_of (put_delta delta es)) ≡ length (deltas_of es) + 1 =
      ap (λ (x : List ℕ). length x) p ∙ length-append (deltas_of es) (delta ∷ []) in
    deltas_of-stts_rounds last (put_delta delta es) next times a (omega arith)
    ∙ ap (λ (x : List ℕ). x ++ (steps (next ∷ times) ++ (last ∷ []))) p
    ∙ append_assoc (deltas_of es) (delta ∷ []) (steps (next ∷ times) ++ (last ∷ []))

-- Times, of which `first` is put to `start`.
unfoldable pub times_from : ℕ → ℕ → List ℕ → List ℕ
times_from start first [] = []
times_from start first (dts ∷ times) =
    (start + (dts - first)) % 2 ^ 64 ∷ times_from start first times

times_by-steps :
    (start first at dts : ℕ) (times rest : List ℕ)
    → Ascending (dts ∷ times)
    → first ≤ dts
    → at % 2 ^ 64 ≡ (start + (dts - first)) % 2 ^ 64
    → times_by (length times) at (steps (dts ∷ times) ++ rest) ≡ times_from start first times
unfolding times_by steps Ascending times_from
times_by-steps start first at dts [] rest a f e = refl
times_by-steps start first at dts (next ∷ times) rest (le, (small, (word, a))) f e =
    let n : (delta_of dts next + at) % 2 ^ 64 ≡ (start + (next - first)) % 2 ^ 64 =
      omega (arith, delta_of_lem dts next le) in
    rw n (
      ap (λ (x : List ℕ). (start + (next - first)) % 2 ^ 64 ∷ x)
        (times_by-steps start first ((start + (next - first)) % 2 ^ 64) next times rest a
          (omega arith) (omega arith)))

-- Times of samples of which none goes back, fewer than 2 ^ 32, each less than 2 ^ 32 behind the one
-- before and less than 2 ^ 64, are read back from the runs that they are written as, with the first
-- put to the start of the track and the others as far behind it as they were, modulo 2 ^ 64: the
-- start is 0, or what the last empty edit of the edit list says, and its error is given on.
pub decode_times-stts_table :
    (movie track : ℕ) (elst : Option (List ElstEntry)) (first : ℕ) (times : List ℕ)
    → Ascending (first ∷ times)
    → length (first ∷ times) < 2 ^ 32
    → decode_times (length (first ∷ times)) movie track elst (stts_table (first ∷ times))
      ≡ map (λ start. start ∷ times_from start first times) (start_time movie track elst)
unfolding decode_times stts_table
decode_times-stts_table movie track elst first times a h =
    let last = last_sample_delta (first ∷ times) in
    let es = stts_rounds last [] (first ∷ times) in
    let d : deltas_of es ≡ steps (first ∷ times) ++ (last ∷ []) =
      unfold deltas_of in deltas_of-stts_rounds last [] first times a (omega arith) in
    let behind = λ (start : ℕ).
      run_entries-times_by es (length times) start
      ∙ ap (λ (x : List ℕ). times_by (length times) start x) d
      ∙ times_by-steps start first start first times (last ∷ []) a (omega arith) (omega arith) in
    ap (λ (f : ℕ → List ℕ). map f (start_time movie track elst))
      (fun_ext (λ start. ap (λ (x : List ℕ). start ∷ x) (behind start)))
