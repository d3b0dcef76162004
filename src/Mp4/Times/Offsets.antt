-- ===== src/Mp4/Times/Offsets.antt =====
-- The presentation times that are written as runs of offsets are the times that are read.
use gomediautils.Prelude.{
  ℕ, zero, suc, ◌+◌, ◌-◌, ◌%◌, ◌^◌, ◌≤◌, ◌<◌, ◌≡◌, ◌⊎◌, refl, sym, ap, ◌∙◌, arith, List, [], ◌∷◌,
  ◌++◌, append-nil, append_assoc, Bool, true, false, ltb, ◌==◌, lt→ltb, le→ltb, leb→lt, ==→eq,
  ne→==, if◌then◌else◌, length, length-append, length-replicate, replicate, Bool-cases, inl, inr,
  All, lt_or_ge,
}
use gomediautils.Prelude.Int.{pos}
use gomediautils.Mp4.Tables.Time.{CttsEntry, entry_offset}
use gomediautils.Mp4.Times.{
  SampleEntry, is_negative, offset_word, put_offset, ctts_rounds, ctts_table, add_offset, pts_entry,
  pts_entries, presentation_times,
}
use gomediautils.Mp4.Times.Runs.{length-put_last, covers, covers-put_last, one_more}

abbrev offset_run : CttsEntry → List ℕ
offset_run e = replicate e.sample_count e.sample_offset

abbrev dts_of : List SampleEntry → List ℕ
dts_of [] = []
dts_of (s ∷ ss) = s.dts ∷ dts_of ss

abbrev pts_of : List SampleEntry → List ℕ
pts_of [] = []
pts_of (s ∷ ss) = s.pts ∷ pts_of ss

abbrev words_of : List SampleEntry → List ℕ
words_of [] = []
words_of (s ∷ ss) = offset_word s ∷ words_of ss

-- Each time with its offset; those without one stay.
by_offsets : ℕ → List ℕ → List ℕ → List ℕ
by_offsets version [] words = []
by_offsets version (t ∷ times) [] = t ∷ times
by_offsets version (t ∷ times) (w ∷ words) =
    add_offset t (entry_offset version w) ∷ by_offsets version times words

pts_entry-by_offsets :
    (version count word : ℕ) (es : List CttsEntry) (times : List ℕ)
    → ((ts : List ℕ) → pts_entries version es ts ≡ by_offsets version ts (covers offset_run es))
    → (pts_entry count (entry_offset version word) times).0
        ++ pts_entries version es (pts_entry count (entry_offset version word) times).1
      ≡ by_offsets version times (replicate count word ++ covers offset_run es)
unfolding pts_entry by_offsets
pts_entry-by_offsets version count word es [] h = h []
pts_entry-by_offsets version zero word es (t ∷ times) h = h (t ∷ times)
pts_entry-by_offsets version (suc count) word es (t ∷ times) h =
    ap (λ (x : List ℕ). add_offset t (entry_offset version word) ∷ x)
      (pts_entry-by_offsets version count word es times h)

pts_entries-by_offsets :
    (version : ℕ) (es : List CttsEntry) (times : List ℕ)
    → pts_entries version es times ≡ by_offsets version times (covers offset_run es)
unfolding pts_entries by_offsets covers
pts_entries-by_offsets version [] [] = refl
pts_entries-by_offsets version [] (t ∷ times) = refl
pts_entries-by_offsets version (e ∷ es) times =
    pts_entry-by_offsets version e.sample_count e.sample_offset es times
      (λ ts. pts_entries-by_offsets version es ts)

covers-put_offset :
    (offset : ℕ) (es : List CttsEntry)
    → suc (length (covers offset_run es)) < 2 ^ 32
    → covers offset_run (put_offset offset es) ≡ covers offset_run es ++ (offset ∷ [])
unfolding put_offset
covers-put_offset offset es b =
    covers-put_last offset_run (λ e. e.sample_offset == offset)
      (λ e. record e { sample_count = (e.sample_count + 1) % 2 ^ 32 })
      (record { sample_count = 1; sample_offset = offset }) offset refl
      (λ e s k.
        one_more e.sample_count e.sample_offset offset (sym (==→eq _ _ s))
          (omega (arith, length-replicate e.sample_count e.sample_offset)))
      es b

covers-ctts_rounds :
    (ss : List SampleEntry) (version : ℕ) (es : List CttsEntry)
    → length (covers offset_run es) + length ss < 2 ^ 32
    → covers offset_run (ctts_rounds version es ss).entrys ≡ covers offset_run es ++ words_of ss
unfolding ctts_rounds
covers-ctts_rounds [] version es b = sym (append-nil (covers offset_run es))
covers-ctts_rounds (s ∷ ss) version es b =
    let p = covers-put_offset (offset_word s) es (omega arith) in
    let l : length (covers offset_run (put_offset (offset_word s) es))
        ≡ length (covers offset_run es) + 1 =
      ap (λ (x : List ℕ). length x) p ∙ length-append (covers offset_run es) (offset_word s ∷ []) in
    covers-ctts_rounds ss _ (put_offset (offset_word s) es) (omega arith)
    ∙ ap (λ (x : List ℕ). x ++ words_of ss) p
    ∙ append_assoc (covers offset_run es) (offset_word s ∷ []) (words_of ss)

-- The times are less than 2 ^ 31 apart, and are not negative as int64.
pub record Near (s : SampleEntry) : Type 0 where
  pub ahead : s.pts < s.dts + 2 ^ 31
  pub behind : s.dts < s.pts + 2 ^ 31
  pub pts_small : s.pts < 2 ^ 63
  pub dts_small : s.dts < 2 ^ 63

one_either_way : (b : Bool) → (let v : ℕ = if b then 1 else 1 in v ≡ 1)
one_either_way true = refl
one_either_way false = refl

stays_one : (ss : List SampleEntry) (es : List CttsEntry) → (ctts_rounds 1 es ss).version ≡ 1
unfolding ctts_rounds
stays_one [] es = refl
stays_one (s ∷ ss) es =
    ap (λ (v : ℕ). (ctts_rounds v (put_offset (offset_word s) es) ss).version)
      (one_either_way (is_negative s))
    ∙ stays_one ss (put_offset (offset_word s) es)

-- The version is 1 as soon as an offset is negative.
versions :
    (ss : List SampleEntry) (version : ℕ) (es : List CttsEntry)
    → ((ctts_rounds version es ss).version ≡ 1)
      ⊎ (((ctts_rounds version es ss).version ≡ version) × All (λ s. is_negative s ≡ false) ss)
unfolding ctts_rounds
versions [] version es = inr (refl, tt)
versions (s ∷ ss) version es = elim (Bool-cases (is_negative s)) [
  | inl n ↦ rw (ctts_rounds, n) (inl (stays_one ss (put_offset (offset_word s) es)))
  | inr n ↦ elim (versions ss version (put_offset (offset_word s) es)) [
    | inl e ↦ rw (ctts_rounds, n) (inl e)
    | inr (e, h) ↦ rw (ctts_rounds, n) (inr (e, (refl, h)))
  ]
]

signed_back : (s : SampleEntry) → Near s → add_offset s.dts (entry_offset 1 (offset_word s)) ≡ s.pts
unfolding add_offset offset_word
signed_back s near = elim (lt_or_ge s.pts s.dts) [
  | inl back ↦
      let a = near.behind in
      let p = near.pts_small in
      let d = near.dts_small in
      let l : ltb ((s.pts + 2 ^ 64 - s.dts) % 2 ^ 32) (2 ^ 31) ≡ false = le→ltb _ _ (omega arith) in
      rw l (omega arith)
  | inr ahead ↦
      let a = near.ahead in
      let p = near.pts_small in
      let d = near.dts_small in
      let l : ltb ((s.pts + 2 ^ 64 - s.dts) % 2 ^ 32) (2 ^ 31) ≡ true = lt→ltb _ _ (omega arith) in
      rw l (omega arith)
]

plain_back :
    (s : SampleEntry)
    → Near s
    → is_negative s ≡ false
    → add_offset s.dts (pos (offset_word s)) ≡ s.pts
unfolding add_offset offset_word is_negative
plain_back s near n =
    let a = near.ahead in
    let b = near.behind in
    let p = near.pts_small in
    let d = near.dts_small in
    let k : (s.pts + 2 ^ 64 - s.dts) % 2 ^ 64 < 2 ^ 63 = leb→lt _ _ n in omega arith

by_offsets-signed :
    (ss : List SampleEntry) → All Near ss → by_offsets 1 (dts_of ss) (words_of ss) ≡ pts_of ss
unfolding by_offsets
by_offsets-signed [] h = refl
by_offsets-signed (s ∷ ss) (h, hs) = λ i. signed_back s h i ∷ by_offsets-signed ss hs i

by_offsets-plain :
    (ss : List SampleEntry)
    → All Near ss
    → All (λ s. is_negative s ≡ false) ss
    → by_offsets 0 (dts_of ss) (words_of ss) ≡ pts_of ss
unfolding by_offsets
by_offsets-plain [] h n = refl
by_offsets-plain (s ∷ ss) (h, hs) (n, ns) = λ i. plain_back s h n i ∷ by_offsets-plain ss hs ns i

length-put_offset :
    (offset : ℕ) (es : List CttsEntry)
    → (0 < length (put_offset offset es)) × (length (put_offset offset es) ≤ suc (length es))
unfolding put_offset
length-put_offset offset es = length-put_last _ _ _ es

length-ctts_rounds :
    (ss : List SampleEntry) (version : ℕ) (es : List CttsEntry)
    → 0 < length es + length ss
    → (0 < length (ctts_rounds version es ss).entrys)
      × (length (ctts_rounds version es ss).entrys ≤ length es + length ss)
unfolding ctts_rounds
length-ctts_rounds [] version es h = (omega arith, omega arith)
length-ctts_rounds (s ∷ ss) version es h =
    let b = length-put_offset (offset_word s) es in
    let ih = length-ctts_rounds ss _ (put_offset (offset_word s) es) (omega (arith, b.0)) in
    (ih.0, omega (arith, ih.1, b.1))

entry_count_lem :
    (ss : List SampleEntry) (version : ℕ) (es : List CttsEntry)
    → (ctts_rounds version es ss).entry_count ≡ length (ctts_rounds version es ss).entrys % 2 ^ 32
unfolding ctts_rounds
entry_count_lem [] version es = refl
entry_count_lem (s ∷ ss) version es = entry_count_lem ss _ (put_offset (offset_word s) es)

by_version :
    (ss : List SampleEntry)
    → All Near ss
    → by_offsets (ctts_rounds 0 [] ss).version (dts_of ss) (words_of ss) ≡ pts_of ss
by_version ss h = elim (versions ss 0 []) [
  | inl e ↦ ap (λ (v : ℕ). by_offsets v (dts_of ss) (words_of ss)) e ∙ by_offsets-signed ss h
  | inr (e, n) ↦ ap (λ (v : ℕ). by_offsets v (dts_of ss) (words_of ss)) e ∙ by_offsets-plain ss h n
]

entries_back :
    (ss : List SampleEntry)
    → All Near ss
    → length ss < 2 ^ 32
    → pts_entries (ctts_rounds 0 [] ss).version (ctts_rounds 0 [] ss).entrys (dts_of ss) ≡ pts_of ss
entries_back ss h b =
    let t = ctts_rounds 0 [] ss in
    let c : covers offset_run t.entrys ≡ words_of ss =
      unfold covers in covers-ctts_rounds ss 0 [] (omega arith) in
    pts_entries-by_offsets t.version t.entrys (dts_of ss)
    ∙ ap (λ (x : List ℕ). by_offsets t.version (dts_of ss) x) c
    ∙ by_version ss h

-- The presentation times of samples whose two times are less than 2 ^ 31 apart, fewer than 2 ^ 32, are
-- read back from the runs of offsets that they are written as, and the decode times, whether an offset
-- is negative or not.
pub presentation_times-ctts_table :
    (ss : List SampleEntry)
    → All Near ss
    → length ss < 2 ^ 32
    → presentation_times (ctts_table ss) (dts_of ss) ≡ pts_of ss
unfolding presentation_times ctts_table
presentation_times-ctts_table [] h b = unfold ctts_rounds pts_entries in refl
presentation_times-ctts_table (s ∷ ss) h b =
    let l = length-ctts_rounds (s ∷ ss) 0 [] (omega arith) in
    let n = entry_count_lem (s ∷ ss) 0 [] in
    let z : ((ctts_rounds 0 [] (s ∷ ss)).entry_count == 0) ≡ false =
      ne→== _ 0 (λ e. absurd (omega (arith, n, e, l.0, l.1, b))) in
    rw z (entries_back (s ∷ ss) h b)
