-- ===== src/Mp4/Times/Start.antt =====
-- The decode time of the first sample of a track with an edit list.
use gomediautils.Prelude.{
  ℕ, zero, suc, ◌*◌, ◌/◌, ◌%◌, ◌^◌, ◌<◌, ◌≡◌, ◌≢◌, refl, arith, List, [], ◌∷◌, ◌++◌, All, false,
  ne→==, Bool-cases, inl, inr, some,
}
use gomediautils.Prelude.Int.{ℤ, pos, negsuc}
use gomediautils.Mp4.Times.{ElstEntry, is_minus_one, first_time, start_time}

is_minus_one-false : (v : ℤ) → v ≢ negsuc 0 → is_minus_one v ≡ false
is_minus_one-false (pos n) h = refl
is_minus_one-false (negsuc zero) h = absurd (h refl)
is_minus_one-false (negsuc (suc n)) h = ne→== (suc n) 0 (omega arith)

-- Entries that are no empty edits leave the time as it is.
first_time_kept :
    (movie track : ℕ) (es : List ElstEntry) (dts : ℕ)
    → All (λ e. e.media_time ≢ negsuc 0) es
    → first_time movie track es dts ≡ some dts
unfolding first_time
first_time_kept movie track [] dts h = refl
first_time_kept movie track (e ∷ es) dts (h, hs) =
    rw (is_minus_one-false e.media_time h) (first_time_kept movie track es dts hs)

first_time_last :
    (movie track : ℕ) (before : List ElstEntry) (e : ElstEntry) (after : List ElstEntry) (dts : ℕ)
    → 0 < movie
    → e.media_time ≡ negsuc 0
    → All (λ x. x.media_time ≢ negsuc 0) after
    → first_time movie track (before ++ (e ∷ after)) dts
      ≡ some (e.segment_duration * track % 2 ^ 64 / movie)
unfolding first_time
first_time_last movie track [] e after dts m empty rest =
    rw (empty, ne→== movie 0 (omega arith)) (first_time_kept movie track after _ rest)
first_time_last movie track (b ∷ before) e after dts m empty rest =
    elim (Bool-cases (is_minus_one b.media_time)) [
      | inl t ↦
          rw (t, ne→== movie 0 (omega arith))
            (first_time_last movie track before e after _ m empty rest)
      | inr t ↦ rw t (first_time_last movie track before e after dts m empty rest)
    ]

-- If the timescale of the movie is not 0, the last empty edit of an edit list, whatever stands in
-- front of it, says the decode time of the first sample: its duration in the timescale of the track,
-- the product taken modulo 2^64.
pub start_time-last_empty :
    (movie track : ℕ) (before : List ElstEntry) (e : ElstEntry) (after : List ElstEntry)
    → 0 < movie
    → e.media_time ≡ negsuc 0
    → All (λ x. x.media_time ≢ negsuc 0) after
    → start_time movie track (some (before ++ (e ∷ after)))
      ≡ some (e.segment_duration * track % 2 ^ 64 / movie)
start_time-last_empty movie track before e after m empty rest =
    first_time_last movie track before e after 0 m empty rest
