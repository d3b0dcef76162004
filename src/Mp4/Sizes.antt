-- ===== src/Mp4/Sizes.antt =====
-- The sizes of a track's samples: the stsz table that `makeStblTable` of go-mp4/mp4track.go makes of
-- them, and the sizes that `buildSampleList` of go-mp4/mp4demuxer.go gives back.
use gomediautils.Prelude.{
  ℕ, zero, suc, ◌+◌, ◌*◌, ◌/◌, ◌%◌, ◌^◌, ◌<◌, ◌≤◌, ◌≡◌, refl, sym, ap, ◌∙◌, arith, List, [], ◌∷◌,
  Bool, true, false, ltb, ◌==◌, ==→eq, if◌then◌else◌, length, take, take_all, replicate, Bool-cases,
  le→ltb, ne→==, ==→ne, inl, inr, Option, none, some, All,
}
use native.Mathlib.Nat.{mod-eq_of_lt, le-div_iff_mul-le}
use gomediautils.Mp4.Tables.Size.{Movstsz}

-- `sameSize` after the loop: no sample behind one has another size.
unfoldable pub same_size : ℕ → List ℕ → Bool
same_size z [] = true
same_size z (y ∷ ys) = let rest = same_size y ys in if y == z then rest else false

-- `uint32` of each size.
unfoldable pub size_words : List ℕ → List ℕ
size_words [] = []
size_words (z ∷ zs) = z % 2 ^ 32 ∷ size_words zs

-- A run of samples that are all empty has the table too; a track without samples is the empty one
-- of `makeEmptyStblTable`.
unfoldable pub stsz_table : List ℕ → Movstsz
unfolding same_size size_words
stsz_table [] = record { sample_size = 0; sample_count = 0; entry_sizelist = [] }
stsz_table (z ∷ zs) =
    let count : ℕ = length (z ∷ zs) % 2 ^ 32 in
    if (if z == 0 then false else same_size z zs)
    then record { sample_size = z % 2 ^ 32; sample_count = count; entry_sizelist = [] }
    else record {
      sample_size = 0;
      sample_count = count;
      entry_sizelist = size_words (take count (z ∷ zs));
    }

-- The sizes of the samples of a file of `file_size` bytes; none for the errors: a list that is
-- shorter than its count, and more samples than the file holds.
unfoldable pub sample_sizes : ℕ → Movstsz → Option (List ℕ)
sample_sizes file_size stsz =
    if stsz.sample_size == 0
    then if ltb (length stsz.entry_sizelist) stsz.sample_count
      then none
      else some (take stsz.sample_count stsz.entry_sizelist)
    else if ltb (file_size / stsz.sample_size) stsz.sample_count
    then none
    else some (replicate stsz.sample_count stsz.sample_size)

abbrev pub sum : List ℕ → ℕ
sum [] = 0
sum (z ∷ zs) = z + sum zs

size_words_id : (zs : List ℕ) → All (λ z. z < 2 ^ 32) zs → size_words zs ≡ zs
unfolding size_words
size_words_id [] h = refl
size_words_id (z ∷ zs) (h, hs) = rw (mod-eq_of_lt h, size_words_id zs hs) refl

both_true : (a b : Bool) → (if a then b else false) ≡ true → (a ≡ true) × (b ≡ true)
both_true true b h = (refl, h)
both_true false b h = ground arith

guarded : (a b : Bool) → (if a then false else b) ≡ true → (a ≡ false) × (b ≡ true)
guarded true b h = ground arith
guarded false b h = (refl, h)

same_size-replicate : (z : ℕ) (zs : List ℕ) → same_size z zs ≡ true → zs ≡ replicate (length zs) z
unfolding same_size
same_size-replicate z [] h = refl
same_size-replicate z (y ∷ ys) h =
    let tests = both_true (y == z) (same_size y ys) h in
    ap (λ (x : List ℕ). y ∷ x) (same_size-replicate y ys tests.1)
    ∙ ap (λ (w : ℕ). w ∷ replicate (length ys) w) (==→eq y z tests.0)

sum-replicate : (n z : ℕ) → sum (replicate n z) ≡ n * z
sum-replicate zero z = omega arith
sum-replicate (suc n) z = ap (λ (x : ℕ). z + x) (sum-replicate n z) ∙ omega arith

sample_sizes_listed :
    (file_size n : ℕ) (xs : List ℕ)
    → n ≡ length xs
    → sample_sizes file_size (record { sample_size = 0; sample_count = n; entry_sizelist = xs })
      ≡ some xs
unfolding sample_sizes
sample_sizes_listed file_size n xs e =
    rw (le→ltb (length xs) n (omega arith), take_all n xs (omega arith)) refl

sample_sizes_uniform :
    (file_size n z : ℕ)
    → 0 < z
    → n * z ≤ file_size
    → sample_sizes file_size (record { sample_size = z; sample_count = n; entry_sizelist = [] })
      ≡ some (replicate n z)
unfolding sample_sizes
sample_sizes_uniform file_size n z hz h =
    rw (ne→== z 0 (ground arith), le→ltb (file_size / z) n ((le-div_iff_mul-le hz).1 h)) refl

-- The sizes of samples, one at least and fewer than 2 ^ 32, each less than 2 ^ 32 and all of them
-- within the file, are read back from stsz, whether it holds one size or a list.
pub sample_sizes-stsz_table :
    (file_size z : ℕ) (zs : List ℕ)
    → All (λ x. x < 2 ^ 32) (z ∷ zs)
    → length (z ∷ zs) < 2 ^ 32
    → sum (z ∷ zs) ≤ file_size
    → sample_sizes file_size (stsz_table (z ∷ zs)) ≡ some (z ∷ zs)
unfolding stsz_table
sample_sizes-stsz_table file_size z zs (hz, hs) b h =
    let n : ℕ = length (z ∷ zs) in
    elim (Bool-cases (if z == 0 then false else same_size z zs)) [
      | inl t ↦
          let tests = guarded (z == 0) (same_size z zs) t in
          let r : z ∷ zs ≡ replicate n z =
            ap (λ (x : List ℕ). z ∷ x) (same_size-replicate z zs tests.1) in
          let total : sum (z ∷ zs) ≡ n * z = ap sum r ∙ sum-replicate n z in
          rw (t, mod-eq_of_lt hz, mod-eq_of_lt b)
            (sample_sizes_uniform file_size n z (let ne = ==→ne z 0 tests.0 in ground arith)
                (omega arith)
              ∙ ap some (sym r))
      | inr f ↦
          let words : size_words (take n (z ∷ zs)) ≡ z ∷ zs =
            ap size_words (take_all n (z ∷ zs) (omega arith)) ∙ size_words_id (z ∷ zs) (hz, hs) in
          rw (f, mod-eq_of_lt b, words) (sample_sizes_listed file_size n (z ∷ zs) refl)
    ]
