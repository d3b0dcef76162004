-- ===== src/Codec/Nalu/Search.antt =====
-- Where the next start code stands in a stream of NAL units.
use gomediautils.Prelude.{
  ℕ, zero, suc, Bool, ◌+◌, ◌-◌, ◌<◌, ◌≡◌, ◌≢◌, refl, ap, ◌∙◌, arith, List, [], ◌∷◌, ◌++◌, none,
  some, true, false, ltb, leb, ◌==◌, ◌&&◌, length, length-append, get_or, drop_append, ne→==,
  lt→leb, lt→ltb,
}
use gomediautils.Prelude.Int.{pos}
use gomediautils.Codec.Nalu.{starts_001, shift_index, index_001, placed_code, find_start_code}

-- A NAL unit as it may stand in a stream: it has a byte, contains no start code, and does not end in
-- a zero.
abbrev pub IsUnit : List ℕ → Type 0
IsUnit [] = ⊥
IsUnit (a ∷ []) = a ≢ 0
IsUnit (a ∷ b ∷ rest) = (starts_001 (a ∷ b ∷ rest) ≡ false) × IsUnit (b ∷ rest)

-- A start code of four bytes, or of three.
abbrev pub start_code : Bool → List ℕ
start_code true = 0 ∷ 0 ∷ 0 ∷ 1 ∷ []
start_code false = 0 ∷ 0 ∷ 1 ∷ []

-- A stream in which each unit has a start code, of four bytes where its flag is set.
unfoldable pub coded : List (Bool × List ℕ) → List ℕ
coded [] = []
coded ((long, u) ∷ us) = start_code long ++ (u ++ coded us)

no_third : (a b : ℕ) → ((a == 0) && ((b == 0) && false)) ≡ false
no_third a b = ground arith

-- Behind a unit the next start code is found, at its last three bytes.
abbrev code_index : Bool → ℕ → ℕ
code_index true n = suc n
code_index false n = n

index_001-unit :
    (long : Bool) (u r : List ℕ)
    → IsUnit u
    → index_001 (u ++ (start_code long ++ r)) ≡ some (code_index long (length u))
unfolding index_001
index_001-unit long [] r h = absurd h
index_001-unit true (a ∷ []) r h = rw (ne→== a 0 h)
index_001-unit false (a ∷ []) r h = rw (ne→== a 0 h)
index_001-unit true (a ∷ b ∷ []) r (h, k) =
    rw (no_third a b) (ap shift_index (index_001-unit true (b ∷ []) r k))
index_001-unit false (a ∷ b ∷ []) r (h, k) =
    rw (no_third a b) (ap shift_index (index_001-unit false (b ∷ []) r k))
index_001-unit true (a ∷ b ∷ c ∷ rest) r (h, k) =
    rw h (ap shift_index (index_001-unit true (b ∷ c ∷ rest) r k))
index_001-unit false (a ∷ b ∷ c ∷ rest) r (h, k) =
    rw h (ap shift_index (index_001-unit false (b ∷ c ∷ rest) r k))

-- In the last unit none is found.
pub index_001-last : (u : List ℕ) → IsUnit u → index_001 u ≡ none
unfolding index_001
index_001-last [] h = absurd h
index_001-last (a ∷ []) h = refl
index_001-last (a ∷ b ∷ rest) (h, k) = rw h (ap shift_index (index_001-last (b ∷ rest) k))

pub IsUnit-length : (u : List ℕ) → IsUnit u → 0 < length u
IsUnit-length [] h = absurd h
IsUnit-length (a ∷ u) h = omega arith

get_or-append : (xs ys : List ℕ) (i : ℕ) → get_or (xs ++ ys) (length xs + i) 1 ≡ get_or ys i 1
get_or-append [] ys i = ap (λ (j : ℕ). get_or ys j 1) (omega arith)
get_or-append (x ∷ xs) ys i =
    let e : suc (length xs) + i ≡ suc (length xs + i) = omega arith in
    ap (λ (j : ℕ). get_or (x ∷ (xs ++ ys)) j 1) e ∙ get_or-append xs ys i

-- The last byte of a unit is not a zero.
last_byte :
    (u r : List ℕ) → IsUnit u → (i : ℕ) → suc i ≡ length u → (get_or (u ++ r) i 1 == 0) ≡ false
last_byte [] r h i e = absurd h
last_byte (a ∷ []) r h zero e = ne→== a 0 h
last_byte (a ∷ []) r h (suc i) e = absurd (omega arith)
last_byte (a ∷ b ∷ rest) r (h, k) zero e = absurd (omega arith)
last_byte (a ∷ b ∷ rest) r (h, k) (suc i) e = last_byte (b ∷ rest) r k i (omega arith)

-- The byte in front of a match behind a unit: a zero of the start code, or the unit's last byte.
code_at :
    (long : Bool) (pre u r : List ℕ)
    → IsUnit u
    → placed_code (pre ++ (u ++ (start_code long ++ r))) (length pre) (code_index long (length u))
      ≡ record { at = length pre + length u; len = length (start_code long) }
unfolding placed_code
code_at true pre u r h =
    let nalu = pre ++ (u ++ (start_code true ++ r)) in
    let e : length pre + suc (length u) - 1 ≡ length pre + length u = omega arith in
    let e' : length pre + length u ≡ length pre + (length u + 0) = omega arith in
    let z : get_or nalu (length pre + length u) 1 ≡ 0 =
      ap (λ (j : ℕ). get_or nalu j 1) e'
      ∙ get_or-append pre (u ++ (start_code true ++ r)) (length u + 0)
      ∙ get_or-append u (start_code true ++ r) 0 in
    let p : ltb 0 (suc (length u)) ≡ true = lt→ltb _ _ (omega arith) in rw (p, e, z)
code_at false pre u r h =
    let nalu = pre ++ (u ++ (start_code false ++ r)) in
    let m = IsUnit-length u h in
    let e : length pre + length u - 1 ≡ length pre + (length u - 1) = omega arith in
    let z : (get_or nalu (length pre + length u - 1) 1 == 0) ≡ false =
      ap (λ (j : ℕ). get_or nalu j 1 == 0) e
      ∙ ap (λ (b : ℕ). b == 0) (get_or-append pre (u ++ (start_code false ++ r)) (length u - 1))
      ∙ last_byte u (start_code false ++ r) h (length u - 1) (omega arith) in
    let p : ltb 0 (length u) ≡ true = lt→ltb _ _ m in rw (p, z)

-- The start code behind a unit that stands at `length pre` of the stream.
pub find_start_code-next :
    (long : Bool) (pre u r : List ℕ)
    → IsUnit u
    → find_start_code (pre ++ (u ++ (start_code long ++ r))) (pos (length pre))
      ≡ some (record { at = length pre + length u; len = length (start_code long) })
unfolding find_start_code
find_start_code-next long pre u r h =
    let tail = u ++ (start_code long ++ r) in
    let n = length-append pre tail in
    let n' = length-append u (start_code long ++ r) in
    let m = IsUnit-length u h in
    let b : leb (length (pre ++ tail)) (length pre) ≡ false = lt→leb _ _ (omega arith) in
    rw
      (b, drop_append pre tail (length pre) refl, index_001-unit long u r h, code_at long pre u r h)

pub find_start_code-last :
    (pre u : List ℕ) → IsUnit u → find_start_code (pre ++ u) (pos (length pre)) ≡ none
unfolding find_start_code
find_start_code-last pre u h =
    let n = length-append pre u in
    let m = IsUnit-length u h in
    let b : leb (length (pre ++ u)) (length pre) ≡ false = lt→leb _ _ (omega arith) in
    rw (b, drop_append pre u (length pre) refl, index_001-last u h)
