-- ===== src/Mp4/Times/Runs.antt =====
-- Tables of runs: what their entries cover when one is counted further.
use gomediautils.Prelude.{
  ℕ, zero, suc, ◌+◌, ◌%◌, ◌^◌, ◌<◌, ◌≤◌, ◌≡◌, refl, sym, ap, ◌∙◌, arith, List, [], ◌∷◌, ◌++◌,
  append-nil, append_assoc, Bool, true, length, length-append, replicate, Bool-cases, inl, inr,
}
use gomediautils.Mp4.Times.{put_last}

unfoldable pub covers {ℓ} : {A : Type ℓ} → (A → List ℕ) → List A → List ℕ
covers run [] = []
covers run (e ∷ es) = run e ++ covers run es

replicate-snoc : (n v : ℕ) → replicate n v ++ (v ∷ []) ≡ replicate (suc n) v
replicate-snoc zero v = refl
replicate-snoc (suc n) v = ap (λ (x : List ℕ). v ∷ x) (replicate-snoc n v)

-- A count that does not wrap covers one more value.
pub one_more :
    (n v w : ℕ)
    → w ≡ v
    → suc n < 2 ^ 32
    → replicate ((n + 1) % 2 ^ 32) v ≡ replicate n v ++ (w ∷ [])
one_more n v w e h =
    let m : (n + 1) % 2 ^ 32 ≡ suc n = omega arith in
    ap (λ (k : ℕ). replicate k v) m
    ∙ sym (replicate-snoc n v)
    ∙ ap (λ (x : ℕ). replicate n v ++ (x ∷ [])) (sym e)

pub covers-put_last {ℓ} :
    {A : Type ℓ} (run : A → List ℕ) (same : A → Bool) (more : A → A) (new : A) (v : ℕ)
    → run new ≡ v ∷ []
    → ((e : A) → same e ≡ true → suc (length (run e)) < 2 ^ 32 → run (more e) ≡ run e ++ (v ∷ []))
    → (es : List A) → suc (length (covers run es)) < 2 ^ 32
    → covers run (put_last same more new es) ≡ covers run es ++ (v ∷ [])
unfolding covers put_last
covers-put_last run same more new v h k [] b = append-nil (run new) ∙ h
covers-put_last run same more new v h k (e ∷ []) b =
    let n = length-append (run e) [] in
    elim (Bool-cases (same e)) [
      | inl c ↦ rw c (
          append-nil (run (more e))
          ∙ k e c (omega arith)
          ∙ ap (λ (x : List ℕ). x ++ (v ∷ [])) (sym (append-nil (run e))))
      | inr c ↦ rw c (
          ap (λ (x : List ℕ). run e ++ x) (append-nil (run new) ∙ h)
          ∙ ap (λ (x : List ℕ). x ++ (v ∷ [])) (sym (append-nil (run e))))
    ]
covers-put_last run same more new v h k (e ∷ f ∷ es) b =
    let n = length-append (run e) (covers run (f ∷ es)) in
    ap (λ (x : List ℕ). run e ++ x) (covers-put_last run same more new v h k (f ∷ es) (omega arith))
    ∙ sym (append_assoc (run e) (covers run (f ∷ es)) (v ∷ []))

pub length-put_last {ℓ} :
    {A : Type ℓ} (same : A → Bool) (more : A → A) (new : A) (es : List A)
    → (0 < length (put_last same more new es))
      × (length (put_last same more new es) ≤ suc (length es))
unfolding put_last
length-put_last same more new [] = (omega arith, omega arith)
length-put_last same more new (e ∷ []) = elim (Bool-cases (same e)) [
  | inl c ↦ rw c (omega arith, omega arith)
  | inr c ↦ rw c (omega arith, omega arith)
]
length-put_last same more new (e ∷ f ∷ es) =
    let (a, b) = length-put_last same more new (f ∷ es) in (omega arith, omega arith)
