-- ===== src/Codec/Nalu/Split.antt =====
-- `SplitFrame` gives the units that a stream is made of.
use gomediautils.Prelude.{
  ℕ, zero, suc, ◌+◌, ◌≤◌, ◌<◌, ◌≡◌, refl, sym, ap, ◌∙◌, arith, List, [], ◌∷◌, ◌++◌, append-nil,
  append_assoc, none, some, Bool, true, false, ltb, length, length-append, All, take_append,
  drop_append, take_all, lt→ltb, lt→leb,
}
use mathlib.Core.Path.{subst}
use gomediautils.Prelude.Int.{pos}
use gomediautils.Codec.Nalu.{
  StartCode, find_start_code, index_001, placed_code, slice, split_loop, split_from, split_frame,
}
use gomediautils.Codec.Nalu.Search.{
  IsUnit, start_code, coded, IsUnit-length, find_start_code-next, find_start_code-last,
}

abbrev always : List ℕ → Bool
always _ = true

abbrev units_of : List (Bool × List ℕ) → List (List ℕ)
units_of [] = []
units_of ((_, u) ∷ us) = u ∷ units_of us

slice-unit : (pre u r : List ℕ) → slice (pre ++ (u ++ r)) (length pre) (length pre + length u) ≡ u
slice-unit pre u r =
    rw (drop_append pre (u ++ r) (length pre) refl) (take_append u r _ (omega arith))

-- From the start code of the first of some units on, which ends at `length pre`.
split_loop-units :
    (fuel : ℕ) (pre u : List ℕ) (us : List (Bool × List ℕ)) (sc : StartCode)
    → All IsUnit (u ∷ units_of us)
    → sc.at + sc.len ≡ length pre
    → length us < fuel
    → split_loop fuel false always (pre ++ (u ++ coded us)) sc ≡ u ∷ units_of us
unfolding split_loop coded
split_loop-units zero pre u us sc h e f = absurd (omega arith)
split_loop-units (suc fuel) pre u [] sc (h, hs) e f =
    let n = length-append pre u in
    let m = IsUnit-length u h in
    let l = find_start_code-last pre u h in
    let b : ltb (length pre) (length (pre ++ u)) ≡ true = lt→ltb _ _ (omega arith) in
    let s : slice (pre ++ u) (length pre) (length (pre ++ u)) ≡ u =
      rw (drop_append pre u (length pre) refl) (take_all _ u (omega arith)) in
    rw (append-nil u, split_loop, e, l, append-nil u, e, b, s)
split_loop-units (suc fuel) pre u ((long, v) ∷ vs) sc (h, hs) e f =
    let m = IsUnit-length u h in
    let code = start_code long in
    let r = v ++ coded vs in
    let next : StartCode = record { at = length pre + length u; len = length code } in
    let l = find_start_code-next long pre u r h in
    let b : ltb (length pre) (length pre + length u) ≡ true = lt→ltb _ _ (omega arith) in
    let s = slice-unit pre u (code ++ r) in
    let len : length pre + length u + length code ≡ length (pre ++ (u ++ code)) =
      omega (arith, length-append pre (u ++ code), length-append u code) in
    let ih = split_loop-units fuel (pre ++ (u ++ code)) v vs next hs len (omega arith) in
    let w : (pre ++ (u ++ code)) ++ r ≡ pre ++ (u ++ (code ++ r)) =
      append_assoc pre (u ++ code) r ∙ ap (λ (t : List ℕ). pre ++ t) (append_assoc u code r) in
    let ih' : split_loop fuel false always (pre ++ (u ++ (code ++ r))) next ≡ v ∷ units_of vs =
      ap (λ (t : List ℕ). split_loop fuel false always t next) (sym w) ∙ ih in
    rw (split_loop, e, l, e, b, s, ih')

length-start_code : (long : Bool) → 0 < length (start_code long)
length-start_code true = omega arith
length-start_code false = omega arith

length-coded : (us : List (Bool × List ℕ)) → length us ≤ length (coded us)
unfolding coded
length-coded [] = omega arith
length-coded ((long, u) ∷ us) = omega (
  arith,
  length-append (start_code long) (u ++ coded us),
  length-append u (coded us),
  length-coded us,
  length-start_code long,
)

first_code :
    (long : Bool) (r : List ℕ)
    → find_start_code (start_code long ++ r) (pos 0)
      ≡ some (record { at = 0; len = length (start_code long) })
unfolding find_start_code index_001 placed_code
first_code true r = rw (lt→leb (length (start_code true ++ r)) 0 (omega arith))
first_code false r = rw (lt→leb (length (start_code false ++ r)) 0 (omega arith))

no_code : find_start_code [] (pos 0) ≡ none
unfolding find_start_code
no_code = refl

-- A stream of NAL units, each behind a start code of four bytes or of three, none of which is empty,
-- contains a start code or ends in a zero, is split into just these units, by a callback that never
-- stops.
pub split_frame-coded :
    (us : List (Bool × List ℕ))
    → All IsUnit (units_of us)
    → split_frame (λ _. true) (coded us) ≡ units_of us
unfolding split_frame split_from coded
split_frame-coded [] h = rw (split_from, no_code)
split_frame-coded ((long, u) ∷ us) h =
    let l = length-coded ((long, u) ∷ us) in
    let c = first_code long (u ++ coded us) in
    rw (split_from, c)
      (split_loop-units (suc (length (coded ((long, u) ∷ us)))) (start_code long) u us
        (record { at = 0; len = length (start_code long) }) h (omega arith) (omega arith))

-- A stream in which each unit has a start code of four bytes.
unfoldable pub annex_b : List (List ℕ) → List ℕ
annex_b [] = []
annex_b (u ∷ us) = 0 ∷ 0 ∷ 0 ∷ 1 ∷ (u ++ annex_b us)

all_long : List (List ℕ) → List (Bool × List ℕ)
all_long [] = []
all_long (u ∷ us) = (true, u) ∷ all_long us

units_of-all_long : (us : List (List ℕ)) → units_of (all_long us) ≡ us
unfolding all_long
units_of-all_long [] = refl
units_of-all_long (u ∷ us) = ap (λ (x : List (List ℕ)). u ∷ x) (units_of-all_long us)

coded-all_long : (us : List (List ℕ)) → coded (all_long us) ≡ annex_b us
unfolding coded all_long annex_b
coded-all_long [] = refl
coded-all_long (u ∷ us) = ap (λ (x : List ℕ). start_code true ++ (u ++ x)) (coded-all_long us)

pub split_frame-annex_b :
    (us : List (List ℕ)) → All IsUnit us → split_frame (λ _. true) (annex_b us) ≡ us
split_frame-annex_b us h =
    let e = units_of-all_long us in
    ap (λ (x : List ℕ). split_frame (λ _. true) x) (sym (coded-all_long us))
    ∙ split_frame-coded (all_long us) (subst (λ (x : List (List ℕ)). All IsUnit x) (sym e) h)
    ∙ e
