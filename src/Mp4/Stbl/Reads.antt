-- ===== src/Mp4/Stbl/Reads.antt =====
-- Rounds of `ReadHead` at the boxes of tables, one after the other.
use gomediautils.Prelude.{
  ℕ, suc, ◌+◌, ◌<◌, ◌≡◌, refl, ap, ◌∙◌, arith, List, [], ◌∷◌, ◌++◌, append_assoc, replicate, ok,
  Option, some, none, false, ltb, ◌==◌, le→ltb,
}
use gomediautils.Prelude.Bytes.{IsU32, u32_be}
use gomediautils.Mp4.Box.{decode_box, is_uuid}
use gomediautils.Mp4.Box.RoundTrip.{full_bytes, decode_box-full_bytes}
use gomediautils.Mp4.Stbl.{Movstbl, last_stbl, put_stbl, table_case, read_table, read_tables}

full_bytes-append :
    (n a b c d v : ℕ) (fields rest : List ℕ)
    → full_bytes n a b c d v fields ++ rest ≡ full_bytes n a b c d v (fields ++ rest)
unfolding full_bytes u32_be
full_bytes-append n a b c d v fields rest = refl

-- A round at a full box gives its type and size to the case of the type.
pub read_table-full_bytes :
    (a b c d v n : ℕ) (fields rest : List ℕ) (tracks : List (Option Movstbl))
    → is_uuid (a ∷ b ∷ c ∷ d ∷ []) ≡ false
    → 11 < n
    → IsU32 n
    → read_table (record { reader = full_bytes n a b c d v fields ++ rest; tracks = tracks })
      ≡ table_case
          (a ∷ b ∷ c ∷ d ∷ [])
          n
          (record { reader = v ∷ 0 ∷ 0 ∷ 0 ∷ (fields ++ rest); tracks = tracks })
unfolding read_table
read_table-full_bytes a b c d v n fields rest tracks named big h =
    let e : decode_box (replicate 16 0) (full_bytes n a b c d v fields ++ rest) ≡ _ =
      ap (λ (x : List ℕ). decode_box (replicate 16 0) x) (full_bytes-append n a b c d v fields rest)
      ∙ decode_box-full_bytes a b c d named v n (replicate 16 0) (fields ++ rest) (omega arith) h in
    let z : (n == 0) ≡ false = ground (arith, big) in
    let l : ltb n 8 ≡ false = le→ltb _ _ (omega arith) in
    let m : ltb 0xFFFFFFFF n ≡ false = le→ltb _ _ (omega arith) in rw (read_table, e, z, l, m)

last_stbl-put_stbl :
    (s new : Movstbl) (ts : List (Option Movstbl))
    → last_stbl ts ≡ ok s
    → last_stbl (put_stbl new ts) ≡ ok new
unfolding last_stbl put_stbl
last_stbl-put_stbl s new [] h = absurd cc
last_stbl-put_stbl s new (none ∷ []) h = refl
last_stbl-put_stbl s new (some t ∷ []) h = refl
last_stbl-put_stbl s new (none ∷ u ∷ []) h = refl
last_stbl-put_stbl s new (some t ∷ u ∷ []) h = refl
last_stbl-put_stbl s new (none ∷ u ∷ w ∷ ts) h = last_stbl-put_stbl s new (u ∷ w ∷ ts) h
last_stbl-put_stbl s new (some t ∷ u ∷ w ∷ ts) h = last_stbl-put_stbl s new (u ∷ w ∷ ts) h

put_stbl-put_stbl :
    (new old : Movstbl) (ts : List (Option Movstbl))
    → put_stbl new (put_stbl old ts) ≡ put_stbl new ts
unfolding put_stbl
put_stbl-put_stbl new old [] = refl
put_stbl-put_stbl new old (t ∷ []) = refl
put_stbl-put_stbl new old (t ∷ u ∷ []) = refl
put_stbl-put_stbl new old (t ∷ u ∷ w ∷ ts) =
    ap (λ x. t ∷ x) (put_stbl-put_stbl new old (u ∷ w ∷ ts))

put_same : (s : Movstbl) (ts : List (Option Movstbl)) → last_stbl ts ≡ ok s → put_stbl s ts ≡ ts
unfolding last_stbl put_stbl
put_same s [] h = absurd cc
put_same s (none ∷ []) h = absurd cc
put_same s (some t ∷ []) h = let e : t ≡ s = cc in rw e
put_same s (none ∷ u ∷ ts) h = ap (λ x. none ∷ x) (put_same s (u ∷ ts) h)
put_same s (some t ∷ u ∷ ts) h = ap (λ x. some t ∷ x) (put_same s (u ∷ ts) h)

-- Bytes of `n` boxes that take the tables of the last track from `s` to `s'`.
unfoldable pub Reads : ℕ → List ℕ → Movstbl → Movstbl → Type 0
Reads n bytes s s' =
    (m : ℕ) (rest : List ℕ) (tracks : List (Option Movstbl))
    → last_stbl tracks ≡ ok s
    → read_tables (n + m) (record { reader = bytes ++ rest; tracks = tracks })
      ≡ read_tables m (record { reader = rest; tracks = put_stbl s' tracks })

pub Reads-none : (s : Movstbl) → Reads 0 [] s s
unfolding Reads
Reads-none s m rest tracks h = let z : 0 + m ≡ m = omega arith in rw (z, put_same s tracks h)

pub Reads-append :
    (n n' : ℕ) (b b' : List ℕ) (s s' s'' : Movstbl)
    → Reads n b s s'
    → Reads n' b' s' s''
    → Reads (n + n') (b ++ b') s s''
unfolding Reads
Reads-append n n' b b' s s' s'' h k m rest tracks l =
    let e : n + n' + m ≡ n + (n' + m) = omega arith in
    let p = h (n' + m) (b' ++ rest) tracks l in
    let q = k m rest (put_stbl s' tracks) (last_stbl-put_stbl s s' tracks l) in
    rw (e, append_assoc b b' rest, p, q, put_stbl-put_stbl s'' s' tracks)

pub Reads-one :
    (b : List ℕ) (s s' : Movstbl)
    → ((rest : List ℕ) (tracks : List (Option Movstbl))
        → last_stbl tracks ≡ ok s
        → read_table (record { reader = b ++ rest; tracks = tracks })
          ≡ some (ok (record { reader = rest; tracks = put_stbl s' tracks })))
    → Reads 1 b s s'
unfolding Reads read_tables
Reads-one b s s' h m rest tracks l =
    let z : 1 + m ≡ suc m = omega arith in rw (z, read_tables, h rest tracks l)

pub Reads-run :
    (n : ℕ) (bytes : List ℕ) (s s' : Movstbl)
    → Reads n bytes s s'
    → (rest : List ℕ) (tracks : List (Option Movstbl)) → last_stbl tracks ≡ ok s
    → read_tables n (record { reader = bytes ++ rest; tracks = tracks })
      ≡ some (ok (record { reader = rest; tracks = put_stbl s' tracks }))
unfolding Reads read_tables
Reads-run n bytes s s' h rest tracks l =
    let z : n ≡ n + 0 = omega arith in
    ap (λ (m : ℕ). read_tables m (record { reader = bytes ++ rest; tracks = tracks })) z
    ∙ h 0 rest tracks l
