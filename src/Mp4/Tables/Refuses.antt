-- ===== src/Mp4/Tables/Refuses.antt =====
-- A count that the box has no room for is refused before a table of that size is read.
use gomediautils.Prelude.{
  ◌^◌, ℕ, ◌+◌, ◌-◌, ◌*◌, ◌<◌, ◌≡◌, arith, List, true, false, ltb, ◌==◌, lt→ltb, lt_or_ge,
  Bool-cases, inl, inr, if◌then◌else◌, le→ltb, ltb→le, err, Option,
}
use gomediautils.Mp4.Box.{
  BoxError, FullBox, table_remain, check_table_size, table_over_limit, table_over_box,
  box_too_small, full_box_len, max_box_payload_size,
}
use gomediautils.Mp4.Table.{read_entries}

-- The error that a table of `n` bytes behind `fixed` of fields is refused with, in a box of `size`.
unfoldable pub refusal : ℕ → ℕ → ℕ → BoxError
refusal size fixed n =
    if ltb size (12 + fixed)
    then box_too_small
    else if ltb max_box_payload_size n
    then table_over_limit
    else table_over_box

-- Entries behind `fixed` bytes of fields, in a box whose size is known and too small for them, are
-- refused whatever the reader holds: a box without room for its fields, a table above the limit of a
-- payload, and one that is longer than what its box has left, each with its own error.
pub read_entries-refuses {ℓ} :
    {A : Type ℓ} (parse : List ℕ → Option A) (width fixed count : ℕ) (b : FullBox) (r : List ℕ)
    → 0 < b.box.size
    → b.box.size < 12 + fixed + count * width
    → read_entries parse width b fixed count r ≡ err (refusal b.box.size fixed (count * width))
unfolding read_entries table_remain check_table_size refusal
read_entries-refuses parse width fixed count b r known short =
    let z : (b.box.size == 0) ≡ false = ground (arith, known) in
    elim (lt_or_ge b.box.size (12 + fixed)) [
      | inl small ↦
          let s : ltb b.box.size (full_box_len + fixed) ≡ true = lt→ltb _ _ small in rw (z, s)
      | inr h ↦
          let s : ltb b.box.size (full_box_len + fixed) ≡ false = le→ltb _ _ h in
          let n : ltb (b.box.size - (full_box_len + fixed)) (count * width) ≡ true =
            lt→ltb _ _ (omega arith) in
          elim (Bool-cases (ltb max_box_payload_size (count * width))) [
            | inl m ↦ rw (z, s, m)
            | inr m ↦
                let few = ltb→le _ _ m in
                let word : ltb (b.box.size - (full_box_len + fixed)) (2 ^ 63) ≡ true =
                  lt→ltb _ _ (omega arith) in
                rw (z, s, word, m, n)
          ]
    ]
