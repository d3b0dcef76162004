-- ===== src/Mp4/Table.antt =====
-- What the sample tables of go-mp4 share: a count, and entries of a fixed width behind it.
use gomediautils.Prelude.{
  ℕ, zero, suc, ◌*◌, List, [], ◌∷◌, ◌++◌, drop, Outcome, ok, panic, ◌>>=◌, Option,
}
use gomediautils.Prelude.Bytes.{read_u32_be}
use gomediautils.Mp4.Box.{BoxError, FullBox, box_field, read_full, table_remain, check_table_size}

module _ {ℓ} {A : Type ℓ} where
  -- The loop over the entries of a buffer, each of `width` bytes.
  unfoldable pub parse_entries : (List ℕ → Option A) → ℕ → ℕ → List ℕ → Outcome BoxError (List A)
  parse_entries parse width zero buf = ok []
  parse_entries parse width (suc n) buf =
      let rest = parse_entries parse width n (drop width buf) in
      box_field (parse buf) >>= λ e. rest >>= λ es. ok (e ∷ es)

  -- The loop that writes the first `n` entries; an entry that is not there panics.
  unfoldable pub write_entries : (A → List ℕ) → ℕ → List A → Outcome BoxError (List ℕ)
  write_entries write zero es = ok []
  write_entries write (suc n) [] = panic
  write_entries write (suc n) (e ∷ es) =
      let rest = write_entries write n es in rest >>= λ bytes. ok (write e ++ bytes)

  -- The check of a count against the box, and the entries behind the `fixed` bytes in front of them.
  unfoldable pub read_entries :
      (List ℕ → Option A) → ℕ → FullBox → ℕ → ℕ → List ℕ → Outcome BoxError (List A × List ℕ)
  unfolding parse_entries
  read_entries parse width b fixed count r = table_remain b fixed >>= λ remain.
      check_table_size count width remain >>= λ _. read_full (count * width) r >>= λ (buf, r').
      parse_entries parse width count buf >>= λ es. ok (es, r')

-- The word in front of a table.
unfoldable pub read_count : List ℕ → Outcome BoxError (ℕ × List ℕ)
read_count r = read_full 4 r >>= λ (buf, r'). box_field (read_u32_be buf) >>= λ n. ok (n, r')
