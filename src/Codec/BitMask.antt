-- ===== src/Codec/BitMask.antt =====
-- The table of masks of go-codec/bitstream.go and the errors that its streams report.
use gomediautils.Prelude.{
  ℕ, zero, suc, ◌-◌, ◌^◌, ◌<◌, ◌≡◌, refl, arith, List, [], ◌∷◌, Option, some, get_elem?,
}

pub data StreamError : Type 0 where
  out_of_range not_byte_aligned bad_bit_count : StreamError
  other : ℕ → StreamError

abbrev pub bit_mask : List ℕ
bit_mask = 0x01 ∷ 0x03 ∷ 0x07 ∷ 0x0F ∷ 0x1F ∷ 0x3F ∷ 0x7F ∷ 0xFF ∷ []

-- `bitMask[n-1]`
abbrev pub mask_at : ℕ → Option ℕ
mask_at n = get_elem? bit_mask n

-- Inside the table entry `n` is `n + 1` ones.
pub mask_at_lem : (n : ℕ) → n < 8 → mask_at n ≡ some (2 ^ suc n - 1)
mask_at_lem zero h = refl
mask_at_lem (suc zero) h = refl
mask_at_lem (suc (suc zero)) h = refl
mask_at_lem (suc (suc (suc zero))) h = refl
mask_at_lem (suc (suc (suc (suc zero)))) h = refl
mask_at_lem (suc (suc (suc (suc (suc zero))))) h = refl
mask_at_lem (suc (suc (suc (suc (suc (suc zero)))))) h = refl
mask_at_lem (suc (suc (suc (suc (suc (suc (suc zero))))))) h = refl
mask_at_lem (suc (suc (suc (suc (suc (suc (suc (suc n)))))))) h = absurd (omega arith)
