-- ===== src/Rtp/H264/Headers.antt =====
-- The two bytes in front of a fragment in go-rtsp/rtp/rtp-h264.go, and their bits.
use gomediautils.Prelude.{
  ℕ, ◌≡◌, refl, sym, ap, ◌∙◌, inl, inr, Bool, true, false, ltb, ◌==◌, ==→eq, Bool-cases, bit_and,
  bit_or, not,
}
use gomediautils.Prelude.Bytes.{IsByte}
use gomediautils.Prelude.Finite.{all_below, all_below-at}

-- The two bytes in front of a fragment of a unit whose first byte is `b`.
abbrev pub indicator : ℕ → ℕ
indicator b = bit_or (bit_and b 0xE0) 0x1C

-- The header of a first fragment, and of those behind it.
abbrev pub first_header : ℕ → ℕ
first_header b = bit_or (bit_and b 0x1F) 0x80

abbrev pub later_header : ℕ → ℕ
later_header b = bit_and (first_header b) 0x7F

same_number :
    (f g : ℕ → ℕ) → all_below 256 (λ b. f b == g b) ≡ true → (b : ℕ) → IsByte b → f b ≡ g b
same_number f g h b k = ==→eq (f b) (g b) (all_below-at 256 (λ b. f b == g b) b h k)

pub is_fu_a : (b : ℕ) → IsByte b → bit_and (indicator b) 0x1F ≡ 28
is_fu_a = same_number (λ b. bit_and (indicator b) 0x1F) (λ _. 28) refl

-- The bits of each of the four headers: does it start a unit, does it end one, and the first byte.
pub record Header (b x : ℕ) (start end : Bool) : Type 0 where
  pub starts : ltb 0 (bit_and x 0x80) ≡ start
  pub ends : ltb 0 (bit_and x 0x40) ≡ end
  pub byte : bit_or (bit_and (indicator b) 0xE0) (bit_and x 0x1F) ≡ b

same_test :
    (f : ℕ → Bool) → all_below 256 (λ b. not (f b)) ≡ true → (b : ℕ) → IsByte b → f b ≡ false
same_test f h b k =
    let n : not (f b) ≡ true = all_below-at 256 (λ b. not (f b)) b h k in
    elim (Bool-cases (f b)) [
      | inr e ↦ e
      | inl e ↦ absurd (let q : not true ≡ true = ap not (sym e) ∙ n in cc)
    ]

pub first_Header : (b : ℕ) → IsByte b → Header b (first_header b) true false
first_Header b h = record {
  starts = all_below-at 256 (λ b. ltb 0 (bit_and (first_header b) 0x80)) b refl h;
  ends = same_test (λ b. ltb 0 (bit_and (first_header b) 0x40)) refl b h;
  byte =
      same_number (λ b. bit_or (bit_and (indicator b) 0xE0) (bit_and (first_header b) 0x1F))
        (λ b. b) refl b h;
}

pub only_Header : (b : ℕ) → IsByte b → Header b (bit_or (first_header b) 0x40) true true
only_Header b h = record {
  starts = all_below-at 256 (λ b. ltb 0 (bit_and (bit_or (first_header b) 0x40) 0x80)) b refl h;
  ends = all_below-at 256 (λ b. ltb 0 (bit_and (bit_or (first_header b) 0x40) 0x40)) b refl h;
  byte =
      same_number
        (λ b. bit_or (bit_and (indicator b) 0xE0) (bit_and (bit_or (first_header b) 0x40) 0x1F))
        (λ b. b) refl b h;
}

pub later_Header : (b : ℕ) → IsByte b → Header b (later_header b) false false
later_Header b h = record {
  starts = same_test (λ b. ltb 0 (bit_and (later_header b) 0x80)) refl b h;
  ends = same_test (λ b. ltb 0 (bit_and (later_header b) 0x40)) refl b h;
  byte =
      same_number (λ b. bit_or (bit_and (indicator b) 0xE0) (bit_and (later_header b) 0x1F))
        (λ b. b) refl b h;
}

pub last_Header : (b : ℕ) → IsByte b → Header b (bit_or (later_header b) 0x40) false true
last_Header b h = record {
  starts = same_test (λ b. ltb 0 (bit_and (bit_or (later_header b) 0x40) 0x80)) refl b h;
  ends = all_below-at 256 (λ b. ltb 0 (bit_and (bit_or (later_header b) 0x40) 0x40)) b refl h;
  byte =
      same_number
        (λ b. bit_or (bit_and (indicator b) 0xE0) (bit_and (bit_or (later_header b) 0x40) 0x1F))
        (λ b. b) refl b h;
}
