-- ===== src/Codec/Nalu/Escape.antt =====
-- The removal of emulation prevention bytes against their insertion, as the standard describes it.
use gomediautils.Prelude.{ℕ, suc, ◌≡◌, refl, arith, List, [], ◌∷◌, leb, ◌==◌, ◌&&◌, if◌then◌else◌}
use gomediautils.Codec.Nalu.{remove_prevention, covert_rbsp_to_sodb}

-- Behind two run a byte up to 3 has a 3 put in front of it.
unfoldable pub prevent : ℕ → List ℕ → List ℕ
prevent run [] = []
prevent run (b ∷ bs) =
    let escaped = prevent (if b == 0 then 1 else 0) bs in
    let plain = prevent (if b == 0 then suc run else 0) bs in
    if leb 2 run && leb b 3 then 3 ∷ b ∷ escaped else (b ∷ plain)

remove_prevention-prevent : (run : ℕ) (bs : List ℕ) → remove_prevention run (prevent run bs) ≡ bs
unfolding remove_prevention prevent
remove_prevention-prevent run [] = refl
remove_prevention-prevent run (b ∷ bs) = ground (
  arith,
  remove_prevention-prevent (if b == 0 then 1 else 0) bs,
  remove_prevention-prevent (if b == 0 then suc run else 0) bs,
)

-- Every byte string is got back from its escaped form.
pub covert_rbsp_to_sodb-prevent : (bs : List ℕ) → covert_rbsp_to_sodb (prevent 0 bs) ≡ bs
unfolding covert_rbsp_to_sodb
covert_rbsp_to_sodb-prevent bs = remove_prevention-prevent 0 bs
