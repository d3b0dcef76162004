-- ===== src/Runs/Walks.antt =====
-- The properties that loops come to an end at concrete inputs.
use gomediautils.Prelude.{ℕ, List, [], ◌∷◌, Bool, true, false}
use gomediautils.Codec.Nalu.{StartCode}
use gomediautils.Rtp.H264.Packer.{H264Packer}
use gomediautils.Rtp.H264.UnPacker.{H264UnPacker}

-- Start codes of both lengths, and one with nothing behind it.
abbrev stream : List ℕ
stream = 0 ∷ 0 ∷ 1 ∷ 5 ∷ 0 ∷ 0 ∷ 0 ∷ 1 ∷ 7 ∷ 8 ∷ 0 ∷ 0 ∷ 1 ∷ []

abbrev front : StartCode
front = record { at = 0; len = 3 }

-- A number, a range, and a word that is cut short.
abbrev report : List ℕ
report = 0 ∷ 0 ∷ 0 ∷ 9 ∷ 0x80 ∷ 0 ∷ 0 ∷ 20 ∷ 0 ∷ 0 ∷ 0 ∷ 23 ∷ 0 ∷ 1 ∷ []

abbrev receiver : H264UnPacker
receiver = record {
  timestamp = 0;
  last_sequence = 0;
  lost = false;
  frame_buffer = 0 ∷ 0 ∷ 0 ∷ 1 ∷ [];
  frames = [];
}

-- Two units, and a size that reaches behind the packet.
abbrev aggregated : List ℕ
aggregated = 0 ∷ 2 ∷ 0x67 ∷ 1 ∷ 0 ∷ 1 ∷ 0x68 ∷ 0 ∷ 9 ∷ 1 ∷ []

abbrev sender : H264Packer
sender = record {
  mtu = 16;
  ssrc = 7;
  pt = 96;
  sequence = 65535;
  stap_a = false;
  sps = [];
  pps = [];
  sent = [];
}

-- A callback that takes two packets and fails on the third.
abbrev takes_two : List (List ℕ) → List ℕ → Bool
takes_two (_ ∷ _ ∷ _) _ = false
takes_two _ _ = true
