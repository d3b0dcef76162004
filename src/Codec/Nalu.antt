-- ===== src/Codec/Nalu.antt =====
-- The part of go-codec/util.go that reads Annex-B streams: start codes, the split into NAL units, their
-- types, and the removal of emulation prevention bytes. A callback is a function, and the result is
-- the list of what it is called with; it ends the walk by returning false.
pub mod Search
pub mod Split
pub mod Escape
pub mod Walk
use gomediautils.Prelude.{
  ℕ, zero, suc, ◌+◌, ◌-◌, ◌/◌, ◌^◌, List, [], ◌∷◌, ◌++◌, Option, none, some, Bool, true, false, not,
  ltb, leb, ◌==◌, ◌&&◌, ◌||◌, if◌then◌else◌, length, take, drop, get_or, bit_and,
}
use gomediautils.Prelude.Int.{ℤ, pos, negsuc}

abbrev pub start_code_3 : ℕ
start_code_3 = 3

abbrev pub start_code_4 : ℕ
start_code_4 = 4

-- `bytes.Index(nalu, []byte{0, 0, 1})`
abbrev pub starts_001 : List ℕ → Bool
starts_001 (a ∷ b ∷ c ∷ _) = (a == 0) && ((b == 0) && (c == 1))
starts_001 _ = false

abbrev pub shift_index : Option ℕ → Option ℕ
shift_index none = none
shift_index (some i) = some (suc i)

unfoldable pub index_001 : List ℕ → Option ℕ
index_001 [] = none
index_001 (x ∷ xs) =
    let rest = index_001 xs in if starts_001 (x ∷ xs) then some 0 else shift_index rest

-- The offset of a start code and its length.
pub record StartCode : Type 0 where
  pub at : ℕ
  pub len : ℕ

-- The byte in front of the match makes a start code of 4 bytes.
unfoldable pub placed_code : List ℕ → ℕ → ℕ → StartCode
placed_code nalu offset idx =
    if ltb 0 idx && (get_or nalu (offset + idx - 1) 1 == 0)
    then record { at = offset + idx - 1; len = start_code_4 }
    else record { at = offset + idx; len = start_code_3 }

unfoldable pub find_start_code : List ℕ → ℤ → Option StartCode
unfolding index_001
find_start_code nalu (negsuc _) = none
find_start_code nalu (pos offset) =
    if leb (length nalu) offset then none else elim (index_001 (drop offset nalu)) [
      | none ↦ none
      | some idx ↦ some (placed_code nalu offset idx)
    ]

-- `FindSyncword`, over the list from `offset` on, at the index `i`.
unfoldable pub find_syncword_from : ℕ → List ℕ → Option ℕ
find_syncword_from i [] = none
find_syncword_from i (a ∷ []) = none
find_syncword_from i (a ∷ b ∷ rest) =
    let later = find_syncword_from (suc i) (b ∷ rest) in
    if (a == 0xFF) && (bit_and b 0xF0 == 0xF0) then some i else later

unfoldable pub find_syncword : List ℕ → ℕ → Option ℕ
unfolding find_syncword_from
find_syncword aac offset = find_syncword_from offset (drop offset aac)

-- `frames[a:b]`
abbrev pub slice : List ℕ → ℕ → ℕ → List ℕ
slice frames a b = take (b - a) (drop a frames)

-- The rounds of `SplitFrame`, from a start code on; `keep` says whether a NAL unit is given with its
-- start code. Each round moves on by three bytes at least, so the length of the stream is enough fuel.
unfoldable pub split_loop : ℕ → Bool → (List ℕ → Bool) → List ℕ → StartCode → List (List ℕ)
split_loop zero keep on_frame frames sc = []
split_loop (suc fuel) keep on_frame frames sc =
    let body = sc.at + sc.len in
    let first = if keep then sc.at else body in
    elim (find_start_code frames (pos body)) [
      | none ↦ if ltb body (length frames) then slice frames first (length frames) ∷ [] else []
      | some next ↦
          let rest = split_loop fuel keep on_frame frames next in
          if ltb body next.at
          then (slice frames first next.at
              ∷ (if on_frame (slice frames first next.at) then rest else []))
          else rest
    ]

unfoldable pub split_from : Bool → (List ℕ → Bool) → List ℕ → List (List ℕ)
unfolding split_loop
split_from keep on_frame frames = elim (find_start_code frames (pos 0)) [
  | none ↦ []
  | some sc ↦ split_loop (suc (length frames)) keep on_frame frames sc
]

unfoldable pub split_frame : (List ℕ → Bool) → List ℕ → List (List ℕ)
split_frame on_frame frames = split_from false on_frame frames

unfoldable pub split_frame_with_start_code : (List ℕ → Bool) → List ℕ → List (List ℕ)
split_frame_with_start_code on_frame frames = split_from true on_frame frames

unfoldable pub nalu_body : List ℕ → List ℕ
nalu_body nalu = elim (find_start_code nalu (pos 0)) [
  | none ↦ nalu
  | some sc ↦ drop (sc.at + sc.len) nalu
]

unfoldable pub nalu_offset : List ℕ → Option ℕ
nalu_offset buf =
    let off : ℕ = elim (find_start_code buf (pos 0)) [ none ↦ 0 | some sc ↦ sc.at + sc.len ] in
    if leb (length buf) off then none else some off

unfoldable pub h264_nalu_type : List ℕ → ℕ
unfolding nalu_offset
h264_nalu_type h264 = elim (nalu_offset h264) [
  | none ↦ 0
  | some off ↦ bit_and (get_or h264 off 0) 0x1F
]

unfoldable pub h264_nalu_type_without_start_code : List ℕ → ℕ
h264_nalu_type_without_start_code [] = 0
h264_nalu_type_without_start_code (b ∷ _) = bit_and b 0x1F

unfoldable pub h265_nalu_type : List ℕ → ℕ
unfolding nalu_offset
h265_nalu_type h265 = elim (nalu_offset h265) [
  | none ↦ 0
  | some off ↦ bit_and (get_or h265 off 0 / 2) 0x3F
]

unfoldable pub h265_nalu_type_without_start_code : List ℕ → ℕ
h265_nalu_type_without_start_code [] = 0
h265_nalu_type_without_start_code (b ∷ _) = bit_and (b / 2) 0x3F

-- The walk of `IsH264IDRFrame`: on to the next unit while the type is above 5.
unfoldable pub goes_on_h264 : List ℕ → Bool
goes_on_h264 [] = true
goes_on_h264 (b ∷ _) = ltb 5 (bit_and b 0x1F)

unfoldable pub is_idr_h264 : List ℕ → Bool
is_idr_h264 [] = false
is_idr_h264 (b ∷ _) = bit_and b 0x1F == 5

abbrev pub any_of : (List ℕ → Bool) → List (List ℕ) → Bool
any_of test [] = false
any_of test (x ∷ xs) = test x || any_of test xs

unfoldable pub is_h264_idr_frame : List ℕ → Bool
unfolding goes_on_h264 is_idr_h264
is_h264_idr_frame h264 = any_of is_idr_h264 (split_frame goes_on_h264 h264)

unfoldable pub goes_on_h265 : List ℕ → Bool
goes_on_h265 [] = true
goes_on_h265 (b ∷ _) = let t = bit_and (b / 2) 0x3F in not (leb t 9) && not (leb 16 t && leb t 21)

unfoldable pub is_idr_h265 : List ℕ → Bool
is_idr_h265 [] = false
is_idr_h265 (b ∷ _) = let t = bit_and (b / 2) 0x3F in leb 16 t && leb t 21

unfoldable pub is_h265_idr_frame : List ℕ → Bool
unfolding goes_on_h265 is_idr_h265
is_h265_idr_frame h265 = any_of is_idr_h265 (split_frame goes_on_h265 h265)

unfoldable pub is_h264_vcl_nalu_type : ℕ → Bool
is_h264_vcl_nalu_type t = leb t 5 && ltb 0 t

unfoldable pub is_h265_vcl_nalu_type : ℕ → Bool
is_h265_vcl_nalu_type t = (leb t 21 && leb 16 t) || leb t 9

-- `CovertRbspToSodb`, behind `run` zero bytes.
unfoldable pub remove_prevention : ℕ → List ℕ → List ℕ
remove_prevention run [] = []
remove_prevention run (b ∷ bs) =
    let dropped = remove_prevention 0 bs in
    let kept = remove_prevention (if b == 0 then suc run else 0) bs in
    if leb 2 run && (b == 3) then dropped else (b ∷ kept)

unfoldable pub covert_rbsp_to_sodb : List ℕ → List ℕ
unfolding remove_prevention
covert_rbsp_to_sodb rbsp = remove_prevention 0 rbsp
