-- ===== src/Rtmp/UserCtrl.antt =====
-- go-rtmp/userctrl.go: the protocol control and user control messages.
pub mod RoundTrip
use gomediautils.Prelude.{
  ℕ, ◌%◌, ◌^◌, List, [], ◌∷◌, ◌++◌, ltb, ◌==◌, if◌then◌else◌, length, drop, Outcome, ok, err, panic,
  ◌>>=◌, Option, none, some,
}
use gomediautils.Prelude.Bytes.{u16_be, u32_be, read_u16_be, read_u32_be}

pub data ControlError : Type 0 where
  short_control short_buffer_length : ControlError

abbrev pub set_buffer_length : ℕ
set_buffer_length = 3

pub record UserEvent : Type 0 where
  pub code : ℕ
  pub values : List ℕ

unfoldable pub make_set_chunk_size : ℕ → List ℕ
make_set_chunk_size size = u32_be size

unfoldable pub make_acknowledgement_size : ℕ → List ℕ
make_acknowledgement_size size = u32_be size

unfoldable pub make_set_peer_bandwidth : ℕ → ℕ → List ℕ
make_set_peer_bandwidth size limit_type = u32_be size ++ ((limit_type % 256) ∷ [])

unfoldable pub make_user_control_message : ℕ → ℕ → List ℕ
make_user_control_message event value = u16_be (event % 2 ^ 16) ++ u32_be (value % 2 ^ 32)

-- A field read from the front of a slice; a slice that is too short panics.
abbrev pub field {ℓ} : {A : Type ℓ} → Option A → Outcome ControlError A
field none = panic
field (some x) = ok x

unfoldable pub decode_user_control_msg : List ℕ → Outcome ControlError UserEvent
decode_user_control_msg bytes =
    if ltb (length bytes) 6
    then err short_control
    else (field (read_u16_be bytes) >>= λ code. field (read_u32_be (drop 2 bytes)) >>= λ value.
        if code == set_buffer_length
        then (if ltb (length bytes) 10
            then err short_buffer_length
            else (field (read_u32_be (drop 6 bytes)) >>= λ more.
                ok (record { code = code; values = value ∷ more ∷ [] })))
        else ok (record { code = code; values = value ∷ [] }))
