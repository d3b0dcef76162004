-- ===== src/Rtmp/UserCtrl/RoundTrip.antt =====
-- A user control message is read back.
use gomediautils.Prelude.{ℕ, ◌%◌, ◌^◌, ◌≡◌, ◌≢◌, arith, [], ◌∷◌, ◌>>=◌, ok, ne→==}
use gomediautils.Prelude.Bytes.{
  IsU16, IsU32, u16_be, u32_be, read_u16_be-u16_be, read_u32_be-u32_be,
}
use gomediautils.Rtmp.UserCtrl.{
  set_buffer_length, make_user_control_message, decode_user_control_msg, field,
}

-- A message of an event other than SetBufferLength is read back, for an event of 16 bits and a value
-- of 32 bits.
pub decode_user_control_msg-make_user_control_message :
    (event value : ℕ)
    → IsU16 event
    → IsU32 value
    → event ≢ set_buffer_length
    → decode_user_control_msg (make_user_control_message event value)
      ≡ ok (record { code = event; values = value ∷ [] })
unfolding decode_user_control_msg make_user_control_message u16_be u32_be
decode_user_control_msg-make_user_control_message event value h k n =
    let e : event % 2 ^ 16 ≡ event = omega arith in
    let v : value % 2 ^ 32 ≡ value = omega arith in
    let a = read_u16_be-u16_be event (u32_be value) h in
    let b = read_u32_be-u32_be value [] k in
    unfold u16_be u32_be in rw (e, v, a, b, ◌>>=◌, field, ne→== event set_buffer_length n)
