-- ===== src/Response/Code.antt =====
-- The codes of responses (src/response/code.rs): `response::Code` with its conversions.
pub mod RoundTrip
use yubihsm_rs.Base.{
  ℕ, ◌+◌, ◌-◌, ◌%◌, Bool, true, false, Result, ok, err, panic, ◌>>=◌, map_err, if◌then◌else◌, leb,
  ltb, ◌==◌,
}
use yubihsm_rs.Command.Code
use yubihsm_rs.Command.Code.{CommandCode}
use yubihsm_rs.Response.Error.{ResponseErrorKind, code_invalid}

pub data ResponseCode : Type 0 where
  success : CommandCode → ResponseCode
  memory_error init_error connection_error connector_not_found : ResponseCode
  invalid_parameters wrong_length buffer_too_small cryptogram_mismatch : ResponseCode
  session_authentication_failed mac_mismatch device_ok device_invalid_command : ResponseCode
  device_invalid_data device_invalid_session device_authentication_failed : ResponseCode
  device_sessions_full device_session_failed device_storage_failed : ResponseCode
  device_wrong_length device_insufficient_permissions device_log_full : ResponseCode
  device_object_not_found device_invalid_id device_invalid_otp : ResponseCode
  device_demo_mode device_command_unexecuted generic_error : ResponseCode
  device_object_exists connector_error device_ssh_ca_constraint_violation : ResponseCode

-- The code is an `i8`, sent with 0x80 added: `(i16::from(code) + 0x80) as u8`. A code 0..=0x7f is
-- a command's, and -n is sent as 0x80 - n. `cmd_type as i8` keeps the byte, so 0xff becomes -1.
unfoldable pub to_u8 : ResponseCode → ℕ
unfolding Code.to_u8
to_u8 (success cmd_type) = (Code.to_u8 cmd_type + 0x80) % 256
to_u8 memory_error = 0x80 - 1
to_u8 init_error = 0x80 - 2
to_u8 connection_error = 0x80 - 3
to_u8 connector_not_found = 0x80 - 4
to_u8 invalid_parameters = 0x80 - 5
to_u8 wrong_length = 0x80 - 6
to_u8 buffer_too_small = 0x80 - 7
to_u8 cryptogram_mismatch = 0x80 - 8
to_u8 session_authentication_failed = 0x80 - 9
to_u8 mac_mismatch = 0x80 - 10
to_u8 device_ok = 0x80 - 11
to_u8 device_invalid_command = 0x80 - 12
to_u8 device_invalid_data = 0x80 - 13
to_u8 device_invalid_session = 0x80 - 14
to_u8 device_authentication_failed = 0x80 - 15
to_u8 device_sessions_full = 0x80 - 16
to_u8 device_session_failed = 0x80 - 17
to_u8 device_storage_failed = 0x80 - 18
to_u8 device_wrong_length = 0x80 - 19
to_u8 device_insufficient_permissions = 0x80 - 20
to_u8 device_log_full = 0x80 - 21
to_u8 device_object_not_found = 0x80 - 22
to_u8 device_invalid_id = 0x80 - 23
to_u8 device_invalid_otp = 0x80 - 24
to_u8 device_demo_mode = 0x80 - 25
to_u8 device_command_unexecuted = 0x80 - 26
to_u8 generic_error = 0x80 - 27
to_u8 device_object_exists = 0x80 - 28
to_u8 connector_error = 0x80 - 29
to_u8 device_ssh_ca_constraint_violation = 0x80 - 30

-- The arms of `from_u8` for the codes below zero: the argument is the code without its sign.
unfoldable pub from_negative : ℕ → Result ResponseErrorKind ResponseCode
from_negative n =
    if n == 1
    then ok memory_error
    else if n == 2
    then ok init_error
    else if n == 3
    then ok connection_error
    else if n == 4
    then ok connector_not_found
    else if n == 5
    then ok invalid_parameters
    else if n == 6
    then ok wrong_length
    else if n == 7
    then ok buffer_too_small
    else if n == 8
    then ok cryptogram_mismatch
    else if n == 9
    then ok session_authentication_failed
    else if n == 10
    then ok mac_mismatch
    else if n == 11
    then ok device_ok
    else if n == 12
    then ok device_invalid_command
    else if n == 13
    then ok device_invalid_data
    else if n == 14
    then ok device_invalid_session
    else if n == 15
    then ok device_authentication_failed
    else if n == 16
    then ok device_sessions_full
    else if n == 17
    then ok device_session_failed
    else if n == 18
    then ok device_storage_failed
    else if n == 19
    then ok device_wrong_length
    else if n == 20
    then ok device_insufficient_permissions
    else if n == 21
    then ok device_log_full
    else if n == 22
    then ok device_object_not_found
    else if n == 23
    then ok device_invalid_id
    else if n == 24
    then ok device_invalid_otp
    else if n == 25
    then ok device_demo_mode
    else if n == 26
    then ok device_command_unexecuted
    else if n == 27
    then ok generic_error
    else if n == 28
    then ok device_object_exists
    else if n == 29
    then ok connector_error
    else if n == 30
    then ok device_ssh_ca_constraint_violation
    else err code_invalid

unfoldable pub from_u8 : ℕ → Result ResponseErrorKind ResponseCode
from_u8 byte =
    if leb 0x80 byte
    then (do
      cmd_type ← map_err (λ _. code_invalid) (Code.from_u8 (byte - 0x80))
      ok (success cmd_type))
    else from_negative (0x80 - byte)

-- `Deserialize for Code`: a byte that is no code is tried again as an error number without its
-- sign. The `u8` subtraction overflows where the byte is above that of `DeviceOk`: this is the
-- panic of a build with overflow checks, without which the difference wraps around.
unfoldable pub deserialize : ℕ → Result ResponseErrorKind ResponseCode
unfolding to_u8
deserialize value = elim (from_u8 value) [
  | ok code ↦ ok code
  | err _ ↦ if ltb (to_u8 device_ok) value then panic else from_u8 (to_u8 device_ok - value)
  | panic ↦ panic
]

unfoldable pub is_success : ResponseCode → Bool
is_success (success _) = true
is_success memory_error = false
is_success _ = false
