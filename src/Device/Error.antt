-- ===== src/Device/Error.antt =====
-- Errors of the device itself (src/device/error.rs).
use yubihsm_rs.Base.{ℕ, ◌≡◌, Option, none, some, Result, ok, panic, if◌then◌else◌, ◌==◌, arith}
use yubihsm_rs.Response.Code.{ResponseCode}

pub data DeviceErrorKind : Type 0 where
  unknown : ℕ → DeviceErrorKind
  invalid_command invalid_data invalid_session authentication_failed : DeviceErrorKind
  sessions_full session_failed storage_failed wrong_length : DeviceErrorKind
  insufficient_permissions log_full object_not_found invalid_id invalid_otp : DeviceErrorKind
  demo_mode command_unexecuted generic_error object_exists : DeviceErrorKind
  ssh_ca_constraint_violation : DeviceErrorKind

unfoldable pub from_u8 : ℕ → DeviceErrorKind
from_u8 tag =
    if tag == 0x01
    then invalid_command
    else if tag == 0x02
    then invalid_data
    else if tag == 0x03
    then invalid_session
    else if tag == 0x04
    then authentication_failed
    else if tag == 0x05
    then sessions_full
    else if tag == 0x06
    then session_failed
    else if tag == 0x07
    then storage_failed
    else if tag == 0x08
    then wrong_length
    else if tag == 0x09
    then insufficient_permissions
    else if tag == 0x0a
    then log_full
    else if tag == 0x0b
    then object_not_found
    else if tag == 0x0c
    then invalid_id
    else if tag == 0x0d
    then invalid_otp
    else if tag == 0x0e
    then demo_mode
    else if tag == 0x0f
    then command_unexecuted
    else if tag == 0x10
    then generic_error
    else if tag == 0x11
    then object_exists
    else unknown tag

-- There is no byte for `ssh_ca_constraint_violation`: the code panics.
unfoldable pub to_u8 : {E : Type 0} → DeviceErrorKind → Result E ℕ
to_u8 (unknown code) = ok code
to_u8 invalid_command = ok 0x01
to_u8 invalid_data = ok 0x02
to_u8 invalid_session = ok 0x03
to_u8 authentication_failed = ok 0x04
to_u8 sessions_full = ok 0x05
to_u8 session_failed = ok 0x06
to_u8 storage_failed = ok 0x07
to_u8 wrong_length = ok 0x08
to_u8 insufficient_permissions = ok 0x09
to_u8 log_full = ok 0x0a
to_u8 object_not_found = ok 0x0b
to_u8 invalid_id = ok 0x0c
to_u8 invalid_otp = ok 0x0d
to_u8 demo_mode = ok 0x0e
to_u8 command_unexecuted = ok 0x0f
to_u8 generic_error = ok 0x10
to_u8 object_exists = ok 0x11
to_u8 ssh_ca_constraint_violation = panic

unfoldable pub from_response_code : ResponseCode → Option DeviceErrorKind
from_response_code ResponseCode.device_invalid_command = some invalid_command
from_response_code ResponseCode.device_invalid_data = some invalid_data
from_response_code ResponseCode.device_invalid_session = some invalid_session
from_response_code ResponseCode.device_authentication_failed = some authentication_failed
from_response_code ResponseCode.device_sessions_full = some sessions_full
from_response_code ResponseCode.device_session_failed = some session_failed
from_response_code ResponseCode.device_storage_failed = some storage_failed
from_response_code ResponseCode.device_wrong_length = some wrong_length
from_response_code ResponseCode.device_insufficient_permissions = some insufficient_permissions
from_response_code ResponseCode.device_log_full = some log_full
from_response_code ResponseCode.device_object_not_found = some object_not_found
from_response_code ResponseCode.device_invalid_id = some invalid_id
from_response_code ResponseCode.device_invalid_otp = some invalid_otp
from_response_code ResponseCode.device_demo_mode = some demo_mode
from_response_code ResponseCode.device_command_unexecuted = some command_unexecuted
from_response_code ResponseCode.generic_error = some generic_error
from_response_code ResponseCode.device_object_exists = some object_exists
from_response_code ResponseCode.device_ssh_ca_constraint_violation =
    some ssh_ca_constraint_violation
from_response_code _ = none

-- The byte of an error that was read is the byte that was read, for known and unknown errors.
pub device_to_u8-from_u8 : {E : Type 0} (tag : ℕ) → to_u8 {E = E} (from_u8 tag) ≡ ok tag
unfolding from_u8 to_u8
device_to_u8-from_u8 tag = ground arith
