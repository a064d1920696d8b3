-- ===== src/Response/Message.antt =====
-- Response messages and their frames (src/response/message.rs).
pub mod Parts
pub mod RoundTrip
use yubihsm_rs.Base.{
  ℕ, ◌+◌, ◌-◌, Option, none, some, List, [], ◌∷◌, ◌++◌, length, take, drop, Result, ok, err, ◌>>=◌,
  ◌>>◌, ensure, map_err, leb, ◌==◌, Bool, true, false, not, if◌then◌else◌,
}
use yubihsm_rs.Base.Bytes.{u16_bytes, u16_of}
use yubihsm_rs.Command.Code.{CommandCode}
use yubihsm_rs.Command.Message.{id_bytes, mac_bytes}
use yubihsm_rs.Device.Error
use yubihsm_rs.Device.Error.{DeviceErrorKind}
use yubihsm_rs.Response.Code
use yubihsm_rs.Response.Code.{ResponseCode}
use yubihsm_rs.Session.Error.{SessionErrorKind, protocol_error}
use yubihsm_rs.Session.Id
use yubihsm_rs.Session.Id.{SessionId}
use yubihsm_rs.Session.Mac
use yubihsm_rs.Session.Mac.{Mac}

pub record ResponseMessage : Type 0 where
  pub code : ResponseCode
  pub session_id : Option SessionId
  pub data_bytes : List ℕ
  pub mac : Option Mac

unfoldable pub new : ResponseCode → List ℕ → ResponseMessage
new code response_data = record {
  code = code;
  session_id = none;
  data_bytes = response_data;
  mac = none;
}

-- `mac.into()` is given a CMAC tag.
unfoldable pub new_with_mac :
    {E : Type 0} → ResponseCode → SessionId → List ℕ → List ℕ → Result E ResponseMessage
unfolding Mac.from_tag
new_with_mac code session_id response_data tag = do
  mac ← Mac.from_tag tag
  ok (record {
    code = code;
    session_id = some session_id;
    data_bytes = response_data;
    mac = some mac;
  })

unfoldable pub success : CommandCode → List ℕ → ResponseMessage
unfolding new
success command_type response_data = new (ResponseCode.success command_type) response_data

-- `From<device::ErrorKind>`: the panic is that of `to_u8`.
unfoldable pub from_error : {E : Type 0} → DeviceErrorKind → Result E ResponseMessage
unfolding new
from_error kind = do byte ← Error.to_u8 kind; ok (new ResponseCode.memory_error (byte ∷ []))

unfoldable pub is_err : ResponseMessage → Bool
unfolding Code.is_success
is_err m = not (Code.is_success m.code)

command_of : ResponseCode → Option CommandCode
command_of (ResponseCode.success cmd) = some cmd
command_of _ = none

unfoldable pub command : ResponseMessage → Option CommandCode
unfolding command_of
command m = command_of m.code

-- The error number in a body of one byte.
error_in : List ℕ → Option DeviceErrorKind
unfolding Error.from_u8
error_in (byte ∷ []) = some (Error.from_u8 byte)
error_in _ = none

-- `device::ErrorKind::from_response_message`
unfoldable pub device_error : ResponseMessage → Option DeviceErrorKind
unfolding is_err error_in
device_error m = if is_err m then error_in m.data_bytes else none

unfoldable pub has_session_id : ResponseCode → Bool
has_session_id (ResponseCode.success CommandCode.create_session) = true
has_session_id (ResponseCode.success CommandCode.session_message) = true
has_session_id _ = false

unfoldable pub has_rmac : ResponseCode → Bool
has_rmac (ResponseCode.success CommandCode.session_message) = true
has_rmac _ = false

unfoldable pub first_id : List ℕ → Result SessionErrorKind (Option SessionId × List ℕ)
first_id [] = err protocol_error
first_id (first ∷ bytes) = do id ← Id.from_u8 first; ok (some id, bytes)

-- The session number, if there is one, and what follows it.
unfoldable pub split_session_id :
    ResponseCode → List ℕ → Result SessionErrorKind (Option SessionId × List ℕ)
split_session_id code bytes = if has_session_id code then first_id bytes else ok (none, bytes)

unfoldable pub last_mac : List ℕ → Result SessionErrorKind (Option Mac × List ℕ)
last_mac bytes = do
  ensure (leb Mac.byte_size (length bytes)) protocol_error
  let mac_index = length bytes - Mac.byte_size
  mac ← Mac.from_slice (drop mac_index bytes)
  ok (some mac, take mac_index bytes)

-- The MAC, if there is one, and what stands before it.
unfoldable pub split_mac : ResponseCode → List ℕ → Result SessionErrorKind (Option Mac × List ℕ)
split_mac code bytes = if has_rmac code then last_mac bytes else ok (none, bytes)

unfoldable pub parse : List ℕ → Result SessionErrorKind ResponseMessage
parse (first ∷ hi ∷ lo ∷ bytes) = do
  code ← map_err (λ _. protocol_error) (Code.from_u8 first)
  ensure (u16_of hi lo + 3 == length bytes + 3) protocol_error
  (session_id, rest) ← split_session_id code bytes
  (mac, data_bytes) ← split_mac code rest
  ok (record { code = code; session_id = session_id; data_bytes = data_bytes; mac = mac })
parse (_ ∷ _ ∷ []) = err protocol_error
parse (_ ∷ []) = err protocol_error
parse [] = err protocol_error

unfoldable pub len : ResponseMessage → ℕ
len m =
    length m.data_bytes
    + (elim m.session_id [ none ↦ 0 | some _ ↦ 1 ])
    + (elim m.mac [ none ↦ 0 | some _ ↦ Mac.byte_size ])

-- `Into<Vec<u8>>`
unfoldable pub serialize : ResponseMessage → List ℕ
unfolding len Code.to_u8
serialize m =
    Code.to_u8 m.code
    ∷ (u16_bytes (len m) ++ (id_bytes m.session_id ++ (m.data_bytes ++ mac_bytes m.mac)))
