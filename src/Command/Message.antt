-- ===== src/Command/Message.antt =====
-- Command messages and their frames (src/command/message.rs). The `uuid`, a random label for the
-- logs, is left out.
pub mod Parts
pub mod RoundTrip
use yubihsm_rs.Base.{
  ℕ, ◌+◌, ◌-◌, ◌≤◌, Option, none, some, List, [], ◌∷◌, ◌++◌, length, take, drop, Result, ok, err,
  ◌>>=◌, ◌>>◌, ensure, map_err, leb, ◌==◌,
}
use yubihsm_rs.Base.Bytes.{u16_bytes, u16_of}
use yubihsm_rs.Command.Code
use yubihsm_rs.Command.Code.{CommandCode}
use yubihsm_rs.Session.Error.{SessionErrorKind, protocol_error}
use yubihsm_rs.Session.Id
use yubihsm_rs.Session.Id.{SessionId}
use yubihsm_rs.Session.Mac
use yubihsm_rs.Session.Mac.{Mac}

abbrev pub max_msg_size : ℕ
max_msg_size = 2048

pub record CommandMessage : Type 0 where
  pub command_type : CommandCode
  pub session_id : Option SessionId
  pub data_bytes : List ℕ
  pub mac : Option Mac

unfoldable pub create : CommandCode → List ℕ → Result SessionErrorKind CommandMessage
create command_type command_data = do
  ensure (leb (length command_data) max_msg_size) protocol_error
  ok (record {
    command_type = command_type;
    session_id = none;
    data_bytes = command_data;
    mac = none;
  })

-- `mac.into()` is given a CMAC tag.
unfoldable pub new_with_mac :
    CommandCode → SessionId → List ℕ → List ℕ → Result SessionErrorKind CommandMessage
unfolding Mac.from_tag
new_with_mac command_type session_id command_data tag = do
  ensure (leb (length command_data) max_msg_size) protocol_error
  mac ← Mac.from_tag tag
  ok (record {
    command_type = command_type;
    session_id = some session_id;
    data_bytes = command_data;
    mac = some mac;
  })

-- What follows the header of a message in a session: a session number, data and a MAC.
unfoldable pub parse_in_session : CommandCode → List ℕ → Result SessionErrorKind CommandMessage
parse_in_session command_type [] = err protocol_error
parse_in_session command_type (first ∷ bytes) = do
  id ← Id.from_u8 first
  ensure (leb Mac.byte_size (length bytes)) protocol_error
  let mac_index = length bytes - Mac.byte_size
  mac ← Mac.from_slice (drop mac_index bytes)
  ok (record {
    command_type = command_type;
    session_id = some id;
    data_bytes = take mac_index bytes;
    mac = some mac;
  })

unfoldable pub parse_body : CommandCode → List ℕ → Result SessionErrorKind CommandMessage
parse_body CommandCode.authenticate_session bytes =
    parse_in_session CommandCode.authenticate_session bytes
parse_body CommandCode.session_message bytes = parse_in_session CommandCode.session_message bytes
parse_body command_type bytes =
    ok (record { command_type = command_type; session_id = none; data_bytes = bytes; mac = none })

unfoldable pub parse : List ℕ → Result SessionErrorKind CommandMessage
parse (code ∷ hi ∷ lo ∷ bytes) = do
  command_type ← map_err (λ _. protocol_error) (Code.from_u8 code)
  ensure (u16_of hi lo + 3 == length bytes + 3) protocol_error
  parse_body command_type bytes
parse (_ ∷ _ ∷ []) = err protocol_error
parse (_ ∷ []) = err protocol_error
parse [] = err protocol_error

-- The parts of a frame that may be missing.
abbrev pub id_bytes : Option SessionId → List ℕ
id_bytes none = []
id_bytes (some id) = id ∷ []

abbrev pub mac_bytes : Option Mac → List ℕ
mac_bytes none = []
mac_bytes (some mac) = mac

unfoldable pub len : CommandMessage → ℕ
len m =
    length m.data_bytes
    + (elim m.session_id [ none ↦ 0 | some _ ↦ 1 ])
    + (elim m.mac [ none ↦ 0 | some _ ↦ Mac.byte_size ])

unfoldable pub serialize : CommandMessage → List ℕ
unfolding len Code.to_u8
serialize m =
    Code.to_u8 m.command_type
    ∷ (u16_bytes (len m) ++ (id_bytes m.session_id ++ (m.data_bytes ++ mac_bytes m.mac)))
