-- ===== src/Session/SecureChannel/Create.antt =====
-- `SecureChannel::open` (src/session/securechannel.rs) with the messages of
-- src/session/commands.rs. The connector is a parameter with a state, and the host's challenge,
-- eight random bytes, is an argument.
use yubihsm_rs.Base.{
  ℕ, Option, none, some, List, Result, ok, err, unwrap, map_err, ensure, expect, ◌==◌, ok_or, not,
}
use yubihsm_rs.Base.Results.{◌>>=◌, ◌>>◌}
use yubihsm_rs.Base.Actions.{Action, bind}
use yubihsm_rs.Command.Code as CommandCodes
use yubihsm_rs.Command.Code.{CommandCode}
use yubihsm_rs.Command.Message as Command
use yubihsm_rs.Command.Message.{CommandMessage}
use yubihsm_rs.Device.Error.{DeviceErrorKind}
use yubihsm_rs.Response.Message as Response
use yubihsm_rs.Response.Message.{ResponseMessage}
use yubihsm_rs.Session.Error.{
  SessionErrorKind, authentication_error, create_failed, device_error, protocol_error,
  response_error,
}
use yubihsm_rs.Session.SecureChannel.Crypto.{Crypto}
use yubihsm_rs.Session.SecureChannel.Channel.{SecureChannel, new, card_cryptogram}
use yubihsm_rs.Session.SecureChannel.Handshake.{verify_card}
use yubihsm_rs.Wire.{Shape, uint, array, pair, write, deserialize}

-- The key's number and the host's challenge.
abbrev pub create_session_command : Shape
create_session_command = pair (uint 2) (array 8)

-- The card's challenge and its cryptogram.
abbrev pub create_session_response : Shape
create_session_response = pair (array 8) (array 8)

-- `Message::from(&CreateSessionCommand { .. })`
unfoldable pub create_session_message : {E : Type 0} → ℕ → List ℕ → Result E CommandMessage
create_session_message key_id host_challenge = unwrap (
    Command.create CommandCode.create_session
      (write create_session_command (key_id, host_challenge)))

-- What an error response to the command is turned into.
unfoldable pub refusal : ResponseMessage → SessionErrorKind
refusal response = elim (Response.device_error response) [
  | some DeviceErrorKind.object_not_found ↦ authentication_error
  | some kind ↦ device_error
  | none ↦ response_error
]

-- What the host takes from the response: the session's number, the card's challenge and its
-- cryptogram. Codes are compared by their bytes, which differ.
unfoldable pub created : ResponseMessage → Result SessionErrorKind (ℕ × (List ℕ × List ℕ))
created response = do
  ensure (not (Response.is_err response)) (refusal response)
  code ← expect (Response.command response)
  ensure (CommandCodes.to_u8 code == CommandCodes.to_u8 CommandCode.create_session) protocol_error
  id ← ok_or response.session_id create_failed
  session_response ←
      map_err (λ _. protocol_error) (deserialize create_session_response response.data_bytes)
  ok (id, session_response)

-- The host's end, from the response of the device.
unfoldable pub accept_card :
    Crypto → List ℕ → List ℕ → List ℕ → Result SessionErrorKind SecureChannel
accept_card c authentication_key host_challenge response_body = do
  response ← Response.parse response_body
  (id, (card_challenge, cryptogram)) ← created response
  channel ← new c id authentication_key host_challenge card_challenge
  verify_card c channel cryptogram

module _ {W : Type 0} where
  -- A failure of the connector is a protocol error.
  unfoldable pub received : Option (List ℕ) × W → Result SessionErrorKind (List ℕ) × W
  received (none, w) = (err protocol_error, w)
  received (some bytes, w) = (ok bytes, w)

  unfoldable pub open_channel :
      (List ℕ → W → Option (List ℕ) × W)
      → Crypto
      → ℕ
      → List ℕ
      → List ℕ
      → Action SessionErrorKind W SecureChannel
  open_channel send c authentication_key_id authentication_key host_challenge w =
      bind (create_session_message authentication_key_id host_challenge, w)
        (λ command_message w.
          bind (received (send (Command.serialize command_message) w))
            (λ response_body w. (accept_card c authentication_key host_challenge response_body, w)))

-- What the simulated device answers: `State::create_session`, with the number and the challenge
-- that it chose, and `create_session` of src/mockhsm/command.rs.
unfoldable pub create_session :
    Crypto
    → ℕ
    → List ℕ
    → List ℕ
    → List ℕ
    → Result SessionErrorKind (SecureChannel × ResponseMessage)
create_session c id authentication_key host_challenge card_challenge = do
  channel ← new c id authentication_key host_challenge card_challenge
  cryptogram ← card_cryptogram c channel
  ok (
    channel,
    record (Response.success CommandCode.create_session
        (write create_session_response (card_challenge, cryptogram))) { session_id = some id },
  )
