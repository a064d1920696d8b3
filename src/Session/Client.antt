-- ===== src/Session/Client.antt =====
-- Sessions as the client holds them (src/session.rs, src/session/timeout.rs). The connector is a
-- parameter with a state of its own: a frame goes out, and a frame or a failure comes back. The
-- clock is a parameter too, in nanoseconds. What is only logged is left out.

pub mod Open
pub mod Delivery
pub mod Aborted
mod Tests
use yubihsm_rs.Base.{
  ℕ, ◌-◌, ◌*◌, Option, none, some, List, [], Result, ok, err, panic, Bool, false, not, leb,
  if◌then◌else◌, ◌==◌,
}
use yubihsm_rs.Base.Actions.{Action, pure, fail, modify, lift, ◌>>=◌, ◌>>◌}
use yubihsm_rs.Command.Code as CommandCodes
use yubihsm_rs.Command.Code.{CommandCode}
use yubihsm_rs.Command.Message as Command
use yubihsm_rs.Command.Message.{CommandMessage}
use yubihsm_rs.Response.Message as Response
use yubihsm_rs.Response.Message.{ResponseMessage}
use yubihsm_rs.Session.Error.{
  SessionErrorKind, closed_error, device_error, protocol_error, response_error,
}
use yubihsm_rs.Session.Id.{SessionId}
use yubihsm_rs.Session.SecureChannel.Crypto.{Crypto}
use yubihsm_rs.Session.SecureChannel.Channel.{SecureChannel}
use yubihsm_rs.Session.SecureChannel.Host.{
  Channels, encrypt_command, decrypt_response, authenticate_session, finish_authenticate_session,
}

-- `Duration::from_secs`
abbrev pub from_secs : ℕ → ℕ
from_secs secs = secs * 1_000_000_000

abbrev pub timeout_fuzz_factor : ℕ
timeout_fuzz_factor = from_secs 1

abbrev pub session_inactivity_timeout : ℕ
session_inactivity_timeout = from_secs 30

pub record Session (W : Type 0) : Type 0 where
  pub id : SessionId
  pub connector : W
  pub secure_channel : Option SecureChannel
  pub created_at : ℕ
  pub last_active : ℕ
  pub timeout : ℕ

abbrev pub Sessions : Type 0 → Type 0 → Type 0
Sessions W A = Action SessionErrorKind (Session W) A

-- The data of a response that succeeded with the command's code. Codes are compared by their
-- bytes, which differ.
unfoldable pub accept : CommandCode → ResponseMessage → Result SessionErrorKind (List ℕ)
accept command_code response =
    if Response.is_err response
    then (elim (Response.device_error response) [
      | some kind ↦ err device_error
      | none ↦ err response_error
    ])
    else (elim (Response.command response) [
      | some code ↦
          if CommandCodes.to_u8 code == CommandCodes.to_u8 command_code
          then ok response.data_bytes
          else err response_error
      | none ↦ err response_error
    ])

module _ {W : Type 0} where
  unfoldable pub abort : Session W → Session W
  abort s = record s { secure_channel = none }

  -- `is_timed_out`: the idle time saturates at 0; the timeout is above the fuzz factor since
  -- `open` checks it.
  unfoldable pub is_timed_out : ℕ → Session W → Bool
  is_timed_out now s = leb (s.timeout - timeout_fuzz_factor) (now - s.last_active)

  unfoldable pub is_open : ℕ → Session W → Bool
  unfolding is_timed_out
  is_open now s = elim s.secure_channel [ none ↦ false | some _ ↦ not (is_timed_out now s) ]

  unfoldable pub messages_sent : Session W → Result SessionErrorKind ℕ
  messages_sent s = elim s.secure_channel [
    | none ↦ err closed_error
    | some channel ↦ ok channel.counter
  ]

  -- What an operation of the channel leaves behind.
  abbrev pub kept :
      {A : Type 0}
      → Session W
      → Result SessionErrorKind A × SecureChannel
      → Result SessionErrorKind A × Session W
  kept s (r, channel) = (r, record s { secure_channel = some channel })

  -- The same under `map_err(|e| { self.abort(); e })`.
  abbrev pub kept_or_aborted :
      {A : Type 0}
      → Session W
      → Result SessionErrorKind A × SecureChannel
      → Result SessionErrorKind A × Session W
  kept_or_aborted s (err e, channel) = (err e, abort s)
  kept_or_aborted s (ok a, channel) = (ok a, record s { secure_channel = some channel })
  kept_or_aborted s (panic, channel) = (panic, record s { secure_channel = some channel })

  abbrev pub run_on :
      {A : Type 0}
      → (Result SessionErrorKind A × SecureChannel → Result SessionErrorKind A × Session W)
      → Channels A
      → Option SecureChannel
      → Session W
      → Result SessionErrorKind A × Session W
  run_on keep m none s = (err closed_error, s)
  run_on keep m (some channel) s = keep (m channel)

  -- `self.secure_channel()?` and an operation on it.
  abbrev pub on_channel : {A : Type 0} → Channels A → Sessions W A
  on_channel m s = run_on (kept s) m s.secure_channel s

  abbrev pub on_channel_or_abort : {A : Type 0} → Channels A → Sessions W A
  on_channel_or_abort m s = run_on (kept_or_aborted s) m s.secure_channel s

  -- The connector's answer: a failure ends the session.
  abbrev pub received :
      Session W → Option (List ℕ) × W → Result SessionErrorKind (List ℕ) × Session W
  received s (none, w) = (err protocol_error, abort (record s { connector = w }))
  received s (some bytes, w) = (ok bytes, record s { connector = w })

  module _ (send : List ℕ → W → Option (List ℕ) × W) where
    abbrev pub exchange_bytes : List ℕ → Sessions W (List ℕ)
    exchange_bytes bytes s = received s (send bytes s.connector)

    unfoldable pub send_message : ℕ → CommandMessage → Sessions W ResponseMessage
    send_message now cmd = do
      modify (λ s. record s { last_active = now })
      response_bytes ← exchange_bytes (Command.serialize cmd)
      response ← lift (Response.parse response_bytes)
      if Response.is_err response then fail response_error else pure response

    module _ (c : Crypto) where
      -- `send_command`, up to the reading of the response's data.
      unfoldable pub send_command : ℕ → CommandMessage → Sessions W (List ℕ)
      send_command now plaintext_cmd = do
        encrypted_cmd ← on_channel_or_abort (encrypt_command c plaintext_cmd)
        encrypted_response ← send_message now encrypted_cmd
        response ← on_channel_or_abort (decrypt_response c encrypted_response)
        lift (accept plaintext_cmd.command_type response)

      unfoldable pub authenticate : ℕ → Sessions W Unit
      authenticate now = do
        command ← on_channel (authenticate_session c)
        response ← send_message now command
        on_channel (finish_authenticate_session response)

      -- `close`: a session without a channel, or timed out, is left alone.
      unfoldable pub close : ℕ → Sessions W Unit
      close now s =
          if is_open now s
          then (send_command now (record {
            command_type = CommandCode.close_session;
            session_id = none;
            data_bytes = [];
            mac = none;
          })
                >>= λ _. pure tt)
              s
          else (ok tt, s)
