-- ===== src/Session/Client/Aborted.antt =====
-- How a client's session ends, and when it stays open after an error (src/session.rs).
use yubihsm_rs.Base.{
  ℕ, ◌≤◌, ◌<◌, ◌≡◌, ◌≢◌, refl, Option, none, some, List, length, ok, err, Bool, true,
}
use yubihsm_rs.Command.Code.{CommandCode}
use yubihsm_rs.Command.Message as Command
use yubihsm_rs.Command.Message.{CommandMessage}
use yubihsm_rs.Response.Code.{ResponseCode}
use yubihsm_rs.Response.Code as ResponseCodes
use yubihsm_rs.Response.Message as Response
use yubihsm_rs.Response.Message.{ResponseMessage}
use yubihsm_rs.Session.Error.{closed_error, command_limit_exceeded, response_error, verify_failed}
use yubihsm_rs.Session.SecureChannel.Crypto.{Crypto, CryptoLaws}
use yubihsm_rs.Session.SecureChannel.Channel.{
  SecureChannel, authenticated, max_commands_per_session,
}
use yubihsm_rs.Session.SecureChannel.Sealed.{sealed, signed, chained, encrypt_command_ok}
use yubihsm_rs.Session.SecureChannel.Rejected.{
  framed, rmac_of, decrypt_response-forged, encrypt_command-limit,
}
use yubihsm_rs.Session.Client.{Session, abort, send_message, send_command}

module _ (c : Crypto) where
  -- What goes to the card for a command.
  abbrev pub frame_of : SecureChannel → CommandMessage → List ℕ
  frame_of channel m =
      Command.serialize
        (signed c channel CommandCode.session_message (sealed c channel (Command.serialize m)))

  abbrev pub asked_of : SecureChannel → CommandMessage → SecureChannel
  asked_of channel m =
      chained c channel CommandCode.session_message (sealed c channel (Command.serialize m))

module _ {W : Type 0} (send : List ℕ → W → Option (List ℕ) × W) (c : Crypto) where
  -- On a session whose authenticated channel has reached the limit of commands, `send_command`
  -- fails with `command_limit_exceeded`, the connector is not used and the session has no channel
  -- any more; the next call fails with `closed_error`.
  pub send_command-limit :
      (s : Session W) (channel : SecureChannel) (m next : CommandMessage) (now : ℕ)
      → channel.security_level ≡ authenticated
      → max_commands_per_session ≤ channel.counter
      → (send_command send c now m (record s { secure_channel = some channel })
          ≡ (err command_limit_exceeded, record s { secure_channel = none }))
        × (send_command send c now next (record s { secure_channel = none })
            ≡ (err closed_error, record s { secure_channel = none }))
  unfolding send_command abort
  send_command-limit s channel m next now level over =
      (rw (encrypt_command-limit c channel m level over), refl)

module _ {W : Type 0} (send : List ℕ → W → Option (List ℕ) × W) (c : Crypto)
    (laws : CryptoLaws c) where
  -- On a session with an authenticated channel below the limit of commands, a command that fits a
  -- message once it is encrypted goes out: if the connector answers with a frame that is read as an
  -- encrypted answer with the session's number and a MAC that is not the MAC of its data, then
  -- `send_command` fails with `verify_failed`, and the session is without its channel.
  pub send_command-forged :
      (s : Session W) (channel : SecureChannel) (m : CommandMessage) (now : ℕ)
      (reply bytes mac : List ℕ) (w : W)
      → channel.security_level ≡ authenticated
      → channel.counter < max_commands_per_session
      → length (sealed c channel (Command.serialize m)) ≤ Command.max_msg_size
      → send (frame_of c channel m) s.connector ≡ (some reply, w)
      → Response.parse reply
        ≡ ok (framed channel.id (ResponseCode.success CommandCode.session_message) bytes mac)
      → mac
        ≢ rmac_of c (asked_of c channel m) (ResponseCode.success CommandCode.session_message) bytes
      → send_command send c now m (record s { secure_channel = some channel })
        ≡ (err verify_failed, record s { secure_channel = none; last_active = now; connector = w })
  unfolding send_command send_message abort
  send_command-forged s channel m now reply bytes mac w level below short sent read differ =
      rw (encrypt_command_ok c laws channel m level below short) (
        rw sent (
          rw read (
            rw passes (
              rw (
                (decrypt_response-forged c laws (asked_of c channel m)
                  (ResponseCode.success CommandCode.session_message) bytes mac m level
                  differ).0)))))
    where
      passes :
          Response.is_err
            (framed channel.id (ResponseCode.success CommandCode.session_message) bytes mac)
          ≡ Bool.false
      passes = unfold Response.is_err ResponseCodes.is_success in refl

  -- On a session with an authenticated channel below the limit of commands, a command that fits a
  -- message once it is encrypted goes out: if the connector answers with a frame that is read as an
  -- error response, in place of an encrypted answer, then `send_command` fails with
  -- `response_error`, and the session keeps its channel, authenticated and with the counter as
  -- before.
  pub send_command-refused :
      (s : Session W) (channel : SecureChannel) (m : CommandMessage) (now : ℕ) (reply : List ℕ)
      (r : ResponseMessage) (w : W)
      → channel.security_level ≡ authenticated
      → channel.counter < max_commands_per_session
      → length (sealed c channel (Command.serialize m)) ≤ Command.max_msg_size
      → send (frame_of c channel m) s.connector ≡ (some reply, w)
      → Response.parse reply ≡ ok r
      → Response.is_err r ≡ true
      → (kept : SecureChannel) × (send_command send c now m
            (record s { secure_channel = some channel })
          ≡ (
            err response_error,
            record s { secure_channel = some kept; last_active = now; connector = w },
          ))
        × (kept.counter ≡ channel.counter)
        × (kept.security_level ≡ authenticated)
  unfolding send_command send_message
  send_command-refused s channel m now reply r w level below short sent read refused = (
    asked_of c channel m,
    rw (encrypt_command_ok c laws channel m level below short) (rw sent (rw read (rw refused))),
    refl,
    level,
  )
