-- ===== src/MockHsm/Service.antt =====
-- A client's session with the simulated device: the host of src/session.rs, its frames, and the
-- device of src/mockhsm that answers them.
use yubihsm_rs.Base.{
  ℕ, ◌+◌, ◌≤◌, ◌<◌, ◌≡◌, refl, Option, none, some, List, length, Result, ok, err, panic, arith,
  false,
}
use yubihsm_rs.Base.Programs.{◌>>=◌, get, lift}
use yubihsm_rs.Command.Code.{CommandCode}
use yubihsm_rs.Command.Message as Command
use yubihsm_rs.Command.Message.{CommandMessage}
use yubihsm_rs.Command.Message.RoundTrip as CommandFrames
use yubihsm_rs.Response.Code as ResponseCodes
use yubihsm_rs.Response.Code.{ResponseCode}
use yubihsm_rs.Response.Message as Response
use yubihsm_rs.Response.Message.{ResponseMessage}
use yubihsm_rs.Response.Message.Parts as ResponseParts
use yubihsm_rs.Response.Message.RoundTrip as ResponseFrames
use yubihsm_rs.Session.Client.{Session, send_message, send_command}
use yubihsm_rs.Session.Client.Delivery.{accept_ok}
use yubihsm_rs.Session.SecureChannel.Crypto.{Crypto, CryptoLaws}
use yubihsm_rs.Session.SecureChannel.Channel.{
  SecureChannel, authenticated, max_commands_per_session,
}
use yubihsm_rs.Session.SecureChannel.Sealed.{sealed, signed, encrypt_command_ok}
use yubihsm_rs.Session.SecureChannel.Answered.{answer, counted, decrypt_response_ok}
use yubihsm_rs.Session.SecureChannel.Frames.{
  asked, signed-IsWellFormed, answer-IsWellFormed, sealed_command-le, sealed_response-le,
}
use yubihsm_rs.MockHsm.Answers.{advanced, is_last, session_message_ok}
use yubihsm_rs.MockHsm.Commands.Signing.{Signers}
use yubihsm_rs.MockHsm.Connection as Connection
use yubihsm_rs.MockHsm.Connection.{Shared}
use yubihsm_rs.MockHsm.Error.{ConnectorErrorKind}
use yubihsm_rs.MockHsm.Keys.{Keys}
use yubihsm_rs.MockHsm.Maps.{lookup}
use yubihsm_rs.MockHsm.State.{State, HsmSession}

-- What the client gets from the connector: a frame, or a failure.
abbrev outcome : {W : Type 0} → Result ConnectorErrorKind (List ℕ) × W → Option (List ℕ) × W
outcome (ok bytes, w) = (some bytes, w)
outcome (err _, w) = (none, w)
outcome (panic, w) = (none, w)

-- A device whose lock is free.
abbrev pub free : {K : Keys} → State K → Shared K
free s = record { state = s; is_poisoned = false }

module _ {K : Keys} (S : Signers K) (c : Crypto) (random : ℕ → List ℕ) where
  -- The connector that leads to the device (`Connection for MockConnection`).
  unfoldable pub device_send : List ℕ → Shared K → Option (List ℕ) × Shared K
  device_send bytes w = outcome (Connection.send_message K S c random bytes w)

  module _ (laws : CryptoLaws c) where
    device_send_ok :
        (s s' : State K) (session : HsmSession) (m : CommandMessage) (r : ResponseMessage)
        → lookup session.channel.id s.sessions ≡ some session
        → session.channel.security_level ≡ authenticated
        → session.channel.id ≤ 16
        → session.channel.counter < max_commands_per_session
        → CommandFrames.IsWellFormed m
        → length (Command.serialize m) < 2048
        → is_last S c random m.command_type ≡ false
        → Connection.handled K S c random m.command_type m.data_bytes
            (advanced session (asked c laws session.channel m) s)
          ≡ (ok r, s')
        → device_send
            (Command.serialize (
              signed c session.channel CommandCode.session_message
                (sealed c session.channel (Command.serialize m))))
            (free s)
          ≡ (
            some (
                Response.serialize (
                  answer c
                    (asked c laws session.channel m)
                    (sealed c session.channel (Response.serialize r)))),
            free (advanced session (counted (asked c laws session.channel m)) s'),
          )
    unfolding device_send Connection.send_message Connection.under_lock Connection.dispatched ◌>>=◌
        lift get
    device_send_ok s s' session m r found level named below w short ordinary ran =
        rw
          (CommandFrames.command_parse-serialize _ (
            signed-IsWellFormed c laws session.channel
              (sealed c session.channel (Command.serialize m)) named
              (sealed_command-le c laws session.channel m short)))
          (rw
            (session_message_ok S c random laws s s' session m r found level below w ordinary ran))

    -- A client's session and the simulated device have one authenticated channel in the same state,
    -- below the limit of commands, and the device's lock is free. The session sends a command that
    -- fits a frame and that is not one that ends the session. If its handler answers with a success
    -- of that command, which fits a frame too, then `send_command` returns the data of the answer,
    -- the device is in the state that the handler left, and both ends have the same channel again,
    -- with the command counted.
    pub send_command-device :
        (client : Session (Shared K)) (s s' : State K) (session : HsmSession) (m : CommandMessage)
        (r : ResponseMessage) (now : ℕ)
        → lookup session.channel.id s.sessions ≡ some session
        → session.channel.security_level ≡ authenticated
        → session.channel.id ≤ 16
        → session.channel.counter < max_commands_per_session
        → CommandFrames.IsWellFormed m
        → length (Command.serialize m) < 2048
        → is_last S c random m.command_type ≡ false
        → Connection.handled K S c random m.command_type m.data_bytes
            (advanced session (asked c laws session.channel m) s)
          ≡ (ok r, s')
        → ResponseParts.IsWellFormed r
        → length (Response.serialize r) < 65520
        → r.code ≡ ResponseCode.success m.command_type
        → (next : SecureChannel) × (send_command device_send c now m
              (record client { secure_channel = some session.channel; connector = free s })
            ≡ (
              ok r.data_bytes,
              record client {
                secure_channel = some next;
                connector = free (advanced session next s');
                last_active = now;
              },
            ))
          × (next.counter ≡ session.channel.counter + 1)
    unfolding send_command send_message
    send_command-device client s s' session m r now found level named below w short ordinary ran v
          fits same =
        (
          counted (asked c laws session.channel m),
          rw
              (encrypt_command_ok c laws session.channel m level below
                (sealed_command-le c laws session.channel m short))
              (rw (device_send_ok s s' session m r found level named below w short ordinary ran) (
                rw
                  (ResponseFrames.response_parse-serialize _ (
                    answer-IsWellFormed c laws (asked c laws session.channel m)
                      (sealed c session.channel (Response.serialize r)) named
                      (sealed_response-le c laws session.channel r fits)))
                  (rw
                    (answer_is_success (asked c laws session.channel m)
                      (sealed c session.channel (Response.serialize r)))
                    (rw
                      (decrypt_response_ok c laws (asked c laws session.channel m) r level
                        (omega arith) v)
                      (rw (accept_ok m.command_type session.channel.id r same)))))),
          refl,
        )
      where
        answer_is_success :
            (t : SecureChannel) (bytes : List ℕ) → Response.is_err (answer c t bytes) ≡ false
        answer_is_success t bytes = unfold Response.is_err ResponseCodes.is_success in refl
