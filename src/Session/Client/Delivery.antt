-- ===== src/Session/Client/Delivery.antt =====
-- A command that a client's session sends to a card (src/session.rs): the connector hands the
-- frame to the card's end of the channel, which answers what a function makes of the command.
use yubihsm_rs.Base.{
  ℕ, ◌+◌, ◌≤◌, ◌<◌, ◌≡◌, refl, Option, none, some, List, length, Result, ok, err, panic, arith,
  false, ==_refl,
}
use yubihsm_rs.Base.Actions.{pure, lift, ◌>>=◌}
use yubihsm_rs.Command.Code as CommandCodes
use yubihsm_rs.Command.Code.{CommandCode}
use yubihsm_rs.Command.Message as Command
use yubihsm_rs.Command.Message.{CommandMessage}
use yubihsm_rs.Command.Message.RoundTrip as CommandFrames
use yubihsm_rs.Response.Code as ResponseCodes
use yubihsm_rs.Response.Code.{ResponseCode}
use yubihsm_rs.Response.Message as Response
use yubihsm_rs.Response.Message.{ResponseMessage}
use yubihsm_rs.Response.Message.Parts as ResponseParts
use yubihsm_rs.Response.Message.RoundTrip as ResponseFrames
use yubihsm_rs.Session.Error.{SessionErrorKind}
use yubihsm_rs.Session.SecureChannel.Crypto.{Crypto, CryptoLaws}
use yubihsm_rs.Session.SecureChannel.Channel.{
  SecureChannel, authenticated, max_commands_per_session,
}
use yubihsm_rs.Session.SecureChannel.Host.{Channels}
use yubihsm_rs.Session.SecureChannel.Card.{decrypt_command, encrypt_response}
use yubihsm_rs.Session.SecureChannel.Sealed.{sealed, signed, encrypt_command_ok, decrypt_command_ok}
use yubihsm_rs.Session.SecureChannel.Answered.{
  answer, counted, encrypt_response_ok, decrypt_response_ok,
}
use yubihsm_rs.Session.SecureChannel.Frames.{
  asked, signed-IsWellFormed, answer-IsWellFormed, sealed_command-le, sealed_response-le,
}
use yubihsm_rs.Session.Client.{Session, accept, send_message, send_command}

abbrev outcome : Result SessionErrorKind (List ℕ) × SecureChannel → Option (List ℕ) × SecureChannel
outcome (ok bytes, card) = (some bytes, card)
outcome (err _, card) = (none, card)
outcome (panic, card) = (none, card)

module _ (c : Crypto) (handler : CommandMessage → ResponseMessage) where
  unfoldable pub card_answer : List ℕ → Channels (List ℕ)
  card_answer bytes = do
    cmd_message ← lift (Command.parse bytes)
    command ← decrypt_command c cmd_message
    response ← encrypt_response c (handler command)
    pure (Response.serialize response)

  unfoldable pub card_send : List ℕ → SecureChannel → Option (List ℕ) × SecureChannel
  card_send bytes card = outcome (card_answer bytes card)

-- A session whose connector leads to a card with the same state of the channel.
abbrev pub linked : Session SecureChannel → SecureChannel → Session SecureChannel
linked s channel = record s { secure_channel = some channel; connector = channel }

pub accept_ok :
    (code : CommandCode) (id : ℕ) (r : ResponseMessage)
    → r.code ≡ ResponseCode.success code
    → accept code (record r { session_id = some id }) ≡ ok r.data_bytes
unfolding accept Response.is_err ResponseCodes.is_success Response.command
accept_ok code id r h = rw h (rw (==_refl (CommandCodes.to_u8 code)))

module _ (c : Crypto) (laws : CryptoLaws c) (handler : CommandMessage → ResponseMessage) where
  card_send_ok :
      (s : SecureChannel) (m : CommandMessage)
      → s.security_level ≡ authenticated
      → s.id ≤ 16
      → s.counter < max_commands_per_session
      → CommandFrames.IsWellFormed m
      → length (Command.serialize m) < 2048
      → card_send c handler
          (Command.serialize
            (signed c s CommandCode.session_message (sealed c s (Command.serialize m))))
          s
        ≡ (
          some (
              Response.serialize (
                answer c (asked c laws s m) (
                  sealed c s
                    (Response.serialize (handler (record m { session_id = some s.id })))))),
          counted (asked c laws s m),
        )
  unfolding card_send card_answer
  card_send_ok s m level named below w short =
      rw
        (CommandFrames.command_parse-serialize _ (
          signed-IsWellFormed c laws s (sealed c s (Command.serialize m)) named
            (sealed_command-le c laws s m short)))
        (rw (decrypt_command_ok c laws s m level w) (
          rw (
            encrypt_response_ok c laws (asked c laws s m)
              (handler (record m { session_id = some s.id })) level (omega arith))))

  -- A session with an open, authenticated channel below the limit of commands, whose card is in
  -- the same state, sends a command that fits a frame: if the card answers it with a success of
  -- that command, which fits a frame too, then `send_command` returns the data of the answer, and
  -- both ends are in the same state again.
  pub send_command-delivers :
      (s : Session SecureChannel) (channel : SecureChannel) (m : CommandMessage) (now : ℕ)
      → channel.security_level ≡ authenticated
      → channel.id ≤ 16
      → channel.counter < max_commands_per_session
      → CommandFrames.IsWellFormed m
      → length (Command.serialize m) < 2048
      → ResponseParts.IsWellFormed (handler (record m { session_id = some channel.id }))
      → length (Response.serialize (handler (record m { session_id = some channel.id }))) < 65520
      → (handler (record m { session_id = some channel.id })).code
        ≡ ResponseCode.success m.command_type
      → (next : SecureChannel) × (send_command (card_send c handler) c now m (linked s channel) ≡ (
        ok (handler (record m { session_id = some channel.id })).data_bytes,
        linked (record s { last_active = now }) next,
      ))
        × (next.counter ≡ channel.counter + 1)
  unfolding send_command send_message
  send_command-delivers s ch m now level named below w short v fits same = (
    counted (asked c laws ch m),
    rw (encrypt_command_ok c laws ch m level below (sealed_command-le c laws ch m short)) (
        rw (card_send_ok ch m level named below w short) (
          rw
            (ResponseFrames.response_parse-serialize _ (
              answer-IsWellFormed c laws (asked c laws ch m) (sealed c ch (Response.serialize r))
                named (sealed_response-le c laws ch r fits)))
            (rw (answer_is_success (asked c laws ch m) (sealed c ch (Response.serialize r))) (
              rw (decrypt_response_ok c laws (asked c laws ch m) r level (omega arith) v)
                (rw (accept_ok m.command_type ch.id r same)))))),
    refl,
  )
    where
      r : ResponseMessage
      r = handler (record m { session_id = some ch.id })

      answer_is_success :
          (t : SecureChannel) (bytes : List ℕ) → Response.is_err (answer c t bytes) ≡ false
      answer_is_success t bytes = unfold Response.is_err ResponseCodes.is_success in refl
