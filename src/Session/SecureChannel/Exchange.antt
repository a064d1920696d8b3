-- ===== src/Session/SecureChannel/Exchange.antt =====
-- A command and its answer over an authenticated channel: both ends of
-- src/session/securechannel.rs and the frames between them, in the order in which
-- src/session.rs and src/mockhsm/command.rs call them.
use yubihsm_rs.Base.{
  ℕ, ◌+◌, ◌≤◌, ◌<◌, ◌≡◌, refl, some, List, [], ◌∷◌, length, ok, arith, All, Result,
}
use mathlib.Core.List.{map}
use yubihsm_rs.Base.Actions.{Action, pure, lift, zoom, zoom_eq, ◌>>=◌}
use yubihsm_rs.Command.Message as Command
use yubihsm_rs.Command.Message.{CommandMessage}
use yubihsm_rs.Command.Message.RoundTrip as CommandFrames
use yubihsm_rs.Response.Message as Response
use yubihsm_rs.Response.Message.{ResponseMessage}
use yubihsm_rs.Response.Message.Parts as ResponseParts
use yubihsm_rs.Response.Message.RoundTrip as ResponseFrames
use yubihsm_rs.Session.Error.{SessionErrorKind}
use yubihsm_rs.Session.SecureChannel.Crypto.{Crypto, CryptoLaws}
use yubihsm_rs.Session.SecureChannel.Channel.{
  SecureChannel, authenticated, max_commands_per_session,
}
use yubihsm_rs.Session.SecureChannel.Host.{Channels, encrypt_command, decrypt_response}
use yubihsm_rs.Session.SecureChannel.Card.{decrypt_command, encrypt_response}
use yubihsm_rs.Session.SecureChannel.Sealed.{sealed, encrypt_command_ok, decrypt_command_ok}
use yubihsm_rs.Session.SecureChannel.Answered.{counted, encrypt_response_ok, decrypt_response_ok}
use yubihsm_rs.Session.SecureChannel.Frames.{
  asked, signed-IsWellFormed, answer-IsWellFormed, sealed_command-le, sealed_response-le,
}

-- The two ends of a channel.
pub record Ends : Type 0 where
  pub host : SecureChannel
  pub card : SecureChannel

-- A command and the answer that the card gives to it.
pub record Turn : Type 0 where
  pub command : CommandMessage
  pub response : ResponseMessage

abbrev pub Meetings : Type 0 → Type 0
Meetings A = Action SessionErrorKind Ends A

abbrev pub on_host : {A : Type 0} → Channels A → Meetings A
on_host m = zoom (λ ends. ends.host) (λ host ends. record ends { host = host }) m

abbrev pub on_card : {A : Type 0} → Channels A → Meetings A
on_card m = zoom (λ ends. ends.card) (λ card ends. record ends { card = card }) m

pub on_host_eq :
    {A : Type 0} (m : Channels A) (h k : SecureChannel) {r : Result SessionErrorKind A}
    {h' : SecureChannel}
    → m h ≡ (r, h')
    → on_host m (record { host = h; card = k }) ≡ (r, record { host = h'; card = k })
on_host_eq m h k e = zoom_eq _ _ m _ e

pub on_card_eq :
    {A : Type 0} (m : Channels A) (h k : SecureChannel) {r : Result SessionErrorKind A}
    {k' : SecureChannel}
    → m k ≡ (r, k')
    → on_card m (record { host = h; card = k }) ≡ (r, record { host = h; card = k' })
on_card_eq m h k e = zoom_eq _ _ m _ e

module _ (c : Crypto) where
  -- The command goes to the card in a frame. The result is what the card read.
  unfoldable pub ask : CommandMessage → Meetings CommandMessage
  ask command = do
    encrypted_command ← on_host (encrypt_command c command)
    cmd_message ← lift (Command.parse (Command.serialize encrypted_command))
    on_card (decrypt_command c cmd_message)

  -- The answer comes back in a frame. The result is what the host read.
  unfoldable pub reply : ResponseMessage → Meetings ResponseMessage
  reply response = do
    encrypted_response ← on_card (encrypt_response c response)
    response_message ← lift (Response.parse (Response.serialize encrypted_response))
    on_host (decrypt_response c response_message)

  unfoldable pub exchange : Turn → Meetings Turn
  exchange turn = do
    command ← ask turn.command
    response ← reply turn.response
    pure (record { command = command; response = response })

  unfoldable pub converse : List Turn → Meetings (List Turn)
  converse [] = pure []
  converse (turn ∷ turns) = do
    delivered ← exchange turn
    rest ← converse turns
    pure (delivered ∷ rest)

-- Messages that a frame can hold, before and after they are encrypted.
pub record Fits (turn : Turn) : Type 0 where
  pub asked : CommandFrames.IsWellFormed turn.command
  pub answered : ResponseParts.IsWellFormed turn.response
  pub asked_short : length (Command.serialize turn.command) < 2048
  pub answered_short : length (Response.serialize turn.response) < 65520

abbrev pub both : SecureChannel → Ends
both s = record { host = s; card = s }

-- The session number that both messages get.
abbrev pub labelled : ℕ → Turn → Turn
labelled id turn = record {
  command = record turn.command { session_id = some id };
  response = record turn.response { session_id = some id };
}

module _ (c : Crypto) (laws : CryptoLaws c) where
  ask_ok :
      (s : SecureChannel) (m : CommandMessage)
      → s.security_level ≡ authenticated
      → s.id ≤ 16
      → s.counter < max_commands_per_session
      → CommandFrames.IsWellFormed m
      → length (Command.serialize m) < 2048
      → ask c m (both s) ≡ (ok (record m { session_id = some s.id }), both (asked c laws s m))
  unfolding ask
  ask_ok s m level named below w short =
      rw
        (on_host_eq (encrypt_command c m) s s
          (encrypt_command_ok c laws s m level below (sealed_command-le c laws s m short)))
        (rw
          (CommandFrames.command_parse-serialize _ (
            signed-IsWellFormed c laws s (sealed c s (Command.serialize m)) named
              (sealed_command-le c laws s m short)))
          (rw (
            on_card_eq (decrypt_command c _) (asked c laws s m) s
              (decrypt_command_ok c laws s m level w))))

  reply_ok :
      (s : SecureChannel) (r : ResponseMessage)
      → s.security_level ≡ authenticated
      → s.id ≤ 16
      → s.counter < max_commands_per_session
      → ResponseParts.IsWellFormed r
      → length (Response.serialize r) < 65520
      → reply c r (both s) ≡ (ok (record r { session_id = some s.id }), both (counted s))
  unfolding reply
  reply_ok s r level named below w short =
      rw
        (on_card_eq (encrypt_response c r) s s (encrypt_response_ok c laws s r level (omega arith)))
        (rw
          (ResponseFrames.response_parse-serialize _ (
            answer-IsWellFormed c laws s (sealed c s (Response.serialize r)) named
              (sealed_response-le c laws s r short)))
          (rw (
            on_host_eq (decrypt_response c _) s (counted s)
              (decrypt_response_ok c laws s r level (omega arith) w))))

  -- What the two ends make of a turn, from the same state.
  exchange_ok :
      (s : SecureChannel) (turn : Turn)
      → s.security_level ≡ authenticated
      → s.id ≤ 16
      → s.counter < max_commands_per_session
      → Fits turn
      → exchange c turn (both s)
        ≡ (ok (labelled s.id turn), both (counted (asked c laws s turn.command)))
  unfolding exchange
  exchange_ok s turn level named below fits =
      rw (ask_ok s turn.command level named below fits.asked fits.asked_short) (
        rw (
          reply_ok (asked c laws s turn.command) turn.response level named below fits.answered
            fits.answered_short))

  -- From one authenticated state of both ends, with a session number of at most 16, every list of
  -- turns that fit frames and stay below the limit of commands is delivered: each end reads what
  -- the other sent, under the session's number, and both end in one authenticated state, of the
  -- same session with the same encryption key, whose counter has grown by the number of turns.
  pub converse-delivers :
      (s : SecureChannel) (turns : List Turn)
      → s.security_level ≡ authenticated
      → s.id ≤ 16
      → s.counter + length turns ≤ max_commands_per_session
      → All Fits turns
      → (t : SecureChannel) × (converse c turns (both s) ≡ (ok (map (labelled s.id) turns), both t))
        × (t.counter ≡ s.counter + length turns)
        × (t.security_level ≡ authenticated)
        × (t.id ≡ s.id)
        × (t.enc_key ≡ s.enc_key)
  unfolding converse
  converse-delivers s [] level named below fits = (s, refl, omega arith, level, refl, refl)
  converse-delivers s (turn ∷ turns) level named below fits =
      let u = counted (asked c laws s turn.command) in
      let (t, run, count, still, number, key) =
        converse-delivers u turns level named (omega arith) fits.1 in
      (
        t,
        rw (exchange_ok s turn level named (omega arith) fits.0) (rw run),
        omega arith,
        still,
        number,
        key,
      )
