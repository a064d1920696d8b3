-- ===== src/MockHsm/Answers.antt =====
-- A frame of an authenticated session at the simulated device, and its answer
-- (src/mockhsm/connection.rs, src/mockhsm/command.rs, src/session/securechannel.rs).
use yubihsm_rs.Base.{
  ℕ, ◌<◌, ◌≡◌, refl, sym, ap, ◌∙◌, some, List, ok, arith, Bool, true, false, ==_refl,
}
use yubihsm_rs.Base.Programs.{modify-Keeps, ◌>>=◌, get, modify, lift, pure}
use yubihsm_rs.Command.Code.{CommandCode}
use yubihsm_rs.Command.Message as Command
use yubihsm_rs.Command.Message.{CommandMessage}
use yubihsm_rs.Command.Message.RoundTrip as CommandFrames
use yubihsm_rs.Response.Message as Response
use yubihsm_rs.Response.Message.{ResponseMessage}
use yubihsm_rs.Session.SecureChannel.Crypto.{Crypto, CryptoLaws}
use yubihsm_rs.Session.SecureChannel.Channel.{
  SecureChannel, authenticated, max_commands_per_session,
}
use yubihsm_rs.Session.SecureChannel.Host.{Channels}
use yubihsm_rs.Session.SecureChannel.Card.{decrypt_command, encrypt_response}
use yubihsm_rs.Session.SecureChannel.Sealed.{sealed, signed, decrypt_command_ok}
use yubihsm_rs.Session.SecureChannel.Answered.{answer, counted, encrypt_response_ok}
use yubihsm_rs.Session.SecureChannel.Frames.{asked}
use yubihsm_rs.MockHsm.Commands.Signing.{Signers}
use yubihsm_rs.MockHsm.Connection as Connection
use yubihsm_rs.MockHsm.Connection.{Shared}
use yubihsm_rs.MockHsm.Keys.{Keys}
use yubihsm_rs.MockHsm.Maps.{Map, lookup, insert, lookup-insert}
use yubihsm_rs.MockHsm.Preserved.{Rules}
use yubihsm_rs.MockHsm.Preserved.Handled.{handled-Keeps}
use yubihsm_rs.MockHsm.State as State
use yubihsm_rs.MockHsm.State.{State, Hsm, HsmSession}

-- The sessions with the channel of one of them changed.
abbrev pub advanced : {K : Keys} → HsmSession → SecureChannel → State K → State K
advanced session channel s = record s {
  sessions = insert channel.id (record session { channel = channel }) s.sessions;
}

-- Handlers leave the sessions alone.
sessions_rules : {K : Keys} (sessions : Map HsmSession) → Rules K (λ s. s.sessions ≡ sessions)
sessions_rules sessions = record {
  objects = λ m h. record { kept = λ s p. unfold State.on_objects in p };
  options = λ f same. modify-Keeps f (λ s p. (same s).1 ∙ p);
}

module _ {K : Keys} (S : Signers K) (c : Crypto) (random : ℕ → List ℕ) where
  handled-sessions :
      (code : CommandCode) (bytes : List ℕ) (s : State K)
      → ((Connection.handled K S c random code bytes s).1).sessions ≡ s.sessions
  handled-sessions code bytes s =
      (handled-Keeps (sessions_rules s.sessions) S c random code bytes).kept s refl

  pub on_channel_ok :
      {A : Type 0} (m : Channels A) (s : State K) (id : ℕ) (session : HsmSession) (a : A)
      (channel : SecureChannel)
      → lookup id s.sessions ≡ some session
      → m session.channel ≡ (ok a, channel)
      → State.on_channel K id m s ≡ (
        ok a,
        record s { sessions = insert id (record session { channel = channel }) s.sessions },
      )
  unfolding State.on_channel State.get_session State.session_found State.kept ◌>>=◌ get modify lift
      pure
  on_channel_ok m s id session a channel found e = rw found (rw e)

  -- The commands after which the session is gone.
  abbrev pub is_last : CommandCode → Bool
  is_last CommandCode.close_session = true
  is_last CommandCode.reset_device = true
  is_last _ = false

  routed-eq :
      (code : CommandCode) (id : ℕ) (bytes : List ℕ)
      → is_last code ≡ false
      → Connection.routed K S c random code id bytes
        ≡ Connection.respond K S c random id (Connection.handled K S c random code bytes)
  unfolding Connection.routed
  routed-eq CommandCode.close_session id bytes h = cc
  routed-eq CommandCode.reset_device id bytes h = cc
  routed-eq _ id bytes h = refl

  module _ (laws : CryptoLaws c) where
    -- What `session_message` makes of a command, on the way to its handler and back.
    pub session_message_ok :
        (s s' : State K) (session : HsmSession) (m : CommandMessage) (r : ResponseMessage)
        → lookup session.channel.id s.sessions ≡ some session
        → session.channel.security_level ≡ authenticated
        → session.channel.counter < max_commands_per_session
        → CommandFrames.IsWellFormed m
        → is_last m.command_type ≡ false
        → Connection.handled K S c random m.command_type m.data_bytes
            (advanced session (asked c laws session.channel m) s)
          ≡ (ok r, s')
        → Connection.session_message K S c random
            (signed c session.channel CommandCode.session_message
              (sealed c session.channel (Command.serialize m)))
            s
          ≡ (
            ok (
                Response.serialize (
                  answer c
                    (asked c laws session.channel m)
                    (sealed c session.channel (Response.serialize r)))),
            advanced session (counted (asked c laws session.channel m)) s',
          )
    unfolding Connection.session_message Connection.respond ◌>>=◌ lift pure
    session_message_ok s s' session m r found level below w ordinary ran =
        rw
          (on_channel_ok (decrypt_command c _) s session.channel.id session _ _ found
            (decrypt_command_ok c laws session.channel m level w))
          (rw (routed-eq m.command_type session.channel.id m.data_bytes ordinary) (
            rw ran (
              rw (
                on_channel_ok (encrypt_response c r) s' session.channel.id
                  (record session { channel = asked c laws session.channel m }) _ _ still
                  (encrypt_response_ok c laws (asked c laws session.channel m) r level
                    (omega arith))))))
      where
        sessions : s'.sessions ≡ (advanced session (asked c laws session.channel m) s).sessions
        sessions =
            ap (λ p. (p.1).sessions) (sym ran)
            ∙ handled-sessions m.command_type m.data_bytes
                (advanced session (asked c laws session.channel m) s)

        still :
            lookup session.channel.id s'.sessions
            ≡ some (record session { channel = asked c laws session.channel m })
        still = rw sessions (
            rw
              (lookup-insert session.channel.id session.channel.id
                (record session { channel = asked c laws session.channel m }) s.sessions)
              (rw (==_refl session.channel.id)))
