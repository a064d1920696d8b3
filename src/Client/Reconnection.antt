-- ===== src/Client/Reconnection.antt =====
-- A client that reaches the limit of commands goes on with a new session (src/client.rs).
use yubihsm_rs.Base.{ℕ, ◌≤◌, ◌≡◌, Option, some, List, ok, true}
use yubihsm_rs.Command.Message.{CommandMessage}
use yubihsm_rs.Session.SecureChannel.Channel.{
  SecureChannel, authenticated, max_commands_per_session,
}
use yubihsm_rs.Session.SecureChannel.Crypto.{Crypto}
use yubihsm_rs.Session.Client as Sessions
use yubihsm_rs.Session.Client.{Session, is_open, session_inactivity_timeout}
use yubihsm_rs.Session.Client.Aborted.{send_command-limit}
use yubihsm_rs.Session.Client.Open.{Credentials, Moment, open_session}
use yubihsm_rs.Client.{Client, has_open, send_command, session, retried, sent, converted, returned}

module _ {W : Type 0} (send : List ℕ → W → Option (List ℕ) × W) (c : Crypto) where
  -- A client has an open session whose authenticated channel has reached the limit of commands. If
  -- it has credentials, and a session is opened with them over the client's connector, then
  -- `send_command` does what the new session does with the command, once: the device was not sent
  -- the command before, and the client keeps the new session.
  pub client_send_command-reconnects :
      (client : Client W) (s opened : Session W) (channel : SecureChannel)
      (credentials : Credentials) (first again : Moment) (m : CommandMessage) (w : W)
      → client.session ≡ some s
      → s.secure_channel ≡ some channel
      → is_open first.checked_at s ≡ true
      → channel.security_level ≡ authenticated
      → max_commands_per_session ≤ channel.counter
      → client.credentials ≡ some credentials
      → open_session send c credentials session_inactivity_timeout again client.connector
        ≡ (ok opened, w)
      → send_command send c first again m client
        ≡ converted send c (
            returned send c
              (record client { connector = w; session = some opened })
              (Sessions.send_command send c again.sent_at m (record opened { connector = w })))
  unfolding send_command session retried sent has_open is_open
  client_send_command-reconnects client s opened channel credentials first again m w hs hc ho level
        over hk hw =
      rw hs (
        rw ho (
          rw hc (
            rw
              ((send_command-limit send c (record s { connector = client.connector }) channel m m
                first.sent_at level over).0)
              (rw hk (rw hw (rw hk))))))
