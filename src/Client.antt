-- ===== src/Client.antt =====
-- The client's connection to the device (src/client.rs, src/client/error.rs): the session that it
-- holds, opens again and sends commands with. The connector of a session is a clone of the
-- client's, which leads to the same device: its state is the client's, and is handed to the session
-- for each call. A panic while the session's lock is held ends the model of a client.
pub mod Reconnection
use yubihsm_rs.Base.{
  ℕ, Option, none, some, List, Result, ok, err, panic, Bool, true, false, if◌then◌else◌,
}
use yubihsm_rs.Base.Actions.{Action, pure, ◌>>=◌, ◌>>◌}
use yubihsm_rs.Command.Message.{CommandMessage}
use yubihsm_rs.Session.Error.{SessionErrorKind}
use yubihsm_rs.Session.SecureChannel.Crypto.{Crypto}
use yubihsm_rs.Session.Client as Sessions
use yubihsm_rs.Session.Client.{Session, is_open, session_inactivity_timeout}
use yubihsm_rs.Session.Client.Open.{Credentials, Moment, open_session}

pub data ClientErrorKind : Type 0 where
  authentication_error closed_session_error connector_error create_failed device_error
        protocol_error response_error :
      ClientErrorKind

-- `From<session::Error>`
unfoldable pub from_session : SessionErrorKind → ClientErrorKind
from_session SessionErrorKind.authentication_error = ClientErrorKind.authentication_error
from_session SessionErrorKind.closed_error = ClientErrorKind.closed_session_error
from_session SessionErrorKind.create_failed = ClientErrorKind.create_failed
from_session SessionErrorKind.device_error = ClientErrorKind.device_error
from_session SessionErrorKind.protocol_error = ClientErrorKind.protocol_error
from_session SessionErrorKind.command_limit_exceeded = ClientErrorKind.protocol_error
from_session SessionErrorKind.mismatch_error = ClientErrorKind.protocol_error
from_session SessionErrorKind.verify_failed = ClientErrorKind.protocol_error
from_session SessionErrorKind.response_error = ClientErrorKind.response_error

pub record Client (W : Type 0) : Type 0 where
  pub connector : W
  pub session : Option (Session W)
  pub credentials : Option Credentials

module _ {W : Type 0} where
  -- `create`
  unfoldable pub create : W → Credentials → Client W
  create connector credentials = record {
    connector = connector;
    session = none;
    credentials = some credentials;
  }

  has_open : ℕ → Option (Session W) → Bool
  has_open now none = false
  has_open now (some s) = is_open now s

  module _ (send : List ℕ → W → Option (List ℕ) × W) (c : Crypto) where
    -- A new session takes the place of the old one; if none is opened, the old one stays.
    abbrev pub renewed :
        Client W
        → Result SessionErrorKind (Session W) × W
        → Result ClientErrorKind (Unit {0}) × Client W
    renewed client (ok s, w) = (ok tt, record client { connector = w; session = some s })
    renewed client (err e, w) = (err (from_session e), record client { connector = w })
    renewed client (panic, w) = (panic, record client { connector = w })

    -- `session`: what it leaves in the client is the session that it returns.
    unfoldable pub session : Moment → Action ClientErrorKind (Client W) (Unit {0})
    unfolding has_open
    session t client =
        if has_open t.checked_at client.session then (ok tt, client) else (elim client.credentials [
          | none ↦ (err ClientErrorKind.authentication_error, client)
          | some credentials ↦
              renewed client
                (open_session send c credentials session_inactivity_timeout t client.connector)
        ])

    -- What a call of the session leaves behind.
    abbrev pub returned :
        {A : Type 0}
        → Client W
        → Result SessionErrorKind A × Session W
        → Result SessionErrorKind A × Client W
    returned client (r, s) = (r, record client { connector = s.connector; session = some s })

    -- The guard's session with the client's connector. The guard holds one.
    abbrev pub with_session :
        {A : Type 0}
        → Action SessionErrorKind (Session W) A
        → Client W
        → Result SessionErrorKind A × Client W
    with_session m client = elim client.session [
      | none ↦ (panic, client)
      | some s ↦ returned client (m (record s { connector = client.connector }))
    ]

    abbrev pub converted :
        {A : Type 0} → Result SessionErrorKind A × Client W → Result ClientErrorKind A × Client W
    converted (ok a, client) = (ok a, client)
    converted (err e, client) = (err (from_session e), client)
    converted (panic, client) = (panic, client)

    sent : Moment → CommandMessage → Client W → Result SessionErrorKind (List ℕ) × Client W
    sent t command client = with_session (Sessions.send_command send c t.sent_at command) client

    -- The command again, on a new session, if the first try met the limit of commands.
    unfoldable pub retried :
        Moment
        → CommandMessage
        → Result SessionErrorKind (List ℕ) × Client W
        → Result ClientErrorKind (List ℕ) × Client W
    unfolding sent
    retried again command (err SessionErrorKind.command_limit_exceeded, client) =
        (session again >>= λ _ d. converted (sent again command d)) client
    retried again command (r, client) = converted (r, client)

    -- `send_command`, up to the reading of the response's data, with what the clock and `OsRng`
    -- give to each of the two tries.
    unfoldable pub send_command :
        Moment → Moment → CommandMessage → Action ClientErrorKind (Client W) (List ℕ)
    unfolding sent
    send_command first again command = do
      session first
      λ client. retried again command (sent first command client)

    -- `connect`
    unfoldable pub connect : Moment → Action ClientErrorKind (Client W) (Unit {0})
    connect t = session t

  -- `open`: the credentials are forgotten unless sessions are to be opened again.
  unfoldable pub open_client :
      (List ℕ → W → Option (List ℕ) × W)
      → Crypto
      → Moment
      → W
      → Credentials
      → Bool
      → Result ClientErrorKind (Client W)
  unfolding create
  open_client send c t connector credentials reconnect =
      kept_credentials (connect send c t (create connector credentials))
    where
      kept_credentials :
          Result ClientErrorKind (Unit {0}) × Client W → Result ClientErrorKind (Client W)
      kept_credentials (ok _, client) =
          ok (if reconnect then client else record client { credentials = none })
      kept_credentials (err e, client) = err e
      kept_credentials (panic, client) = panic
