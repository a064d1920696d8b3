-- ===== src/Session/Client/Open.antt =====
-- A new session (`Session::open` of src/session.rs, src/authentication/credentials.rs). The host's
-- challenge and what the clock says are arguments.
use yubihsm_rs.Base.{ℕ, Option, some, List, Result, ok, err, panic, ltb, if◌then◌else◌}
use yubihsm_rs.Session.Error.{SessionErrorKind, create_failed}
use yubihsm_rs.Session.SecureChannel.Channel.{SecureChannel}
use yubihsm_rs.Session.SecureChannel.Create.{open_channel}
use yubihsm_rs.Session.SecureChannel.Crypto.{Crypto}
use yubihsm_rs.Session.Client.{Session, authenticate, timeout_fuzz_factor}

pub record Credentials : Type 0 where
  pub authentication_key_id : ℕ
  pub authentication_key : List ℕ

-- What `OsRng` and `Instant::now` give while a session is opened and used: the challenge, then the
-- times at which a session is found open, a new one is made, it is authenticated, and a command is
-- sent.
pub record Moment : Type 0 where
  pub host_challenge : List ℕ
  pub checked_at : ℕ
  pub opened_at : ℕ
  pub authenticated_at : ℕ
  pub sent_at : ℕ

module _ {W : Type 0} (send : List ℕ → W → Option (List ℕ) × W) (c : Crypto) where
  unfoldable pub new_session : ℕ → ℕ → SecureChannel → W → Session W
  new_session now timeout channel w = record {
    id = channel.id;
    connector = w;
    secure_channel = some channel;
    created_at = now;
    last_active = now;
    timeout = timeout;
  }

  -- The session, if it is authenticated; else it is dropped.
  abbrev pub authenticated_or_dropped :
      Result SessionErrorKind (Unit {0}) × Session W → Result SessionErrorKind (Session W) × W
  authenticated_or_dropped (ok _, s) = (ok s, s.connector)
  authenticated_or_dropped (err e, s) = (err e, s.connector)
  authenticated_or_dropped (panic, s) = (panic, s.connector)

  abbrev pub with_channel :
      Moment
      → ℕ
      → Result SessionErrorKind SecureChannel × W
      → Result SessionErrorKind (Session W) × W
  with_channel t timeout (ok channel, w) =
      authenticated_or_dropped
        (authenticate send c t.authenticated_at (new_session t.opened_at timeout channel w))
  with_channel t timeout (err e, w) = (err e, w)
  with_channel t timeout (panic, w) = (panic, w)

  unfoldable pub open_session :
      Credentials → ℕ → Moment → W → Result SessionErrorKind (Session W) × W
  unfolding new_session
  open_session credentials timeout t w =
      if ltb timeout_fuzz_factor timeout
      then with_channel t timeout (
          open_channel send c credentials.authentication_key_id credentials.authentication_key
            t.host_challenge w)
      else (err create_failed, w)
