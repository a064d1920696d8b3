-- ===== src/MockHsm/Tests/Reconnection.antt =====
-- A client that opens a session with the simulated device, and one that does it again at the limit
-- of commands (src/client.rs, src/session.rs, src/mockhsm), with the toy cipher.
use yubihsm_rs.Base.{ℕ, ◌≤◌, ◌≡◌, refl, arith, List, replicate, ok, some}
use yubihsm_rs.Session.SecureChannel.Toy.{toy, toy-laws}
use yubihsm_rs.Session.SecureChannel.Channel.{SecureChannel, authenticated}
use yubihsm_rs.Session.Client as Sessions
use yubihsm_rs.Client.{Client, send_command, converted, returned}
use yubihsm_rs.Client.Reconnection.{client_send_command-reconnects}
use yubihsm_rs.Session.Client.{Session, session_inactivity_timeout, is_open, is_timed_out}
use yubihsm_rs.Session.Client.Open.{Credentials, Moment, open_session}
use yubihsm_rs.MockHsm.Connection.{Shared}
use yubihsm_rs.MockHsm.Service.{free, device_send}
use yubihsm_rs.Object.Info.{rank}
use yubihsm_rs.MockHsm.Maps.{lookup, max_key}
use yubihsm_rs.MockHsm.Numbering.{next_number}
use yubihsm_rs.MockHsm.Objects as Objects
use yubihsm_rs.MockHsm.Payload as Payload
use yubihsm_rs.MockHsm.Opened as Opened
use yubihsm_rs.MockHsm.Opened.{open_session-device}
use yubihsm_rs.MockHsm.State as State
use yubihsm_rs.MockHsm.State.{State}
use yubihsm_rs.MockHsm.Tests.{keys}
use yubihsm_rs.MockHsm.Tests.Sessions.{signers, nines, channel, echo, with_key, key_object}

abbrev credentials : Credentials
credentials = record { authentication_key_id = 1; authentication_key = replicate 32 1 }

abbrev moment : Moment
moment = record {
  host_challenge = replicate 8 0;
  checked_at = 10;
  opened_at = 11;
  authenticated_at = 12;
  sent_at = 13;
}

-- What the two ends are when the session is open.
abbrev key : List ℕ
key = replicate 32 1

abbrev named : next_number keys (max_key with_key.sessions) ≤ 16
named = unfold max_key State.new in omega arith

abbrev proven : SecureChannel
proven = Opened.proven signers toy nines toy-laws with_key key (replicate 8 0) named refl refl

abbrev device : State keys
device = Opened.opened signers toy nines toy-laws with_key key (replicate 8 0) named refl refl

abbrev number : ℕ
number = Opened.number signers toy nines toy-laws with_key key (replicate 8 0) named refl refl

abbrev held : Session (Shared keys)
held =
    Opened.held signers toy nines toy-laws with_key key (replicate 8 0) named refl refl 11 12
      session_inactivity_timeout proven device

open_session-device_example :
    (open_session
        (device_send signers toy nines)
        toy
        credentials
        session_inactivity_timeout
        moment
        (free with_key)
      ≡ (ok held, free device))
    × (lookup number device.sessions
        ≡ some
            (record (State.new_session number (replicate 8 9) (
              Opened.channel signers toy nines toy-laws with_key key
                (replicate 8 0)
                named
                refl
                refl)) { channel = proven }))
    × (proven.security_level ≡ authenticated)
    × (proven.counter ≡ 1)
open_session-device_example =
    open_session-device signers toy nines toy-laws with_key key (replicate 8 0) named refl refl 1
      session_inactivity_timeout key_object moment refl (omega arith) refl (omega arith)
      (unfold Objects.get_object lookup rank in refl) (unfold Payload.as_authentication_key in refl)

session_opened :
    open_session
      (device_send signers toy nines)
      toy
      credentials
      session_inactivity_timeout
      moment
      (free with_key)
    ≡ (ok held, free device)
session_opened =
    (open_session-device signers toy nines toy-laws with_key key (replicate 8 0) named refl refl 1
      session_inactivity_timeout key_object moment refl (omega arith) refl (omega arith)
      (unfold Objects.get_object lookup rank in refl)
      (unfold Payload.as_authentication_key in refl)).0

abbrev exhausted : SecureChannel
exhausted = record channel { counter = 0x10_0000 }

abbrev stale : Session (Shared keys)
stale = record {
  id = 3;
  connector = free with_key;
  secure_channel = some exhausted;
  created_at = 0;
  last_active = 0;
  timeout = session_inactivity_timeout;
}

abbrev client : Client (Shared keys)
client = record { connector = free with_key; session = some stale; credentials = some credentials }

client_send_command-reconnects_example :
    send_command (device_send signers toy nines) toy moment moment echo client
    ≡ converted (device_send signers toy nines) toy (
        returned
          (device_send signers toy nines)
          toy
          (record client { connector = free device; session = some held })
          (Sessions.send_command
            (device_send signers toy nines)
            toy
            13
            echo
            (record held { connector = free device })))
client_send_command-reconnects_example =
    client_send_command-reconnects (device_send signers toy nines) toy client stale held exhausted
      credentials moment moment echo (free device) refl refl (unfold is_open is_timed_out in refl)
      refl (omega arith) refl session_opened
