-- ===== src/MockHsm/Opened.antt =====
-- A client opens a session with the simulated device (`Session::open` of src/session.rs,
-- `create_session` and `authenticate_session` of src/mockhsm/command.rs).
use yubihsm_rs.Base.{
  ℕ, ◌^◌, ◌≤◌, ◌<◌, ◌≡◌, refl, some, List, [], length, ok, arith, Bool, ==_refl, true, ltb,
  length-append,
}
use yubihsm_rs.Base.Programs.{◌>>=◌, get, lift, pure}
use yubihsm_rs.Command.Code.{CommandCode}
use yubihsm_rs.Command.Message as Command
use yubihsm_rs.Command.Message.{CommandMessage}
use yubihsm_rs.Command.Message.RoundTrip as CommandFrames
use yubihsm_rs.Object.Types.{ObjectType}
use yubihsm_rs.Response.Code as ResponseCodes
use yubihsm_rs.Response.Message as Response
use yubihsm_rs.Response.Message.RoundTrip as ResponseFrames
use yubihsm_rs.Session.Error.{SessionErrorKind}
use yubihsm_rs.Session.Client as Client
use yubihsm_rs.Session.Client.{Session, timeout_fuzz_factor}
use yubihsm_rs.Session.Client.Open.{Moment, open_session, new_session}
use yubihsm_rs.Session.SecureChannel.Channel.{SecureChannel, authenticated}
use yubihsm_rs.Session.SecureChannel.Create.{create_session_command}
use yubihsm_rs.Session.SecureChannel.Create as Create
use yubihsm_rs.Session.SecureChannel.Created.{request, invitation, open_channel-create_session}
use yubihsm_rs.Session.SecureChannel.Crypto.{Crypto, CryptoLaws}
use yubihsm_rs.Session.SecureChannel.Handshake.{derived, new_ok, card_cryptogram_ok, length-derived}
use yubihsm_rs.Session.SecureChannel.Opening as Opening
use yubihsm_rs.Session.SecureChannel.Sealed.{signed}
use yubihsm_rs.Session.SecureChannel.Card.{verify_authenticate_session}
use yubihsm_rs.Wire.{write}
use yubihsm_rs.Wire.Integers.{be_bytes, length-be_bytes}
use yubihsm_rs.Wire.RoundTrip.{deserialize-write}
use yubihsm_rs.Wrap.Info.{field}
use yubihsm_rs.MockHsm.Answers.{advanced, on_channel_ok}
use yubihsm_rs.MockHsm.Commands.Signing.{Signers}
use yubihsm_rs.MockHsm.Connection as Connection
use yubihsm_rs.MockHsm.Connection.{Shared}
use yubihsm_rs.MockHsm.Error.{ConnectorErrorKind}
use yubihsm_rs.MockHsm.Keys.{Keys}
use yubihsm_rs.MockHsm.Maps.{lookup, insert, max_key, lookup-insert}
use yubihsm_rs.MockHsm.Numbering.{next_number, create_session-creates}
use yubihsm_rs.MockHsm.Objects as Objects
use yubihsm_rs.MockHsm.Objects.{Object}
use yubihsm_rs.MockHsm.Payload as Payload
use yubihsm_rs.MockHsm.Requests.{parsed, success}
use yubihsm_rs.MockHsm.Service.{free, device_send}
use yubihsm_rs.MockHsm.State as State
use yubihsm_rs.MockHsm.State.{State, HsmSession}

parsed_ok :
    (key_id : ℕ) (host_challenge : List ℕ)
    → key_id < 2 ^ 16
    → length host_challenge ≡ 8
    → parsed {E = ConnectorErrorKind} create_session_command some
        (write create_session_command (key_id, host_challenge))
      ≡ ok (key_id, host_challenge)
unfolding parsed field
parsed_ok key_id host_challenge h k =
    rw (deserialize-write create_session_command (key_id, host_challenge) (tt, tt) (h, k))

request-IsWellFormed :
    (key_id : ℕ) (host_challenge : List ℕ)
    → length host_challenge ≡ 8
    → CommandFrames.IsWellFormed (request key_id host_challenge)
request-IsWellFormed key_id host_challenge h = record {
  parts = tt;
  short =
      unfold Command.len write in
      omega (arith, length-append (be_bytes 2 key_id) host_challenge, length-be_bytes 2 key_id, h);
}

module _ {K : Keys} (S : Signers K) (c : Crypto) (random : ℕ → List ℕ) (laws : CryptoLaws c)
    (s : State K) (key host_challenge : List ℕ) (named : next_number K (max_key s.sessions) ≤ 16)
    (size : length key ≡ 32) (eight : length (random 8) ≡ 8) where
  -- The number of the new session, its channel on both ends, and the device with it.
  abbrev pub number : ℕ
  number = next_number K (max_key s.sessions)

  abbrev pub channel : SecureChannel
  channel = Opening.start c laws number key host_challenge (random 8) named size

  abbrev pub created : State K
  created = record s {
    sessions = insert number (State.new_session number (random 8) channel) s.sessions;
  }

  abbrev pub proven : SecureChannel
  proven = Opening.after c laws number key host_challenge (random 8) named size

  abbrev pub opened : State K
  opened = advanced (State.new_session number (random 8) channel) proven created

  abbrev cryptogram : List ℕ
  cryptogram = derived c channel.mac_key 0 channel.context 8

  keyed : length channel.mac_key ≡ 16
  keyed = length-derived c laws _ 6 channel.context 16 (omega arith)

  create_session_ok :
      (key_id : ℕ) (object : Object K)
      → key_id < 2 ^ 16
      → length host_challenge ≡ 8
      → Objects.get_object K key_id ObjectType.authentication_key s.objects ≡ some object
      → Payload.as_authentication_key K object.payload ≡ some key
      → device_send S c random (Command.serialize (request key_id host_challenge)) (free s)
        ≡ (some (Response.serialize (invitation number (random 8) cryptogram)), free created)
  unfolding device_send Connection.send_message Connection.under_lock Connection.dispatched
      Connection.create_session success Response.success State.new_session ◌>>=◌ lift get pure
  create_session_ok key_id object h k found is_key =
      rw (CommandFrames.command_parse-serialize _ (request-IsWellFormed key_id host_challenge k)) (
        rw (parsed_ok key_id host_challenge h k) (
          rw
            ((create_session-creates K c key_id host_challenge (random 8) s object key channel named
              found is_key
              (new_ok c laws {E = ConnectorErrorKind} number key host_challenge (random 8) size)).1)
            (rw (card_cryptogram_ok c laws {E = ConnectorErrorKind} channel keyed))))

  made :
      Create.create_session c number key host_challenge (random 8)
      ≡ ok (channel, invitation number (random 8) cryptogram)
  unfolding Create.create_session Response.success
  made =
      rw (new_ok c laws {E = SessionErrorKind} number key host_challenge (random 8) size)
        (rw (card_cryptogram_ok c laws {E = SessionErrorKind} channel keyed))

  filed : lookup number created.sessions ≡ some (State.new_session number (random 8) channel)
  filed =
      rw (lookup-insert number number (State.new_session number (random 8) channel) s.sessions)
        (rw (==_refl number))

  authenticate_session_ok :
      device_send S c random
        (Command.serialize (
          signed c channel CommandCode.authenticate_session
            (Opening.proof_bytes c laws number key host_challenge (random 8) named size)))
        (free created)
      ≡ (
        some (Response.serialize (Response.success CommandCode.authenticate_session [])),
        free opened,
      )
  unfolding device_send Connection.send_message Connection.under_lock Connection.dispatched
      Connection.authenticate_session State.new_session ◌>>=◌ lift get pure
  authenticate_session_ok =
      rw
        (CommandFrames.command_parse-serialize _
          (Opening.frame c laws number key host_challenge (random 8) named size))
        (rw (
          on_channel_ok S c random (verify_authenticate_session c _) created number
            (State.new_session number (random 8) channel) _ proven filed
            (Opening.verify_authenticate_session_ok c laws number key host_challenge (random 8)
              named size)))

  -- The session on the host's side.
  abbrev pub held : ℕ → ℕ → ℕ → SecureChannel → State K → Session (Shared K)
  held created_at last_active timeout channel device = record {
    id = number;
    connector = free device;
    secure_channel = some channel;
    created_at = created_at;
    last_active = last_active;
    timeout = timeout;
  }

  authenticate_ok :
      (opened_at now timeout : ℕ)
      → Client.authenticate
          (device_send S c random)
          c
          now
          (held opened_at opened_at timeout channel created)
        ≡ (ok tt, held opened_at now timeout proven opened)
  unfolding Client.authenticate Client.send_message
  authenticate_ok opened_at now timeout =
      rw (Opening.authenticate_session_ok c laws number key host_challenge (random 8) named size) (
        rw authenticate_session_ok (
          rw
            (ResponseFrames.response_parse-serialize _
              (Opening.answer_frame c laws number key host_challenge (random 8) named size))
            (rw succeeded
              (rw (Opening.finish_ok c laws number key host_challenge (random 8) named size)))))
    where
      succeeded :
          Response.is_err (Response.success CommandCode.authenticate_session []) ≡ Bool.false
      succeeded = unfold Response.is_err Response.success ResponseCodes.is_success in refl

  -- The simulated device has the authentication key of the client's credentials, of 32 bytes, and
  -- the number that comes next is at most 16. Then a session is opened with it, with any challenges
  -- of eight bytes and any timeout of more than a second: the client and the device have the same
  -- channel, which is authenticated and counts one command, under that number.
  pub open_session-device :
      (key_id timeout : ℕ) (object : Object K) (t : Moment)
      → t.host_challenge ≡ host_challenge
      → key_id < 2 ^ 16
      → length host_challenge ≡ 8
      → timeout_fuzz_factor < timeout
      → Objects.get_object K key_id ObjectType.authentication_key s.objects ≡ some object
      → Payload.as_authentication_key K object.payload ≡ some key
      → (open_session
            (device_send S c random)
            c
            (record { authentication_key_id = key_id; authentication_key = key })
            timeout
            t
            (free s)
          ≡ (ok (held t.opened_at t.authenticated_at timeout proven opened), free opened))
        × (lookup number opened.sessions
            ≡ some (record (State.new_session number (random 8) channel) { channel = proven }))
        × (proven.security_level ≡ authenticated)
        × (proven.counter ≡ 1)
  unfolding open_session new_session
  open_session-device key_id timeout object t same h k long found is_key = (
    rw enough (
        rw same (
          rw
            (open_channel-create_session (device_send S c random) c laws (free s) (free created)
              key_id number key host_challenge (random 8) channel
              (invitation number (random 8) cryptogram) named size k eight made
              (create_session_ok key_id object h k found is_key))
            (rw (authenticate_ok t.opened_at t.authenticated_at timeout)))),
    rw
        (lookup-insert number number
          (record (State.new_session number (random 8) channel) { channel = proven })
          created.sessions)
        (rw (==_refl number)),
    refl,
    refl,
  )
    where
      enough : ltb timeout_fuzz_factor timeout ≡ true
      enough = ground arith
