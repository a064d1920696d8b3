-- ===== src/MockHsm/Tests/Sessions.antt =====
-- Frames and sessions of the simulated device on concrete bytes (src/mockhsm/state.rs,
-- src/mockhsm/connection.rs), with the toy cipher.
use yubihsm_rs.Base.{
  ℕ, ◌+◌, ◌≡◌, refl, arith, List, [], ◌∷◌, replicate, Result, ok, err, panic, none, some,
}
use yubihsm_rs.Command.Code.{CommandCode}
use yubihsm_rs.Command.Message as Command
use yubihsm_rs.Command.Message.{CommandMessage}
use yubihsm_rs.Response.Code.{ResponseCode}
use yubihsm_rs.Response.Message as Response
use yubihsm_rs.Response.Message.{ResponseMessage}
use yubihsm_rs.Object.Types.{ObjectType}
use yubihsm_rs.Session.SecureChannel.Channel as Channel
use yubihsm_rs.Session.SecureChannel.Channel.{SecureChannel, authenticated, zero_block}
use yubihsm_rs.Session.SecureChannel.Toy.{toy, toy-laws}
use yubihsm_rs.Session.Client.{Session, send_command}
use yubihsm_rs.MockHsm.Answers.{advanced}
use yubihsm_rs.MockHsm.Commands.Signing.{Signers}
use yubihsm_rs.Base.Programs.{pure}
use yubihsm_rs.Session.SecureChannel.Frames.{asked}
use yubihsm_rs.MockHsm.Requests.{success}
use yubihsm_rs.MockHsm.Commands.Device as Device
use yubihsm_rs.MockHsm.Connection as Connection
use yubihsm_rs.MockHsm.Connection.{Shared}
use yubihsm_rs.MockHsm.Maps.{lookup, max_key}
use yubihsm_rs.MockHsm.Numbering.{create_session_exhausted}
use yubihsm_rs.MockHsm.Objects as Objects
use yubihsm_rs.MockHsm.Payload as Payload
use yubihsm_rs.MockHsm.Preserved.Frames.{start, sent, reachable-IsValid}
use yubihsm_rs.MockHsm.Service.{free, device_send, send_command-device}
use yubihsm_rs.MockHsm.State as State
use yubihsm_rs.MockHsm.State.{State, HsmSession}
use yubihsm_rs.MockHsm.Tests.{keys, hmac_params, put_object}
use yubihsm_rs.MockHsm.Payload.{Payload}
use yubihsm_rs.MockHsm.Objects.{Object}
use yubihsm_rs.MockHsm.Error.{ConnectorErrorKind}
use yubihsm_rs.MockHsm.Validity.{IsValid}

abbrev pub signers : Signers keys
signers = record {
  p256_sign = λ key random digest. some digest;
  k256_sign = λ key random digest. some digest;
  ed25519_sign = λ key message. message;
  hmac_sha256 = λ key message. replicate 32 3;
  pss_sign = λ mgf key random digest. some digest;
  pkcs1v15_sign = λ size key digest. some digest;
}

-- A source of random bytes that are all 9.
abbrev pub nines : ℕ → List ℕ
nines n = replicate n 9

abbrev pub channel : SecureChannel
channel = record {
  id = 3;
  counter = 1;
  security_level = authenticated;
  context = replicate 16 5;
  enc_key = replicate 16 6;
  mac_key = replicate 16 7;
  rmac_key = replicate 16 8;
  mac_chaining_value = zero_block;
}

abbrev session : HsmSession
session = record { id = 3; card_challenge = replicate 8 9; channel = channel }

-- A device with one session, which has the number `n`.
abbrev with_session : ℕ → State keys
with_session n = record (State.new keys) { sessions = (n, session) ∷ [] }

abbrev client : Session (Shared keys)
client = record {
  id = 3;
  connector = free (with_session 3);
  secure_channel = some channel;
  created_at = 0;
  last_active = 0;
  timeout = 30_000_000_000;
}

abbrev pub echo : CommandMessage
echo = record {
  command_type = CommandCode.echo;
  session_id = none;
  data_bytes = 1 ∷ 2 ∷ 3 ∷ [];
  mac = none;
}

abbrev echoed : ResponseMessage
echoed = record {
  code = ResponseCode.success CommandCode.echo;
  session_id = none;
  data_bytes = 1 ∷ 2 ∷ 3 ∷ [];
  mac = none;
}

create_session_exhausted_example :
    State.create_session keys toy 1 (replicate 8 0) (replicate 8 1) (with_session 16)
    ≡ (panic, with_session 16)
create_session_exhausted_example =
    create_session_exhausted keys toy 1 (replicate 8 0) (replicate 8 1) (with_session 16)
      (unfold max_key in refl)

reachable-IsValid_example :
    IsValid
      ((Connection.send_message keys signers toy nines (0 ∷ 0 ∷ 0 ∷ []) (free (State.new keys))).1
        ).state
reachable-IsValid_example =
    reachable-IsValid signers toy
      (Connection.send_message keys signers toy nines (0 ∷ 0 ∷ 0 ∷ []) (free (State.new keys))).1
      (sent nines (0 ∷ 0 ∷ 0 ∷ []) (free (State.new keys)) start)

-- The device when the handler has run.
abbrev after_echo : State keys
after_echo = advanced session (asked toy toy-laws channel echo) (with_session 3)

send_command-device_example :
    (next : SecureChannel) × (send_command
        (device_send signers toy nines)
        toy
        5
        echo
        (record client { secure_channel = some channel; connector = free (with_session 3) })
      ≡ (
        ok (1 ∷ 2 ∷ 3 ∷ []),
        record client {
          secure_channel = some next;
          connector = free (advanced session next after_echo);
          last_active = 5;
        },
      ))
    × (next.counter ≡ 1 + 1)
unfolding Response.success
send_command-device_example =
    send_command-device signers toy nines toy-laws client (with_session 3) after_echo session echo
      echoed 5 (unfold lookup in refl) refl (omega arith) (omega arith)
      (record { parts = tt; short = unfold Command.len in omega arith })
      (unfold Command.serialize in omega arith) refl
      (unfold Connection.handled Device.echo success pure in refl)
      (record {
        own_byte = λ e. cc;
        numbered = unfold Response.has_session_id in tt;
        signed = unfold Response.has_rmac in tt;
        short = unfold Response.len in omega arith;
      })
      (unfold Response.serialize in omega arith) refl

-- A device with an authentication key and no session.
abbrev pub key_object : Object keys
key_object =
    put_object ObjectType.authentication_key hmac_params
      (Payload.authentication_key (replicate 32 1)) 32

abbrev pub with_key : State keys
with_key = record (State.new keys) { objects = (258, key_object) ∷ [] }

abbrev derived : Result ConnectorErrorKind SecureChannel → SecureChannel
derived (ok s) = s
derived (err e) = channel
derived panic = channel

abbrev created : SecureChannel
created = derived (Channel.new toy 0 (replicate 32 1) (replicate 8 0) (replicate 8 9))
