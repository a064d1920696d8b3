-- ===== src/Session/Client/Tests.antt =====
-- A client's session on concrete messages (src/session.rs), with the toy cipher.
use yubihsm_rs.Base.{
  ℕ, ◌+◌, ◌≡◌, ◌≢◌, refl, Option, none, some, List, [], ◌∷◌, replicate, ok, err, arith,
}
use yubihsm_rs.Command.Code as CommandCodes
use yubihsm_rs.Command.Code.{CommandCode}
use yubihsm_rs.Command.Message as Command
use yubihsm_rs.Command.Message.{CommandMessage}
use yubihsm_rs.Response.Code as ResponseCodes
use yubihsm_rs.Response.Code.{ResponseCode}
use yubihsm_rs.Response.Message as Response
use yubihsm_rs.Response.Message.{ResponseMessage}
use yubihsm_rs.Session.Error.{closed_error, command_limit_exceeded, response_error, verify_failed}
use yubihsm_rs.Session.Id
use yubihsm_rs.Session.Mac
use yubihsm_rs.Session.SecureChannel.Channel.{SecureChannel, authenticated, zero_block, mac_text}
use yubihsm_rs.Session.SecureChannel.Toy.{toy, toy-laws, checksum, pad}
use yubihsm_rs.Session.SecureChannel.Rejected.{framed, rmac_of}
use yubihsm_rs.Session.Client.{Session, send_command}
use yubihsm_rs.Session.Client.Delivery.{card_send, linked, send_command-delivers}
use yubihsm_rs.Session.Client.Aborted.{
  asked_of, send_command-limit, send_command-forged, send_command-refused,
}

abbrev channel : SecureChannel
channel = record {
  id = 3;
  counter = 1;
  security_level = authenticated;
  context = replicate 16 5;
  enc_key = replicate 16 6;
  mac_key = replicate 16 7;
  rmac_key = replicate 16 8;
  mac_chaining_value = zero_block;
}

abbrev session : Session SecureChannel
session = record {
  id = 3;
  connector = channel;
  secure_channel = some channel;
  created_at = 0;
  last_active = 0;
  timeout = 30_000_000_000;
}

abbrev echo : CommandMessage
echo = record {
  command_type = CommandCode.echo;
  session_id = none;
  data_bytes = 1 ∷ 2 ∷ 3 ∷ [];
  mac = none;
}

-- A card that echoes the data of every command.
abbrev echoing : CommandMessage → ResponseMessage
echoing m = record {
  code = ResponseCode.success CommandCode.echo;
  session_id = none;
  data_bytes = m.data_bytes;
  mac = none;
}

send_command-delivers_example :
    (next : SecureChannel) × (send_command
        (card_send toy echoing)
        toy
        5
        echo
        (linked session channel)
      ≡ (ok (1 ∷ 2 ∷ 3 ∷ []), linked (record session { last_active = 5 }) next))
    × (next.counter ≡ channel.counter + 1)
send_command-delivers_example =
    send_command-delivers toy toy-laws echoing session channel echo 5 refl (omega arith)
      (omega arith) (record { parts = tt; short = unfold Command.len in omega arith })
      (unfold Command.serialize in omega arith)
      (record {
        own_byte = λ e. cc;
        numbered = unfold Response.has_session_id in tt;
        signed = unfold Response.has_rmac in tt;
        short = unfold Response.len in omega arith;
      })
      (unfold Response.serialize in omega arith) refl

-- A connector that gives one answer to every frame.
abbrev answering : List ℕ → List ℕ → SecureChannel → Option (List ℕ) × SecureChannel
answering reply bytes w = (some reply, w)

abbrev exhausted : SecureChannel
exhausted = record channel { counter = 0x10_0000 }

send_command-limit_example :
    (send_command (answering []) toy 5 echo (record session { secure_channel = some exhausted })
      ≡ (err command_limit_exceeded, record session { secure_channel = none }))
    × (send_command (answering []) toy 5 echo (record session { secure_channel = none })
        ≡ (err closed_error, record session { secure_channel = none }))
send_command-limit_example =
    send_command-limit (answering []) toy session exhausted echo echo 5 refl (omega arith)

-- An answer with a MAC of zeros.
abbrev forged : List ℕ
forged = 0x85 ∷ 0 ∷ 10 ∷ 3 ∷ 1 ∷ replicate 8 0

send_command-forged_example :
    send_command (answering forged) toy 5 echo (record session { secure_channel = some channel })
    ≡ (
      err verify_failed,
      record session { secure_channel = none; last_active = 5; connector = channel },
    )
send_command-forged_example =
    send_command-forged (answering forged) toy toy-laws session channel echo 5 forged (1 ∷ [])
      (replicate 8 0) channel refl (omega arith) (unfold pad Command.serialize in omega arith) refl
      read other
  where
    read :
        Response.parse forged
        ≡ ok (framed 3 (ResponseCode.success CommandCode.session_message) (1 ∷ []) (replicate 8 0))
    read =
        unfold Response.parse ResponseCodes.from_u8 CommandCodes.from_u8 Response.split_session_id
          Response.has_session_id Response.first_id Id.from_u8 Response.split_mac Response.has_rmac
          Response.last_mac Mac.from_slice in
        refl

    other :
        replicate 8 0
        ≢ rmac_of toy
            (asked_of toy channel echo)
            (ResponseCode.success CommandCode.session_message)
            (1 ∷ [])
    other e =
        unfold Mac.truncate mac_text checksum pad Command.serialize CommandCodes.to_u8
          ResponseCodes.to_u8 in
        cc

-- The frame of the device's error for an invalid session.
abbrev refusal : List ℕ
refusal = 0x7f ∷ 0 ∷ 1 ∷ 3 ∷ []

abbrev refused : ResponseMessage
refused = record {
  code = ResponseCode.memory_error;
  session_id = none;
  data_bytes = 3 ∷ [];
  mac = none;
}

send_command-refused_example :
    (kept : SecureChannel) × (send_command
        (answering refusal)
        toy
        5
        echo
        (record session { secure_channel = some channel })
      ≡ (
        err response_error,
        record session { secure_channel = some kept; last_active = 5; connector = channel },
      ))
    × (kept.counter ≡ channel.counter)
    × (kept.security_level ≡ authenticated)
send_command-refused_example =
    send_command-refused (answering refusal) toy toy-laws session channel echo 5 refusal refused
      channel refl (omega arith) (unfold pad Command.serialize in omega arith) refl read
      (unfold Response.is_err ResponseCodes.is_success in refl)
  where
    read : Response.parse refusal ≡ ok refused
    read =
        unfold Response.parse ResponseCodes.from_u8 ResponseCodes.from_negative
          Response.split_session_id Response.has_session_id Response.split_mac Response.has_rmac in
        refl
