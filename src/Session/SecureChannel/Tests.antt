-- ===== src/Session/SecureChannel/Tests.antt =====
-- The channel on concrete keys and messages (src/session/securechannel.rs), with the toy cipher.
mod Accepted
use yubihsm_rs.Base.{
  ℕ, ap, Result, Option, some, take, ◌+◌, ◌≡◌, ◌≢◌, ◌↔◌, refl, none, List, [], ◌∷◌, length,
  replicate, ok, err, panic, arith, All,
}
use mathlib.Core.List.{map}
use yubihsm_rs.Command.Code.{CommandCode}
use yubihsm_rs.Command.Message as Command
use yubihsm_rs.Command.Message.{CommandMessage}
use yubihsm_rs.Response.Code as ResponseCodes
use yubihsm_rs.Response.Code.{ResponseCode}
use yubihsm_rs.Response.Message as Response
use yubihsm_rs.Response.Message.{ResponseMessage}
use yubihsm_rs.Session.Error.{authentication_error, protocol_error, SessionErrorKind, verify_failed}
use yubihsm_rs.Session.Mac
use yubihsm_rs.Session.SecureChannel.Channel.{
  new, mac_text, SecureChannel, authenticated, terminate, zero_block, card_cryptogram,
}
use yubihsm_rs.Session.SecureChannel.Host.{verify_response_mac, decrypt_response, encrypt_command}
use yubihsm_rs.Session.SecureChannel.Kdf.{
  derive, derive_key, from_slice, from_challenges, derivation_data, enc_half, mac_half,
}
use yubihsm_rs.Session.SecureChannel.Create.{create_session, open_channel}
use yubihsm_rs.Session.SecureChannel.Created.{
  invitation, open_channel-create_session, open_channel-other_key,
}
use yubihsm_rs.Session.SecureChannel.Toy.{toy, toy-laws, checksum}
use yubihsm_rs.Session.SecureChannel.Answered.{counted}
use yubihsm_rs.Session.SecureChannel.Exchange.{
  Turn, Fits, both, labelled, converse, converse-delivers,
}
use yubihsm_rs.Session.SecureChannel.Handshake.{fresh, open_ends}
use yubihsm_rs.Session.SecureChannel.Opening.{authenticate, open_ends-authenticate-converse}
use yubihsm_rs.Session.SecureChannel.Rejected.{
  erased, framed, rmac_of, verify_response_mac_iff, decrypt_response-forged,
  decrypt_response-misaddressed,
}

abbrev echo : CommandMessage
echo = record {
  command_type = CommandCode.echo;
  session_id = none;
  data_bytes = 1 ∷ 2 ∷ 3 ∷ [];
  mac = none;
}

abbrev echoed : ResponseMessage
echoed = record {
  code = ResponseCode.success CommandCode.echo;
  session_id = none;
  data_bytes = 1 ∷ 2 ∷ 3 ∷ [];
  mac = none;
}

abbrev refused : ResponseMessage
refused = record {
  code = ResponseCode.memory_error;
  session_id = none;
  data_bytes = 11 ∷ [];
  mac = none;
}

abbrev turns : List Turn
turns =
    record { command = echo; response = echoed }
    ∷ record { command = echo; response = refused }
    ∷ []

abbrev channel : SecureChannel
channel = record {
  id = 3;
  counter = 1;
  security_level = authenticated;
  context = replicate 16 5;
  enc_key = replicate 16 6;
  mac_key = replicate 16 7;
  rmac_key = replicate 16 8;
  mac_chaining_value = zero_block;
}

turns-Fits : All Fits turns
turns-Fits = (one, (two, tt))
  where
    one : Fits (record { command = echo; response = echoed })
    one = record {
      asked = record { parts = tt; short = unfold Command.len in omega arith };
      answered = record {
        own_byte = λ e. cc;
        numbered = unfold Response.has_session_id in tt;
        signed = unfold Response.has_rmac in tt;
        short = unfold Response.len in omega arith;
      };
      asked_short = unfold Command.serialize in omega arith;
      answered_short = unfold Response.serialize in omega arith;
    }

    two : Fits (record { command = echo; response = refused })
    two = record {
      asked = record { parts = tt; short = unfold Command.len in omega arith };
      answered = record {
        own_byte = λ e. cc;
        numbered = unfold Response.has_session_id in tt;
        signed = unfold Response.has_rmac in tt;
        short = unfold Response.len in omega arith;
      };
      asked_short = unfold Command.serialize in omega arith;
      answered_short = unfold Response.serialize in omega arith;
    }

open_ends-authenticate-converse_example :
    (ends opened closed : SecureChannel) × (open_ends toy 3
        (replicate 32 9)
        (replicate 32 9)
        (replicate 8 1)
        (replicate 8 2)
      ≡ ok (both ends))
    × (authenticate toy (both ends) ≡ (ok tt, both opened))
    × (opened.security_level ≡ authenticated)
    × (opened.counter ≡ 1)
    × (opened.id ≡ 3)
    × (converse toy turns (both opened) ≡ (ok (map (labelled 3) turns), both closed))
    × (closed.counter ≡ 1 + length turns)
open_ends-authenticate-converse_example =
    open_ends-authenticate-converse toy toy-laws 3 (replicate 32 9) (replicate 8 1) (replicate 8 2)
      turns (omega arith) refl (omega arith) turns-Fits

converse-delivers_example :
    (t : SecureChannel) × (converse toy turns (both channel)
      ≡ (ok (map (labelled 3) turns), both t))
    × (t.counter ≡ channel.counter + length turns)
    × (t.security_level ≡ authenticated)
    × (t.id ≡ channel.id)
    × (t.enc_key ≡ channel.enc_key)
converse-delivers_example =
    converse-delivers toy toy-laws channel turns refl (omega arith) (omega arith) turns-Fits

verify_response_mac_iff_example :
    (verify_response_mac toy
        (framed 3 (ResponseCode.success CommandCode.session_message) (1 ∷ []) (replicate 8 0))
        channel
      ≡ (ok tt, counted channel))
    ↔ (replicate 8 0
        ≡ rmac_of toy channel (ResponseCode.success CommandCode.session_message) (1 ∷ []))
verify_response_mac_iff_example =
    verify_response_mac_iff toy toy-laws channel (ResponseCode.success CommandCode.session_message)
      (1 ∷ []) (replicate 8 0) refl (omega arith)

decrypt_response-forged_example :
    (decrypt_response toy
        (framed 3 (ResponseCode.success CommandCode.session_message) (1 ∷ []) (replicate 8 0))
        channel
      ≡ (err verify_failed, erased channel))
    × (encrypt_command toy echo (erased channel) ≡ (panic, erased channel))
decrypt_response-forged_example =
    decrypt_response-forged toy toy-laws channel (ResponseCode.success CommandCode.session_message)
      (1 ∷ []) (replicate 8 0) echo refl other
  where
    other :
        replicate 8 0
        ≢ rmac_of toy channel (ResponseCode.success CommandCode.session_message) (1 ∷ [])
    other e = unfold Mac.truncate checksum ResponseCodes.to_u8 in cc

decrypt_response-misaddressed_example :
    decrypt_response toy echoed channel ≡ (err protocol_error, erased channel)
decrypt_response-misaddressed_example =
    decrypt_response-misaddressed toy toy-laws channel echoed refl (λ e. cc)

-- A card that made a session with the number 3 answers every frame with its invitation.
abbrev inviting : List ℕ → ℕ → Option (List ℕ) × ℕ
inviting frame w = (
  some (
      Response.serialize (
        invitation 3 (replicate 8 2) (
          take 8 (
            toy.cmac (fresh toy 3 (replicate 32 9) (replicate 8 1) (replicate 8 2)).mac_key
              (derivation_data 0 (from_challenges (replicate 8 1) (replicate 8 2)) 8))))),
  w,
)

made :
    create_session toy 3 (replicate 32 9) (replicate 8 1) (replicate 8 2)
    ≡ ok (
      fresh toy 3 (replicate 32 9) (replicate 8 1) (replicate 8 2),
      invitation 3 (replicate 8 2) (
          take 8 (
            toy.cmac
              (fresh toy 3 (replicate 32 9) (replicate 8 1) (replicate 8 2)).mac_key
              (derivation_data 0 (from_challenges (replicate 8 1) (replicate 8 2)) 8))),
    )
unfolding create_session new derive_key derive card_cryptogram from_slice Response.success enc_half
    mac_half from_challenges
made = refl

open_channel-create_session_example :
    open_channel inviting toy 1 (replicate 32 9) (replicate 8 1) 0
    ≡ (ok (fresh toy 3 (replicate 32 9) (replicate 8 1) (replicate 8 2)), 0)
open_channel-create_session_example =
    open_channel-create_session inviting toy toy-laws 0 0 1 3 (replicate 32 9) (replicate 8 1)
      (replicate 8 2) (fresh toy 3 (replicate 32 9) (replicate 8 1) (replicate 8 2))
      (invitation 3 (replicate 8 2) (
        take 8 (
          toy.cmac (fresh toy 3 (replicate 32 9) (replicate 8 1) (replicate 8 2)).mac_key
            (derivation_data 0 (from_challenges (replicate 8 1) (replicate 8 2)) 8))))
      (omega arith) refl refl refl made refl

abbrev first_byte : Result SessionErrorKind (List ℕ) → ℕ
first_byte (ok (x ∷ _)) = x
first_byte _ = 0

open_channel-other_key_example :
    open_channel inviting toy 1 (replicate 32 8) (replicate 8 1) 0 ≡ (err authentication_error, 0)
open_channel-other_key_example =
    open_channel-other_key inviting toy toy-laws 0 0 1 3 (replicate 32 8) (replicate 32 9)
      (replicate 8 1) (replicate 8 2) (fresh toy 3 (replicate 32 9) (replicate 8 1) (replicate 8 2))
      (invitation 3 (replicate 8 2) (
        take 8 (
          toy.cmac (fresh toy 3 (replicate 32 9) (replicate 8 1) (replicate 8 2)).mac_key
            (derivation_data 0 (from_challenges (replicate 8 1) (replicate 8 2)) 8))))
      (omega arith) refl refl refl refl made refl other
  where
    other :
        card_cryptogram toy {E = SessionErrorKind}
          (fresh toy 3 (replicate 32 8) (replicate 8 1) (replicate 8 2))
        ≢ card_cryptogram toy (fresh toy 3 (replicate 32 9) (replicate 8 1) (replicate 8 2))
    other e =
        unfold card_cryptogram derive from_slice derivation_data from_challenges checksum mac_half
          enc_half in
        omega (arith, ap first_byte e)
