-- ===== src/Session/SecureChannel/Answered.antt =====
-- What the card sends on an authenticated channel, in closed form, and what the host makes of it
-- (src/session/securechannel.rs).
use yubihsm_rs.Base.{ℕ, ◌+◌, ◌<◌, ◌^◌, ◌≡◌, some, List, length, ok, arith, ltb, Bool, ==_refl}
use yubihsm_rs.Command.Code.{CommandCode}
use yubihsm_rs.Response.Code as ResponseCodes
use yubihsm_rs.Response.Code.{ResponseCode}
use yubihsm_rs.Response.Message as Response
use yubihsm_rs.Response.Message.{ResponseMessage}
use yubihsm_rs.Response.Message.Parts.{IsWellFormed}
use yubihsm_rs.Response.Message.RoundTrip as ResponseFrames
use yubihsm_rs.Session.Error.{SessionErrorKind}
use yubihsm_rs.Session.Mac
use yubihsm_rs.Session.SecureChannel.Crypto.{Crypto, CryptoLaws}
use yubihsm_rs.Session.SecureChannel.Channel.{
  SecureChannel, authenticated, mac_text, increment_counter,
}
use yubihsm_rs.Session.SecureChannel.Host.{
  checked, deciphered, numbered, verify_response_mac, decrypt_response,
}
use yubihsm_rs.Session.SecureChannel.Card.{response_with_mac, encrypt_response}
use yubihsm_rs.Session.SecureChannel.Sealed.{sealed, level_ok}

abbrev answer_code : ResponseCode
answer_code = ResponseCode.success CommandCode.session_message

abbrev pub counted : SecureChannel → SecureChannel
counted s = record s { counter = s.counter + 1 }

response_new_with_mac_ok :
    {E : Type 0} (code : ResponseCode) (id : ℕ) (bytes tag : List ℕ)
    → length tag ≡ 16
    → Response.new_with_mac {E = E} code id bytes tag
      ≡ ok (record {
        code = code;
        session_id = some id;
        data_bytes = bytes;
        mac = some (Mac.truncate tag);
      })
unfolding Response.new_with_mac
response_new_with_mac_ok {E = E} code id bytes tag k = rw (Mac.from_tag_sixteen {E = E} tag k)

pub response_len :
    (code : ResponseCode) (id : ℕ) (bytes mac : List ℕ)
    → Response.len
        (record { code = code; session_id = some id; data_bytes = bytes; mac = some mac })
      ≡ 1 + length bytes + 8
unfolding Response.len
response_len code id bytes mac = omega arith

pub increment_counter_ok :
    {E : Type 0} (s : SecureChannel)
    → s.counter + 1 < 2 ^ 32
    → increment_counter {E = E} s ≡ (ok tt, counted s)
unfolding increment_counter
increment_counter_ok s h = rw below
  where
    below : ltb (s.counter + 1) (2 ^ 32) ≡ Bool.true
    below = ground arith

module _ (c : Crypto) where
  -- The MAC of an answer in the state `s`.
  abbrev pub answer_tag : SecureChannel → List ℕ → List ℕ
  answer_tag s bytes = c.cmac s.rmac_key (
      mac_text s.mac_chaining_value (ResponseCodes.to_u8 answer_code) (1 + length bytes + 8) s.id
        bytes)

  abbrev pub answer : SecureChannel → List ℕ → ResponseMessage
  answer s bytes = record {
    code = answer_code;
    session_id = some s.id;
    data_bytes = bytes;
    mac = some (Mac.truncate (answer_tag s bytes));
  }

module _ (c : Crypto) (laws : CryptoLaws c) where
  response_with_mac_ok :
      (s : SecureChannel) (bytes : List ℕ)
      → s.security_level ≡ authenticated
      → s.counter + 1 < 2 ^ 32
      → response_with_mac c answer_code bytes s ≡ (ok (answer c s bytes), counted s)
  unfolding response_with_mac
  response_with_mac_ok s bytes h k = rw (level_ok s h) (
      rw (increment_counter_ok {E = SessionErrorKind} s k) (
        rw (
          response_new_with_mac_ok {E = SessionErrorKind} answer_code s.id bytes
            (answer_tag c s bytes) (laws.length-cmac _ _))))

  pub encrypt_response_ok :
      (s : SecureChannel) (r : ResponseMessage)
      → s.security_level ≡ authenticated
      → s.counter + 1 < 2 ^ 32
      → encrypt_response c r s ≡ (ok (answer c s (sealed c s (Response.serialize r))), counted s)
  unfolding encrypt_response
  encrypt_response_ok s r h k =
      rw (level_ok s h) (response_with_mac_ok s (sealed c s (Response.serialize r)) h k)

  pub verify_response_mac_ok :
      (s : SecureChannel) (bytes : List ℕ)
      → s.security_level ≡ authenticated
      → s.counter + 1 < 2 ^ 32
      → verify_response_mac c (answer c s bytes) s ≡ (ok tt, counted s)
  unfolding verify_response_mac numbered
  verify_response_mac_ok s bytes h k = rw (level_ok s h) (
      rw (==_refl s.id) (
        rw (response_len answer_code s.id bytes (Mac.truncate (answer_tag c s bytes))) (
          rw (Mac.verify_own (answer_tag c s bytes) (laws.length-cmac _ _))
            (unfold checked in increment_counter_ok s k))))

  pub decrypt_response_ok :
      (s : SecureChannel) (r : ResponseMessage)
      → s.security_level ≡ authenticated
      → s.counter + 1 < 2 ^ 32
      → IsWellFormed r
      → decrypt_response c (answer c s (sealed c s (Response.serialize r))) s
        ≡ (ok (record r { session_id = some s.id }), counted s)
  unfolding decrypt_response
  decrypt_response_ok s r h k w = rw (level_ok s h) (
      rw (verify_response_mac_ok s (sealed c s (Response.serialize r)) h k) (
        rw (laws.cbc_decrypt-cbc_encrypt _ _ _)
          (unfold deciphered in rw (ResponseFrames.response_parse-serialize r w))))
