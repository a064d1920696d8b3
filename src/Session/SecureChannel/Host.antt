-- ===== src/Session/SecureChannel/Host.antt =====
-- The host's operations on a channel (src/session/securechannel.rs).
use yubihsm_rs.Base.{
  ℕ, ◌+◌, Option, none, some, List, length, Result, ok, err, panic, expect, ◌==◌, leb, bytes_eq,
  if◌then◌else◌,
}
use yubihsm_rs.Base.Actions.{Action, pure, fail, get, modify, lift, assert, ◌>>=◌, ◌>>◌}
use yubihsm_rs.Command.Code as CommandCodes
use yubihsm_rs.Command.Code.{CommandCode}
use yubihsm_rs.Command.Message as Command
use yubihsm_rs.Command.Message.{CommandMessage}
use yubihsm_rs.Response.Code as ResponseCodes
use yubihsm_rs.Response.Message as Response
use yubihsm_rs.Response.Message.{ResponseMessage}
use yubihsm_rs.Session.Error.{
  SessionErrorKind, command_limit_exceeded, protocol_error, mismatch_error, verify_failed,
}
use yubihsm_rs.Session.Mac
use yubihsm_rs.Session.SecureChannel.Crypto.{Crypto}
use yubihsm_rs.Session.SecureChannel.Channel.{
  SecureChannel, unauthenticated, authenticated, level_eq, terminate, mac_text, compute_icv,
  host_cryptogram, increment_counter, max_commands_per_session, zero_block,
}

abbrev pub Channels : Type 0 → Type 0
Channels A = Action SessionErrorKind SecureChannel A

-- `self.terminate(); fail!(kind)`
abbrev pub abort : {A : Type 0} → SessionErrorKind → Channels A
abort kind = modify terminate >> fail kind

-- What is done after a MAC is compared: go on, or `self.terminate(); fail!(VerifyFailed)`.
unfoldable pub checked : {A : Type 0} → Result SessionErrorKind (Unit {0}) → Channels A → Channels A
checked (ok _) go_on = go_on
checked (err _) go_on = abort verify_failed
checked panic go_on = lift panic

-- The text that was decrypted, or `self.terminate()` and an error.
unfoldable pub deciphered : Option (List ℕ) → Channels (List ℕ)
deciphered none = abort protocol_error
deciphered (some text) = pure text

-- `ok_or_else` with a termination.
unfoldable pub numbered : Option ℕ → Channels ℕ
numbered none = abort protocol_error
numbered (some id) = pure id

module _ (c : Crypto) where
  unfoldable pub command_with_mac : CommandCode → List ℕ → Channels CommandMessage
  command_with_mac command_type command_data = do
    s ← get
    if leb max_commands_per_session s.counter then abort command_limit_exceeded else (do
      let length = 1 + length command_data + Mac.byte_size
      let tag =
          c.cmac s.mac_key (
            mac_text s.mac_chaining_value (CommandCodes.to_u8 command_type) length s.id
              command_data)
      modify (λ t. record t { mac_chaining_value = tag })
      lift (Command.new_with_mac command_type s.id command_data tag))

  unfoldable pub authenticate_session : Channels CommandMessage
  authenticate_session = do
    s ← get
    assert (level_eq s.security_level unauthenticated)
    assert (bytes_eq s.mac_chaining_value zero_block)
    host_cryptogram ← lift (host_cryptogram c s)
    command_with_mac CommandCode.authenticate_session host_cryptogram

  unfoldable pub encrypt_command : CommandMessage → Channels CommandMessage
  encrypt_command command = do
    s ← get
    assert (level_eq s.security_level authenticated)
    let message = Command.serialize command
    let icv = compute_icv c s.enc_key s.counter
    command_with_mac CommandCode.session_message (c.cbc_encrypt s.enc_key icv message)

  unfoldable pub verify_response_mac : ResponseMessage → Channels (Unit {0})
  verify_response_mac response = do
    s ← get
    assert (level_eq s.security_level authenticated)
    session_id ← numbered response.session_id
    if s.id == session_id then pure tt else abort mismatch_error
    let tag = c.cmac s.rmac_key (
        mac_text s.mac_chaining_value (ResponseCodes.to_u8 response.code) (Response.len response)
          session_id response.data_bytes)
    mac ← lift (expect response.mac)
    checked (Mac.verify mac tag) increment_counter

  unfoldable pub decrypt_response : ResponseMessage → Channels ResponseMessage
  decrypt_response encrypted_response = do
    s ← get
    assert (level_eq s.security_level authenticated)
    let icv = compute_icv c s.enc_key s.counter
    verify_response_mac encrypted_response
    message ← deciphered (c.cbc_decrypt s.enc_key icv encrypted_response.data_bytes)
    decrypted_response ← lift (Response.parse message)
    pure (record decrypted_response { session_id = encrypted_response.session_id })

-- `finish_authenticate_session`: the answer has no R-MAC, and no data either.
unfoldable pub finish_authenticate_session : ResponseMessage → Channels (Unit {0})
finish_authenticate_session response =
    if length response.data_bytes == 0
    then modify (λ s. record s { security_level = authenticated; counter = 1 })
    else abort protocol_error
