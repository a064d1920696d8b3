-- ===== src/Session/SecureChannel/Card.antt =====
-- The card's operations on a channel, which the simulated device runs
-- (src/session/securechannel.rs).
use yubihsm_rs.Base.{ℕ, ◌+◌, List, [], length, expect, ◌==◌, bytes_eq, if◌then◌else◌}
use yubihsm_rs.Base.Actions.{pure, get, modify, lift, assert, ◌>>=◌, ◌>>◌}
use yubihsm_rs.Command.Code as CommandCodes
use yubihsm_rs.Command.Code.{CommandCode}
use yubihsm_rs.Command.Message as Command
use yubihsm_rs.Command.Message.{CommandMessage}
use yubihsm_rs.Response.Code as ResponseCodes
use yubihsm_rs.Response.Code.{ResponseCode}
use yubihsm_rs.Response.Message as Response
use yubihsm_rs.Response.Message.{ResponseMessage}
use yubihsm_rs.Session.Error.{protocol_error, verify_failed}
use yubihsm_rs.Session.Mac
use yubihsm_rs.Session.SecureChannel.Crypto.{Crypto}
use yubihsm_rs.Session.SecureChannel.Kdf.{from_slice, cryptogram_size}
use yubihsm_rs.Session.SecureChannel.Channel.{
  unauthenticated, authenticated, level_eq, mac_text, compute_icv, host_cryptogram,
  increment_counter, zero_block,
}
use yubihsm_rs.Session.SecureChannel.Host.{Channels, abort, checked, deciphered}

module _ (c : Crypto) where
  unfoldable pub verify_command_mac : CommandMessage → Channels (Unit {0})
  verify_command_mac command = do
    s ← get
    session_id ← lift (expect command.session_id)
    assert (session_id == s.id)
    let tag = c.cmac s.mac_key (
        mac_text s.mac_chaining_value (CommandCodes.to_u8 command.command_type)
          (Command.len command) session_id command.data_bytes)
    mac ← lift (expect command.mac)
    checked (Mac.verify mac tag) (modify (λ t. record t { mac_chaining_value = tag }))

  unfoldable pub verify_authenticate_session : CommandMessage → Channels ResponseMessage
  verify_authenticate_session command = do
    s ← get
    assert (level_eq s.security_level unauthenticated)
    assert (bytes_eq s.mac_chaining_value zero_block)
    if length command.data_bytes == cryptogram_size then pure tt else abort protocol_error
    expected_host_cryptogram ← lift (host_cryptogram c s)
    actual_host_cryptogram ← lift (from_slice command.data_bytes)
    if bytes_eq expected_host_cryptogram actual_host_cryptogram
        then pure tt
        else abort verify_failed
    verify_command_mac command
    modify (λ t. record t { security_level = authenticated; counter = 1 })
    pure (Response.success CommandCode.authenticate_session [])

  unfoldable pub decrypt_command : CommandMessage → Channels CommandMessage
  decrypt_command encrypted_command = do
    s ← get
    assert (level_eq s.security_level authenticated)
    let icv = compute_icv c s.enc_key s.counter
    verify_command_mac encrypted_command
    t ← get
    command_data ← deciphered (c.cbc_decrypt t.enc_key icv encrypted_command.data_bytes)
    decrypted_command ← lift (Command.parse command_data)
    pure (record decrypted_command { session_id = encrypted_command.session_id })

  unfoldable pub response_with_mac : ResponseCode → List ℕ → Channels ResponseMessage
  response_with_mac code body = do
    s ← get
    assert (level_eq s.security_level authenticated)
    let length = 1 + length body + Mac.byte_size
    let tag =
        c.cmac s.rmac_key
          (mac_text s.mac_chaining_value (ResponseCodes.to_u8 code) length s.id body)
    increment_counter
    lift (Response.new_with_mac code s.id body tag)

  unfoldable pub encrypt_response : ResponseMessage → Channels ResponseMessage
  encrypt_response response = do
    s ← get
    assert (level_eq s.security_level authenticated)
    let message = Response.serialize response
    let icv = compute_icv c s.enc_key s.counter
    response_with_mac (ResponseCode.success CommandCode.session_message)
        (c.cbc_encrypt s.enc_key icv message)
