-- ===== src/MockHsm/Connection.antt =====
-- What the simulated device makes of a frame (`create_session`, `authenticate_session`,
-- `session_message`, `close_session` and `reset_device` of src/mockhsm/command.rs, and
-- src/mockhsm/connection.rs).
use yubihsm_rs.Base.{
  ℕ, List, [], ◌∷◌, Result, ok, err, panic, expect, some, map_err, Bool, true, false, if◌then◌else◌,
}
use yubihsm_rs.Base.Actions.{Action}
use yubihsm_rs.Base.Programs.{pure, fail, get, modify, lift, ◌>>=◌, ◌>>◌}
use yubihsm_rs.Command.Code.{CommandCode}
use yubihsm_rs.Command.Message as Command
use yubihsm_rs.Command.Message.{CommandMessage}
use yubihsm_rs.Response.Message as Response
use yubihsm_rs.Response.Message.{ResponseMessage}
use yubihsm_rs.Session.SecureChannel.Crypto.{Crypto}
use yubihsm_rs.Session.SecureChannel.Channel.{card_cryptogram}
use yubihsm_rs.Session.SecureChannel.Card.{
  decrypt_command, encrypt_response, verify_authenticate_session,
}
use yubihsm_rs.Session.SecureChannel.Create.{create_session_command, create_session_response}
use yubihsm_rs.Wire.{write}
use yubihsm_rs.MockHsm.Error.{ConnectorErrorKind, connection_failed}
use yubihsm_rs.MockHsm.Keys.{Keys}
use yubihsm_rs.MockHsm.Requests.{parsed, success}
use yubihsm_rs.MockHsm.State as State
use yubihsm_rs.MockHsm.State.{State, Hsm, on_channel}
use yubihsm_rs.MockHsm.Listing.{list_objects}
use yubihsm_rs.MockHsm.Commands.Storage.{
  delete_object, get_object_info, gen_asymmetric_key, gen_hmac_key, gen_wrap_key,
  put_asymmetric_key, put_hmac_key, put_opaque, put_authentication_key, put_wrap_key, get_opaque,
  get_public_key, export_wrapped, import_wrapped,
}
use yubihsm_rs.MockHsm.Commands.Device.{
  device_info, echo, get_log_entries, get_storage_info, get_pseudo_random, get_option, put_option,
}
use yubihsm_rs.MockHsm.Commands.Signing.{
  Signers, sign_ecdsa, sign_eddsa, sign_hmac, sign_pss, sign_pkcs1v15, verify_hmac,
}

module _ (K : Keys) where
  -- `Arc<Mutex<State>>`: a panic under the lock poisons it.
  pub record Shared : Type 0 where
    pub state : State K
    pub is_poisoned : Bool

  -- What a call leaves of the shared state.
  abbrev pub released :
      Result ConnectorErrorKind (List ℕ) × State K → Result ConnectorErrorKind (List ℕ) × Shared
  released (ok bytes, s) = (ok bytes, record { state = s; is_poisoned = false })
  released (err e, s) = (err e, record { state = s; is_poisoned = false })
  released (panic, s) = (panic, record { state = s; is_poisoned = true })

-- What the device is built on: keys, signatures, the channel's primitives, and what `OsRng` gives
-- for the frame at hand.
module _ (K : Keys) (S : Signers K) (c : Crypto) (random : ℕ → List ℕ) where
  unfoldable pub create_session : CommandMessage → Hsm K (List ℕ)
  create_session cmd_message = do
    (authentication_key_id, host_challenge) ←
        lift (parsed create_session_command some cmd_message.data_bytes)
    session ← State.create_session K c authentication_key_id host_challenge (random 8)
    cryptogram ← lift (card_cryptogram c session.channel)
    response ←
        success CommandCode.create_session
          (write create_session_response (session.card_challenge, cryptogram))
    pure (Response.serialize (record response { session_id = some session.id }))

  unfoldable pub authenticate_session : CommandMessage → Hsm K (List ℕ)
  authenticate_session command = do
    session_id ← lift (expect command.session_id)
    response ← on_channel K session_id (verify_authenticate_session c command)
    pure (Response.serialize response)

  unfoldable pub close_session : ℕ → Hsm K (List ℕ)
  close_session session_id = do
    response ←
        on_channel K session_id (encrypt_response c (Response.success CommandCode.close_session []))
    State.close_session K session_id
    pure (Response.serialize response)

  unfoldable pub reset_device : ℕ → Hsm K (List ℕ)
  unfolding State.or_panic
  reset_device session_id = do
    response ← State.or_panic K (
        on_channel K session_id
          (encrypt_response c (Response.success CommandCode.reset_device (1 ∷ []))))
    modify (State.reset K)
    pure (Response.serialize response)

  -- The handlers whose response is encrypted at the end of `session_message`.
  unfoldable pub handled : CommandCode → List ℕ → Hsm K ResponseMessage
  handled CommandCode.blink_device bytes = success CommandCode.blink_device []
  handled CommandCode.delete_object bytes = delete_object K bytes
  handled CommandCode.device_info bytes = device_info K
  handled CommandCode.echo bytes = echo K bytes
  handled CommandCode.export_wrapped bytes = export_wrapped K random bytes
  handled CommandCode.generate_asymmetric_key bytes = gen_asymmetric_key K random bytes
  handled CommandCode.generate_hmac_key bytes = gen_hmac_key K random bytes
  handled CommandCode.generate_wrap_key bytes = gen_wrap_key K random bytes
  handled CommandCode.get_log_entries bytes = get_log_entries K
  handled CommandCode.get_object_info bytes = get_object_info K bytes
  handled CommandCode.get_opaque_object bytes = get_opaque K bytes
  handled CommandCode.get_option bytes = get_option K bytes
  handled CommandCode.get_pseudo_random bytes = get_pseudo_random K random bytes
  handled CommandCode.get_public_key bytes = get_public_key K bytes
  handled CommandCode.sign_hmac bytes = sign_hmac K S bytes
  handled CommandCode.import_wrapped bytes = import_wrapped K bytes
  handled CommandCode.list_objects bytes = list_objects K bytes
  handled CommandCode.put_asymmetric_key bytes = put_asymmetric_key K bytes
  handled CommandCode.put_authentication_key bytes = put_authentication_key K bytes
  handled CommandCode.put_hmac_key bytes = put_hmac_key K bytes
  handled CommandCode.put_opaque_object bytes = put_opaque K bytes
  handled CommandCode.set_option bytes = put_option K bytes
  handled CommandCode.put_wrap_key bytes = put_wrap_key K bytes
  handled CommandCode.set_log_index bytes = success CommandCode.set_log_index []
  handled CommandCode.sign_ecdsa bytes = sign_ecdsa K S random bytes
  handled CommandCode.sign_eddsa bytes = sign_eddsa K S bytes
  handled CommandCode.get_storage_info bytes = get_storage_info K
  handled CommandCode.verify_hmac bytes = verify_hmac K S bytes
  handled CommandCode.sign_pss bytes = sign_pss K S random bytes
  handled CommandCode.sign_pkcs1 bytes = sign_pkcs1v15 K S bytes
  handled _ bytes = lift panic

  unfoldable pub respond : ℕ → Hsm K ResponseMessage → Hsm K (List ℕ)
  respond session_id handler = do
    response ← handler
    encrypted_response ← on_channel K session_id (encrypt_response c response)
    pure (Response.serialize encrypted_response)

  -- The two commands after which the session is gone return early.
  unfoldable pub routed : CommandCode → ℕ → List ℕ → Hsm K (List ℕ)
  unfolding respond
  routed CommandCode.close_session session_id bytes = close_session session_id
  routed CommandCode.reset_device session_id bytes = reset_device session_id
  routed code session_id bytes = respond session_id (handled code bytes)

  unfoldable pub session_message : CommandMessage → Hsm K (List ℕ)
  session_message encrypted_command = do
    session_id ← lift (expect encrypted_command.session_id)
    command ← on_channel K session_id (decrypt_command c encrypted_command)
    routed command.command_type session_id command.data_bytes

  -- The commands that come outside of a session.
  unfoldable pub dispatched : CommandCode → CommandMessage → Hsm K (List ℕ)
  dispatched CommandCode.create_session command = create_session command
  dispatched CommandCode.authenticate_session command = authenticate_session command
  dispatched CommandCode.session_message command = session_message command
  dispatched _ command = fail connection_failed

  -- The handler of a frame, with the state locked. A poisoned lock is not obtained.
  unfoldable pub under_lock : Hsm K (List ℕ) → Action ConnectorErrorKind (Shared K) (List ℕ)
  under_lock handler = do
    shared ← get
    if shared.is_poisoned
        then fail connection_failed
        else (λ locked. released K (handler locked.state))

  unfoldable pub send_message : List ℕ → Action ConnectorErrorKind (Shared K) (List ℕ)
  send_message message = do
    command ← lift (map_err (λ _. connection_failed) (Command.parse message))
    under_lock (dispatched command.command_type command)
