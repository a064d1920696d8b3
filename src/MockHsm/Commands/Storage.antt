-- ===== src/MockHsm/Commands/Storage.antt =====
-- Handlers of the simulated device that keep and look up objects (src/mockhsm/command.rs).
use yubihsm_rs.Base.{ℕ, none, some, List, [], ◌∷◌, ◌++◌, Result, ok, err, panic, expect, unwrap}
use yubihsm_rs.Base.Programs.{pure, get, lift, ◌>>=◌, ◌>>◌}
use yubihsm_rs.Algorithm.Any as Algorithms
use yubihsm_rs.Algorithm.Asymmetric
use yubihsm_rs.Command.Code.{CommandCode}
use yubihsm_rs.Device.Error.{DeviceErrorKind}
use yubihsm_rs.Object.Types
use yubihsm_rs.Object.Types.{ObjectType}
use yubihsm_rs.Response.Message.{ResponseMessage}
use yubihsm_rs.MockHsm.Error.{HsmErrorKind}
use yubihsm_rs.MockHsm.Keys.{Keys}
use yubihsm_rs.MockHsm.Objects as Objects
use yubihsm_rs.MockHsm.Objects.{Object, OnObjects}
use yubihsm_rs.MockHsm.Payload
use yubihsm_rs.MockHsm.Requests.{
  parsed, success, refused, params_shape, params_of, handle_shape, handle_of, put_shape, put_of,
  put_delegating_shape, put_delegating_of, gen_wrap_shape, gen_wrap_of, export_shape, export_of,
  import_shape, id_bytes, object_info_bytes,
}
use yubihsm_rs.MockHsm.State.{Hsm, on_objects}
use yubihsm_rs.Wire.{uint, array, rest}

module _ (K : Keys) where
  -- An operation on the objects that returns no error.
  unfoldable pub infallible : {A : Type 0} → OnObjects K A → Hsm K A
  infallible m = do r ← on_objects K m; lift (unwrap r)

  unfoldable pub delete_object : List ℕ → Hsm K ResponseMessage
  unfolding infallible
  delete_object cmd_data = do
    (object_id, object_type) ← lift (parsed handle_shape handle_of cmd_data)
    removed ← infallible (Objects.remove_object K object_id object_type)
    elim removed [
      | some _ ↦ success CommandCode.delete_object []
      | none ↦ refused DeviceErrorKind.object_not_found
    ]

  unfoldable pub get_object_info : List ℕ → Hsm K ResponseMessage
  get_object_info cmd_data = do
    (object_id, object_type) ← lift (parsed handle_shape handle_of cmd_data)
    s ← get
    elim (Objects.get_object K object_id object_type s.objects) [
      | some obj ↦ success CommandCode.get_object_info (object_info_bytes obj.object_info)
      | none ↦ refused DeviceErrorKind.object_not_found
    ]

  -- The body of `gen_asymmetric_key` and `gen_hmac_key`, which differ in the type and the code.
  unfoldable pub gen_key : (ℕ → List ℕ) → ObjectType → CommandCode → List ℕ → Hsm K ResponseMessage
  unfolding infallible
  gen_key random object_type code cmd_data = do
    command ← lift (parsed params_shape params_of cmd_data)
    infallible (Objects.generate K random object_type command 0)
    success code (id_bytes command.id)

  unfoldable pub gen_asymmetric_key : (ℕ → List ℕ) → List ℕ → Hsm K ResponseMessage
  unfolding gen_key
  gen_asymmetric_key random =
      gen_key random ObjectType.asymmetric_key CommandCode.generate_asymmetric_key

  unfoldable pub gen_hmac_key : (ℕ → List ℕ) → List ℕ → Hsm K ResponseMessage
  unfolding gen_key
  gen_hmac_key random = gen_key random ObjectType.hmac_key CommandCode.generate_hmac_key

  unfoldable pub gen_wrap_key : (ℕ → List ℕ) → List ℕ → Hsm K ResponseMessage
  unfolding infallible
  gen_wrap_key random cmd_data = do
    (params, delegated_capabilities) ← lift (parsed gen_wrap_shape gen_wrap_of cmd_data)
    infallible (Objects.generate K random ObjectType.wrap_key params delegated_capabilities)
    success CommandCode.generate_wrap_key (id_bytes params.id)

  -- The body of `put_asymmetric_key`, `put_hmac_key` and `put_opaque`.
  unfoldable pub put_object : ObjectType → CommandCode → List ℕ → Hsm K ResponseMessage
  unfolding infallible
  put_object object_type code cmd_data = do
    (params, bytes) ← lift (parsed put_shape put_of cmd_data)
    infallible (Objects.put K object_type params 0 bytes)
    success code (id_bytes params.id)

  unfoldable pub put_asymmetric_key : List ℕ → Hsm K ResponseMessage
  unfolding put_object
  put_asymmetric_key = put_object ObjectType.asymmetric_key CommandCode.put_asymmetric_key

  unfoldable pub put_hmac_key : List ℕ → Hsm K ResponseMessage
  unfolding put_object
  put_hmac_key = put_object ObjectType.hmac_key CommandCode.put_hmac_key

  unfoldable pub put_opaque : List ℕ → Hsm K ResponseMessage
  unfolding put_object
  put_opaque = put_object ObjectType.opaque CommandCode.put_opaque_object

  unfoldable pub put_authentication_key : List ℕ → Hsm K ResponseMessage
  unfolding infallible
  put_authentication_key cmd_data = do
    (params, (delegated_capabilities, key)) ←
        lift (parsed (put_delegating_shape (array 32)) (put_delegating_of (array 32)) cmd_data)
    infallible (Objects.put K ObjectType.authentication_key params delegated_capabilities key)
    success CommandCode.put_authentication_key (id_bytes params.id)

  unfoldable pub put_wrap_key : List ℕ → Hsm K ResponseMessage
  unfolding infallible
  put_wrap_key cmd_data = do
    (params, (delegated_capabilities, bytes)) ←
        lift (parsed (put_delegating_shape rest) (put_delegating_of rest) cmd_data)
    infallible (Objects.put K ObjectType.wrap_key params delegated_capabilities bytes)
    success CommandCode.put_wrap_key (id_bytes params.id)

  unfoldable pub get_opaque : List ℕ → Hsm K ResponseMessage
  get_opaque cmd_data = do
    object_id ← lift (parsed (uint 2) some cmd_data)
    s ← get
    elim (Objects.get_object K object_id ObjectType.opaque s.objects) [
      | some obj ↦ lift (Payload.to_bytes K obj.payload) >>= λ bytes.
          success CommandCode.get_opaque_object bytes
      | none ↦ refused DeviceErrorKind.object_not_found
    ]

  -- The algorithm and the bytes of a public key.
  unfoldable pub public_key : Object K → Hsm K (List ℕ)
  public_key obj = do
    algorithm ← lift (Payload.algorithm K obj.payload)
    asymmetric ← lift (expect (Algorithms.as_asymmetric algorithm))
    bytes ← lift (expect (Payload.public_key_bytes K obj.payload))
    pure (Asymmetric.to_u8 asymmetric ∷ bytes)

  unfoldable pub get_public_key : List ℕ → Hsm K ResponseMessage
  unfolding public_key
  get_public_key cmd_data = do
    key_id ← lift (parsed (uint 2) some cmd_data)
    s ← get
    elim (Objects.get_object K key_id ObjectType.asymmetric_key s.objects) [
      | some obj ↦ public_key obj >>= λ bytes. success CommandCode.get_public_key bytes
      | none ↦ refused DeviceErrorKind.object_not_found
    ]

  -- The answer to what an operation on wrapped objects returned.
  unfoldable pub answered :
      {A : Type 0} → (A → Hsm K ResponseMessage) → Result HsmErrorKind A → Hsm K ResponseMessage
  answered answer (ok a) = answer a
  answered answer (err _) = refused DeviceErrorKind.invalid_command
  answered answer panic = lift panic

  unfoldable pub export_wrapped : (ℕ → List ℕ) → List ℕ → Hsm K ResponseMessage
  unfolding answered
  export_wrapped random cmd_data = do
    (wrap_key_id, (object_type, object_id)) ← lift (parsed export_shape export_of cmd_data)
    let nonce = random 13
    r ← on_objects K (Objects.wrap_obj K wrap_key_id object_id object_type nonce)
    answered (λ ciphertext. success CommandCode.export_wrapped (nonce ++ ciphertext)) r

  unfoldable pub import_wrapped : List ℕ → Hsm K ResponseMessage
  unfolding answered
  import_wrapped cmd_data = do
    (wrap_key_id, (nonce, ciphertext)) ← lift (parsed import_shape some cmd_data)
    r ← on_objects K (Objects.unwrap_obj K wrap_key_id nonce ciphertext)
    answered
        (λ handle.
          success CommandCode.import_wrapped
            (Types.to_u8 handle.object_type ∷ id_bytes handle.object_id))
        r
