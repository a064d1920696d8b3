-- ===== src/MockHsm/Objects.antt =====
-- The objects of the simulated device (src/mockhsm/object.rs, src/mockhsm/object/objects.rs).
use yubihsm_rs.Base.{
  ℕ, ◌-◌, ◌^◌, Option, none, some, List, [], ◌∷◌, take, length, replicate, unwrap, leb, expect,
  Bool, true, false, if◌then◌else◌,
}
use yubihsm_rs.Base.Actions.{Action}
use yubihsm_rs.Base.Programs.{pure, fail, get, modify, lift, assert, ◌>>=◌, ◌>>◌}
use yubihsm_rs.Algorithm.Any as Algorithms
use yubihsm_rs.Algorithm.Any.{Algorithm}
use yubihsm_rs.Algorithm.Asymmetric
use yubihsm_rs.Algorithm.Authentication.{AuthenticationAlgorithm}
use yubihsm_rs.Algorithm.Wrap.{WrapAlgorithm, aes128_ccm, aes192_ccm, aes256_ccm}
use yubihsm_rs.Object.Info.{Info, Handle, Entry, Params, Capability, rank}
use yubihsm_rs.Object.Origins.{Origin}
use yubihsm_rs.Object.Types.{ObjectType}
use yubihsm_rs.MockHsm.Error.{HsmErrorKind, access_denied, crypto_error, object_not_found}
use yubihsm_rs.MockHsm.Keys.{Keys}
use yubihsm_rs.MockHsm.Maps.{Map, lookup, insert, remove}
use yubihsm_rs.MockHsm.Payload
use yubihsm_rs.MockHsm.Payload.{Payload}
use yubihsm_rs.Wrap.Info as WrapInfos
use yubihsm_rs.Wrap.Message as Wrapped
use yubihsm_rs.Wrap.Message.{WrappedObject}

pub record Object (K : Keys) : Type 0 where
  pub object_info : Info
  pub payload : Payload K

abbrev pub Objects : Keys → Type 0
Objects K = Map (Object K)

abbrev pub OnObjects : Keys → Type 0 → Type 0
OnObjects K A = Action HsmErrorKind (Objects K) A

-- `EXPORTABLE_UNDER_WRAP`
abbrev pub exportable_under_wrap : Capability
exportable_under_wrap = 0x1_0000

-- `DEFAULT_AUTHENTICATION_KEY_ID`
abbrev pub default_authentication_key_id : ℕ
default_authentication_key_id = 1

-- "DEFAULT AUTHKEY CHANGE THIS ASAP", padded with zeros
abbrev pub default_authentication_key_label : List ℕ
default_authentication_key_label =
    0x44
    ∷ 0x45
    ∷ 0x46
    ∷ 0x41
    ∷ 0x55
    ∷ 0x4c
    ∷ 0x54
    ∷ 0x20
    ∷ 0x41
    ∷ 0x55
    ∷ 0x54
    ∷ 0x48
    ∷ 0x4b
    ∷ 0x45
    ∷ 0x59
    ∷ 0x20
    ∷ 0x43
    ∷ 0x48
    ∷ 0x41
    ∷ 0x4e
    ∷ 0x47
    ∷ 0x45
    ∷ 0x20
    ∷ 0x54
    ∷ 0x48
    ∷ 0x49
    ∷ 0x53
    ∷ 0x20
    ∷ 0x41
    ∷ 0x53
    ∷ 0x41
    ∷ 0x50
    ∷ replicate 8 0

-- `unwrap_or` of a search
unfoldable pub found : {K : Keys} {A : Type 0} → Option A → OnObjects K A
found none = fail object_not_found
found (some a) = pure a

unfoldable pub is_none : {A : Type 0} → Option A → Bool
is_none none = true
is_none (some a) = false

-- The origin that a wrapped copy has.
unfoldable pub wrapped_origin : Origin → Origin
wrapped_origin Origin.generated = Origin.wrapped_generated
wrapped_origin Origin.imported = Origin.wrapped_imported
wrapped_origin Origin.wrapped_generated = Origin.wrapped_generated
wrapped_origin Origin.wrapped_imported = Origin.wrapped_imported

-- What is known of a new object.
abbrev pub described : ObjectType → Params → Capability → Origin → ℕ → Info
described object_type params delegated_capabilities origin length = record {
  object_id = params.id;
  object_type = object_type;
  algorithm = params.algorithm;
  capabilities = params.capabilities;
  delegated_capabilities = delegated_capabilities;
  domains = params.domains;
  length = length;
  sequence = 1;
  origin = origin;
  label = params.label;
}

-- What is written of an object that is wrapped.
abbrev pub wrapped_copy : Algorithm → Info → List ℕ → WrappedObject
wrapped_copy alg_id object_info payload_bytes = record {
  alg_id = alg_id;
  object_info =
      WrapInfos.from_object (record object_info { origin = wrapped_origin object_info.origin });
  payload_bytes = payload_bytes;
}

module _ (K : Keys) where
  pub data AesCcmKey : Type 0 where
    aes128 aes192 aes256 : K.Ccm → AesCcmKey

  unfoldable pub cipher : AesCcmKey → K.Ccm
  cipher (aes128 ccm) = ccm
  cipher (aes192 ccm) = ccm
  cipher (aes256 ccm) = ccm

  unfoldable pub key_algorithm : AesCcmKey → Algorithm
  key_algorithm (aes128 _) = Algorithm.wrap aes128_ccm
  key_algorithm (aes192 _) = Algorithm.wrap aes192_ccm
  key_algorithm (aes256 _) = Algorithm.wrap aes256_ccm

  -- An error of the cipher is a `CryptoError`.
  unfoldable pub deciphered : Option (List ℕ) → OnObjects K (List ℕ)
  deciphered none = fail crypto_error
  deciphered (some buffer) = pure buffer

  unfoldable pub encrypt_in_place : AesCcmKey → List ℕ → List ℕ → List ℕ → OnObjects K (List ℕ)
  unfolding cipher deciphered
  encrypt_in_place key nonce associated_data buffer =
      deciphered (K.ccm_encrypt_in_place (cipher key) nonce associated_data buffer)

  unfoldable pub decrypt_in_place : AesCcmKey → List ℕ → List ℕ → List ℕ → OnObjects K (List ℕ)
  unfolding cipher deciphered
  decrypt_in_place key nonce associated_data buffer =
      deciphered (K.ccm_decrypt_in_place (cipher key) nonce associated_data buffer)

  unfoldable pub default_objects : Objects K
  unfolding insert rank
  default_objects =
      insert (rank default_authentication_key_id ObjectType.authentication_key)
        (record {
          object_info = record {
            object_id = default_authentication_key_id;
            object_type = ObjectType.authentication_key;
            algorithm = Algorithm.authentication AuthenticationAlgorithm.yubico_aes;
            capabilities = 2 ^ 64 - 1;
            delegated_capabilities = 2 ^ 64 - 1;
            domains = 2 ^ 16 - 1;
            length = Payload.authentication_key_size;
            sequence = 1;
            origin = Origin.imported;
            label = default_authentication_key_label;
          };
          payload = Payload.authentication_key K.default_authentication_key;
        })
        []

  -- `assert!(self.0.insert(handle, object).is_none())`
  unfoldable pub insert_new : ℕ → ObjectType → Object K → OnObjects K Unit
  unfolding is_none
  insert_new object_id object_type object = do
    objects ← get
    modify (insert (rank object_id object_type) object)
    assert (is_none (lookup (rank object_id object_type) objects))

  -- `get`
  unfoldable pub get_object : ℕ → ObjectType → Objects K → Option (Object K)
  get_object object_id object_type objects = lookup (rank object_id object_type) objects

  unfoldable pub generate : (ℕ → List ℕ) → ObjectType → Params → Capability → OnObjects K Unit
  generate random object_type params delegated_capabilities = do
    payload ← lift (Payload.generate K random params.algorithm)
    insert_new params.id object_type (record {
      object_info =
          described object_type params delegated_capabilities Origin.generated
            (Payload.len K payload);
      payload = payload;
    })

  unfoldable pub put : ObjectType → Params → Capability → List ℕ → OnObjects K Unit
  put object_type params delegated_capabilities bytes = do
    payload ← lift (Payload.new K params.algorithm bytes)
    insert_new params.id object_type (record {
      object_info =
          described object_type params delegated_capabilities Origin.imported
            (Payload.len K payload);
      payload = payload;
    })

  -- `remove`
  unfoldable pub remove_object : ℕ → ObjectType → OnObjects K (Option (Object K))
  remove_object object_id object_type = do
    objects ← get
    modify (remove (rank object_id object_type))
    pure (lookup (rank object_id object_type) objects)

  -- `new_from_slice(...).unwrap()`, for the algorithm of a wrap key.
  unfoldable pub new_ccm : WrapAlgorithm → List ℕ → OnObjects K AesCcmKey
  new_ccm aes128_ccm bytes = do
    ccm ← lift (expect (K.ccm_new_from_slice 16 bytes))
    pure (aes128 ccm)
  new_ccm aes192_ccm bytes = do
    ccm ← lift (expect (K.ccm_new_from_slice 24 bytes))
    pure (aes192 ccm)
  new_ccm aes256_ccm bytes = do
    ccm ← lift (expect (K.ccm_new_from_slice 32 bytes))
    pure (aes256 ccm)

  unfoldable pub get_wrap_key : ℕ → OnObjects K AesCcmKey
  get_wrap_key wrap_key_id = do
    objects ← get
    wrap_key ← found {K = K} (get_object wrap_key_id ObjectType.wrap_key objects)
    algorithm ← lift (Payload.algorithm K wrap_key.payload)
    wrap_algorithm ← lift (expect (Algorithms.as_wrap algorithm))
    bytes ← lift (Payload.to_bytes K wrap_key.payload)
    new_ccm wrap_algorithm bytes

  -- `encrypt_in_place(...).unwrap()`: an error is a panic.
  unfoldable pub or_panic : {A : Type 0} → OnObjects K A → OnObjects K A
  or_panic m objects = (unwrap (m objects).0, (m objects).1)

  unfoldable pub wrap_obj : ℕ → ℕ → ObjectType → List ℕ → OnObjects K (List ℕ)
  unfolding or_panic
  wrap_obj wrap_key_id object_id object_type nonce = do
    wrap_key ← get_wrap_key wrap_key_id
    objects ← get
    object_to_wrap ← found {K = K} (get_object object_id object_type objects)
    if K.contains object_to_wrap.object_info.capabilities exportable_under_wrap
        then pure tt
        else fail access_denied
    bytes ← lift (Payload.to_bytes K object_to_wrap.payload)
    or_panic (
        encrypt_in_place wrap_key nonce [] (
          Wrapped.serialize
            (wrapped_copy (key_algorithm wrap_key) object_to_wrap.object_info bytes)))

  -- The payload of an unwrapped object. Of the bytes of an RSA key only the primes are read.
  unfoldable pub unwrapped_payload : Algorithm → List ℕ → OnObjects K (Payload K)
  unfolding Asymmetric.is_rsa Asymmetric.key_len
  unwrapped_payload (Algorithm.asymmetric alg) bytes =
      if Asymmetric.is_rsa alg
      then (do
        assert (leb (Asymmetric.key_len alg) (length bytes))
        lift (Payload.new K (Algorithm.asymmetric alg) (take (Asymmetric.key_len alg) bytes)))
      else lift (Payload.new K (Algorithm.asymmetric alg) bytes)
  unwrapped_payload algorithm bytes = lift (Payload.new K algorithm bytes)

  unfoldable pub unwrap_obj : ℕ → List ℕ → List ℕ → OnObjects K Handle
  unwrap_obj wrap_key_id nonce ciphertext = do
    wrap_key ← get_wrap_key wrap_key_id
    wrapped_data ← decrypt_in_place wrap_key nonce [] ciphertext
    unwrapped_object ← lift (expect (Wrapped.parse wrapped_data))
    payload ←
        unwrapped_payload unwrapped_object.object_info.algorithm unwrapped_object.payload_bytes
    insert_new unwrapped_object.object_info.object_id unwrapped_object.object_info.object_type
        (record {
          object_info = WrapInfos.into_object unwrapped_object.object_info;
          payload = payload;
        })
    pure (record {
      object_id = unwrapped_object.object_info.object_id;
      object_type = unwrapped_object.object_info.object_type;
    })

-- `From<&Object> for object::Entry`
unfoldable pub entry_of : {K : Keys} → Object K → Entry
entry_of object = record {
  object_id = object.object_info.object_id;
  object_type = object.object_info.object_type;
  sequence = object.object_info.sequence;
}
