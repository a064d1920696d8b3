-- ===== src/MockHsm/Commands/Signing.antt =====
-- Handlers of the simulated device that sign (src/mockhsm/command.rs). The signatures themselves
-- are calls of crates.
use yubihsm_rs.Base.{
  ℕ, List, [], ◌∷◌, length, take, drop, expect, Option, none, some, Bool, true, false, leb, ◌==◌,
  bytes_eq, if◌then◌else◌,
}
use yubihsm_rs.Base.Programs.{get, lift, assert, ◌>>=◌, ◌>>◌}
use yubihsm_rs.Algorithm.Hmac.{HmacAlgorithm}
use yubihsm_rs.Algorithm.Mgf as Mgf
use yubihsm_rs.Algorithm.Mgf.{MgfAlgorithm}
use yubihsm_rs.Command.Code.{CommandCode}
use yubihsm_rs.Device.Error.{DeviceErrorKind}
use yubihsm_rs.Object.Types.{ObjectType}
use yubihsm_rs.Response.Message.{ResponseMessage}
use yubihsm_rs.Wrap.Info.{field}
use yubihsm_rs.MockHsm.Keys.{Keys}
use yubihsm_rs.MockHsm.Objects as Objects
use yubihsm_rs.MockHsm.Payload.{Payload}
use yubihsm_rs.MockHsm.Requests.{parsed, success, refused, keyed_shape}
use yubihsm_rs.MockHsm.State.{Hsm}
use yubihsm_rs.Wire.{Shape, uint, rest, pair, Value}

-- The crates' signatures, of a key, a source of random bytes and a digest or a message. None is a
-- panic: a digest of a length that the crate does not take.
pub record Signers (K : Keys) : Type 0 where
  -- ECDSA over `reduce_bytes` of the digest, in DER
  pub p256_sign : K.P256 → (ℕ → List ℕ) → List ℕ → Option (List ℕ)
  pub k256_sign : K.K256 → (ℕ → List ℕ) → List ℕ → Option (List ℕ)
  pub ed25519_sign : K.Ed25519 → List ℕ → List ℕ
  -- HMAC-SHA256 of a message under a key: 32 bytes
  pub hmac_sha256 : List ℕ → List ℕ → List ℕ
  pub pss_sign : MgfAlgorithm → K.Rsa → (ℕ → List ℕ) → List ℕ → Option (List ℕ)
  -- PKCS#1 v1.5 with the hash function whose digests have a number of bytes
  pub pkcs1v15_sign : ℕ → K.Rsa → List ℕ → Option (List ℕ)

-- `assert_eq!(alg, hmac::Algorithm::Sha256)`
is_sha256 : HmacAlgorithm → Bool
is_sha256 HmacAlgorithm.sha256 = true
is_sha256 _ = false

-- `SignPssCommand`: the salt's length is read and not used.
abbrev pub sign_pss_shape : Shape
sign_pss_shape = pair (uint 2) (pair (uint 1) (pair (uint 2) rest))

unfoldable pub sign_pss_of : Value sign_pss_shape → Option (ℕ × (MgfAlgorithm × List ℕ))
unfolding field Mgf.from_u8
sign_pss_of (key_id, (mgf_byte, (salt_len, digest))) =
    field (Mgf.from_u8 mgf_byte) (λ alg. some (key_id, (alg, digest)))

module _ (K : Keys) (S : Signers K) where
  -- What is answered for an object, or `ObjectNotFound`.
  unfoldable pub with_payload :
      ℕ → ObjectType → (Payload K → Hsm K ResponseMessage) → Hsm K ResponseMessage
  with_payload key_id object_type sign = do
    s ← get
    elim (Objects.get_object K key_id object_type s.objects) [
      | some obj ↦ sign obj.payload
      | none ↦ refused DeviceErrorKind.object_not_found
    ]

  -- A signature, if the crate gives one.
  unfoldable pub signed : CommandCode → Option (List ℕ) → Hsm K ResponseMessage
  signed code signature = do bytes ← lift (expect signature); success code bytes

  unfoldable pub ecdsa : (ℕ → List ℕ) → List ℕ → Payload K → Hsm K ResponseMessage
  unfolding signed
  ecdsa random digest (Payload.ecdsa_nist_p256 secret_key) =
      signed CommandCode.sign_ecdsa (S.p256_sign secret_key random digest)
  ecdsa random digest (Payload.ecdsa_secp256k1 secret_key) =
      signed CommandCode.sign_ecdsa (S.k256_sign secret_key random digest)
  ecdsa random digest _ = refused DeviceErrorKind.invalid_command

  unfoldable pub sign_ecdsa : (ℕ → List ℕ) → List ℕ → Hsm K ResponseMessage
  unfolding ecdsa with_payload
  sign_ecdsa random cmd_data = do
    (key_id, digest) ← lift (parsed keyed_shape some cmd_data)
    with_payload key_id ObjectType.asymmetric_key (ecdsa random digest)

  unfoldable pub eddsa : List ℕ → Payload K → Hsm K ResponseMessage
  eddsa message (Payload.ed25519_key signing_key) =
      success CommandCode.sign_eddsa (S.ed25519_sign signing_key message)
  eddsa message _ = refused DeviceErrorKind.invalid_command

  unfoldable pub sign_eddsa : List ℕ → Hsm K ResponseMessage
  unfolding eddsa with_payload
  sign_eddsa cmd_data = do
    (key_id, message) ← lift (parsed keyed_shape some cmd_data)
    with_payload key_id ObjectType.asymmetric_key (eddsa message)

  unfoldable pub hmac_tag : List ℕ → Payload K → Hsm K ResponseMessage
  unfolding is_sha256
  hmac_tag message (Payload.hmac_key alg key) = do
    assert (is_sha256 alg)
    success CommandCode.sign_hmac (S.hmac_sha256 key message)
  hmac_tag message _ = refused DeviceErrorKind.invalid_command

  unfoldable pub sign_hmac : List ℕ → Hsm K ResponseMessage
  unfolding hmac_tag with_payload
  sign_hmac cmd_data = do
    (key_id, message) ← lift (parsed keyed_shape some cmd_data)
    with_payload key_id ObjectType.hmac_key (hmac_tag message)

  unfoldable pub pss : (ℕ → List ℕ) → MgfAlgorithm → List ℕ → Payload K → Hsm K ResponseMessage
  unfolding signed
  pss random alg digest (Payload.rsa_key private_key) =
      signed CommandCode.sign_pss (S.pss_sign alg private_key random digest)
  pss random alg digest _ = refused DeviceErrorKind.invalid_command

  unfoldable pub sign_pss : (ℕ → List ℕ) → List ℕ → Hsm K ResponseMessage
  unfolding pss with_payload
  sign_pss random cmd_data = do
    (key_id, (alg, digest)) ← lift (parsed sign_pss_shape sign_pss_of cmd_data)
    with_payload key_id ObjectType.asymmetric_key (pss random alg digest)

  -- Digests of SHA-1, SHA-256, SHA-384 and SHA-512 are told apart by their length.
  unfoldable pub pkcs1v15 : List ℕ → Payload K → Hsm K ResponseMessage
  unfolding signed
  pkcs1v15 digest (Payload.rsa_key private_key) =
      if length digest == 20
      then signed CommandCode.sign_pkcs1 (S.pkcs1v15_sign 20 private_key digest)
      else if length digest == 32
      then signed CommandCode.sign_pkcs1 (S.pkcs1v15_sign 32 private_key digest)
      else if length digest == 48
      then signed CommandCode.sign_pkcs1 (S.pkcs1v15_sign 48 private_key digest)
      else if length digest == 64
      then signed CommandCode.sign_pkcs1 (S.pkcs1v15_sign 64 private_key digest)
      else refused DeviceErrorKind.invalid_command
  pkcs1v15 digest _ = refused DeviceErrorKind.invalid_command

  unfoldable pub sign_pkcs1v15 : List ℕ → Hsm K ResponseMessage
  unfolding pkcs1v15 with_payload
  sign_pkcs1v15 cmd_data = do
    (key_id, digest) ← lift (parsed keyed_shape some cmd_data)
    with_payload key_id ObjectType.asymmetric_key (pkcs1v15 digest)

  -- `ct_eq(..).unwrap_u8()`
  is_equal : List ℕ → List ℕ → ℕ
  is_equal a b = if bytes_eq a b then 1 else 0

  -- The first 32 bytes are the tag; fewer are a panic.
  unfoldable pub verified : List ℕ → Payload K → Hsm K ResponseMessage
  unfolding is_sha256 is_equal
  verified bytes (Payload.hmac_key alg key) = do
    assert (is_sha256 alg)
    assert (leb 32 (length bytes))
    let tag = S.hmac_sha256 key (drop 32 bytes)
    success CommandCode.verify_hmac (is_equal tag (take 32 bytes) ∷ [])
  verified bytes _ = refused DeviceErrorKind.invalid_command

  unfoldable pub verify_hmac : List ℕ → Hsm K ResponseMessage
  unfolding verified with_payload
  verify_hmac cmd_data = do
    (key_id, bytes) ← lift (parsed keyed_shape some cmd_data)
    with_payload key_id ObjectType.hmac_key (verified bytes)
