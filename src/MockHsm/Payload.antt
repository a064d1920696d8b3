-- ===== src/MockHsm/Payload.antt =====
-- What an object holds (src/mockhsm/object/payload.rs).
use yubihsm_rs.Base.{
  ℕ, ◌/◌, ◌%◌, ◌^◌, Option, none, some, List, [], ◌∷◌, ◌++◌, length, take, drop, Result, ok, panic,
  ◌>>=◌, ◌>>◌, assert, expect, ◌==◌, if◌then◌else◌,
}
use yubihsm_rs.Algorithm.Any.{Algorithm}
use yubihsm_rs.Algorithm.Asymmetric
use yubihsm_rs.Algorithm.Asymmetric.{AsymmetricAlgorithm}
use yubihsm_rs.Algorithm.Authentication.{AuthenticationAlgorithm}
use yubihsm_rs.Algorithm.Hmac
use yubihsm_rs.Algorithm.Hmac.{HmacAlgorithm}
use yubihsm_rs.Algorithm.Opaque.{OpaqueAlgorithm}
use yubihsm_rs.Algorithm.Wrap
use yubihsm_rs.Algorithm.Wrap.{WrapAlgorithm}
use yubihsm_rs.MockHsm.Keys.{Keys}

-- `authentication::key::SIZE`
abbrev pub authentication_key_size : ℕ
authentication_key_size = 32

-- `authentication::Key::from_slice(...).unwrap()`
unfoldable pub authentication_key_from_slice : {E : Type 0} → List ℕ → Result E (List ℕ)
authentication_key_from_slice key_slice =
    if length key_slice == authentication_key_size then ok key_slice else panic

module _ (K : Keys) where
  pub data Payload : Type 0 where
    authentication_key : List ℕ → Payload
    ecdsa_nist_p256 : K.P256 → Payload
    ecdsa_secp256k1 : K.K256 → Payload
    ed25519_key : K.Ed25519 → Payload
    rsa_key : K.Rsa → Payload
    hmac_key : HmacAlgorithm → List ℕ → Payload
    opaque : OpaqueAlgorithm → List ℕ → Payload
    wrap_key : WrapAlgorithm → List ℕ → Payload

  unfoldable pub new_rsa : {E : Type 0} → AsymmetricAlgorithm → List ℕ → Result E Payload
  unfolding Asymmetric.key_len
  new_rsa asymmetric_alg bytes = do
    assert (length bytes == Asymmetric.key_len asymmetric_alg)
    exp ← expect (K.from_u64 65537)
    let p = K.from_bytes_be (take (Asymmetric.key_len asymmetric_alg / 2) bytes)
    let q = K.from_bytes_be (drop (Asymmetric.key_len asymmetric_alg / 2) bytes)
    key ← expect (K.rsa_from_p_q p q exp)
    ok (rsa_key key)

  unfoldable pub new_asymmetric : {E : Type 0} → AsymmetricAlgorithm → List ℕ → Result E Payload
  unfolding new_rsa
  new_asymmetric AsymmetricAlgorithm.ec_p256 bytes = do
    assert (length bytes == 32)
    key ← expect (K.p256_from_slice bytes)
    ok (ecdsa_nist_p256 key)
  new_asymmetric AsymmetricAlgorithm.ec_k256 bytes = do
    assert (length bytes == 32)
    key ← expect (K.k256_from_slice bytes)
    ok (ecdsa_secp256k1 key)
  new_asymmetric AsymmetricAlgorithm.ed25519 bytes = do
    assert (length bytes == 32)
    key ← expect (K.ed25519_try_from bytes)
    ok (ed25519_key key)
  new_asymmetric AsymmetricAlgorithm.rsa2048 bytes = new_rsa AsymmetricAlgorithm.rsa2048 bytes
  new_asymmetric AsymmetricAlgorithm.rsa3072 bytes = new_rsa AsymmetricAlgorithm.rsa3072 bytes
  new_asymmetric AsymmetricAlgorithm.rsa4096 bytes = new_rsa AsymmetricAlgorithm.rsa4096 bytes
  new_asymmetric _ bytes = panic

  -- `Payload::new`
  unfoldable pub new : {E : Type 0} → Algorithm → List ℕ → Result E Payload
  new (Algorithm.wrap alg) bytes = ok (wrap_key alg bytes)
  new (Algorithm.asymmetric alg) bytes = new_asymmetric alg bytes
  new (Algorithm.hmac alg) bytes = ok (hmac_key alg bytes)
  new (Algorithm.opaque alg) bytes = ok (opaque alg bytes)
  new (Algorithm.authentication alg) bytes = do
    key ← authentication_key_from_slice bytes
    ok (authentication_key key)
  new _ bytes = panic

  unfoldable pub gen_rsa : {E : Type 0} → (ℕ → List ℕ) → ℕ → Result E Payload
  gen_rsa random len = do private_key ← expect (K.rsa_new random len); ok (rsa_key private_key)

  unfoldable pub generate_asymmetric :
      {E : Type 0} → (ℕ → List ℕ) → AsymmetricAlgorithm → Result E Payload
  unfolding gen_rsa
  generate_asymmetric random AsymmetricAlgorithm.ec_p256 =
      ok (ecdsa_nist_p256 (K.p256_random random))
  generate_asymmetric random AsymmetricAlgorithm.ec_k256 =
      ok (ecdsa_secp256k1 (K.k256_random random))
  generate_asymmetric random AsymmetricAlgorithm.ed25519 =
      ok (ed25519_key (K.ed25519_generate random))
  generate_asymmetric random AsymmetricAlgorithm.rsa2048 = gen_rsa random 2048
  generate_asymmetric random AsymmetricAlgorithm.rsa3072 = gen_rsa random 3072
  generate_asymmetric random AsymmetricAlgorithm.rsa4096 = gen_rsa random 4096
  generate_asymmetric random _ = panic

  unfoldable pub generate : {E : Type 0} → (ℕ → List ℕ) → Algorithm → Result E Payload
  unfolding Wrap.key_len Hmac.key_len generate_asymmetric
  generate random (Algorithm.wrap alg) = ok (wrap_key alg (random (Wrap.key_len alg)))
  generate random (Algorithm.asymmetric alg) = generate_asymmetric random alg
  generate random (Algorithm.hmac alg) = ok (hmac_key alg (random (Hmac.key_len alg)))
  generate random _ = panic

  rsa_algorithm : {E : Type 0} → ℕ → Result E Algorithm
  rsa_algorithm size =
      if size == 256
      then ok (Algorithm.asymmetric AsymmetricAlgorithm.rsa2048)
      else if size == 384
      then ok (Algorithm.asymmetric AsymmetricAlgorithm.rsa3072)
      else if size == 512
      then ok (Algorithm.asymmetric AsymmetricAlgorithm.rsa4096)
      else panic

  unfoldable pub algorithm : {E : Type 0} → Payload → Result E Algorithm
  unfolding rsa_algorithm
  algorithm (authentication_key k) =
      ok (Algorithm.authentication AuthenticationAlgorithm.yubico_aes)
  algorithm (ecdsa_nist_p256 k) = ok (Algorithm.asymmetric AsymmetricAlgorithm.ec_p256)
  algorithm (ecdsa_secp256k1 k) = ok (Algorithm.asymmetric AsymmetricAlgorithm.ec_k256)
  algorithm (ed25519_key k) = ok (Algorithm.asymmetric AsymmetricAlgorithm.ed25519)
  algorithm (rsa_key k) = rsa_algorithm (K.rsa_size k)
  algorithm (hmac_key alg bytes) = ok (Algorithm.hmac alg)
  algorithm (opaque alg bytes) = ok (Algorithm.opaque alg)
  algorithm (wrap_key alg bytes) = ok (Algorithm.wrap alg)

  size : Payload → ℕ
  size (authentication_key k) = authentication_key_size
  size (ecdsa_nist_p256 k) = 32
  size (ecdsa_secp256k1 k) = 32
  size (ed25519_key k) = 32
  size (rsa_key k) = K.rsa_size k
  size (hmac_key alg bytes) = length bytes
  size (opaque alg bytes) = length bytes
  size (wrap_key alg bytes) = length bytes

  -- `len`, whose result is cut to a `u16`.
  unfoldable pub len : Payload → ℕ
  unfolding size
  len payload = size payload % 2 ^ 16

  -- The first byte of an encoded point is cut off.
  unfoldable pub public_key_bytes : Payload → Option (List ℕ)
  public_key_bytes (ecdsa_nist_p256 secret_key) = some (drop 1 (K.p256_encoded_point secret_key))
  public_key_bytes (ecdsa_secp256k1 secret_key) = some (drop 1 (K.k256_encoded_point secret_key))
  public_key_bytes (ed25519_key signing_key) = some (K.ed25519_verifying_key signing_key)
  public_key_bytes (rsa_key private_key) = some (K.to_bytes_be (K.rsa_n private_key))
  public_key_bytes _ = none

  unfoldable pub as_authentication_key : Payload → Option (List ℕ)
  as_authentication_key (authentication_key k) = some k
  as_authentication_key _ = none

  -- `extend_from_slice` of what is there
  optional : Option (List ℕ) → List ℕ
  optional none = []
  optional (some bytes) = bytes

  number_bytes : Option K.BigUint → List ℕ
  number_bytes none = []
  number_bytes (some n) = K.to_bytes_be n

  unfoldable pub rsa_bytes : {E : Type 0} → K.Rsa → List K.BigUint → Result E (List ℕ)
  unfolding optional number_bytes
  rsa_bytes k (p ∷ q ∷ _) = ok (
      K.to_bytes_be p
      ++ (K.to_bytes_be q
          ++ (number_bytes (K.rsa_dp k) ++ (number_bytes (K.rsa_dq k) ++ optional (K.rsa_qinv k)))))
  rsa_bytes k _ = panic

  unfoldable pub to_bytes : {E : Type 0} → Payload → Result E (List ℕ)
  unfolding rsa_bytes
  to_bytes (authentication_key k) = ok k
  to_bytes (ecdsa_nist_p256 k) = ok (K.p256_to_bytes k)
  to_bytes (ecdsa_secp256k1 k) = ok (K.k256_to_bytes k)
  to_bytes (ed25519_key k) = ok (K.ed25519_verifying_key k)
  to_bytes (rsa_key k) = rsa_bytes k (K.rsa_primes k)
  to_bytes (hmac_key alg bytes) = ok bytes
  to_bytes (opaque alg bytes) = ok bytes
  to_bytes (wrap_key alg bytes) = ok bytes
