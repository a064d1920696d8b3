-- ===== src/MockHsm/Keys.antt =====
-- The crates whose keys the simulated device holds: p256, k256, ed25519-dalek, rsa (with its big
-- numbers), aes with ccm, pbkdf2 and bitflags, and the random numbers of rand_core.
use yubihsm_rs.Base.{ℕ, ◌≡◌, Bool, Option, some, List}

pub record Keys : Type 1 where
  pub P256 : Type 0
  pub K256 : Type 0
  pub Ed25519 : Type 0
  pub Rsa : Type 0
  pub BigUint : Type 0
  pub Ccm : Type 0
  -- `SecretKey::from_slice`, `to_bytes`, and the public key's uncompressed point
  pub p256_from_slice : List ℕ → Option P256
  pub p256_to_bytes : P256 → List ℕ
  pub p256_encoded_point : P256 → List ℕ
  pub k256_from_slice : List ℕ → Option K256
  pub k256_to_bytes : K256 → List ℕ
  pub k256_encoded_point : K256 → List ℕ
  -- `SigningKey::try_from`, and the bytes of the verifying key
  pub ed25519_try_from : List ℕ → Option Ed25519
  pub ed25519_verifying_key : Ed25519 → List ℕ
  pub from_bytes_be : List ℕ → BigUint
  pub from_u64 : ℕ → Option BigUint
  pub to_bytes_be : BigUint → List ℕ
  pub rsa_from_p_q : BigUint → BigUint → BigUint → Option Rsa
  -- The size of the modulus in bytes, the modulus, the primes, and what is precomputed: `dp`,
  -- `dq` and the magnitude's bytes of `qinv`.
  pub rsa_size : Rsa → ℕ
  pub rsa_n : Rsa → BigUint
  pub rsa_primes : Rsa → List BigUint
  pub rsa_dp : Rsa → Option BigUint
  pub rsa_dq : Rsa → Option BigUint
  pub rsa_qinv : Rsa → Option (List ℕ)
  -- Keys from a source of random bytes, which gives as many as it is asked for.
  pub p256_random : (ℕ → List ℕ) → P256
  pub k256_random : (ℕ → List ℕ) → K256
  pub ed25519_generate : (ℕ → List ℕ) → Ed25519
  pub rsa_new : (ℕ → List ℕ) → ℕ → Option Rsa
  -- AES-CCM for keys of a number of bytes: `new_from_slice`, then a key, a nonce, associated data
  -- and the buffer.
  pub ccm_new_from_slice : ℕ → List ℕ → Option Ccm
  pub ccm_encrypt_in_place : Ccm → List ℕ → List ℕ → List ℕ → Option (List ℕ)
  pub ccm_decrypt_in_place : Ccm → List ℕ → List ℕ → List ℕ → Option (List ℕ)
  -- `contains` of bitflags: the first set of bits holds the second.
  pub contains : ℕ → ℕ → Bool
  -- PBKDF2 of the default password
  pub default_authentication_key : List ℕ

-- What is documented of AES-CCM: what is encrypted under a nonce and associated data is read back
-- under the same.
pub record CcmLaws (K : Keys) : Type 0 where
  pub ccm_decrypt-ccm_encrypt :
      (key : K.Ccm) (nonce text buffer sealed : List ℕ)
      → K.ccm_encrypt_in_place key nonce text buffer ≡ some sealed
      → K.ccm_decrypt_in_place key nonce text sealed ≡ some buffer
