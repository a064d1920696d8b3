-- ===== src/MockHsm/Made.antt =====
-- What a payload is made of (src/mockhsm/object/payload.rs).
use yubihsm_rs.Base.{
  ℕ, ◌/◌, ◌≡◌, refl, List, Option, some, Bool, true, false, Result, ok, length, take, drop, ◌==◌,
  ◌>>=◌, ◌>>◌, assert, ==_iff, expect, Bool-cases, inl, inr,
}
use yubihsm_rs.Base.Results.{>>=-eq-ok, expect-eq-ok, ok-inj}
use yubihsm_rs.Algorithm.Any.{Algorithm}
use yubihsm_rs.Algorithm.Asymmetric
use yubihsm_rs.Algorithm.Asymmetric.{AsymmetricAlgorithm}
use yubihsm_rs.MockHsm.Error.{HsmErrorKind}
use yubihsm_rs.MockHsm.Keys.{Keys}
use yubihsm_rs.MockHsm.Payload as Payload
use yubihsm_rs.MockHsm.Payload.{Payload}

assert_inv : (test : Bool) → ◌≡◌ {A = Result HsmErrorKind Unit} (assert test) (ok tt) → test ≡ true
assert_inv true e = refl
assert_inv false e = cc

module _ (K : Keys) where
  -- A payload of a key that a crate reads from 32 bytes.
  abbrev pub IsRead : {X : Type 0} → (X → Payload K) → Option X → List ℕ → Payload K → Type 0
  IsRead {X} make key bytes payload =
      (length bytes ≡ 32) × (k : X) × (key ≡ some k) × (make k ≡ payload)

  -- An RSA key of two primes of one size, and the exponent 65537.
  abbrev pub IsOfPrimes : ℕ → List ℕ → Payload K → Type 0
  IsOfPrimes size bytes payload =
      (length bytes ≡ size)
      × (exp : K.BigUint) × (K.from_u64 65537 ≡ some exp)
      × (key : K.Rsa) × (K.rsa_from_p_q (K.from_bytes_be (take (size / 2) bytes))
            (K.from_bytes_be (drop (size / 2) bytes)) exp
          ≡ some key)
      × (Payload.rsa_key key ≡ payload)

  -- The payload that an algorithm makes of bytes, for the algorithms that have one: the bytes
  -- themselves, which are 32 for an authentication key, or the key that is read from them.
  abbrev pub IsMadeOf : Algorithm → List ℕ → Payload K → Type 0
  IsMadeOf (Algorithm.wrap alg) bytes payload = Payload.wrap_key alg bytes ≡ payload
  IsMadeOf (Algorithm.hmac alg) bytes payload = Payload.hmac_key alg bytes ≡ payload
  IsMadeOf (Algorithm.opaque alg) bytes payload = Payload.opaque alg bytes ≡ payload
  IsMadeOf (Algorithm.authentication alg) bytes payload =
      (length bytes ≡ 32) × (Payload.authentication_key bytes ≡ payload)
  IsMadeOf (Algorithm.asymmetric AsymmetricAlgorithm.ec_p256) bytes payload =
      IsRead Payload.ecdsa_nist_p256 (K.p256_from_slice bytes) bytes payload
  IsMadeOf (Algorithm.asymmetric AsymmetricAlgorithm.ec_k256) bytes payload =
      IsRead Payload.ecdsa_secp256k1 (K.k256_from_slice bytes) bytes payload
  IsMadeOf (Algorithm.asymmetric AsymmetricAlgorithm.ed25519) bytes payload =
      IsRead Payload.ed25519_key (K.ed25519_try_from bytes) bytes payload
  IsMadeOf (Algorithm.asymmetric AsymmetricAlgorithm.rsa2048) bytes payload =
      IsOfPrimes 256 bytes payload
  IsMadeOf (Algorithm.asymmetric AsymmetricAlgorithm.rsa3072) bytes payload =
      IsOfPrimes 384 bytes payload
  IsMadeOf (Algorithm.asymmetric AsymmetricAlgorithm.rsa4096) bytes payload =
      IsOfPrimes 512 bytes payload
  IsMadeOf _ bytes payload = ⊥

  sized :
      (n : ℕ) (bytes : List ℕ) (next : Result HsmErrorKind (Payload K)) (payload : Payload K)
      → (assert (length bytes == n) >> next) ≡ ok payload
      → (length bytes ≡ n) × (next ≡ ok payload)
  sized n bytes next payload e =
      let (u, held, rest) = >>=-eq-ok (assert (length bytes == n)) (λ _. next) e in
      ((==_iff (length bytes) n).0 (assert_inv (length bytes == n) held), rest)

  key_inv :
      {X : Type 0} (make : X → Payload K) (key : Option X) (bytes : List ℕ) (payload : Payload K)
      → ◌>>◌ {E = HsmErrorKind} (assert (length bytes == 32)) (expect key >>= λ k. ok (make k))
        ≡ ok payload
      → IsRead make key bytes payload
  key_inv make key bytes payload e =
      let (long, rest) = sized 32 bytes _ payload e in
      let (k, found, made) = >>=-eq-ok (expect key) (λ k. ok (make k)) rest in
      (long, k, expect-eq-ok {E = HsmErrorKind} key k found, ok-inj {E = HsmErrorKind} made)

  rsa_inv :
      (alg : AsymmetricAlgorithm) (bytes : List ℕ) (payload : Payload K)
      → Payload.new_rsa K {E = HsmErrorKind} alg bytes ≡ ok payload
      → IsOfPrimes (Asymmetric.key_len alg) bytes payload
  unfolding Payload.new_rsa
  rsa_inv alg bytes payload e =
      let (long, rest) = sized (Asymmetric.key_len alg) bytes _ payload e in
      let (exp, fits, rest') = >>=-eq-ok (expect (K.from_u64 65537)) _ rest in
      let (key, found, made) = >>=-eq-ok (expect (K.rsa_from_p_q _ _ exp)) _ rest' in
      (
        long,
        exp,
        expect-eq-ok {E = HsmErrorKind} (K.from_u64 65537) exp fits,
        key,
        expect-eq-ok {E = HsmErrorKind} (K.rsa_from_p_q _ _ exp) key found,
        ok-inj {E = HsmErrorKind} made,
      )

  asymmetric_inv :
      (alg : AsymmetricAlgorithm) (bytes : List ℕ) (payload : Payload K)
      → Payload.new_asymmetric K {E = HsmErrorKind} alg bytes ≡ ok payload
      → IsMadeOf (Algorithm.asymmetric alg) bytes payload
  unfolding Payload.new_asymmetric Asymmetric.key_len
  asymmetric_inv AsymmetricAlgorithm.ec_p256 bytes payload e =
      key_inv Payload.ecdsa_nist_p256 (K.p256_from_slice bytes) bytes payload e
  asymmetric_inv AsymmetricAlgorithm.ec_k256 bytes payload e =
      key_inv Payload.ecdsa_secp256k1 (K.k256_from_slice bytes) bytes payload e
  asymmetric_inv AsymmetricAlgorithm.ed25519 bytes payload e =
      key_inv Payload.ed25519_key (K.ed25519_try_from bytes) bytes payload e
  asymmetric_inv AsymmetricAlgorithm.rsa2048 bytes payload e =
      rsa_inv AsymmetricAlgorithm.rsa2048 bytes payload e
  asymmetric_inv AsymmetricAlgorithm.rsa3072 bytes payload e =
      rsa_inv AsymmetricAlgorithm.rsa3072 bytes payload e
  asymmetric_inv AsymmetricAlgorithm.rsa4096 bytes payload e =
      rsa_inv AsymmetricAlgorithm.rsa4096 bytes payload e
  asymmetric_inv _ bytes payload e = cc

  authentication_inv :
      (bytes : List ℕ) (payload : Payload K)
      → (Payload.authentication_key_from_slice {E = HsmErrorKind} bytes >>= λ key.
          ok (Payload.authentication_key key))
        ≡ ok payload
      → (length bytes ≡ 32) × (Payload.authentication_key bytes ≡ payload)
  unfolding Payload.authentication_key_from_slice
  authentication_inv bytes payload e = elim (Bool-cases (length bytes == 32)) [
    | inl h ↦ ((==_iff (length bytes) 32).0 h, cc (e, h))
    | inr h ↦ cc (e, h)
  ]

  pub new-IsMadeOf :
      (alg : Algorithm) (bytes : List ℕ) (payload : Payload K)
      → Payload.new K {E = HsmErrorKind} alg bytes ≡ ok payload
      → IsMadeOf alg bytes payload
  unfolding Payload.new
  new-IsMadeOf (Algorithm.wrap alg) bytes payload e = ok-inj {E = HsmErrorKind} e
  new-IsMadeOf (Algorithm.hmac alg) bytes payload e = ok-inj {E = HsmErrorKind} e
  new-IsMadeOf (Algorithm.opaque alg) bytes payload e = ok-inj {E = HsmErrorKind} e
  new-IsMadeOf (Algorithm.authentication alg) bytes payload e = authentication_inv bytes payload e
  new-IsMadeOf (Algorithm.asymmetric alg) bytes payload e = asymmetric_inv alg bytes payload e
  new-IsMadeOf _ bytes payload e = cc
