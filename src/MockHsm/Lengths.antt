-- ===== src/MockHsm/Lengths.antt =====
-- The length that is recorded for a payload (src/mockhsm/object/payload.rs).
use yubihsm_rs.Base.{
  ℕ, ◌%◌, ◌^◌, ◌≡◌, refl, List, Option, none, some, Result, ok, err, panic, length, ◌==◌, ◌>>=◌,
  ◌>>◌, assert, Bool-cases, Option-cases, inl, inr, ==_iff, expect,
}
use mathlib.Core.Path.{subst}
use yubihsm_rs.Algorithm.Any.{Algorithm}
use yubihsm_rs.Algorithm.Asymmetric
use yubihsm_rs.Algorithm.Asymmetric.{AsymmetricAlgorithm}
use yubihsm_rs.MockHsm.Error.{HsmErrorKind}
use yubihsm_rs.MockHsm.Keys.{Keys}
use yubihsm_rs.MockHsm.Payload as Payload
use yubihsm_rs.MockHsm.Payload.{Payload}

module _ (K : Keys) where
  -- The length for a payload that is made of bytes, cut to a `u16`: that of the bytes, and that of
  -- the modulus for an RSA key.
  abbrev pub recorded_length : Payload K → List ℕ → ℕ
  recorded_length (Payload.rsa_key key) bytes = K.rsa_size key % 2 ^ 16
  recorded_length _ bytes = length bytes % 2 ^ 16

  -- A result is a payload of that length, or none.
  abbrev IsRecorded : List ℕ → Result HsmErrorKind (Payload K) → Type 0
  IsRecorded bytes (ok payload) = Payload.len K payload ≡ recorded_length payload bytes
  IsRecorded bytes (err e) = Unit
  IsRecorded bytes panic = Unit

  -- A key that is made of bytes of one length.
  key-IsRecorded :
      {X : Type 0} (make : X → Payload K) (n : ℕ) (bytes : List ℕ) (key : Option X)
      → ((k : X) → length bytes ≡ n → Payload.len K (make k) ≡ recorded_length (make k) bytes)
      → IsRecorded bytes (assert (length bytes == n) >> (expect key >>= λ k. ok (make k)))
  key-IsRecorded make n bytes none h = elim (Bool-cases (length bytes == n)) [
    | inl e ↦ rw e tt
    | inr e ↦ rw e tt
  ]
  key-IsRecorded make n bytes (some k) h = elim (Bool-cases (length bytes == n)) [
    | inl e ↦ rw e (h k ((==_iff (length bytes) n).0 e))
    | inr e ↦ rw e tt
  ]

  from_primes-IsRecorded :
      (bytes : List ℕ) (exp : Option K.BigUint) (from_p_q : K.BigUint → Option K.Rsa)
      → IsRecorded bytes
          (expect exp >>= λ n. expect (from_p_q n) >>= λ key. ok (Payload.rsa_key key))
  unfolding Payload.len
  from_primes-IsRecorded bytes none from_p_q = tt
  from_primes-IsRecorded bytes (some n) from_p_q = elim (Option-cases (from_p_q n)) [
    | inl e ↦ rw e tt
    | inr (key, e) ↦ rw e refl
  ]

  rsa-IsRecorded :
      (alg : AsymmetricAlgorithm) (bytes : List ℕ) → IsRecorded bytes (Payload.new_rsa K alg bytes)
  unfolding Payload.new_rsa Payload.len
  rsa-IsRecorded alg bytes = elim (Bool-cases (length bytes == Asymmetric.key_len alg)) [
    | inl e ↦ rw e (from_primes-IsRecorded bytes (K.from_u64 65537) _)
    | inr e ↦ rw e tt
  ]

  new_asymmetric-IsRecorded :
      (alg : AsymmetricAlgorithm) (bytes : List ℕ)
      → IsRecorded bytes (Payload.new_asymmetric K alg bytes)
  unfolding Payload.new_asymmetric Payload.len
  new_asymmetric-IsRecorded AsymmetricAlgorithm.ec_p256 bytes =
      key-IsRecorded Payload.ecdsa_nist_p256 32 bytes (K.p256_from_slice bytes) (λ k h. rw h)
  new_asymmetric-IsRecorded AsymmetricAlgorithm.ec_k256 bytes =
      key-IsRecorded Payload.ecdsa_secp256k1 32 bytes (K.k256_from_slice bytes) (λ k h. rw h)
  new_asymmetric-IsRecorded AsymmetricAlgorithm.ed25519 bytes =
      key-IsRecorded Payload.ed25519_key 32 bytes (K.ed25519_try_from bytes) (λ k h. rw h)
  new_asymmetric-IsRecorded AsymmetricAlgorithm.rsa2048 bytes =
      rsa-IsRecorded AsymmetricAlgorithm.rsa2048 bytes
  new_asymmetric-IsRecorded AsymmetricAlgorithm.rsa3072 bytes =
      rsa-IsRecorded AsymmetricAlgorithm.rsa3072 bytes
  new_asymmetric-IsRecorded AsymmetricAlgorithm.rsa4096 bytes =
      rsa-IsRecorded AsymmetricAlgorithm.rsa4096 bytes
  new_asymmetric-IsRecorded _ bytes = tt

  authentication-IsRecorded :
      (bytes : List ℕ)
      → IsRecorded bytes (
          Payload.authentication_key_from_slice bytes >>= λ key.
          ok (Payload.authentication_key key))
  unfolding Payload.authentication_key_from_slice Payload.len
  authentication-IsRecorded bytes = elim (Bool-cases (length bytes == 32)) [
    | inl e ↦ rw e (rw ((==_iff (length bytes) 32).0 e) refl)
    | inr e ↦ rw e tt
  ]

  new-IsRecorded : (alg : Algorithm) (bytes : List ℕ) → IsRecorded bytes (Payload.new K alg bytes)
  unfolding Payload.new Payload.len
  new-IsRecorded (Algorithm.wrap alg) bytes = refl
  new-IsRecorded (Algorithm.asymmetric alg) bytes = new_asymmetric-IsRecorded alg bytes
  new-IsRecorded (Algorithm.hmac alg) bytes = refl
  new-IsRecorded (Algorithm.opaque alg) bytes = refl
  new-IsRecorded (Algorithm.authentication alg) bytes = authentication-IsRecorded bytes
  new-IsRecorded _ bytes = tt

  pub len-new :
      (alg : Algorithm) (bytes : List ℕ) (payload : Payload K)
      → Payload.new K {E = HsmErrorKind} alg bytes ≡ ok payload
      → Payload.len K payload ≡ recorded_length payload bytes
  len-new alg bytes payload e = subst (IsRecorded bytes) e (new-IsRecorded alg bytes)
