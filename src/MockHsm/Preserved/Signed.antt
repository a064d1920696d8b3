-- ===== src/MockHsm/Preserved/Signed.antt =====
-- The handlers that sign keep properties of the simulated device (src/mockhsm/command.rs).
use yubihsm_rs.Base.{ℕ, List, Option}
use yubihsm_rs.Base.Programs.{Keeps, bind-Keeps, get-Keeps, lift-Keeps}
use yubihsm_rs.Algorithm.Mgf.{MgfAlgorithm}
use yubihsm_rs.Command.Code.{CommandCode}
use yubihsm_rs.Object.Types.{ObjectType}
use yubihsm_rs.Response.Message.{ResponseMessage}
use yubihsm_rs.MockHsm.Commands.Signing as Signing
use yubihsm_rs.MockHsm.Commands.Signing.{Signers}
use yubihsm_rs.MockHsm.Keys.{Keys}
use yubihsm_rs.MockHsm.Payload.{
  Payload, hmac_key, rsa_key, ed25519_key, ecdsa_nist_p256, ecdsa_secp256k1,
}
use yubihsm_rs.MockHsm.State.{State, Hsm}
use yubihsm_rs.MockHsm.Preserved.{rules, success-Keeps, refused-Keeps, looked_up-Keeps}

module _ {K : Keys} {P : State K → Type 0} (S : Signers K) where
  with_payload-Keeps :
      (id : ℕ) (ty : ObjectType) (sign : Payload K → Hsm K ResponseMessage)
      → ((payload : Payload K) → Keeps P (sign payload))
      → Keeps P (Signing.with_payload K S id ty sign)
  unfolding Signing.with_payload
  with_payload-Keeps id ty sign h =
      bind-Keeps _ _ get-Keeps (λ s. looked_up-Keeps _ _ (λ obj. h obj.payload))

  signed-Keeps :
      (code : CommandCode) (signature : Option (List ℕ))
      → Keeps P (Signing.signed K S code signature)
  unfolding Signing.signed
  signed-Keeps code signature = search rules

  ecdsa-Keeps :
      (random : ℕ → List ℕ) (digest : List ℕ) (payload : Payload K)
      → Keeps P (Signing.ecdsa K S random digest payload)
  unfolding Signing.ecdsa
  ecdsa-Keeps random digest (ecdsa_nist_p256 _) = signed-Keeps _ _
  ecdsa-Keeps random digest (ecdsa_secp256k1 _) = signed-Keeps _ _
  ecdsa-Keeps random digest _ = refused-Keeps _

  pub sign_ecdsa-Keeps :
      (random : ℕ → List ℕ) (bytes : List ℕ) → Keeps P (Signing.sign_ecdsa K S random bytes)
  unfolding Signing.sign_ecdsa
  sign_ecdsa-Keeps random bytes =
      bind-Keeps _ _ (lift-Keeps _) (λ r. with_payload-Keeps _ _ _ (ecdsa-Keeps random r.1))

  eddsa-Keeps : (bytes : List ℕ) (payload : Payload K) → Keeps P (Signing.eddsa K S bytes payload)
  unfolding Signing.eddsa
  eddsa-Keeps bytes (ed25519_key _) = success-Keeps _ _
  eddsa-Keeps bytes _ = refused-Keeps _

  pub sign_eddsa-Keeps : (bytes : List ℕ) → Keeps P (Signing.sign_eddsa K S bytes)
  unfolding Signing.sign_eddsa
  sign_eddsa-Keeps bytes =
      bind-Keeps _ _ (lift-Keeps _) (λ r. with_payload-Keeps _ _ _ (eddsa-Keeps r.1))

  hmac_tag-Keeps :
      (bytes : List ℕ) (payload : Payload K) → Keeps P (Signing.hmac_tag K S bytes payload)
  unfolding Signing.hmac_tag
  hmac_tag-Keeps bytes (hmac_key _ _) = search rules
  hmac_tag-Keeps bytes _ = refused-Keeps _

  pub sign_hmac-Keeps : (bytes : List ℕ) → Keeps P (Signing.sign_hmac K S bytes)
  unfolding Signing.sign_hmac
  sign_hmac-Keeps bytes =
      bind-Keeps _ _ (lift-Keeps _) (λ r. with_payload-Keeps _ _ _ (hmac_tag-Keeps r.1))

  pss-Keeps :
      (random : ℕ → List ℕ) (alg : MgfAlgorithm) (digest : List ℕ) (payload : Payload K)
      → Keeps P (Signing.pss K S random alg digest payload)
  unfolding Signing.pss
  pss-Keeps random alg digest (rsa_key _) = signed-Keeps _ _
  pss-Keeps random alg digest _ = refused-Keeps _

  pub sign_pss-Keeps :
      (random : ℕ → List ℕ) (bytes : List ℕ) → Keeps P (Signing.sign_pss K S random bytes)
  unfolding Signing.sign_pss
  sign_pss-Keeps random bytes =
      bind-Keeps _ _ (lift-Keeps _)
        (λ r. with_payload-Keeps _ _ _ (pss-Keeps random (r.1).0 (r.1).1))

  pkcs1v15-Keeps :
      (digest : List ℕ) (payload : Payload K) → Keeps P (Signing.pkcs1v15 K S digest payload)
  unfolding Signing.pkcs1v15
  pkcs1v15-Keeps digest (rsa_key _) = search (rules, signed-Keeps)
  pkcs1v15-Keeps digest _ = refused-Keeps _

  pub sign_pkcs1v15-Keeps : (bytes : List ℕ) → Keeps P (Signing.sign_pkcs1v15 K S bytes)
  unfolding Signing.sign_pkcs1v15
  sign_pkcs1v15-Keeps bytes =
      bind-Keeps _ _ (lift-Keeps _) (λ r. with_payload-Keeps _ _ _ (pkcs1v15-Keeps r.1))

  verified-Keeps :
      (bytes : List ℕ) (payload : Payload K) → Keeps P (Signing.verified K S bytes payload)
  unfolding Signing.verified
  verified-Keeps bytes (hmac_key _ _) = search rules
  verified-Keeps bytes _ = refused-Keeps _

  pub verify_hmac-Keeps : (bytes : List ℕ) → Keeps P (Signing.verify_hmac K S bytes)
  unfolding Signing.verify_hmac
  verify_hmac-Keeps bytes =
      bind-Keeps _ _ (lift-Keeps _) (λ r. with_payload-Keeps _ _ _ (verified-Keeps r.1))
