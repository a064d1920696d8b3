-- ===== src/Algorithm/Any.antt =====
-- All algorithms of the device in one type (src/algorithm.rs).
use yubihsm_rs.Base.{
  ℕ, ◌<◌, ◌≡◌, refl, ap, ◌∙◌, sym, ◌↔◌, Bool, true, ◌||◌, Result, ok, err, ◌>>=◌, if◌then◌else◌,
  ◌==◌, ==_iff, ltb, ltb→lt, Option, none, some,
}
use yubihsm_rs.Algorithm.Oaep.{OaepAlgorithm}
use yubihsm_rs.Algorithm.Pkcs1.{Pkcs1Algorithm}
use yubihsm_rs.Algorithm.Pss.{PssAlgorithm}
use yubihsm_rs.Base.Tables.{holds_below, holds_below_at}
use yubihsm_rs.Algorithm.Error.{AlgorithmErrorKind, tag_invalid}
use yubihsm_rs.Algorithm.Asymmetric
use yubihsm_rs.Algorithm.Asymmetric.{AsymmetricAlgorithm}
use yubihsm_rs.Algorithm.Authentication
use yubihsm_rs.Algorithm.Authentication.{AuthenticationAlgorithm}
use yubihsm_rs.Algorithm.Ecdh
use yubihsm_rs.Algorithm.Ecdh.{EcdhAlgorithm}
use yubihsm_rs.Algorithm.Ecdsa
use yubihsm_rs.Algorithm.Ecdsa.{EcdsaAlgorithm}
use yubihsm_rs.Algorithm.Hmac
use yubihsm_rs.Algorithm.Hmac.{HmacAlgorithm}
use yubihsm_rs.Algorithm.Mgf
use yubihsm_rs.Algorithm.Mgf.{MgfAlgorithm}
use yubihsm_rs.Algorithm.Opaque
use yubihsm_rs.Algorithm.Opaque.{OpaqueAlgorithm}
use yubihsm_rs.Algorithm.Rsa
use yubihsm_rs.Algorithm.Rsa.{RsaAlgorithm, in_range}
use yubihsm_rs.Algorithm.Template
use yubihsm_rs.Algorithm.Template.{TemplateAlgorithm}
use yubihsm_rs.Algorithm.Wrap
use yubihsm_rs.Algorithm.Wrap.{WrapAlgorithm}
use yubihsm_rs.Algorithm.Otp
use yubihsm_rs.Algorithm.Otp.{OtpAlgorithm}

pub data Algorithm : Type 0 where
  asymmetric : AsymmetricAlgorithm → Algorithm
  authentication : AuthenticationAlgorithm → Algorithm
  ecdh : EcdhAlgorithm → Algorithm
  ecdsa : EcdsaAlgorithm → Algorithm
  hmac : HmacAlgorithm → Algorithm
  mgf : MgfAlgorithm → Algorithm
  opaque : OpaqueAlgorithm → Algorithm
  rsa : RsaAlgorithm → Algorithm
  template : TemplateAlgorithm → Algorithm
  wrap : WrapAlgorithm → Algorithm
  yubico_otp : OtpAlgorithm → Algorithm

unfoldable pub to_u8 : Algorithm → ℕ
unfolding Asymmetric.to_u8 Authentication.to_u8 Ecdh.to_u8 Ecdsa.to_u8 Hmac.to_u8 Mgf.to_u8
    Opaque.to_u8 Rsa.to_u8 Template.to_u8 Wrap.to_u8 Otp.to_u8
to_u8 (asymmetric alg) = Asymmetric.to_u8 alg
to_u8 (authentication alg) = Authentication.to_u8 alg
to_u8 (ecdh alg) = Ecdh.to_u8 alg
to_u8 (ecdsa alg) = Ecdsa.to_u8 alg
to_u8 (hmac alg) = Hmac.to_u8 alg
to_u8 (mgf alg) = Mgf.to_u8 alg
to_u8 (opaque alg) = Opaque.to_u8 alg
to_u8 (rsa alg) = Rsa.to_u8 alg
to_u8 (template alg) = Template.to_u8 alg
to_u8 (wrap alg) = Wrap.to_u8 alg
to_u8 (yubico_otp alg) = Otp.to_u8 alg

unfoldable pub from_u8 : ℕ → Result AlgorithmErrorKind Algorithm
unfolding Asymmetric.from_u8 Authentication.from_u8 Ecdh.from_u8 Ecdsa.from_u8 Hmac.from_u8
    Mgf.from_u8 Opaque.from_u8 Rsa.from_u8 Template.from_u8 Wrap.from_u8 Otp.from_u8
from_u8 byte =
    if in_range 0x01 0x08 byte || in_range 0x19 0x1c byte
    then (do alg ← Rsa.from_u8 byte; ok (rsa alg))
    else if in_range 0x09 0x12 byte || byte == 0x2e || byte == 0x2f
    then (do alg ← Asymmetric.from_u8 byte; ok (asymmetric alg))
    else if in_range 0x13 0x16 byte
    then (do alg ← Hmac.from_u8 byte; ok (hmac alg))
    else if byte == 0x17 || in_range 0x2b 0x2d byte
    then (do alg ← Ecdsa.from_u8 byte; ok (ecdsa alg))
    else if byte == 0x18
    then (do alg ← Ecdh.from_u8 byte; ok (ecdh alg))
    else if byte == 0x1d || byte == 0x29 || byte == 0x2a
    then (do alg ← Wrap.from_u8 byte; ok (wrap alg))
    else if byte == 0x1e || byte == 0x1f
    then (do alg ← Opaque.from_u8 byte; ok (opaque alg))
    else if in_range 0x20 0x23 byte
    then (do alg ← Mgf.from_u8 byte; ok (mgf alg))
    else if byte == 0x24
    then (do alg ← Template.from_u8 byte; ok (template alg))
    else if byte == 0x25 || byte == 0x27 || byte == 0x28
    then (do alg ← Otp.from_u8 byte; ok (yubico_otp alg))
    else if byte == 0x26
    then (do alg ← Authentication.from_u8 byte; ok (authentication alg))
    else err tag_invalid

unfoldable pub as_asymmetric : Algorithm → Option AsymmetricAlgorithm
as_asymmetric (asymmetric alg) = some alg
as_asymmetric _ = none

unfoldable pub as_authentication : Algorithm → Option AuthenticationAlgorithm
as_authentication (authentication alg) = some alg
as_authentication _ = none

unfoldable pub as_ecdh : Algorithm → Option EcdhAlgorithm
as_ecdh (ecdh alg) = some alg
as_ecdh _ = none

unfoldable pub as_ecdsa : Algorithm → Option EcdsaAlgorithm
as_ecdsa (ecdsa alg) = some alg
as_ecdsa _ = none

unfoldable pub as_hmac : Algorithm → Option HmacAlgorithm
as_hmac (hmac alg) = some alg
as_hmac _ = none

unfoldable pub as_mgf : Algorithm → Option MgfAlgorithm
as_mgf (mgf alg) = some alg
as_mgf _ = none

unfoldable pub as_opaque : Algorithm → Option OpaqueAlgorithm
as_opaque (opaque alg) = some alg
as_opaque _ = none

unfoldable pub as_rsa : Algorithm → Option RsaAlgorithm
as_rsa (rsa alg) = some alg
as_rsa _ = none

unfoldable pub as_template : Algorithm → Option TemplateAlgorithm
as_template (template alg) = some alg
as_template _ = none

unfoldable pub as_wrap : Algorithm → Option WrapAlgorithm
as_wrap (wrap alg) = some alg
as_wrap _ = none

unfoldable pub as_otp : Algorithm → Option OtpAlgorithm
as_otp (yubico_otp alg) = some alg
as_otp _ = none

reads_back : ℕ → Bool
unfolding from_u8 to_u8
reads_back byte = elim (from_u8 byte) [ ok value ↦ to_u8 value == byte | _ ↦ true ]

pub from_u8-to_u8 : (value : Algorithm) → from_u8 (to_u8 value) ≡ ok value
unfolding from_u8 to_u8
from_u8-to_u8 (asymmetric AsymmetricAlgorithm.rsa2048) = refl
from_u8-to_u8 (asymmetric _) = refl
from_u8-to_u8 (authentication AuthenticationAlgorithm.yubico_aes) = refl
from_u8-to_u8 (ecdh EcdhAlgorithm.ecdh) = refl
from_u8-to_u8 (ecdsa EcdsaAlgorithm.sha1) = refl
from_u8-to_u8 (ecdsa _) = refl
from_u8-to_u8 (hmac HmacAlgorithm.sha1) = refl
from_u8-to_u8 (hmac _) = refl
from_u8-to_u8 (mgf MgfAlgorithm.sha1) = refl
from_u8-to_u8 (mgf _) = refl
from_u8-to_u8 (opaque OpaqueAlgorithm.opaque_data) = refl
from_u8-to_u8 (opaque _) = refl
from_u8-to_u8 (rsa (RsaAlgorithm.oaep OaepAlgorithm.sha1)) = refl
from_u8-to_u8 (rsa (RsaAlgorithm.oaep _)) = refl
from_u8-to_u8 (rsa (RsaAlgorithm.pkcs1 Pkcs1Algorithm.sha1)) = refl
from_u8-to_u8 (rsa (RsaAlgorithm.pkcs1 _)) = refl
from_u8-to_u8 (rsa (RsaAlgorithm.pss PssAlgorithm.sha1)) = refl
from_u8-to_u8 (rsa (RsaAlgorithm.pss _)) = refl
from_u8-to_u8 (template TemplateAlgorithm.ssh) = refl
from_u8-to_u8 (wrap WrapAlgorithm.aes128_ccm) = refl
from_u8-to_u8 (wrap _) = refl
from_u8-to_u8 (yubico_otp OtpAlgorithm.aes128) = refl
from_u8-to_u8 (yubico_otp _) = refl

below : (value : Algorithm) → ltb (to_u8 value) 256 ≡ true
unfolding to_u8
below (asymmetric AsymmetricAlgorithm.rsa2048) = refl
below (asymmetric _) = refl
below (authentication AuthenticationAlgorithm.yubico_aes) = refl
below (ecdh EcdhAlgorithm.ecdh) = refl
below (ecdsa EcdsaAlgorithm.sha1) = refl
below (ecdsa _) = refl
below (hmac HmacAlgorithm.sha1) = refl
below (hmac _) = refl
below (mgf MgfAlgorithm.sha1) = refl
below (mgf _) = refl
below (opaque OpaqueAlgorithm.opaque_data) = refl
below (opaque _) = refl
below (rsa (RsaAlgorithm.oaep OaepAlgorithm.sha1)) = refl
below (rsa (RsaAlgorithm.oaep _)) = refl
below (rsa (RsaAlgorithm.pkcs1 Pkcs1Algorithm.sha1)) = refl
below (rsa (RsaAlgorithm.pkcs1 _)) = refl
below (rsa (RsaAlgorithm.pss PssAlgorithm.sha1)) = refl
below (rsa (RsaAlgorithm.pss _)) = refl
below (template TemplateAlgorithm.ssh) = refl
below (wrap WrapAlgorithm.aes128_ccm) = refl
below (wrap _) = refl
below (yubico_otp OtpAlgorithm.aes128) = refl
below (yubico_otp _) = refl

pub to_u8-IsByte : (value : Algorithm) → to_u8 value < 256
to_u8-IsByte value = ltb→lt (to_u8 value) 256 (below value)

pub to_u8-from_u8 :
    (byte : ℕ) (value : Algorithm) → byte < 256 → from_u8 byte ≡ ok value → to_u8 value ≡ byte
to_u8-from_u8 byte value h e = (==_iff _ _).0 (unfold reads_back in rw (e, reads_back) at seen)
  where
    seen : reads_back byte ≡ true
    seen = holds_below_at 256 reads_back byte (unfold reads_back holds_below in refl) h

-- A byte is read as an algorithm, by way of its family, exactly when it is the byte that is
-- written for the algorithm.
pub algorithm_from_u8_iff :
    (byte : ℕ) (value : Algorithm) → byte < 256 → (from_u8 byte ≡ ok value) ↔ (to_u8 value ≡ byte)
algorithm_from_u8_iff byte value h =
    (to_u8-from_u8 byte value h, λ e. sym (ap from_u8 e) ∙ from_u8-to_u8 value)
