-- ===== src/Algorithm/Asymmetric.antt =====
-- Algorithms for asymmetric keys (src/asymmetric/algorithm.rs).
use yubihsm_rs.Base.{
  ℕ, ◌<◌, ◌≡◌, refl, ap, ◌∙◌, sym, ◌↔◌, Bool, true, false, Result, ok, err, panic, ◌≢◌, arith,
  if◌then◌else◌, ◌==◌, ==_iff,
}
use yubihsm_rs.Base.Tables.{holds_below, holds_below_at}
use yubihsm_rs.Algorithm.Error.{AlgorithmErrorKind, tag_invalid}

pub data AsymmetricAlgorithm : Type 0 where
  rsa2048 rsa3072 rsa4096 ed25519 ec_p224 ec_p256 ec_p384 ec_p521 ec_k256 ec_bp256 :
      AsymmetricAlgorithm
  ec_bp384 ec_bp512 : AsymmetricAlgorithm

unfoldable pub to_u8 : AsymmetricAlgorithm → ℕ
to_u8 rsa2048 = 0x09
to_u8 rsa3072 = 0x0a
to_u8 rsa4096 = 0x0b
to_u8 ed25519 = 0x2e
to_u8 ec_p224 = 0x2f
to_u8 ec_p256 = 0x0c
to_u8 ec_p384 = 0x0d
to_u8 ec_p521 = 0x0e
to_u8 ec_k256 = 0x0f
to_u8 ec_bp256 = 0x10
to_u8 ec_bp384 = 0x11
to_u8 ec_bp512 = 0x12

unfoldable pub from_u8 : ℕ → Result AlgorithmErrorKind AsymmetricAlgorithm
from_u8 byte =
    if byte == 0x09
    then ok rsa2048
    else if byte == 0x0a
    then ok rsa3072
    else if byte == 0x0b
    then ok rsa4096
    else if byte == 0x0c
    then ok ec_p256
    else if byte == 0x0d
    then ok ec_p384
    else if byte == 0x0e
    then ok ec_p521
    else if byte == 0x0f
    then ok ec_k256
    else if byte == 0x10
    then ok ec_bp256
    else if byte == 0x11
    then ok ec_bp384
    else if byte == 0x12
    then ok ec_bp512
    else if byte == 0x2e
    then ok ed25519
    else if byte == 0x2f
    then ok ec_p224
    else err tag_invalid

unfoldable pub key_len : AsymmetricAlgorithm → ℕ
key_len rsa2048 = 256
key_len rsa3072 = 384
key_len rsa4096 = 512
key_len ed25519 = 32
key_len ec_p224 = 28
key_len ec_p256 = 32
key_len ec_k256 = 32
key_len ec_p384 = 48
key_len ec_p521 = 66
key_len ec_bp256 = 32
key_len ec_bp384 = 48
key_len ec_bp512 = 64

unfoldable pub is_rsa : AsymmetricAlgorithm → Bool
is_rsa rsa2048 = true
is_rsa rsa3072 = true
is_rsa rsa4096 = true
is_rsa _ = false

-- Whether `from_u8` reads a byte as a value that `to_u8` writes as that byte, or refuses it.
reads_back : ℕ → Bool
unfolding from_u8 to_u8
reads_back byte = elim (from_u8 byte) [ ok value ↦ to_u8 value == byte | _ ↦ true ]

pub from_u8-to_u8 : (value : AsymmetricAlgorithm) → from_u8 (to_u8 value) ≡ ok value
unfolding from_u8 to_u8
from_u8-to_u8 rsa2048 = refl
from_u8-to_u8 _ = refl

pub to_u8-from_u8 :
    (byte : ℕ) (value : AsymmetricAlgorithm)
    → byte < 256
    → from_u8 byte ≡ ok value
    → to_u8 value ≡ byte
unfolding reads_back
to_u8-from_u8 byte value h e = (==_iff _ _).0 (unfold reads_back in rw (e, reads_back) at seen)
  where
    seen : reads_back byte ≡ true
    seen = holds_below_at 256 reads_back byte (unfold holds_below in refl) h

-- A byte is read as a value exactly when it is the byte that is written for the value.
pub from_u8_iff :
    (byte : ℕ) (value : AsymmetricAlgorithm)
    → byte < 256
    → (from_u8 byte ≡ ok value) ↔ (to_u8 value ≡ byte)
from_u8_iff byte value h =
    (to_u8-from_u8 byte value h, λ e. sym (ap from_u8 e) ∙ from_u8-to_u8 value)

pub from_u8-ne-panic : (byte : ℕ) → from_u8 byte ≢ panic
unfolding from_u8
from_u8-ne-panic byte = ground arith
