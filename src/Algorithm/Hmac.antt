-- ===== src/Algorithm/Hmac.antt =====
-- Algorithms for HMAC (src/hmac/algorithm.rs).
use yubihsm_rs.Base.{
  ℕ, ◌<◌, ◌≡◌, refl, ap, ◌∙◌, sym, ◌↔◌, Bool, true, Result, ok, err, panic, ◌≢◌, arith,
  if◌then◌else◌, ◌==◌, ==_iff,
}
use yubihsm_rs.Base.Tables.{holds_below, holds_below_at}
use yubihsm_rs.Algorithm.Error.{AlgorithmErrorKind, tag_invalid}

pub data HmacAlgorithm : Type 0 where
  sha1 sha256 sha384 sha512 : HmacAlgorithm

unfoldable pub to_u8 : HmacAlgorithm → ℕ
to_u8 sha1 = 0x13
to_u8 sha256 = 0x14
to_u8 sha384 = 0x15
to_u8 sha512 = 0x16

unfoldable pub from_u8 : ℕ → Result AlgorithmErrorKind HmacAlgorithm
from_u8 byte =
    if byte == 0x13
    then ok sha1
    else if byte == 0x14
    then ok sha256
    else if byte == 0x15
    then ok sha384
    else if byte == 0x16
    then ok sha512
    else err tag_invalid

unfoldable pub key_len : HmacAlgorithm → ℕ
key_len sha1 = 20
key_len sha256 = 32
key_len sha384 = 48
key_len sha512 = 64

unfoldable pub max_key_len : HmacAlgorithm → ℕ
max_key_len sha1 = 64
max_key_len sha256 = 64
max_key_len sha384 = 128
max_key_len sha512 = 128

-- Whether `from_u8` reads a byte as a value that `to_u8` writes as that byte, or refuses it.
reads_back : ℕ → Bool
unfolding from_u8 to_u8
reads_back byte = elim (from_u8 byte) [ ok value ↦ to_u8 value == byte | _ ↦ true ]

pub from_u8-to_u8 : (value : HmacAlgorithm) → from_u8 (to_u8 value) ≡ ok value
unfolding from_u8 to_u8
from_u8-to_u8 sha1 = refl
from_u8-to_u8 _ = refl

pub to_u8-from_u8 :
    (byte : ℕ) (value : HmacAlgorithm) → byte < 256 → from_u8 byte ≡ ok value → to_u8 value ≡ byte
unfolding reads_back
to_u8-from_u8 byte value h e = (==_iff _ _).0 (unfold reads_back in rw (e, reads_back) at seen)
  where
    seen : reads_back byte ≡ true
    seen = holds_below_at 256 reads_back byte (unfold holds_below in refl) h

-- A byte is read as a value exactly when it is the byte that is written for the value.
pub from_u8_iff :
    (byte : ℕ) (value : HmacAlgorithm)
    → byte < 256
    → (from_u8 byte ≡ ok value) ↔ (to_u8 value ≡ byte)
from_u8_iff byte value h =
    (to_u8-from_u8 byte value h, λ e. sym (ap from_u8 e) ∙ from_u8-to_u8 value)

pub from_u8-ne-panic : (byte : ℕ) → from_u8 byte ≢ panic
unfolding from_u8
from_u8-ne-panic byte = ground arith
