-- ===== src/Algorithm/Wrap.antt =====
-- Algorithms for wrap keys (src/wrap/algorithm.rs).
use yubihsm_rs.Base.{
  ℕ, ◌<◌, ◌≡◌, refl, ap, ◌∙◌, sym, ◌↔◌, Bool, true, Result, ok, err, panic, ◌≢◌, arith,
  if◌then◌else◌, ◌==◌, ==_iff,
}
use yubihsm_rs.Base.Tables.{holds_below, holds_below_at}
use yubihsm_rs.Algorithm.Error.{AlgorithmErrorKind, tag_invalid}

pub data WrapAlgorithm : Type 0 where
  aes128_ccm aes192_ccm aes256_ccm : WrapAlgorithm

unfoldable pub to_u8 : WrapAlgorithm → ℕ
to_u8 aes128_ccm = 0x1d
to_u8 aes192_ccm = 0x29
to_u8 aes256_ccm = 0x2a

unfoldable pub from_u8 : ℕ → Result AlgorithmErrorKind WrapAlgorithm
from_u8 byte =
    if byte == 0x1d
    then ok aes128_ccm
    else if byte == 0x29
    then ok aes192_ccm
    else if byte == 0x2a
    then ok aes256_ccm
    else err tag_invalid

unfoldable pub key_len : WrapAlgorithm → ℕ
key_len aes128_ccm = 16
key_len aes192_ccm = 24
key_len aes256_ccm = 32

-- Whether `from_u8` reads a byte as a value that `to_u8` writes as that byte, or refuses it.
reads_back : ℕ → Bool
unfolding from_u8 to_u8
reads_back byte = elim (from_u8 byte) [ ok value ↦ to_u8 value == byte | _ ↦ true ]

pub from_u8-to_u8 : (value : WrapAlgorithm) → from_u8 (to_u8 value) ≡ ok value
unfolding from_u8 to_u8
from_u8-to_u8 aes128_ccm = refl
from_u8-to_u8 _ = refl

pub to_u8-from_u8 :
    (byte : ℕ) (value : WrapAlgorithm) → byte < 256 → from_u8 byte ≡ ok value → to_u8 value ≡ byte
unfolding reads_back
to_u8-from_u8 byte value h e = (==_iff _ _).0 (unfold reads_back in rw (e, reads_back) at seen)
  where
    seen : reads_back byte ≡ true
    seen = holds_below_at 256 reads_back byte (unfold holds_below in refl) h

-- A byte is read as a value exactly when it is the byte that is written for the value.
pub from_u8_iff :
    (byte : ℕ) (value : WrapAlgorithm)
    → byte < 256
    → (from_u8 byte ≡ ok value) ↔ (to_u8 value ≡ byte)
from_u8_iff byte value h =
    (to_u8-from_u8 byte value h, λ e. sym (ap from_u8 e) ∙ from_u8-to_u8 value)

pub from_u8-ne-panic : (byte : ℕ) → from_u8 byte ≢ panic
unfolding from_u8
from_u8-ne-panic byte = ground arith
