-- ===== src/Object/Types.antt =====
-- Types of objects (src/object/types.rs).
use yubihsm_rs.Base.{
  ℕ, ◌<◌, ◌≡◌, refl, ap, ◌∙◌, sym, ◌↔◌, Bool, true, Result, ok, err, panic, ◌≢◌, arith,
  if◌then◌else◌, ◌==◌, ==_iff, ltb, ltb→lt,
}
use yubihsm_rs.Base.Tables.{holds_below, holds_below_at}
use yubihsm_rs.Object.Error.{ObjectErrorKind, type_invalid}

pub data ObjectType : Type 0 where
  opaque authentication_key asymmetric_key wrap_key hmac_key template otp_aead_key : ObjectType

unfoldable pub to_u8 : ObjectType → ℕ
to_u8 opaque = 0x01
to_u8 authentication_key = 0x02
to_u8 asymmetric_key = 0x03
to_u8 wrap_key = 0x04
to_u8 hmac_key = 0x05
to_u8 template = 0x06
to_u8 otp_aead_key = 0x07

unfoldable pub from_u8 : ℕ → Result ObjectErrorKind ObjectType
from_u8 byte =
    if byte == 0x01
    then ok opaque
    else if byte == 0x02
    then ok authentication_key
    else if byte == 0x03
    then ok asymmetric_key
    else if byte == 0x04
    then ok wrap_key
    else if byte == 0x05
    then ok hmac_key
    else if byte == 0x06
    then ok template
    else if byte == 0x07
    then ok otp_aead_key
    else err type_invalid

-- Whether `from_u8` reads a byte as a value that `to_u8` writes as that byte, or refuses it.
reads_back : ℕ → Bool
unfolding from_u8 to_u8
reads_back byte = elim (from_u8 byte) [ ok value ↦ to_u8 value == byte | _ ↦ true ]

pub from_u8-to_u8 : (value : ObjectType) → from_u8 (to_u8 value) ≡ ok value
unfolding from_u8 to_u8
from_u8-to_u8 opaque = refl
from_u8-to_u8 _ = refl

below : (value : ObjectType) → ltb (to_u8 value) 256 ≡ true
unfolding to_u8
below opaque = refl
below _ = refl

pub to_u8-IsByte : (value : ObjectType) → to_u8 value < 256
to_u8-IsByte value = ltb→lt (to_u8 value) 256 (below value)

pub to_u8-from_u8 :
    (byte : ℕ) (value : ObjectType) → byte < 256 → from_u8 byte ≡ ok value → to_u8 value ≡ byte
unfolding reads_back
to_u8-from_u8 byte value h e = (==_iff _ _).0 (unfold reads_back in rw (e, reads_back) at seen)
  where
    seen : reads_back byte ≡ true
    seen = holds_below_at 256 reads_back byte (unfold holds_below in refl) h

-- A byte is read as an object type exactly when it is the byte that is written for the type.
pub object_type_from_u8_iff :
    (byte : ℕ) (value : ObjectType) → byte < 256 → (from_u8 byte ≡ ok value) ↔ (to_u8 value ≡ byte)
object_type_from_u8_iff byte value h =
    (to_u8-from_u8 byte value h, λ e. sym (ap from_u8 e) ∙ from_u8-to_u8 value)

pub from_u8-ne-panic : (byte : ℕ) → from_u8 byte ≢ panic
unfolding from_u8
from_u8-ne-panic byte = ground arith
