-- ===== src/Object/Origins.antt =====
-- Where an object comes from (src/object/origins.rs).
use yubihsm_rs.Base.{
  ℕ, ◌<◌, ◌≡◌, refl, ap, ◌∙◌, sym, ◌↔◌, Bool, true, Result, ok, err, panic, ◌≢◌, arith,
  if◌then◌else◌, ◌==◌, ==_iff, ltb, ltb→lt,
}
use yubihsm_rs.Base.Tables.{holds_below, holds_below_at}
use yubihsm_rs.Object.Error.{ObjectErrorKind, origin_invalid}

pub data Origin : Type 0 where
  generated imported wrapped_generated wrapped_imported : Origin

unfoldable pub to_u8 : Origin → ℕ
to_u8 generated = 0x01
to_u8 imported = 0x02
to_u8 wrapped_generated = 0x11
to_u8 wrapped_imported = 0x12

unfoldable pub from_u8 : ℕ → Result ObjectErrorKind Origin
from_u8 byte =
    if byte == 0x01
    then ok generated
    else if byte == 0x02
    then ok imported
    else if byte == 0x11
    then ok wrapped_generated
    else if byte == 0x12
    then ok wrapped_imported
    else err origin_invalid

-- Whether `from_u8` reads a byte as a value that `to_u8` writes as that byte, or refuses it.
reads_back : ℕ → Bool
unfolding from_u8 to_u8
reads_back byte = elim (from_u8 byte) [ ok value ↦ to_u8 value == byte | _ ↦ true ]

pub from_u8-to_u8 : (value : Origin) → from_u8 (to_u8 value) ≡ ok value
unfolding from_u8 to_u8
from_u8-to_u8 generated = refl
from_u8-to_u8 _ = refl

below : (value : Origin) → ltb (to_u8 value) 256 ≡ true
unfolding to_u8
below generated = refl
below _ = refl

pub to_u8-IsByte : (value : Origin) → to_u8 value < 256
to_u8-IsByte value = ltb→lt (to_u8 value) 256 (below value)

pub to_u8-from_u8 :
    (byte : ℕ) (value : Origin) → byte < 256 → from_u8 byte ≡ ok value → to_u8 value ≡ byte
unfolding reads_back
to_u8-from_u8 byte value h e = (==_iff _ _).0 (unfold reads_back in rw (e, reads_back) at seen)
  where
    seen : reads_back byte ≡ true
    seen = holds_below_at 256 reads_back byte (unfold holds_below in refl) h

-- A byte is read as an origin exactly when it is the byte that is written for the origin.
pub origin_from_u8_iff :
    (byte : ℕ) (value : Origin) → byte < 256 → (from_u8 byte ≡ ok value) ↔ (to_u8 value ≡ byte)
origin_from_u8_iff byte value h =
    (to_u8-from_u8 byte value h, λ e. sym (ap from_u8 e) ∙ from_u8-to_u8 value)

pub from_u8-ne-panic : (byte : ℕ) → from_u8 byte ≢ panic
unfolding from_u8
from_u8-ne-panic byte = ground arith
