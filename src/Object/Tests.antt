-- ===== src/Object/Tests.antt =====
-- Object types and origins on concrete bytes (src/object/types.rs, src/object/origins.rs).
use yubihsm_rs.Base.{◌≡◌, ◌↔◌, ok, arith}
use yubihsm_rs.Object.Types
use yubihsm_rs.Object.Origins

object_type_from_u8_iff_example :
    (Types.from_u8 0x03 ≡ ok Types.asymmetric_key) ↔ (Types.to_u8 Types.asymmetric_key ≡ 0x03)
object_type_from_u8_iff_example =
    Types.object_type_from_u8_iff 0x03 Types.asymmetric_key (omega arith)

origin_from_u8_iff_example :
    (Origins.from_u8 0x11 ≡ ok Origins.wrapped_generated)
    ↔ (Origins.to_u8 Origins.wrapped_generated ≡ 0x11)
origin_from_u8_iff_example = Origins.origin_from_u8_iff 0x11 Origins.wrapped_generated (omega arith)
