-- ===== src/Device/Tests.antt =====
-- Device errors on concrete bytes (src/device/error.rs).
use yubihsm_rs.Base.{◌≡◌, ok}
use yubihsm_rs.Device.Error.{from_u8, to_u8, device_to_u8-from_u8}
use yubihsm_rs.Session.Error.{SessionErrorKind}

device_to_u8-from_u8_example : to_u8 {E = SessionErrorKind} (from_u8 0x0b) ≡ ok 0x0b
device_to_u8-from_u8_example = device_to_u8-from_u8 {E = SessionErrorKind} 0x0b
