-- ===== src/Device.antt =====
-- The device's own errors (src/device/error.rs).
pub mod Error
mod Tests
