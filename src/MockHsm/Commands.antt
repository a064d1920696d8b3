-- ===== src/MockHsm/Commands.antt =====
-- Handlers of the simulated device (src/mockhsm/command.rs).
pub mod Storage
pub mod Device
pub mod Signing
