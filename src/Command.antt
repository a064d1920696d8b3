-- ===== src/Command.antt =====
-- Commands from the host to the device (src/command).
pub mod Error
pub mod Code
pub mod Message
mod Tests
