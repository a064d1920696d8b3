-- ===== src/Session.antt =====
-- Sessions with the device (src/session): errors, session numbers, the secure channel.
pub mod Error
pub mod Id
pub mod Mac
pub mod SecureChannel
pub mod Client
mod Tests
