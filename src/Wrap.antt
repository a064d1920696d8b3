-- ===== src/Wrap.antt =====
-- Objects under wrap (src/wrap).
pub mod Info
pub mod Message
mod Tests
