-- ===== src/Object.antt =====
-- Objects in the device and what is known of them (src/object).
pub mod Error
pub mod Types
pub mod Origins
pub mod Label
pub mod Info
pub mod Filter
mod Tests
