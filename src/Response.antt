-- ===== src/Response.antt =====
-- Responses of the device (src/response).
pub mod Error
pub mod Code
pub mod Message
mod Tests
