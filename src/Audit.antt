-- ===== src/Audit.antt =====
-- Options of the audit log (src/audit.rs).
pub mod Error
pub mod Option
pub mod Tag
