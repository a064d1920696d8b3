-- ===== src/Audit/Error.antt =====
-- Why an audit option or tag is refused (src/audit/error.rs).
pub data AuditErrorKind : Type 0 where
  option_invalid tag_invalid : AuditErrorKind
